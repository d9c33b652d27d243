-- ===== src/Handlers/Upstream/Ends.antt =====
-- What a round of `establishUpstreamConn` leaves open, and why it fails.
use sni_shaper_linux.Prelude.{
  ℕ, suc, ◌+◌, ◌*◌, ◌≤◌, ◌≡◌, refl, ap, ◌∙◌, Bool, true, false, ◌&&◌, Option, none, some, List, [],
  ◌∷◌, ◌++◌, map, arith, length, All,
}
use sni_shaper_linux.Text.{Bytes, is_empty}
use sni_shaper_linux.Rules.Types.{Rule}
use sni_shaper_linux.Connect.Dial.{Report, success, failure, report_of}
use sni_shaper_linux.Handlers.Upstream.{
  Attempt, no_dial, refused, ech_rejected, accepted, Action, dialled, hung_up, told, synced,
  Outside, Tried, tell, failed_handshake, good_handshake, last_attempt, sync_unless, sync_profile,
  done_before, retry_with, lookup_domain, after_rejection, first_attempt, Found, or_next, try_each,
}

-- The connections that are open behind the actions, the last one first.
abbrev pub open_after : List Action → List Bytes → List Bytes
open_after [] opens = opens
open_after (dialled a ∷ as_) opens = open_after as_ (a ∷ opens)
open_after (hung_up a ∷ as_) [] = open_after as_ []
open_after (hung_up a ∷ as_) (o ∷ opens) = open_after as_ opens
open_after (told r ∷ as_) opens = open_after as_ opens
open_after (synced p c ∷ as_) opens = open_after as_ opens

abbrev pub dials : List Action → ℕ
dials [] = 0
dials (dialled a ∷ as_) = suc (dials as_)
dials (hung_up a ∷ as_) = dials as_
dials (told r ∷ as_) = dials as_
dials (synced p c ∷ as_) = dials as_

abbrev pub opened_by : Option (Bytes × Bytes) → List Bytes
opened_by none = []
opened_by (some (addr, alpn)) = addr ∷ []

-- Nothing is left open but what is returned, and no more than `n` connections were made.
abbrev pub Leaves : ℕ → Found → Type 0
Leaves n (found, actions) = (open_after actions [] ≡ opened_by found) × (dials actions ≤ n)

pub open_after-append :
    (xs ys : List Action) (o : List Bytes)
    → open_after (xs ++ ys) o ≡ open_after ys (open_after xs o)
open_after-append [] ys o = refl
open_after-append (dialled a ∷ xs) ys o = open_after-append xs ys (a ∷ o)
open_after-append (hung_up a ∷ xs) ys [] = open_after-append xs ys []
open_after-append (hung_up a ∷ xs) ys (b ∷ o) = open_after-append xs ys o
open_after-append (told r ∷ xs) ys o = open_after-append xs ys o
open_after-append (synced p c ∷ xs) ys o = open_after-append xs ys o

pub dials-append : (xs ys : List Action) → dials (xs ++ ys) ≡ dials xs + dials ys
dials-append [] ys = omega arith
dials-append (dialled a ∷ xs) ys = omega (arith, dials-append xs ys)
dials-append (hung_up a ∷ xs) ys = dials-append xs ys
dials-append (told r ∷ xs) ys = dials-append xs ys
dials-append (synced p c ∷ xs) ys = dials-append xs ys

told_opens : (rs : List Report) (o : List Bytes) → open_after (map told rs) o ≡ o
told_opens [] o = refl
told_opens (r ∷ rs) o = told_opens rs o

told_dials : (rs : List Report) → dials (map told rs) ≡ 0
told_dials [] = refl
told_dials (r ∷ rs) = told_dials rs

sync_unless_opens :
    (b : Bool) (id ech : Bytes) (ys : List Action) (o : List Bytes)
    → open_after (sync_unless b id ech ++ ys) o ≡ open_after ys o
sync_unless_opens true id ech ys o = refl
sync_unless_opens false id ech ys o = refl

sync_unless_dials :
    (b : Bool) (id ech : Bytes) (ys : List Action) → dials (sync_unless b id ech ++ ys) ≡ dials ys
sync_unless_dials true id ech ys = refl
sync_unless_dials false id ech ys = refl

-- The same of one address.
abbrev opened_at : Bytes → Option Bytes → List Bytes
opened_at addr none = []
opened_at addr (some alpn) = addr ∷ []

abbrev LeavesAt : Bytes → ℕ → Tried → Type 0
LeavesAt addr n (found, actions) =
    (open_after actions [] ≡ opened_at addr found) × (dials actions ≤ n)

module _ (w : Outside) (host : Bytes) (rule : Rule) (addr : Bytes) where
  abbrev reports : (Bytes → Report) → List Report
  reports make = report_of (rule.use_cf_pool && w.has_pool) make addr

  nothing-LeavesAt : (make : Bytes → Report) → LeavesAt addr 1 (none, tell w rule make addr)
  nothing-LeavesAt make = (told_opens (reports make) [], omega (arith, told_dials (reports make)))

  failed-LeavesAt : LeavesAt addr 1 (failed_handshake w rule addr)
  failed-LeavesAt = (told_opens (reports failure) [], omega (arith, told_dials (reports failure)))

  good-LeavesAt : (alpn : Bytes) → LeavesAt addr 1 (good_handshake w rule addr alpn)
  good-LeavesAt alpn =
      (told_opens (reports success) (addr ∷ []), omega (arith, told_dials (reports success)))

  last_attempt-LeavesAt : (a : Attempt) → LeavesAt addr 1 (last_attempt w rule addr a)
  last_attempt-LeavesAt no_dial = nothing-LeavesAt failure
  last_attempt-LeavesAt refused = failed-LeavesAt
  last_attempt-LeavesAt ech_rejected = failed-LeavesAt
  last_attempt-LeavesAt (accepted alpn) = good-LeavesAt alpn

  one→two : (t : Tried) → LeavesAt addr 1 t → LeavesAt addr 2 t
  one→two t (h, k) = (h, omega arith)

  failed-LeavesAt_twice : LeavesAt addr 2 (failed_handshake w rule addr)
  failed-LeavesAt_twice = one→two (failed_handshake w rule addr) failed-LeavesAt

  done_before-LeavesAt :
      (ech : Bytes) (t : Tried)
      → LeavesAt addr 1 t
      → LeavesAt addr 2 (done_before (dialled addr ∷ hung_up addr ∷ sync_profile rule ech) t)
  done_before-LeavesAt ech (found, actions) (h, k) = (
    sync_unless_opens (is_empty rule.ech_profile_id) rule.ech_profile_id ech actions [] ∙ h,
    omega (arith, sync_unless_dials (is_empty rule.ech_profile_id) rule.ech_profile_id ech actions),
  )

  retry_with-LeavesAt :
      (again : Attempt) (o : Option Bytes) → LeavesAt addr 2 (retry_with w rule addr again o)
  retry_with-LeavesAt again none = failed-LeavesAt_twice
  retry_with-LeavesAt again (some []) = failed-LeavesAt_twice
  retry_with-LeavesAt again (some (b ∷ bs)) =
      done_before-LeavesAt (b ∷ bs) (last_attempt w rule addr again) (last_attempt-LeavesAt again)

  after_rejection-LeavesAt :
      (may : Bool) (again : Attempt) → LeavesAt addr 2 (after_rejection may w host rule addr again)
  after_rejection-LeavesAt true again =
      retry_with-LeavesAt again (w.refresh (lookup_domain host rule))
  after_rejection-LeavesAt false again = failed-LeavesAt_twice

  first_attempt-LeavesAt :
      (a again : Attempt) → LeavesAt addr 2 (first_attempt w host rule addr a again)
  first_attempt-LeavesAt no_dial again =
      one→two (none, tell w rule failure addr) (nothing-LeavesAt failure)
  first_attempt-LeavesAt refused again = failed-LeavesAt_twice
  first_attempt-LeavesAt ech_rejected again =
      after_rejection-LeavesAt (rule.ech_enabled && w.has_resolver) again
  first_attempt-LeavesAt (accepted alpn) again =
      one→two (good_handshake w rule addr alpn) (good-LeavesAt alpn)

or_next-Leaves :
    (addr : Bytes) (t : Tried) (n : ℕ) (behind : Found)
    → LeavesAt addr 2 t
    → Leaves n behind
    → Leaves (2 + n) (or_next addr t behind)
or_next-Leaves addr (some alpn, actions) n behind (h, k) g = (h, omega arith)
or_next-Leaves addr (none, actions) n (found, later) (h, k) (g, m) = (
  open_after-append actions later [] ∙ ap (open_after later) h ∙ g,
  omega (arith, dials-append actions later),
)

pub try_each-Leaves :
    (w : Outside) (host : Bytes) (n : ℕ) (rule : Rule) (addrs : List Bytes)
    → Leaves (2 * length addrs) (try_each w host n rule addrs)
unfolding try_each
try_each-Leaves w host n rule [] = (refl, omega arith)
try_each-Leaves w host n rule (addr ∷ rest) =
    let (h, k) =
      or_next-Leaves addr
        (first_attempt w host rule addr (w.attempt n addr false) (w.attempt n addr true))
        (2 * length rest) (try_each w host n rule rest)
        (first_attempt-LeavesAt w host rule addr (w.attempt n addr false) (w.attempt n addr true))
        (try_each-Leaves w host n rule rest) in
    (h, omega arith)

abbrev pub IsFailure : Attempt → Type 0
IsFailure (accepted alpn) = ⊥
IsFailure a = Unit

-- Where nothing is found, the first attempt at every address failed.
abbrev pub AllFailed : Outside → ℕ → List Bytes → Option (Bytes × Bytes) → Type 0
AllFailed w n addrs none = All (λ a. IsFailure (w.attempt n a false)) addrs
AllFailed w n addrs (some r) = Unit

module _ (w : Outside) (host : Bytes) (n : ℕ) (rule : Rule) (addr : Bytes) (rest : List Bytes) where
  first_attempt-IsFailure :
      (a again : Attempt) → (first_attempt w host rule addr a again).0 ≡ none → IsFailure a
  first_attempt-IsFailure no_dial again h = tt
  first_attempt-IsFailure refused again h = tt
  first_attempt-IsFailure ech_rejected again h = tt
  first_attempt-IsFailure (accepted alpn) again h = ground arith

  or_next-AllFailed :
      (t : Tried) (behind : Found)
      → (t.0 ≡ none → IsFailure (w.attempt n addr false))
      → AllFailed w n rest behind.0
      → AllFailed w n (addr ∷ rest) (or_next addr t behind).0
  or_next-AllFailed (some alpn, actions) behind here there = tt
  or_next-AllFailed (none, actions) (none, later) here there = (here refl, there)
  or_next-AllFailed (none, actions) (some r, later) here there = tt

pub try_each-AllFailed :
    (w : Outside) (host : Bytes) (n : ℕ) (rule : Rule) (addrs : List Bytes)
    → AllFailed w n addrs (try_each w host n rule addrs).0
unfolding try_each
try_each-AllFailed w host n rule [] = tt
try_each-AllFailed w host n rule (addr ∷ rest) =
    or_next-AllFailed w host n rule addr rest
      (first_attempt w host rule addr (w.attempt n addr false) (w.attempt n addr true))
      (try_each w host n rule rest)
      (first_attempt-IsFailure w host n rule addr rest (w.attempt n addr false)
        (w.attempt n addr true))
      (try_each-AllFailed w host n rule rest)
