-- ===== src/Handlers/Upstream/Rounds.antt =====
-- The rounds of `establishUpstreamConn` come to an end.
use sni_shaper_linux.Prelude.{
  ℕ, ◌+◌, ◌*◌, ◌≡◌, refl, ap, ◌∙◌, Bool, true, false, none, some, List, [], ◌++◌, arith, length,
}
use sni_shaper_linux.Text.{Bytes, str_eq_refl}
use sni_shaper_linux.Rules.Types.{Rule}
use sni_shaper_linux.Handlers.Upstream.{
  Action, Outside, Found, try_each, ordered_candidates, fallback_of, falls_back, fallback_rule,
  after_round, establish, establish_upstream_conn,
}
use sni_shaper_linux.Handlers.Upstream.Ends.{
  open_after, Leaves, open_after-append, dials-append, AllFailed, try_each-Leaves,
  try_each-AllFailed,
}

falls_back_once : (rule : Rule) → falls_back (fallback_rule rule) ≡ false
falls_back_once rule = let same = str_eq_refl (fallback_of rule) in ground arith

-- The result of a call, which has failed in its first round if it is an error.
abbrev pub Established : Outside → List Bytes → ℕ → Found → Type 0
Established w addrs n r = Leaves n r × AllFailed w 0 addrs r.0

Leaves-append :
    (m n : ℕ) (actions : List Action) (r : Found)
    → Leaves m (none, actions)
    → Leaves n r
    → Leaves (m + n) (r.0, actions ++ r.1)
Leaves-append m n actions (found, later) (h, k) (g, l) = (
  open_after-append actions later [] ∙ ap (open_after later) h ∙ g,
  omega (arith, dials-append actions later),
)

module _ (w : Outside) (host : Bytes) (candidates : List Bytes) where
  abbrev addrs : List Bytes
  addrs = ordered_candidates host candidates

  abbrev rounds : ℕ
  rounds = 2 * length addrs

  last_round : (f : Found) → after_round false f none ≡ some f
  last_round (some r, actions) = refl
  last_round (none, actions) = refl

  second_round :
      (rule : Rule)
      → (r : Found) × ((establish 1 w host 1 (fallback_rule rule) candidates ≡ some r)
          × Leaves rounds r)
  unfolding establish
  second_round rule =
      let f = try_each w host 1 (fallback_rule rule) addrs in
      (
        f,
        (
          ap (λ b. after_round b f none) (falls_back_once rule) ∙ last_round f,
          try_each-Leaves w host 1 (fallback_rule rule) addrs,
        ),
      )

  after_round-Established :
      (again : Bool) (f next : Found)
      → Leaves rounds f
      → AllFailed w 0 addrs f.0
      → Leaves rounds next
      → (r : Found) × ((after_round again f (some next) ≡ some r)
          × Established w addrs (rounds + rounds) r)
  after_round-Established again (some r, actions) next (h, k) failed g =
      ((some r, actions), (refl, ((h, omega arith), tt)))
  after_round-Established false (none, actions) next (h, k) failed g =
      ((none, actions), (refl, ((h, omega arith), failed)))
  after_round-Established true (none, actions) (none, later) l failed g = (
    (none, actions ++ later),
    (refl, (Leaves-append rounds rounds actions (none, later) l g, failed)),
  )
  after_round-Established true (none, actions) (some r, later) l failed g = (
    (some r, actions ++ later),
    (refl, (Leaves-append rounds rounds actions (some r, later) l g, tt)),
  )

-- On every input the call ends, in at most two rounds: with the connection that it returns, which is the
-- only one left open, or with an error, and then none is left open and the first attempt at every
-- candidate failed in the first round. There are at most four connections for each candidate (the
-- host itself, at port 443, if there is none).
pub establish_upstream_conn-Established :
    (w : Outside) (host : Bytes) (rule : Rule) (candidates : List Bytes)
    → (r : Found) × ((establish_upstream_conn w host rule candidates ≡ some r)
        × Established w
            (ordered_candidates host candidates)
            (4 * length (ordered_candidates host candidates))
            r)
unfolding establish_upstream_conn establish
establish_upstream_conn-Established w host rule candidates =
    let cs = ordered_candidates host candidates in
    let (next, (next_eq, next_leaves)) = second_round w host candidates rule in
    let (r, (r_eq, ((left, few), failed))) =
      after_round-Established w host candidates (falls_back rule) (try_each w host 0 rule cs) next
        (try_each-Leaves w host 0 rule cs) (try_each-AllFailed w host 0 rule cs) next_leaves in
    (
      r,
      (
        ap (after_round (falls_back rule) (try_each w host 0 rule cs)) next_eq ∙ r_eq,
        ((left, omega arith), failed),
      ),
    )
