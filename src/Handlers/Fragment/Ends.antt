-- ===== src/Handlers/Fragment/Ends.antt =====
-- Where the connections of `handleTLSFragment` end, and what has been written to them by then.
use sni_shaper_linux.Prelude.{
  ℕ, zero, suc, ◌+◌, ◌≤◌, ◌<◌, ◌≡◌, ◌∙◌, inl, inr, refl, sym, ap, subst, Bool, true, false, not,
  Option, none, some, List, [], ◌∷◌, ◌++◌, arith, ltb, ◌==◌, ◌||◌, length, get_or, drop, All,
  Bool-cases, Outcome, ok, err, panic, out_of_fuel, ◌>>=◌, Returns, append-nil,
}
use sni_shaper_linux.Text.{Bytes, is_empty}
use sni_shaper_linux.Rules.Types.{Rule}
use sni_shaper_linux.Tls.Hello.{HelloError, Hello, parse_client_hello}
use sni_shaper_linux.Tls.Hello.Bounds.{IsLocated, HasName, parse_client_hello-Returns}
use sni_shaper_linux.Tls.Fragment.{Call, Send, sleep, write, urgent, default_config}
use sni_shaper_linux.Tls.Fragment.Reassembly.{stream, read_records}
use sni_shaper_linux.Tls.Fragment.Wire.{send_records-read_records, send_records_panics}
use sni_shaper_linux.Handlers.Lifetime.{upstream, Event, sent, closed, Settles, joined}
use sni_shaper_linux.Handlers.Fragment.{
  Peers, read_initial_tls_record, deliver, give_up, probe_upstream, settle, after_sends, pass_on,
  cut_or_pass, on_hello, on_record, handle_tls_fragment,
}
use sni_shaper_linux.Handlers.Fragment.Reading.{
  IsByte, IsFirstRecord, read_initial_tls_record-IsFirstRecord,
}
use sni_shaper_linux.Handlers.Fragment.Carried.{
  both_open, Carries, Good, falls→carries, give_up-FallsBack,
}

module _ (w : Peers) (rule : Rule) (rec : Bytes) where
  -- Behind what was sent to the upstream.
  lost-Good :
      (taken : List Send) (has_fallback : Bool)
      → Good rec (sent upstream taken ∷ closed upstream ∷ give_up has_fallback w rule rec)
  lost-Good taken has_fallback =
      let (settles, falls) = give_up-FallsBack w rule rec has_fallback in
      (settles, falls→carries (joined (give_up has_fallback w rule rec)) _ _ rec falls)

  probe_upstream-Good :
      (taken : List Send) (probe : Option ℕ)
      → read_records 4 (stream taken) ≡ some (drop 5 rec)
      → Good rec (sent upstream taken ∷ probe_upstream probe w rule rec)
  unfolding probe_upstream
  probe_upstream-Good taken none h = lost-Good taken true
  probe_upstream-Good taken (some b) h =
      ((refl, refl, tt), inr (ap (read_records 4) (append-nil (stream taken)) ∙ h))

  settle-Good :
      (taken : List Send) (has_fallback : Bool)
      → read_records 4 (stream taken) ≡ some (drop 5 rec)
      → Good rec (sent upstream taken ∷ settle has_fallback w rule rec)
  unfolding settle
  settle-Good taken true h = probe_upstream-Good taken w.probe h
  settle-Good taken false h =
      ((refl, refl, tt), inr (ap (read_records 4) (append-nil (stream taken)) ∙ h))

  after_sends-Good :
      (has_fallback : Bool) (d : List Send × Bool)
      → (d.1 ≡ true → read_records 4 (stream d.0) ≡ some (drop 5 rec))
      → Good rec (after_sends has_fallback d w rule rec)
  unfolding after_sends
  after_sends-Good has_fallback (taken, true) h = settle-Good taken has_fallback (h refl)
  after_sends-Good has_fallback (taken, false) h = lost-Good taken has_fallback

  pass_on-Good : (k : ℕ) → Good rec (pass_on k rec)
  unfolding pass_on
  pass_on-Good zero = ((refl, refl, tt), tt)
  pass_on-Good (suc k) = ((refl, refl, tt), inl (append-nil rec))

deliver_all : (k : ℕ) (ss : List Send) → (deliver k ss).1 ≡ true → (deliver k ss).0 ≡ ss
unfolding deliver
deliver_all k [] h = refl
deliver_all k (sleep t ∷ ss) h = ap (λ l. sleep t ∷ l) (deliver_all k ss h)
deliver_all zero (write b ∷ ss) h = ground arith
deliver_all zero (urgent b x ∷ ss) h = ground arith
deliver_all (suc k) (write b ∷ ss) h = ap (λ l. write b ∷ l) (deliver_all k ss h)
deliver_all (suc k) (urgent b x ∷ ss) h = ap (λ l. urgent b x ∷ l) (deliver_all k ss h)

-- The name ends the record: the byte behind it, which `findLastDot` reads first, is not there.
abbrev pub NameAtEnd : Bytes → Type 0
NameAtEnd rec =
    (h : Hello) × ((pos : ℕ) × ((parse_client_hello rec ≡ ok h)
        × ((h.sni_pos ≡ some pos) × (length rec ≤ pos + h.sni_len))))

abbrev EndsOn : Bytes → Call (List Event) → Type 0
EndsOn rec (ok es) = Good rec es
EndsOn rec panic = NameAtEnd rec
EndsOn rec (err e) = ⊥
EndsOn rec out_of_fuel = ⊥

-- What the call leads to, by the record that was read.
abbrev pub Ends : Option (Bytes × Bytes) → Call (List Event) → Type 0
Ends none (ok es) = Settles both_open es × (joined es ≡ none)
Ends (some (rec, left)) (ok es) = Settles both_open es × Carries rec es
Ends (some (rec, left)) panic = NameAtEnd rec
Ends r o = ⊥

module _ (w : Peers) (rule : Rule) (rec : Bytes) (small : length rec ≤ 65540) where
  abbrev go_on : Call (List Send) → Call (List Event)
  go_on o = o >>= λ sends.
      ok (after_sends (not (is_empty rule.fallback_mode)) (deliver w.capacity sends) w rule rec)

  fragment-EndsOn :
      (h : Hello) (pos : ℕ)
      → parse_client_hello rec ≡ ok h
      → h.sni_pos ≡ some pos
      → 5 ≤ pos
      → EndsOn rec (cut_or_pass false w rule rec pos h.sni_len)
  unfolding cut_or_pass
  fragment-EndsOn h pos parsed at_pos low = elim (Bool-cases (ltb (pos + h.sni_len) (length rec))) [
    | inl fits ↦
        let (sends, sent_eq, read_eq) =
          send_records-read_records rec pos h.sni_len 2 0 default_config refl refl refl low
            (ground arith) small in
        subst (λ o. EndsOn rec (go_on o)) (sym sent_eq)
          (after_sends-Good w rule rec (not (is_empty rule.fallback_mode))
            (deliver w.capacity sends)
            (λ all.
              ap (λ ss. read_records 4 (stream ss)) (deliver_all w.capacity sends all) ∙ read_eq))
    | inr over ↦
        subst (λ o. EndsOn rec (go_on o))
          (sym (send_records_panics rec pos h.sni_len 2 default_config refl (ground arith)))
          (h, (pos, (parsed, (at_pos, ground arith))))
  ]

  cut_or_pass-EndsOn :
      (h : Hello) (pos : ℕ) (b : Bool)
      → parse_client_hello rec ≡ ok h
      → h.sni_pos ≡ some pos
      → 5 ≤ pos
      → EndsOn rec (cut_or_pass b w rule rec pos h.sni_len)
  unfolding cut_or_pass
  cut_or_pass-EndsOn h pos true parsed at_pos low = pass_on-Good w rule rec w.capacity
  cut_or_pass-EndsOn h pos false parsed at_pos low = fragment-EndsOn h pos parsed at_pos low

  named-EndsOn :
      (h : Hello) (o : Option ℕ)
      → parse_client_hello rec ≡ ok h
      → h.sni_pos ≡ o
      → HasName rec h
      → EndsOn rec (on_hello (ok (record h { sni_pos = o })) w rule rec)
  unfolding on_hello
  named-EndsOn h none parsed e has = pass_on-Good w rule rec w.capacity
  named-EndsOn h (some pos) parsed e has =
      cut_or_pass-EndsOn h pos (pos == 0 || h.sni_len == 0) parsed e
        (subst (λ o. IsLocated rec o h.sni_len) e has).0

  on_hello-EndsOn :
      (o : Outcome HelloError Hello)
      → parse_client_hello rec ≡ o
      → Returns (HasName rec) o
      → EndsOn rec (on_hello o w rule rec)
  unfolding on_hello
  on_hello-EndsOn (ok h) parsed r = named-EndsOn h h.sni_pos parsed refl r
  on_hello-EndsOn (err e) parsed r = ((refl, refl, tt), tt)
  on_hello-EndsOn panic parsed r = absurd r
  on_hello-EndsOn out_of_fuel parsed r = absurd r

get_or-IsByte : (xs : Bytes) (i : ℕ) → All IsByte xs → get_or xs i 0 < 256
get_or-IsByte [] i h = omega arith
get_or-IsByte (x ∷ xs) zero h = h.0
get_or-IsByte (x ∷ xs) (suc i) h = get_or-IsByte xs i h.1

All-front : (xs ys : Bytes) → All IsByte (xs ++ ys) → All IsByte xs
All-front [] ys h = tt
All-front (x ∷ xs) ys h = (h.0, All-front xs ys h.1)

IsFirstRecord-small :
    (s rec left : Bytes) → All IsByte s → IsFirstRecord s (some (rec, left)) → length rec ≤ 65540
IsFirstRecord-small s rec left bytes (whole, len) =
    let in_rec = All-front rec left (subst (All IsByte) (sym whole) bytes) in
    let hi = get_or-IsByte rec 3 in_rec in let lo = get_or-IsByte rec 4 in_rec in omega arith

EndsOn→Ends : (rec left : Bytes) (o : Call (List Event)) → EndsOn rec o → Ends (some (rec, left)) o
EndsOn→Ends rec left (ok es) h = h
EndsOn→Ends rec left panic h = h
EndsOn→Ends rec left (err e) h = absurd h
EndsOn→Ends rec left out_of_fuel h = absurd h

on_record-Ends :
    (w : Peers) (rule : Rule) (s : Bytes) (r : Option (Bytes × Bytes))
    → All IsByte s
    → IsFirstRecord s r
    → Ends r (on_record r w rule)
unfolding on_record
on_record-Ends w rule s none bytes h = ((refl, refl, tt), refl)
on_record-Ends w rule s (some (rec, left)) bytes h =
    EndsOn→Ends rec left (on_hello (parse_client_hello rec) w rule rec) (
      on_hello-EndsOn w rule rec (IsFirstRecord-small s rec left bytes h) (parse_client_hello rec)
        refl (parse_client_hello-Returns rec))

-- Where the client sends bytes (each below 256): if no whole record arrives, both connections are closed.
-- If one does, the call panics only if the server name ends the record; or else every event is in order,
-- each connection that was given or opened is closed in the end, and a peer that the client is joined to
-- was given the record as the client sent it, or (only the upstream) records whose payloads joined are
-- its payload. A client that is not joined to a peer is closed.
pub handle_tls_fragment-Ends :
    (w : Peers) (rule : Rule)
    → All IsByte w.input
    → Ends (read_initial_tls_record w.input) (handle_tls_fragment w rule)
unfolding handle_tls_fragment
handle_tls_fragment-Ends w rule bytes =
    on_record-Ends w rule w.input (read_initial_tls_record w.input) bytes
      (read_initial_tls_record-IsFirstRecord w.input)
