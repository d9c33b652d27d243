-- ===== src/Runtime/Core/Events.antt =====
-- The window of the route events.
use sni_shaper_linux.Prelude.{
  ◌-◌, ◌≤◌, ◌≡◌, ◌∙◌, ◌⊎◌, inl, inr, refl, sym, ap, subst, List, [], ◌∷◌, ◌++◌, arith, ltb, length,
  length-append, length-drop, take, drop, take-append-drop, append_assoc, append-nil, if_cases,
  if◌then◌else◌,
}
use sni_shaper_linux.Text.{Bytes}
use sni_shaper_linux.Runtime.Core.{Core, on_route, pop_route_events}

abbrev Event : Type 0
Event = Bytes × Bytes

-- The callbacks of one route after the other.
abbrev pub on_routes : List Event → Core → Core
on_routes [] r = r
on_routes ((domain, mode) ∷ events) r = on_routes events (on_route domain mode r)

-- The last ones of all, all of them or a hundred at least, two hundred at most.
abbrev pub IsWindow : List Event → List Event → Type 0
IsWindow all held =
    (missed : List Event) × ((all ≡ missed ++ held)
      × ((length held ≤ 200) × ((missed ≡ []) ⊎ (100 ≤ length held))))

pushed-IsWindow :
    (all held : List Event) (x : Event)
    → IsWindow all held
    → IsWindow (all ++ (x ∷ [])) (
        if ltb 200 (length (held ++ (x ∷ [])))
        then drop (length (held ++ (x ∷ [])) - 100) (held ++ (x ∷ []))
        else held ++ (x ∷ []))
pushed-IsWindow all held x (missed, (e, (most, least))) =
    let more = held ++ (x ∷ []) in
    let n = length-append held (x ∷ []) in
    let longer : (missed ≡ []) ⊎ (100 ≤ length held) → (missed ≡ []) ⊎ (100 ≤ length more) =
      λ o. elim o [ inl none_missed ↦ inl none_missed | inr long ↦ inr (omega (arith, n, long)) ] in
    let whole : all ++ (x ∷ []) ≡ missed ++ more =
      ap (λ l. l ++ (x ∷ [])) e ∙ append_assoc missed held (x ∷ []) in
    if_cases (IsWindow (all ++ (x ∷ []))) (ltb 200 (length more))
      (λ full.
        let k = length more - 100 in
        let rest = length-drop k more in
        (
          missed ++ take k more,
          (
            whole
                ∙ ap (λ l. missed ++ l) (sym (take-append-drop k more))
                ∙ sym (append_assoc missed (take k more) (drop k more)),
            (ground arith, inr (ground arith)),
          ),
        ))
      (λ fits. (missed, (whole, (ground arith, longer least))))

on_routes-IsWindow :
    (all events : List Event) (r : Core)
    → IsWindow all r.route_events
    → IsWindow (all ++ events) (on_routes events r).route_events
unfolding on_route
on_routes-IsWindow all [] r h = subst (λ l. IsWindow l r.route_events) (sym (append-nil all)) h
on_routes-IsWindow all ((domain, mode) ∷ events) r h =
    subst (λ l. IsWindow l (on_routes ((domain, mode) ∷ events) r).route_events)
      (append_assoc all ((domain, mode) ∷ []) events)
      (on_routes-IsWindow (all ++ ((domain, mode) ∷ [])) events (on_route domain mode r)
        (pushed-IsWindow all r.route_events (domain, mode) h))

-- Of the events that come behind a call that takes those before, in whatever number, the runtime holds
-- the last ones: all of them, or a hundred at least; two hundred at most.
pub on_routes-pop :
    (events : List (Bytes × Bytes)) (r : Core)
    → IsWindow events (on_routes events (pop_route_events r).1).route_events
unfolding pop_route_events
on_routes-pop events r = on_routes-IsWindow [] events _ ([], (refl, (omega arith, inl refl)))
