-- ===== src/Net/Candidates/Distinct.antt =====
-- The loops that keep what is not empty and not seen yet.
use sni_shaper_linux.Prelude.{
  ◌≡◌, refl, false, not, ◌&&◌, ◌||◌, List, [], ◌∷◌, map, arith, Bool-cases, ap, inl, inr,
}
use sni_shaper_linux.Text.{
  Bytes, str_eq, mem_str, mem_str_cons, str_eq_iff, str_eq_refl, is_empty, trim_space,
}
use sni_shaper_linux.Net.Candidates.{
  first_seen, dedupe_dial_candidates, split_upstream_candidates, resolve_upstream_host,
}

-- No element is empty, and none stands twice.
abbrev pub IsDistinct : List Bytes → Type 0
IsDistinct [] = Unit
IsDistinct (a ∷ rest) = (is_empty a ≡ false) × (mem_str a rest ≡ false) × IsDistinct rest

pub none_seen : (d : Bytes) → mem_str d [] ≡ false
unfolding mem_str
none_seen d = refl

-- What is kept: the elements that are neither empty nor seen.
pub mem-first_seen :
    (xs seen : List Bytes) (d : Bytes)
    → mem_str d (first_seen xs seen) ≡ (not (is_empty d) && (mem_str d xs && not (mem_str d seen)))
unfolding first_seen mem_str
mem-first_seen [] seen d = ground arith
mem-first_seen (a ∷ rest) seen d = elim (Bool-cases (str_eq a d)) [
  | inl e ↦
      let same : a ≡ d = (str_eq_iff a d).0 e in
      let empty : is_empty a ≡ is_empty d = ap is_empty same in
      let seen_too : mem_str a seen ≡ mem_str d seen = ap (λ x. mem_str x seen) same in
      ground (arith, mem-first_seen rest seen d, mem-first_seen rest (a ∷ seen) d)
  | inr e ↦ ground (arith, mem-first_seen rest seen d, mem-first_seen rest (a ∷ seen) d)
]

pub first_seen-IsDistinct : (xs seen : List Bytes) → IsDistinct (first_seen xs seen)
unfolding first_seen
first_seen-IsDistinct [] seen = tt
first_seen-IsDistinct (a ∷ rest) seen = elim (Bool-cases (is_empty a || mem_str a seen)) [
  | inl e ↦
      let kept : first_seen (a ∷ rest) seen ≡ first_seen rest seen = ground arith in
      rw kept (first_seen-IsDistinct rest seen)
  | inr e ↦
      let there = mem-first_seen rest (a ∷ seen) a in
      let kept : first_seen (a ∷ rest) seen ≡ a ∷ first_seen rest (a ∷ seen) = ground arith in
      rw kept (
        (
          ground arith,
          ground (arith, there, mem_str_cons a a seen, str_eq_refl a),
          first_seen-IsDistinct rest (a ∷ seen),
        ))
]

-- What is dialled after a removal of duplicates: no address is empty and none stands twice, and they
-- are the candidates without the space around them, less the empty ones.
pub dedupe_dial_candidates_lem :
    (candidates : List Bytes)
    → IsDistinct (dedupe_dial_candidates candidates)
      × ((d : Bytes)
          → mem_str d (dedupe_dial_candidates candidates)
            ≡ (not (is_empty d) && mem_str d (map trim_space candidates)))
unfolding dedupe_dial_candidates
dedupe_dial_candidates_lem candidates = (
  first_seen-IsDistinct (map trim_space candidates) [],
  λ d. ground (arith, mem-first_seen (map trim_space candidates) [] d, none_seen d),
)

pub split_upstream_candidates-IsDistinct :
    (host upstream port : Bytes) → IsDistinct (split_upstream_candidates host upstream port)
unfolding split_upstream_candidates
split_upstream_candidates-IsDistinct host upstream port =
    elim (Bool-cases (is_empty (resolve_upstream_host host upstream))) [
      | inl e ↦ rw e tt
      | inr e ↦ rw e (first_seen-IsDistinct _ [])
    ]
