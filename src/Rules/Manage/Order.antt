-- ===== src/Rules/Manage/Order.antt =====
-- The order of the DNS nodes.
use sni_shaper_linux.Prelude.{
  ℕ, zero, suc, ◌-◌, ◌<◌, ◌≤◌, ◌≡◌, refl, sym, ap, ◌∙◌, inl, inr, Bool, some, List, [], ◌∷◌, ◌++◌,
  arith, length, take, drop, get_elem?, without, ◌==◌, ℤ, pos, negsuc, Bool-cases, Option-cases,
}
use sni_shaper_linux.Text.{Bytes, str_eq}
use sni_shaper_linux.Rules.Build.{RulesConfig}
use sni_shaper_linux.Rules.Manage.{
  Save, find_index, clamp, move, put_node, reorder_from, set_dns_node_priority,
}

module _ {A : Type 0} where
  find_index-get_elem? :
      (p : A → Bool) (xs : List A) (i : ℕ)
      → find_index p xs ≡ some i
      → (i < length xs) × ((x : A) × (get_elem? xs i ≡ some x))
  unfolding find_index
  find_index-get_elem? p [] i h = ground arith
  find_index-get_elem? p (x ∷ xs) i h = elim (Bool-cases (p x)) [
    | inl e ↦ let first : i ≡ 0 = ground arith in rw first (ground arith, (x, refl))
    | inr e ↦ elim (Option-cases (find_index p xs)) [
      | inl missing ↦ ground arith
      | inr (j, at_j) ↦
          let next : i ≡ suc j = ground arith in
          let (bound, (y, there)) = find_index-get_elem? p xs j at_j in
          rw next (ground arith, (y, there))
    ]
  ]

  length-without : (i : ℕ) (xs : List A) → i < length xs → length (without i xs) ≡ length xs - 1
  length-without i [] h = ground arith
  length-without zero (x ∷ xs) h = ground arith
  length-without (suc i) (x ∷ xs) h = ground (arith, length-without i xs)

  -- An element put at a place: it is there, and the others are as they were.
  get_elem?-inserted :
      (t : ℕ) (x : A) (xs : List A)
      → t ≤ length xs
      → get_elem? (take t xs ++ x ∷ drop t xs) t ≡ some x
  get_elem?-inserted zero x xs h = refl
  get_elem?-inserted (suc t) x [] h = ground arith
  get_elem?-inserted (suc t) x (y ∷ xs) h = get_elem?-inserted t x xs (omega arith)

  without-inserted :
      (t : ℕ) (x : A) (xs : List A) → t ≤ length xs → without t (take t xs ++ x ∷ drop t xs) ≡ xs
  without-inserted zero x xs h = refl
  without-inserted (suc t) x [] h = ground arith
  without-inserted (suc t) x (y ∷ xs) h = ap (λ l. y ∷ l) (without-inserted t x xs (omega arith))

clamp_bound : (t : ℤ) (len : ℕ) → 0 < len → clamp t len ≤ len - 1
unfolding clamp
clamp_bound (pos n) len h = ground arith
clamp_bound (negsuc n) len h = ground arith

-- Where there is a node with the id, `set_dns_node_priority` puts the first such node at the target
-- place (the first or the last one, if the target is outside of the list), and leaves the others
-- in their order.
pub set_dns_node_priority_lem :
    (save : Save) (id : Bytes) (target_index : ℤ) (rm : RulesConfig) (src : ℕ)
    → find_index (λ n. str_eq n.id id) rm.dns_nodes ≡ some src
    → let target = clamp target_index (length rm.dns_nodes) in
      let nodes = (set_dns_node_priority save id target_index rm).0.dns_nodes in
      (get_elem? nodes target ≡ get_elem? rm.dns_nodes src)
      × (without target nodes ≡ without src rm.dns_nodes)
unfolding set_dns_node_priority reorder_from put_node move
set_dns_node_priority_lem save id target_index rm src h =
    let (bound, (node, there)) = find_index-get_elem? (λ n. str_eq n.id id) rm.dns_nodes src h in
    let target = clamp target_index (length rm.dns_nodes) in
    let inside : target ≤ length (without src rm.dns_nodes) = omega (
      arith,
      clamp_bound target_index (length rm.dns_nodes) (omega arith),
      length-without src rm.dns_nodes bound,
    ) in
    elim (Bool-cases (src == target)) [
      | inl e ↦
          let same : src ≡ target = ground arith in
          let kept : (set_dns_node_priority save id target_index rm).0.dns_nodes ≡ rm.dns_nodes =
            ap (λ o. (reorder_from save rm id target_index o).0.dns_nodes) h ∙ rw e refl in
          rw (kept, same) (refl, refl)
      | inr e ↦
          let moved : (set_dns_node_priority save id target_index rm).0.dns_nodes
              ≡ move src node target rm.dns_nodes =
            ap (λ o. (reorder_from save rm id target_index o).0.dns_nodes) h ∙ rw (e, there) refl in
          rw moved (
            get_elem?-inserted target node (without src rm.dns_nodes) inside ∙ sym there,
            without-inserted target node (without src rm.dns_nodes) inside,
          )
    ]
