-- ===== src/Rules/Import/Merge.antt =====
-- What the merge of imported site groups leaves.
use sni_shaper_linux.Prelude.{
  ℕ, zero, suc, ◌+◌, ◌≡◌, refl, sym, ap, ◌∙◌, subst, inl, inr, Option, none, some, List, [], ◌∷◌,
  ◌++◌, map, arith, length, get_elem?, set, Bool-cases, Option-cases, length-append, length-set,
  append-nil, append_assoc,
}
use sni_shaper_linux.Text.{Bytes, codes, str_eq}
use sni_shaper_linux.Rules.Types.{SiteGroup}
use sni_shaper_linux.Rules.Import.{
  MergeState, import_merge_key, index_of_key, overwrite, merge_at, merge_group, merge_groups,
}

index_of_key-get_elem? :
    (key : Bytes) (sgs : List SiteGroup) (i : ℕ)
    → index_of_key key sgs ≡ some i
    → (old : SiteGroup) × (get_elem? sgs i ≡ some old)
unfolding index_of_key
index_of_key-get_elem? key [] i h = ground arith
index_of_key-get_elem? key (sg ∷ sgs) i h = elim (Option-cases (index_of_key key sgs)) [
  | inl missing ↦ let first : i ≡ 0 = ground arith in (sg, rw first refl)
  | inr (j, at_j) ↦
      let next : i ≡ suc j = ground arith in
      let (old, there) = index_of_key-get_elem? key sgs j at_j in (old, rw next there)
]

-- An overwritten group keeps its id.
ids-set :
    (sgs : List SiteGroup) (i : ℕ) (old sg : SiteGroup)
    → get_elem? sgs i ≡ some old
    → map (λ x. x.id) (set sgs i (record sg { id = old.id })) ≡ map (λ x. x.id) sgs
ids-set [] i old sg h = refl
ids-set (x ∷ sgs) zero old sg h =
    let same : x.id ≡ old.id = ap (λ o. elim o [ some g ↦ g.id | none ↦ x.id ]) h in
    ap (λ k. k ∷ map (λ g. g.id) sgs) (sym same)
ids-set (x ∷ sgs) (suc i) old sg h = ap (λ l. x.id ∷ l) (ids-set sgs i old sg h)

abbrev pub IsMergeOf : MergeState → ℕ → MergeState → Type 0
IsMergeOf m n r =
    (r.added + r.overwritten + r.skipped ≡ m.added + m.overwritten + m.skipped + n)
    × ((length r.merged + m.added ≡ length m.merged + r.added)
        × ((new : List Bytes) × (map (λ x. x.id) r.merged ≡ map (λ x. x.id) m.merged ++ new)))

ids-append :
    (sgs : List SiteGroup) (sg : SiteGroup)
    → map (λ x. x.id) (sgs ++ sg ∷ []) ≡ map (λ x. x.id) sgs ++ sg.id ∷ []
ids-append [] sg = refl
ids-append (x ∷ sgs) sg = ap (λ l. x.id ∷ l) (ids-append sgs sg)

merge_at-IsMergeOf :
    (sg : SiteGroup) (m : MergeState) (key : Bytes) (o : Option ℕ)
    → index_of_key key m.merged ≡ o
    → IsMergeOf m 1 (merge_at sg m o)
unfolding merge_at overwrite
merge_at-IsMergeOf sg m key none h = (
  omega arith,
  (omega (arith, length-append m.merged (sg ∷ [])), (sg.id ∷ [], ids-append m.merged sg)),
)
merge_at-IsMergeOf sg m key (some i) h =
    let (old, there) = index_of_key-get_elem? key m.merged i h in
    let written : merge_at sg m (some i) ≡ overwrite sg m i (some old) =
      ap (overwrite sg m i) there in
    subst (IsMergeOf m 1) (sym written) (
      omega arith,
      (
        omega (arith, length-set m.merged i (record sg { id = old.id })),
        ([], ids-set m.merged i old sg there ∙ sym (append-nil (map (λ x. x.id) m.merged))),
      ),
    )

merge_group-IsMergeOf : (sg : SiteGroup) (m : MergeState) → IsMergeOf m 1 (merge_group sg m)
unfolding merge_group
merge_group-IsMergeOf sg m = elim (Bool-cases (str_eq (import_merge_key sg) (codes "|"))) [
  | inl e ↦ rw e (omega arith, (omega arith, ([], sym (append-nil (map (λ x. x.id) m.merged)))))
  | inr e ↦ rw e (
      merge_at-IsMergeOf sg m (import_merge_key sg) (index_of_key (import_merge_key sg) m.merged)
        refl)
]

-- The merge counts each imported group once, as added, overwritten or skipped; the list is longer by the
-- groups that are added; and the ids that were there stay where they were, with new ones behind them.
pub merge_groups-IsMergeOf :
    (sgs : List SiteGroup) (m : MergeState) → IsMergeOf m (length sgs) (merge_groups sgs m)
unfolding merge_groups
merge_groups-IsMergeOf [] m =
    (omega arith, (omega arith, ([], sym (append-nil (map (λ x. x.id) m.merged)))))
merge_groups-IsMergeOf (sg ∷ sgs) m =
    let (count, (longer, (new, ids))) = merge_group-IsMergeOf sg m in
    let (count', (longer', (new', ids'))) = merge_groups-IsMergeOf sgs (merge_group sg m) in
    (
      omega (arith, count, count'),
      (
        omega (arith, longer, longer'),
        (
          new ++ new',
          ids' ∙ ap (λ l. l ++ new') ids ∙ append_assoc (map (λ x. x.id) m.merged) new new',
        ),
      ),
    )
