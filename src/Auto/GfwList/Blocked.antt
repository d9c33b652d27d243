-- ===== src/Auto/GfwList/Blocked.antt =====
-- What `IsBlocked` answers, and what a load leaves in the list.
use sni_shaper_linux.Prelude.{
  ℕ, ◌≡◌, ◌∙◌, refl, sym, ap, ◌↔◌, inl, inr, Bool, true, false, ◌||◌, List, [], ◌∷◌, ◌++◌, arith,
  if◌then◌else◌, Bool-cases, ◌==◌, ==_iff,
}
use sni_shaper_linux.Text.{
  Bytes, mem_str, is_empty, split, join, split-cons, split_at_sep, split_other, join-split,
}
use sni_shaper_linux.Rules.Domain.{clean}
use sni_shaper_linux.Rules.Domain.Agreement.{IsBelow}
use sni_shaper_linux.Auto.GfwList.{GfwList, any_parent, behind_first, is_blocked, no_domains}

-- A domain of the list stands behind a dot of the host.
abbrev HasParent : List Bytes → Bytes → Type 0
HasParent domains s = (q : Bytes) × (d : Bytes) × (s ≡ q ++ b'.' ∷ d) × (mem_str d domains ≡ true)

abbrev walk : List Bytes → Bytes → Bool
walk domains s = any_parent domains (behind_first (split s b'.'))

walk_dot :
    (domains : List Bytes) (s : Bytes)
    → walk domains (b'.' ∷ s) ≡ (mem_str s domains || walk domains s)
unfolding any_parent
walk_dot domains s =
    let (p, ps, e) = split-cons s b'.' in
    let whole : join (p ∷ ps) b'.' ≡ s = ap (λ x. join x b'.') (sym e) ∙ join-split s b'.' in
    rw (split_at_sep s b'.', e, whole)

walk_other :
    (domains : List Bytes) (c : ℕ) (s : Bytes)
    → (c == b'.') ≡ false
    → walk domains (c ∷ s) ≡ walk domains s
walk_other domains c s h = let (p, ps, e) = split-cons s b'.' in rw (split_other c s b'.' h, e)

walk_nil : (domains : List Bytes) → walk domains [] ≡ false
unfolding any_parent split
walk_nil domains = refl

dot_step :
    (domains : List Bytes) (c : ℕ) (s : Bytes)
    → c ≡ b'.'
    → walk domains (c ∷ s) ≡ (mem_str s domains || walk domains s)
dot_step domains c s e = rw e (walk_dot domains s)

walk→ : (domains : List Bytes) (s : Bytes) → walk domains s ≡ true → HasParent domains s
walk→ domains [] h = ground (arith, walk_nil domains)
walk→ domains (c ∷ s) h = elim (Bool-cases (c == b'.')) [
  | inl dot ↦
      let e = (==_iff c b'.').0 dot in
      elim (Bool-cases (mem_str s domains)) [
        | inl here ↦ ([], s, ap (λ x. x ∷ s) e, here)
        | inr not_here ↦
            let (q, d, eq, m) = walk→ domains s (ground (arith, dot_step domains c s e)) in
            (c ∷ q, d, ap (λ x. c ∷ x) eq, m)
      ]
  | inr other ↦
      let (q, d, eq, m) = walk→ domains s (sym (walk_other domains c s other) ∙ h) in
      (c ∷ q, d, ap (λ x. c ∷ x) eq, m)
]

walk-append :
    (domains : List Bytes) (q d : Bytes)
    → mem_str d domains ≡ true
    → walk domains (q ++ b'.' ∷ d) ≡ true
walk-append domains [] d m = walk_dot domains d ∙ rw m
walk-append domains (c ∷ q) d m = elim (Bool-cases (c == b'.')) [
  | inl dot ↦
      rw ((==_iff c b'.').0 dot)
        (walk_dot domains (q ++ b'.' ∷ d) ∙ rw (walk-append domains q d m) (ground arith))
  | inr other ↦ walk_other domains c (q ++ b'.' ∷ d) other ∙ walk-append domains q d m
]

mem_of_none :
    (domains : List Bytes) (d : Bytes) → no_domains domains ≡ true → mem_str d domains ≡ false
unfolding mem_str
mem_of_none [] d h = refl
mem_of_none (x ∷ xs) d h = ground arith

blocked_split :
    (g : GfwList) (host : Bytes)
    → is_empty (clean host) ≡ false
    → is_blocked g host ≡ (
        if no_domains g.domains
        then false
        else mem_str (clean host) g.domains || walk g.domains (clean host))
unfolding is_blocked
blocked_split g host h = ground arith

-- The host is a domain of the list or a name below one.
abbrev pub IsListed : GfwList → Bytes → Type 0
IsListed g h = (d : Bytes) × IsBelow h d × (mem_str d g.domains ≡ true)

not_blocked_blank :
    (g : GfwList) (host : Bytes) → is_empty (clean host) ≡ true → is_blocked g host ≡ false
unfolding is_blocked
not_blocked_blank g host h = ground arith

IsListed-of :
    (g : GfwList) (host : Bytes)
    → (mem_str (clean host) g.domains || walk g.domains (clean host)) ≡ true
    → IsListed g (clean host)
IsListed-of g host h = elim (Bool-cases (mem_str (clean host) g.domains)) [
  | inl here ↦ (clean host, inl refl, here)
  | inr not_here ↦
      let (q, d, e, m) = walk→ g.domains (clean host) (ground arith) in (d, inr (q, e), m)
]

blocked_of :
    (g : GfwList) (h d : Bytes)
    → IsBelow h d
    → mem_str d g.domains ≡ true
    → (if no_domains g.domains then false else mem_str h g.domains || walk g.domains h) ≡ true
blocked_of g h d (inl e) m =
    let here : mem_str h g.domains ≡ true = rw e m in ground (arith, here, mem_of_none g.domains h)
blocked_of g h d (inr (q, e)) m =
    let up : walk g.domains h ≡ true = rw e (walk-append g.domains q d m) in
    ground (arith, up, m, mem_of_none g.domains d)

-- A host is blocked exactly if it is not blank and, in lower case and without the space around it, it
-- is a domain of the list or a name below one.
pub is_blocked_iff :
    (g : GfwList) (host : Bytes)
    → (is_blocked g host ≡ true) ↔ ((is_empty (clean host) ≡ false) × IsListed g (clean host))
is_blocked_iff g host = (
  λ h. elim (Bool-cases (is_empty (clean host))) [
    | inl blank ↦ absurd (ground (arith, not_blocked_blank g host blank))
    | inr filled ↦ (filled, IsListed-of g host (ground (arith, blocked_split g host filled)))
  ],
  λ (filled, listed).
      let (d, b, m) = listed in blocked_split g host filled ∙ blocked_of g (clean host) d b m,
)
