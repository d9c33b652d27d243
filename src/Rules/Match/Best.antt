-- ===== src/Rules/Match/Best.antt =====
-- The loop of `matchRule` finds the first of the rules with the highest score.
use sni_shaper_linux.Prelude.{
  ℕ, ◌≤◌, ◌<◌, ◌≡◌, ◌∙◌, refl, sym, ap, ◌⊎◌, inl, inr, Option, none, some, List, [], ◌∷◌, ◌++◌,
  arith, ltb, if◌then◌else◌, All, Option-cases, Bool-cases,
}
use sni_shaper_linux.Text.{Bytes}
use sni_shaper_linux.Rules.Types.{Rule}
use sni_shaper_linux.Rules.Domain.{Regex}
use sni_shaper_linux.Rules.Match.{Best, rule_score, best_rule}

-- Bounds on a score, where there is one.
abbrev pub IsUnder : ℕ → Option ℕ → Type 0
IsUnder n none = Unit
IsUnder n (some m) = m < n

abbrev pub IsUpTo : ℕ → Option ℕ → Type 0
IsUpTo n none = Unit
IsUpTo n (some m) = m ≤ n

module _ (regex : Regex) (host : Bytes) where
  abbrev score : Rule → Option ℕ
  score = rule_score regex host

  -- The rule `r` scores `n`, no rule scores higher, and none before it scores as high.
  pub record IsBest (rules : List Rule) (r : Rule) (n : ℕ) : Type 0 where
    pub before : List Rule
    pub behind : List Rule
    pub place : rules ≡ before ++ r ∷ behind
    pub scored : rule_score regex host r ≡ some n
    pub first : All (λ x. IsUnder n (rule_score regex host x)) before
    pub highest : All (λ x. IsUpTo n (rule_score regex host x)) behind

  -- What the loop makes of a best rule so far.
  abbrev Outdone : List Rule → Rule → ℕ → Rule → ℕ → Type 0
  Outdone rules b m r n =
      ((r ≡ b) × (n ≡ m) × All (λ x. IsUpTo m (rule_score regex host x)) rules)
      ⊎ ((m < n) × IsBest rules r n)

  IsBest-cons :
      (x r : Rule) (rules : List Rule) (n : ℕ)
      → IsUnder n (rule_score regex host x)
      → IsBest rules r n
      → IsBest (x ∷ rules) r n
  IsBest-cons x r rules n under best = record {
    before = x ∷ best.before;
    behind = best.behind;
    place = ap (λ l. x ∷ l) best.place;
    scored = best.scored;
    first = (under, best.first);
    highest = best.highest;
  }

  IsBest-here :
      (x r : Rule) (rules : List Rule) (n k : ℕ)
      → r ≡ x
      → n ≡ k
      → rule_score regex host x ≡ some k
      → All (λ y. IsUpTo k (rule_score regex host y)) rules
      → IsBest (x ∷ rules) r n
  IsBest-here x r rules n k er en scored upto =
      rw (er, en)
        (record {
          before = [];
          behind = rules;
          place = refl;
          scored = scored;
          first = tt;
          highest = upto;
        })

  skipped :
      (x : Rule) (rules : List Rule) (acc : Best)
      → rule_score regex host x ≡ none
      → best_rule regex host (x ∷ rules) acc ≡ best_rule regex host rules acc
  unfolding best_rule
  skipped x rules acc e = rw e

  scored_against :
      (x b : Rule) (rules : List Rule) (m k : ℕ)
      → rule_score regex host x ≡ some k
      → best_rule regex host (x ∷ rules) (some (b, m))
        ≡ best_rule regex host rules (if ltb m k then some (x, k) else some (b, m))
  unfolding best_rule
  scored_against x b rules m k e = rw e

  best_rule_from :
      (rules : List Rule) (b r : Rule) (m n : ℕ)
      → best_rule regex host rules (some (b, m)) ≡ some (r, n)
      → Outdone rules b m r n
  best_rule_from [] b r m n h = unfold best_rule in inl (ground arith, ground arith, tt)
  best_rule_from (x ∷ rules) b r m n h = elim (Option-cases (rule_score regex host x)) [
    | inl e ↦ elim (best_rule_from rules b r m n (sym (skipped x rules (some (b, m)) e) ∙ h)) [
      | inl (er, en, upto) ↦ inl (er, en, (rw e tt, upto))
      | inr (lt, best) ↦ inr (lt, IsBest-cons x r rules n (rw e tt) best)
    ]
    | inr (k, e) ↦
        let h' = sym (scored_against x b rules m k e) ∙ h in
        elim (Bool-cases (ltb m k)) [
          | inl higher ↦ elim (best_rule_from rules x r k n (rw higher at h')) [
            | inl (er, en, upto) ↦ inr (ground arith, IsBest-here x r rules n k er en e upto)
            | inr (lt, best) ↦ inr (ground arith, IsBest-cons x r rules n (rw e lt) best)
          ]
          | inr not_higher ↦ elim (best_rule_from rules b r m n (rw not_higher at h')) [
            | inl (er, en, upto) ↦ inl (er, en, (rw e (ground arith), upto))
            | inr (lt, best) ↦ inr (lt, IsBest-cons x r rules n (rw e (ground arith)) best)
          ]
        ]
  ]

  some_from :
      (rules : List Rule) (b : Rule) (m : ℕ)
      → (r : Rule) × (n : ℕ) × (best_rule regex host rules (some (b, m)) ≡ some (r, n))
  some_from [] b m = unfold best_rule in (b, m, refl)
  some_from (x ∷ rules) b m = elim (Option-cases (rule_score regex host x)) [
    | inl e ↦ rw (skipped x rules (some (b, m)) e) (some_from rules b m)
    | inr (k, e) ↦ rw (scored_against x b rules m k e) (elim (Bool-cases (ltb m k)) [
      | inl higher ↦ rw higher (some_from rules x k)
      | inr not_higher ↦ rw not_higher (some_from rules b m)
    ])
  ]

  first_scored :
      (x : Rule) (rules : List Rule) (k : ℕ)
      → rule_score regex host x ≡ some k
      → best_rule regex host (x ∷ rules) none ≡ best_rule regex host rules (some (x, k))
  unfolding best_rule
  first_scored x rules k e = rw e

  IsBest-of :
      (x r : Rule) (rules : List Rule) (k n : ℕ)
      → rule_score regex host x ≡ some k
      → Outdone rules x k r n
      → IsBest (x ∷ rules) r n
  IsBest-of x r rules k n e (inl (er, en, upto)) = IsBest-here x r rules n k er en e upto
  IsBest-of x r rules k n e (inr (lt, best)) = IsBest-cons x r rules n (rw e lt) best

  -- What the loop over all rules gives: the first of the rules with the highest score; or none, and
  -- then no rule has a score.
  abbrev pub Chosen : List Rule → Best → Type 0
  Chosen rules none = All (λ x. rule_score regex host x ≡ none) rules
  Chosen rules (some (r, n)) = IsBest rules r n

  Chosen-cons :
      (x : Rule) (rules : List Rule) (o : Best)
      → rule_score regex host x ≡ none
      → Chosen rules o
      → Chosen (x ∷ rules) o
  Chosen-cons x rules none e h = (e, h)
  Chosen-cons x rules (some (r, n)) e h = IsBest-cons x r rules n (rw e tt) h

  pub best_rule-Chosen : (rules : List Rule) → Chosen rules (best_rule regex host rules none)
  best_rule-Chosen [] = unfold best_rule in tt
  best_rule-Chosen (x ∷ rules) = elim (Option-cases (rule_score regex host x)) [
    | inl e ↦
        rw (skipped x rules none e)
          (Chosen-cons x rules (best_rule regex host rules none) e (best_rule-Chosen rules))
    | inr (k, e) ↦
        let (r, n, chosen) = some_from rules x k in
        rw (first_scored x rules k e ∙ chosen)
          (IsBest-of x r rules k n e (best_rule_from rules x r k n chosen))
  ]
