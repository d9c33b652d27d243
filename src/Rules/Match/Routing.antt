-- ===== src/Rules/Match/Routing.antt =====
-- What `matchRule` answers, as a whole.
use sni_shaper_linux.Prelude.{
  [], ◌∷◌, ◌++◌, ℕ, ◌≡◌, ◌≢◌, ◌∙◌, refl, sym, ap, ◌⊎◌, inl, inr, Option, none, some, List, arith,
  All, Bool-cases, Option-cases, true, false, ◌<◌, ◌≤◌,
}
use sni_shaper_linux.Text.{Bytes, codes, str_eq, str_eq_iff}
use sni_shaper_linux.Rules.Types.{Rule}
use sni_shaper_linux.Rules.Domain.{Regex, clean, domain_match_score}
use sni_shaper_linux.Net.Address.{normalize_host}
use sni_shaper_linux.Auto.Router.{Ip}
use sni_shaper_linux.Rules.Match.{
  Best, rule_score, best_rule, Routes, Matched, downgrade, auto_match, match_rule,
}
use sni_shaper_linux.Rules.Match.Best.{IsUnder, IsUpTo, IsBest, Chosen, best_rule-Chosen}

-- A rule scores on a host: it is enabled, and this is the score of its domain.
abbrev pub Scores : Regex → Bytes → Rule → ℕ → Type 0
Scores regex host rule n =
    (rule.enabled ≡ true) × (domain_match_score regex host rule.domain ≡ some n)

-- A rule that is not enabled, or whose domain has no score on the host, or one of which `P` holds.
abbrev pub Unfit : Regex → Bytes → (ℕ → Type 0) → Rule → Type 0
Unfit regex host P rule =
    (rule.enabled ≡ false)
    ⊎ ((domain_match_score regex host rule.domain ≡ none)
        ⊎ ((m : ℕ) × ((domain_match_score regex host rule.domain ≡ some m) × P m)))

-- The rule scores, those before it are unfit or score less, those behind it no more.
abbrev pub IsFirstBest : Regex → Bytes → List Rule → Rule → ℕ → Type 0
IsFirstBest regex host rules best n =
    Scores regex host best n
    × ((before : List Rule) × ((behind : List Rule) × ((rules ≡ before ++ best ∷ behind)
            × (All (Unfit regex host (λ m. m < n)) before
                × All (Unfit regex host (λ m. m ≤ n)) behind))))

-- The rule that is answered: the best one, but direct where its mode is `mitm` and `transparent` is asked.
abbrev pub IsAnswer : Bytes → Rule → Rule → Type 0
IsAnswer mode best answer =
    ((mode ≡ codes "transparent")
      × (best.mode ≡ codes "mitm")
      × (answer ≡ record best { mode = codes "direct" }))
    ⊎ (((mode ≢ codes "transparent") ⊎ (best.mode ≢ codes "mitm")) × (answer ≡ best))

score_cases :
    (regex : Regex) (host : Bytes) (P : ℕ → Type 0) (rule : Rule)
    → ((m : ℕ) → rule_score regex host rule ≡ some m → P m)
    → Unfit regex host P rule
unfolding rule_score
score_cases regex host P rule h = elim (Bool-cases rule.enabled) [
  | inr off ↦ inl off
  | inl on ↦ elim (Option-cases (domain_match_score regex host rule.domain)) [
    | inl e ↦ inr (inl e)
    | inr (m, e) ↦ inr (inr (m, (e, h m (rw on e))))
  ]
]

under→ : (n : ℕ) (o : Option ℕ) → IsUnder n o → (m : ℕ) → o ≡ some m → m < n
under→ n none h m e = ground arith
under→ n (some k) h m e = ground arith

up_to→ : (n : ℕ) (o : Option ℕ) → IsUpTo n o → (m : ℕ) → o ≡ some m → m ≤ n
up_to→ n none h m e = ground arith
up_to→ n (some k) h m e = ground arith

All-map : (P Q : Rule → Type 0) (xs : List Rule) → ((x : Rule) → P x → Q x) → All P xs → All Q xs
All-map P Q [] f h = tt
All-map P Q (x ∷ xs) f (px, h) = (f x px, All-map P Q xs f h)

scores :
    (regex : Regex) (host : Bytes) (rule : Rule) (n : ℕ)
    → rule_score regex host rule ≡ some n
    → Scores regex host rule n
unfolding rule_score
scores regex host rule n h = elim (Bool-cases rule.enabled) [
  | inl on ↦ (on, rw on at h)
  | inr off ↦ let bad : none ≡ some n = rw off at h in ground arith
]

first_best :
    (regex : Regex) (host : Bytes) (rules : List Rule) (best : Rule) (n : ℕ)
    → IsBest regex host rules best n
    → IsFirstBest regex host rules best n
first_best regex host rules best n b = (
  scores regex host best n b.scored,
  (
    b.before,
    (
      b.behind,
      (
        b.place,
        (
          All-map _ _ b.before
              (λ x h. score_cases regex host (λ m. m < n) x (under→ n (rule_score regex host x) h))
              b.first,
          All-map _ _ b.behind
              (λ x h. score_cases regex host (λ m. m ≤ n) x (up_to→ n (rule_score regex host x) h))
              b.highest,
        ),
      ),
    ),
  ),
)

downgrade-IsAnswer : (mode : Bytes) (best : Rule) → IsAnswer mode best (downgrade mode best)
unfolding downgrade
downgrade-IsAnswer mode best = elim (Bool-cases (str_eq mode (codes "transparent"))) [
  | inr other ↦
      inr (
        inl (λ e. ground (arith, (str_eq_iff mode (codes "transparent")).1 e, other)),
        rw other refl,
      )
  | inl asked ↦ elim (Bool-cases (str_eq best.mode (codes "mitm"))) [
    | inr other ↦ inr (
      inr (λ e. ground (arith, (str_eq_iff best.mode (codes "mitm")).1 e, other)),
      rw (asked, other) refl,
    )
    | inl mitm ↦ inl (
      (str_eq_iff mode (codes "transparent")).0 asked,
      (str_eq_iff best.mode (codes "mitm")).0 mitm,
      rw (asked, mitm) refl,
    )
  ]
]

module _ (regex : Regex) (resolve : Bytes → Option (List Ip)) (now after : ℕ) (r : Routes)
    (host mode : Bytes) where
  abbrev result : Matched
  result = match_rule regex resolve now after r host mode

  abbrev h : Bytes
  h = normalize_host host

  -- The answer of a rule of the user.
  abbrev pub ByRule : Type 0
  ByRule =
      (best : Rule) × (n : ℕ) × IsFirstBest regex h r.rules best n
      × ((answer : Rule) × (IsAnswer (clean mode) best answer
            × (match_rule regex resolve now after r host mode
                ≡ record { rule = answer; event = (h, answer.mode); auto_router = r.auto_router })))

  -- The answer where no enabled rule of the user fits.
  abbrev pub ByDefault : Type 0
  ByDefault =
      All (Unfit regex h (λ m. ⊥)) r.rules
      × (match_rule regex resolve now after r host mode ≡ auto_match resolve now after r h)

  match_of :
      (o : Best)
      → best_rule regex h r.rules none ≡ o
      → Chosen regex h r.rules o
      → ByRule ⊎ ByDefault
  unfolding match_rule
  match_of none e c = inr (
    All-map _ _ r.rules (λ x e. score_cases regex h (λ m. ⊥) x (λ m e'. ground (arith, e, e'))) c,
    rw (e, match_rule),
  )
  match_of (some (best, n)) e c = inl (
    best,
    n,
    first_best regex h r.rules best n c,
    (downgrade (clean mode) best, (downgrade-IsAnswer (clean mode) best, rw (e, match_rule))),
  )

  -- `match_rule` answers with the first of the enabled rules whose domains score highest on the host
  -- (made direct if its mode is `mitm` and the mode asked for is `transparent`, and as it is if not), with
  -- an event of the host and the mode that is answered, and leaves the automatic routing alone; if no
  -- enabled rule has a score, with what the automatic routing says.
  pub match_rule_lem : ByRule ⊎ ByDefault
  match_rule_lem = match_of (best_rule regex h r.rules none) refl (best_rule-Chosen regex h r.rules)

answer_transparent :
    (mode : Bytes) (best answer : Rule)
    → str_eq mode (codes "transparent") ≡ true
    → IsAnswer mode best answer
    → answer.mode ≢ codes "mitm"
answer_transparent mode best answer h (inl (_, _, e)) =
    λ e'. let bad : codes "direct" ≡ codes "mitm" = ap (λ r. r.mode) (sym e) ∙ e' in ground arith
answer_transparent mode best answer h (inr (inl other, e)) =
    absurd (other ((str_eq_iff mode (codes "transparent")).0 h))
answer_transparent mode best answer h (inr (inr other, e)) =
    λ e'. other (ap (λ r. r.mode) (sym e) ∙ e')

module _ (regex : Regex) (resolve : Bytes → Option (List Ip)) (now after : ℕ) (r : Routes)
    (host mode : Bytes) (transparent : str_eq (clean mode) (codes "transparent") ≡ true) where
  pub transparent_mitm :
      (match_rule regex resolve now after r host mode).rule.mode ≡ codes "mitm"
      → ByDefault regex resolve now after r host mode
  transparent_mitm e = elim (match_rule_lem regex resolve now after r host mode) [
    | inr by_default ↦ by_default
    | inl by_rule ↦
        let (best, n, _, (answer, (is_answer, eq))) = by_rule in
        absurd (
          answer_transparent (clean mode) best answer transparent is_answer
            (ap (λ m. m.rule.mode) (sym eq) ∙ e))
  ]
