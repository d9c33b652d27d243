-- ===== src/Rules/Domain/Score.antt =====
-- How the scores rank the patterns that match one host.
use sni_shaper_linux.Prelude.{
  ℕ, ◌+◌, ◌<◌, ◌≡◌, ◌∙◌, ◌↔◌, ◌⊎◌, ◌≢◌, true, false, some, ◌∷◌, arith, length, Bool-cases, inl, inr,
}
use sni_shaper_linux.Text.{
  Bytes, codes, str_eq, str_eq_iff, has_prefix, has_suffix, has_suffix-le, trim_prefix, trim_space,
}
use sni_shaper_linux.Rules.Domain.{
  Regex, clean, bare_domain, regex_score, score_bare, domain_match_score,
}

-- The plain scores: a domain equal to the host, and a domain above it.
exact_score :
    (host domain : Bytes) (n : ℕ)
    → has_suffix domain (codes ".*") ≡ false
    → str_eq host domain ≡ true
    → score_bare host domain ≡ some n
    → n ≡ length domain + 1000
unfolding score_bare
exact_score host domain n plain same h = ground arith

suffix_score :
    (host domain : Bytes) (n : ℕ)
    → has_suffix domain (codes ".*") ≡ false
    → str_eq host domain ≡ false
    → score_bare host domain ≡ some n
    → (n ≡ length domain) × (n < length host)
unfolding score_bare
suffix_score host domain n plain other h = ground (arith, has_suffix-le host (b'.' ∷ domain))

-- A regular expression that matches scores 900 and the length of its pattern, and nothing else.
regex_score_lem :
    (regex : Regex) (host pattern : Bytes) (n : ℕ)
    → regex_score regex host pattern ≡ some n
    → n ≡ 900 + length pattern
unfolding regex_score
regex_score_lem regex host pattern n h = ground arith

-- What is behind the `~` of a regular expression.
abbrev pub pattern_of : Bytes → Bytes
pattern_of domain = trim_space (trim_prefix (clean domain) (codes "~"))

bare_of_score :
    (regex : Regex) (host domain : Bytes) (n : ℕ)
    → has_prefix (clean domain) (codes "~") ≡ false
    → domain_match_score regex host domain ≡ some n
    → score_bare (clean host) (bare_domain (clean domain)) ≡ some n
unfolding domain_match_score
bare_of_score regex host domain n no_regex h = ground arith

regex_of_score :
    (regex : Regex) (host domain : Bytes) (n : ℕ)
    → has_prefix (clean domain) (codes "~") ≡ true
    → domain_match_score regex host domain ≡ some n
    → regex_score regex (clean host) (pattern_of domain) ≡ some n
unfolding domain_match_score
regex_of_score regex host domain n is_regex h = ground arith

module _ (regex : Regex) (host domain : Bytes) (n : ℕ) where
  -- A score of a plain domain (no regular expression, no `.*` at its end) is that of the host itself,
  -- 1000 and the length of the host; or that of a domain above the host, the length of the domain, which
  -- is less than the length of the host.
  pub domain_match_score-plain :
      has_prefix (clean domain) (codes "~") ≡ false
      → has_suffix (bare_domain (clean domain)) (codes ".*") ≡ false
      → domain_match_score regex host domain ≡ some n
      → ((clean host ≡ bare_domain (clean domain)) × (n ≡ length (clean host) + 1000))
        ⊎ ((clean host ≢ bare_domain (clean domain))
            × (n ≡ length (bare_domain (clean domain)))
            × (n < length (clean host)))
  domain_match_score-plain no_regex plain h =
      let bare = bare_of_score regex host domain n no_regex h in
      elim (Bool-cases (str_eq (clean host) (bare_domain (clean domain)))) [
        | inl same ↦
            let e = (str_eq_iff (clean host) (bare_domain (clean domain))).0 same in
            inl (e, exact_score (clean host) (bare_domain (clean domain)) n plain same bare ∙ rw e)
        | inr other ↦
            let (len, below) =
              suffix_score (clean host) (bare_domain (clean domain)) n plain other bare in
            inr (
              λ e. ground (arith, (str_eq_iff (clean host) (bare_domain (clean domain))).1 e),
              len,
              below,
            )
      ]

  -- A score of a regular expression is 900 and the length of its pattern. So it is above that of the
  -- host itself, 1000 and the length of the host, exactly if the pattern is longer than that by 100.
  pub domain_match_score-regex :
      has_prefix (clean domain) (codes "~") ≡ true
      → domain_match_score regex host domain ≡ some n
      → (n ≡ 900 + length (pattern_of domain))
        × ((length (clean host) + 1000 < n)
            ↔ (length (clean host) + 100 < length (pattern_of domain)))
  domain_match_score-regex is_regex h =
      let e =
        regex_score_lem regex (clean host) (pattern_of domain) n
          (regex_of_score regex host domain n is_regex h) in
      (e, (λ l. omega arith, λ l. omega arith))
