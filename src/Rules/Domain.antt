-- ===== src/Rules/Domain.antt =====
-- proxy/proxy.go, `hostMatchesDomain` and `domainMatchScore`: the domain patterns of the rules.
-- A score of -1 is `none`. The engine of package regexp is a parameter: `regex p` is what
-- `regexp.Compile(p)` gives, with its `MatchString`.
pub mod Score
pub mod Agreement
use sni_shaper_linux.Prelude.{
  ℕ, zero, suc, ◌+◌, ◌≤◌, Bool, true, false, not, ◌&&◌, ◌||◌, Option, none, some, List, [], ◌∷◌,
  ◌++◌, ltb, if◌then◌else◌, length,
}
use sni_shaper_linux.Text.{
  Bytes, codes, str_eq, trim_space, to_lower, is_empty, has_prefix, has_suffix, trim_prefix,
  trim_suffix, split,
}

abbrev pub Regex : Type 0
Regex = Bytes → Option (Bytes → Bool)

-- `strings.ToLower(strings.TrimSpace(s))`
abbrev pub clean : Bytes → Bytes
clean s = to_lower (trim_space s)

-- `*.` in front and `$` behind are dropped.
abbrev pub bare_domain : Bytes → Bytes
bare_domain domain = trim_suffix (trim_prefix domain (codes "*.")) (codes "$")

-- The inner loop: the labels `bs` at the head of `hs`.
labels_prefix : List Bytes → List Bytes → Bool
labels_prefix hs [] = true
labels_prefix [] (b ∷ bs) = false
labels_prefix (h ∷ hs) (b ∷ bs) = str_eq h b && labels_prefix hs bs

-- The outer loop: the labels `bs` in a run of `hs` with one more label behind them.
labels_window : List Bytes → List Bytes → Bool
unfolding labels_prefix
labels_window [] bs = false
labels_window (h ∷ hs) bs =
    (ltb (length bs) (length (h ∷ hs)) && labels_prefix (h ∷ hs) bs) || labels_window hs bs

-- The pattern `base.*` on a host.
unfoldable pub wildcard_matches : Bytes → Bytes → Bool
unfolding labels_window
wildcard_matches host base =
    let host_parts = split host b'.' in
    let base_parts = split base b'.' in
    if ltb (length host_parts) (length base_parts + 1)
    then false
    else labels_window host_parts base_parts

-- The part of `hostMatchesDomain` behind the trimming, on a bare domain.
matches_bare : Bytes → Bytes → Bool
unfolding wildcard_matches
matches_bare host domain =
    if has_suffix domain (codes ".*")
    then (let base = trim_suffix domain (codes ".*") in
        if is_empty base then false else wildcard_matches host base)
    else if str_eq host domain
    then true
    else has_suffix host (b'.' ∷ domain)

unfoldable pub host_matches_domain : Bytes → Bytes → Bool
unfolding matches_bare
host_matches_domain host domain =
    let h = clean host in
    let d = clean domain in
    if is_empty h || is_empty d then false else matches_bare h (bare_domain d)

-- The regular expression behind `~`, on a clean host.
regex_score : Regex → Bytes → Bytes → Option ℕ
regex_score regex host pattern = if is_empty pattern then none else elim (regex pattern) [
  | none ↦ none
  | some test ↦ if test host then some (900 + length pattern) else none
]

score_bare : Bytes → Bytes → Option ℕ
unfolding wildcard_matches
score_bare host domain =
    if has_suffix domain (codes ".*")
    then (let base = trim_suffix domain (codes ".*") in
        if is_empty base
        then none
        else if wildcard_matches host base
        then some (length base)
        else none)
    else if str_eq host domain
    then some (length domain + 1000)
    else if has_suffix host (b'.' ∷ domain)
    then some (length domain)
    else none

unfoldable pub domain_match_score : Regex → Bytes → Bytes → Option ℕ
unfolding regex_score score_bare
domain_match_score regex host domain =
    let h = clean host in
    let d = clean domain in
    if is_empty h || is_empty d
    then none
    else if has_prefix d (codes "~")
    then regex_score regex h (trim_space (trim_prefix d (codes "~")))
    else score_bare h (bare_domain d)

-- The test of `matchRule` and its like on a result: not -1.
abbrev pub is_some {ℓ} : {A : Type ℓ} → Option A → Bool
is_some none = false
is_some (some x) = true
