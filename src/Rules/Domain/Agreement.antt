-- ===== src/Rules/Domain/Agreement.antt =====
-- The Boolean match and the score agree, and both mean what the patterns promise.
use sni_shaper_linux.Prelude.{
  ◌<◌, ◌≡◌, ◌∙◌, refl, sym, ap, ◌↔◌, ◌⊎◌, inl, inr, true, false, ◌&&◌, List, [], ◌∷◌, ◌++◌, arith,
  ltb, length, length-append, Bool-cases,
}
use sni_shaper_linux.Text.{
  Bytes, codes, str_eq, str_eq_iff, is_empty, has_prefix, has_suffix, has_suffix_iff,
  has_suffix-append, trim_suffix-append, split,
}
use sni_shaper_linux.Rules.Domain.{
  Regex, clean, bare_domain, labels_prefix, labels_window, wildcard_matches, matches_bare,
  host_matches_domain, score_bare, domain_match_score, is_some,
}

bare_agrees : (host domain : Bytes) → is_some (score_bare host domain) ≡ matches_bare host domain
unfolding score_bare matches_bare
bare_agrees host domain = ground arith

-- For a domain that is no regular expression, `domain_match_score` gives a score on exactly the
-- hosts that `host_matches_domain` accepts.
pub is_some-domain_match_score :
    (regex : Regex) (host domain : Bytes)
    → has_prefix (clean domain) (codes "~") ≡ false
    → is_some (domain_match_score regex host domain) ≡ host_matches_domain host domain
unfolding domain_match_score host_matches_domain
is_some-domain_match_score regex host domain h =
    ground (arith, bare_agrees (clean host) (bare_domain (clean domain)))

-- The domain itself, or a name below it.
abbrev pub IsBelow : Bytes → Bytes → Type 0
IsBelow host domain = (host ≡ domain) ⊎ ((q : Bytes) × (host ≡ q ++ b'.' ∷ domain))

-- The labels `bs` stand in `hs`, with one label behind them at least.
abbrev pub HasWindow : List Bytes → List Bytes → Type 0
HasWindow hs bs =
    (before : List Bytes) × (x : Bytes) × (behind : List Bytes) × (hs
      ≡ before ++ (bs ++ x ∷ behind))

labels_prefix→ :
    (hs bs : List Bytes) → labels_prefix hs bs ≡ true → (r : List Bytes) × (hs ≡ bs ++ r)
unfolding labels_prefix
labels_prefix→ hs [] h = (hs, refl)
labels_prefix→ [] (b ∷ bs) h = ground arith
labels_prefix→ (x ∷ hs) (b ∷ bs) h =
    let (r, e) = labels_prefix→ hs bs (ground arith) in (r, ground (arith, str_eq_iff x b))

labels_prefix-append : (bs r : List Bytes) → labels_prefix (bs ++ r) bs ≡ true
unfolding labels_prefix
labels_prefix-append [] r = refl
labels_prefix-append (b ∷ bs) r = ground (arith, labels_prefix-append bs r, str_eq_iff b b)

longer :
    (hs bs r : List Bytes)
    → hs ≡ bs ++ r
    → length bs < length hs
    → (x : Bytes) × (behind : List Bytes) × (hs ≡ bs ++ x ∷ behind)
longer hs bs [] e h = absurd (omega (arith, ap length e, length-append bs []))
longer hs bs (x ∷ r) e h = (x, r, e)

labels_window→ : (hs bs : List Bytes) → labels_window hs bs ≡ true → HasWindow hs bs
unfolding labels_window
labels_window→ [] bs h = ground arith
labels_window→ (x ∷ hs) bs h =
    elim (Bool-cases (ltb (length bs) (length (x ∷ hs)) && labels_prefix (x ∷ hs) bs)) [
      | inl here ↦
          let (r, e) = labels_prefix→ (x ∷ hs) bs (ground arith) in
          let (y, behind, e') = longer (x ∷ hs) bs r e (ground arith) in ([], y, behind, e')
      | inr not_here ↦
          let (before, y, behind, e) = labels_window→ hs bs (ground arith) in
          (x ∷ before, y, behind, ap (λ t. x ∷ t) e)
    ]

labels_window-append :
    (before bs behind : List Bytes) (x : Bytes)
    → labels_window (before ++ (bs ++ x ∷ behind)) bs ≡ true
unfolding labels_window
labels_window-append [] [] behind x = ground arith
labels_window-append [] (b ∷ bs) behind x =
    ground (arith, labels_prefix-append (b ∷ bs) (x ∷ behind), length-append bs (x ∷ behind))
labels_window-append (y ∷ before) bs behind x =
    ground (arith, labels_window-append before bs behind x)

labels_window-of : (hs bs : List Bytes) → HasWindow hs bs → labels_window hs bs ≡ true
labels_window-of hs bs (before, x, behind, e) = rw e (labels_window-append before bs behind x)

length_of_window : (hs bs : List Bytes) → HasWindow hs bs → length bs < length hs
length_of_window hs bs (before, x, behind, e) =
    omega
      (arith, ap length e, length-append before (bs ++ x ∷ behind), length-append bs (x ∷ behind))

wildcard_iff :
    (host base : Bytes)
    → (wildcard_matches host base ≡ true) ↔ HasWindow (split host b'.') (split base b'.')
unfolding wildcard_matches
wildcard_iff host base =
    let hs = split host b'.' in
    let bs = split base b'.' in
    (
      λ h. labels_window→ hs bs (ground arith),
      λ w. ground (arith, labels_window-of hs bs w, length_of_window hs bs w),
    )

plain_iff :
    (host domain : Bytes)
    → has_suffix domain (codes ".*") ≡ false
    → (matches_bare host domain ≡ true) ↔ IsBelow host domain
unfolding matches_bare
plain_iff host domain plain = (
  λ h. elim (Bool-cases (str_eq host domain)) [
    | inl same ↦ inl ((str_eq_iff host domain).0 same)
    | inr other ↦ inr ((has_suffix_iff host (b'.' ∷ domain)).0 (ground arith))
  ],
  λ b. elim b [
    | inl same ↦ ground (arith, (str_eq_iff host domain).1 same)
    | inr below ↦ ground (arith, (has_suffix_iff host (b'.' ∷ domain)).1 below)
  ],
)

matches_bare-wildcard :
    (host base : Bytes)
    → is_empty base ≡ false
    → matches_bare host (base ++ codes ".*") ≡ wildcard_matches host base
unfolding matches_bare
matches_bare-wildcard host base filled =
    rw (has_suffix-append base (codes ".*"), trim_suffix-append base (codes ".*"), filled)

module _ (host domain : Bytes) (some_host : is_empty (clean host) ≡ false)
    (some_domain : is_empty (clean domain) ≡ false) where
  not_blank :
      host_matches_domain host domain ≡ matches_bare (clean host) (bare_domain (clean domain))
  unfolding host_matches_domain
  not_blank = rw (some_host, some_domain)

  -- A host and a domain that are not blank: a domain that, without its `*.` in front and `$` behind,
  -- does not end in `.*` is matched by exactly itself and the names below it.
  pub host_matches_domain_iff :
      has_suffix (bare_domain (clean domain)) (codes ".*") ≡ false
      → (host_matches_domain host domain ≡ true) ↔ IsBelow (clean host) (bare_domain (clean domain))
  host_matches_domain_iff plain =
      let (sound, complete) = plain_iff (clean host) (bare_domain (clean domain)) plain in
      (λ h. sound (sym not_blank ∙ h), λ b. not_blank ∙ complete b)

  -- Under the same conditions, a domain `base.*` whose base is not empty is matched by exactly the
  -- hosts whose labels hold those of the base in a run, with a label behind it.
  pub host_matches_domain-wildcard_iff :
      (base : Bytes)
      → bare_domain (clean domain) ≡ base ++ codes ".*"
      → is_empty base ≡ false
      → (host_matches_domain host domain ≡ true)
        ↔ HasWindow (split (clean host) b'.') (split base b'.')
  host_matches_domain-wildcard_iff base e filled =
      let (sound, complete) = wildcard_iff (clean host) base in
      let same =
        not_blank
        ∙ ap (matches_bare (clean host)) e
        ∙ matches_bare-wildcard (clean host) base filled in
      (λ h. sound (sym same ∙ h), λ w. same ∙ complete w)
