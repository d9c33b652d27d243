-- ===== src/Cert/Verify/Names.antt =====
-- What the tests on names accept.
use sni_shaper_linux.Prelude.{
  ℕ, ◌+◌, ◌≡◌, refl, sym, ap, ◌∙◌, ◌↔◌, ◌⊎◌, inl, inr, Bool, true, false, not, ◌&&◌, List, [], ◌∷◌,
  ◌++◌, arith, any, any_iff, IsIn, Bool-cases,
}
use sni_shaper_linux.Text.{
  Bytes, codes, str_eq, str_eq_iff, is_empty, to_lower, has_prefix, has_prefix_iff, has_suffix,
  has_suffix_iff, trim_prefix, count_byte,
}
use sni_shaper_linux.Rules.Domain.{clean}
use sni_shaper_linux.Cert.Verify.{
  Certificate, cert_names, wildcard_match, dns_match, suffix_match, matches_allowed_suffixes,
}

count_byte-append : (s t : Bytes) (c : ℕ) → count_byte (s ++ t) c ≡ count_byte s c + count_byte t c
unfolding count_byte
count_byte-append [] t c = omega arith
count_byte-append (d ∷ s) t c = ground (arith, count_byte-append s t c)

trimmed_star : (base : Bytes) → trim_prefix (codes "*." ++ base) (codes "*.") ≡ base
unfolding trim_prefix has_prefix
trimmed_star base = refl

starred : (base : Bytes) → has_prefix (codes "*." ++ base) (codes "*.") ≡ true
unfolding has_prefix
starred base = refl

-- A wildcard, and a name below its base, however deep.
abbrev pub IsWildcardOf : Bytes → Bytes → Type 0
IsWildcardOf c h =
    (base : Bytes) × ((c ≡ codes "*." ++ base) × ((q : Bytes) × (h ≡ q ++ b'.' ∷ base)))

wildcard→ : (c h : Bytes) → wildcard_match c h ≡ true → IsWildcardOf c h
unfolding wildcard_match
wildcard→ c h m =
    let (base, e) = (has_prefix_iff c (codes "*.")).0 (ground arith) in
    let off : trim_prefix c (codes "*.") ≡ base =
      ap (λ x. trim_prefix x (codes "*.")) e ∙ trimmed_star base in
    let ends : has_suffix h (b'.' ∷ trim_prefix c (codes "*.")) ≡ true = ground arith in
    (
      base,
      (e, (has_suffix_iff h (b'.' ∷ base)).0 (ap (λ b. has_suffix h (b'.' ∷ b)) (sym off) ∙ ends)),
    )

→wildcard : (c h : Bytes) → IsWildcardOf c h → wildcard_match c h ≡ true
unfolding wildcard_match count_byte
→wildcard c h (base, (e, (q, below))) =
    rw (e, trimmed_star base)
      (ground (
        arith,
        (has_suffix_iff h (b'.' ∷ base)).1 (q, below),
        starred base,
        ap (λ x. count_byte x b'.') below,
        count_byte-append q (b'.' ∷ base) b'.',
      ))

-- A certificate's name is accepted for a host exactly if, with case and outer space left aside,
-- neither is blank and they are equal, or the name is a wildcard and the host ends in a dot and the base of
-- the wildcard: the count of the dots in the code excludes nothing, a wildcard reaches any depth.
pub dns_match_iff :
    (cert_name host : Bytes)
    → (dns_match cert_name host ≡ true) ↔ (
        (is_empty (clean cert_name) ≡ false)
        × ((is_empty (clean host) ≡ false)
            × ((clean cert_name ≡ clean host) ⊎ IsWildcardOf (clean cert_name) (clean host))))
unfolding dns_match
dns_match_iff cert_name host =
    let c = clean cert_name in
    let h = clean host in
    (
      λ m. (
        ground arith,
        (
          ground arith,
          elim (Bool-cases (str_eq c h)) [
            | inl same ↦ inl ((str_eq_iff c h).0 same)
            | inr other ↦ inr (wildcard→ c h (ground arith))
          ],
        ),
      ),
      λ (some_name, (some_host, fits)). elim fits [
        | inl same ↦ ground (arith, (str_eq_iff c h).1 same)
        | inr wild ↦ ground (arith, →wildcard c h wild)
      ],
    )

equal-has_suffix : (s c : Bytes) → str_eq c s ≡ true → has_suffix c s ≡ true
equal-has_suffix s c e = (has_suffix_iff c s).1 ([], (str_eq_iff c s).0 e)

rest_of_star : (base : Bytes) → trim_prefix (codes "*." ++ base) (codes "*") ≡ b'.' ∷ base
unfolding trim_prefix has_prefix
rest_of_star base = refl

trimmed-has_suffix :
    (s c : Bytes)
    → has_prefix c (codes "*.") ≡ true
    → has_suffix (trim_prefix c (codes "*")) s ≡ true
    → has_suffix c s ≡ true
trimmed-has_suffix s c star ends =
    let (base, e) = (has_prefix_iff c (codes "*.")).0 star in
    let rest : trim_prefix c (codes "*") ≡ b'.' ∷ base =
      ap (λ x. trim_prefix x (codes "*")) e ∙ rest_of_star base in
    let (q, below) =
      (has_suffix_iff (b'.' ∷ base) s).0 (ap (λ x. has_suffix x s) (sym rest) ∙ ends) in
    (has_suffix_iff c s).1 (b'*' ∷ q, e ∙ ap (λ x. b'*' ∷ x) below)

-- The tests on a wildcard add nothing to the test of the suffix.
suffix_match_lem :
    (suffix candidate : Bytes) → suffix_match suffix candidate ≡ has_suffix candidate suffix
unfolding suffix_match
suffix_match_lem s c =
    let same = equal-has_suffix s c in
    let rest = trimmed-has_suffix s c in
    let equal_rest = equal-has_suffix s (trim_prefix c (codes "*")) in
    elim (Bool-cases (has_suffix c s)) [ inl e ↦ ground arith | inr e ↦ ground arith ]

-- A certificate passes the suffixes exactly if one of its names ends in the text of a suffix that is
-- not blank. The text need not begin at a dot: `example.com` admits `badexample.com`.
matches_allowed_suffixes_iff :
    (cert : Certificate) (suffixes : List Bytes)
    → (matches_allowed_suffixes cert suffixes ≡ true) ↔ (
        (suffix : Bytes) × (IsIn suffix suffixes
          × ((is_empty (clean suffix) ≡ false)
              × ((name : Bytes) × (IsIn name (cert_names cert)
                    × ((q : Bytes) × (to_lower name ≡ q ++ clean suffix)))))))
unfolding matches_allowed_suffixes
matches_allowed_suffixes_iff cert suffixes =
    let fits : Bytes → Bool =
      λ suffix. any (λ c. suffix_match (clean suffix) (to_lower c)) (cert_names cert) in
    let both = any_iff (λ suffix. not (is_empty (clean suffix)) && fits suffix) suffixes in
    (
      λ h.
          (let (suffix, (i, ok)) = both.0 h in
            let (name, (j, found)) =
              (any_iff (λ c. suffix_match (clean suffix) (to_lower c)) (cert_names cert)).0
                (ground arith) in
            let ends = sym (suffix_match_lem (clean suffix) (to_lower name)) ∙ found in
            (
              suffix,
              (
                i,
                (ground arith, (name, (j, (has_suffix_iff (to_lower name) (clean suffix)).0 ends))),
              ),
            )),
      λ (suffix, (i, (filled, (name, (j, (q, e)))))).
          (let ends =
              suffix_match_lem (clean suffix) (to_lower name)
              ∙ (has_suffix_iff (to_lower name) (clean suffix)).1 (q, e) in
            let found =
              (any_iff (λ c. suffix_match (clean suffix) (to_lower c)) (cert_names cert)).1
                (name, (j, ends)) in
            both.1 (suffix, (i, ground (arith, filled, found)))),
    )
