-- ===== src/Cert/Samples.antt =====
-- Certificates, and runs on them.
use sni_shaper_linux.Prelude.{
  ◌≡◌, ◌↔◌, ◌⊎◌, refl, Bool, ◌&&◌, ◌||◌, true, false, none, some, List, [], ◌∷◌,
}
use sni_shaper_linux.Text.{
  count_byte, has_prefix, has_suffix, mem_str, trim_prefix, trim_space, Bytes, codes, is_empty,
  to_lower, str_eq,
}
use sni_shaper_linux.Rules.Types.{CertVerifyConfig, empty_cert_verify, empty_rule}
use sni_shaper_linux.Rules.Domain.{clean}
use sni_shaper_linux.Cert.Verify.{
  Certificate, unknown_authority, ConnectionState, normalize_cert_verify_config, cert_names,
  dns_match, matches_allowed_suffixes, verify_connection, spki_mismatch, build_verify_connection,
}
use sni_shaper_linux.Cert.Verify.Names.{IsWildcardOf, dns_match_iff}
use sni_shaper_linux.Cert.Client.{upstream_client}
use sni_shaper_linux.Cert.Client.Checks.{is_unset, unverified, upstream_client-unverified}
use sni_shaper_linux.Net.Address.{normalize_host}
use sni_shaper_linux.Cert.Verify.Chain.{IsTrusted, IsPinned, verify_connection_lem}

abbrev leaf : Certificate
leaf = record {
  common_name = codes "*.Example.com";
  dns_names = codes "example.com" ∷ codes "*.example.com" ∷ [];
  spki_hash = codes "q3Z=";
}

abbrev unknown_chain : ConnectionState
unknown_chain = record { peer_certificates = leaf ∷ []; verify_chain = λ named. unknown_authority }

abbrev pinned : CertVerifyConfig
pinned =
    normalize_cert_verify_config
      (record empty_cert_verify {
        spki_sha256 = codes " Q3z=" ∷ [];
        allow_unknown_authority = true;
      })
      (codes "example.com")

pinned_mode : pinned.mode ≡ codes "allow_spki"
unfolding normalize_cert_verify_config is_empty trim_space
pinned_mode = refl

each_name_once : cert_names leaf ≡ codes "*.example.com" ∷ codes "example.com" ∷ []
unfolding cert_names is_empty to_lower trim_space mem_str str_eq
each_name_once = refl

pinned_accepts : verify_connection pinned unknown_chain ≡ none
unfolding verify_connection str_eq normalize_cert_verify_config is_empty trim_space to_lower
pinned_accepts = refl

other_key_rejected :
    verify_connection (record pinned { spki_sha256 = codes "other" ∷ [] }) unknown_chain
    ≡ some spki_mismatch
unfolding verify_connection str_eq normalize_cert_verify_config is_empty trim_space to_lower
other_key_rejected = refl

wildcard_two_labels : dns_match (codes "*.example.com") (codes "a.b.example.com") ≡ true
unfolding dns_match is_empty to_lower trim_space str_eq has_prefix has_suffix trim_prefix count_byte
wildcard_two_labels = refl

suffix_inside_a_label : matches_allowed_suffixes leaf (codes "ample.com" ∷ []) ≡ true
unfolding matches_allowed_suffixes is_empty to_lower trim_space mem_str str_eq has_suffix
suffix_inside_a_label = refl

dns_match_iff_example : (dns_match (codes "*.example.com") (codes "a.b.example.com") ≡ true) ↔ (
    (is_empty (clean (codes "*.example.com")) ≡ false)
    × ((is_empty (clean (codes "a.b.example.com")) ≡ false)
        × ((clean (codes "*.example.com") ≡ clean (codes "a.b.example.com"))
            ⊎ IsWildcardOf (clean (codes "*.example.com")) (clean (codes "a.b.example.com")))))
dns_match_iff_example = dns_match_iff (codes "*.example.com") (codes "a.b.example.com")

verify_connection_lem_example :
    (cert : Certificate) × ((rest : List Certificate) × ((unknown_chain.peer_certificates
          ≡ cert ∷ rest)
        × (IsTrusted pinned (unknown_chain.verify_chain (str_eq pinned.mode (codes "strict_real")))
            × IsPinned pinned cert)))
verify_connection_lem_example = verify_connection_lem pinned unknown_chain pinned_accepts

abbrev lets_pass : Bytes → Bool
lets_pass host = false

-- A rule that asks for nothing, and no ECH: any certificate is accepted.
any_certificate :
    unverified
      (upstream_client lets_pass (codes "fake.example") (codes "a.bc") empty_rule (codes "h2") [])
    ≡ true
unfolding upstream_client is_empty build_verify_connection trim_space
any_certificate = refl

upstream_client-unverified_example :
    unverified
      (upstream_client lets_pass (codes "fake.example") (codes "a.bc") empty_rule (codes "h2") [])
    ≡ (is_empty []
        && (lets_pass (normalize_host (codes "a.bc"))
            || is_unset (build_verify_connection (codes "a.bc") empty_rule.cert_verify)))
upstream_client-unverified_example =
    upstream_client-unverified lets_pass (codes "fake.example") (codes "a.bc") empty_rule
      (codes "h2") []
