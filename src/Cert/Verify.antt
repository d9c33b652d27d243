-- ===== src/Cert/Verify.antt =====
-- proxy/cert_verify.go. The verification of a chain by package x509 and the hash of a public key are
-- parts of the connection that is given. The configuration that is normalised here is a copy; in Go its
-- lists are shared with the rule, and change there, too.
pub mod Names
pub mod Chain
use sni_shaper_linux.Prelude.{
  ℕ, ◌+◌, Bool, true, false, not, ◌&&◌, ◌||◌, Option, none, some, List, [], ◌∷◌, ◌++◌, map, leb,
  any, if◌then◌else◌,
}
use sni_shaper_linux.Text.{
  Bytes, codes, str_eq, trim_space, to_lower, is_empty, has_prefix, has_suffix, trim_prefix,
  count_byte,
}
use sni_shaper_linux.Rules.Types.{CertVerifyConfig}
use sni_shaper_linux.Rules.Domain.{clean}
use sni_shaper_linux.Net.Address.{normalize_host}
use sni_shaper_linux.Net.Candidates.{first_seen}

-- A certificate: its names, and the hash of its public key in base64.
pub record Certificate : Type 0 where
  pub common_name : Bytes
  pub dns_names : List Bytes
  pub spki_hash : Bytes

pub data ChainResult : Type 0 where
  valid unknown_authority other_error : ChainResult

-- The certificates that the peer sends, and what the chain verifies to, with the name and without.
pub record ConnectionState : Type 0 where
  pub peer_certificates : List Certificate
  pub verify_chain : Bool → ChainResult

pub data VerifyError : Type 0 where
  no_peer_certificates names_mismatch suffixes_mismatch spki_mismatch unknown_mode : VerifyError
  chain_error : ChainResult → VerifyError

abbrev pub default_mode : CertVerifyConfig → Bytes
default_mode cfg = elim cfg.names [
  | n ∷ ns ↦ codes "allow_names"
  | [] ↦ elim cfg.suffixes [
    | s ∷ ss ↦ codes "allow_suffixes"
    | [] ↦ elim cfg.spki_sha256 [ k ∷ ks ↦ codes "allow_spki" | [] ↦ [] ]
  ]
]

-- Under `strict_real` with no names: the name to verify.
abbrev pub strict_names : Bytes → Bytes → List Bytes → List Bytes
strict_names mode verify_name [] =
    if str_eq mode (codes "strict_real") && not (is_empty verify_name)
    then normalize_host verify_name ∷ []
    else []
strict_names mode verify_name (n ∷ ns) = n ∷ ns

unfoldable pub normalize_cert_verify_config : CertVerifyConfig → Bytes → CertVerifyConfig
normalize_cert_verify_config cfg verify_name =
    let given = trim_space cfg.mode in
    let mode = if is_empty given then default_mode cfg else given in
    record cfg {
      mode = mode;
      names = strict_names mode verify_name (map normalize_host cfg.names);
      suffixes = map clean cfg.suffixes;
      spki_sha256 = map trim_space cfg.spki_sha256;
    }

-- The common name and the DNS names, each once.
unfoldable pub cert_names : Certificate → List Bytes
unfolding first_seen
cert_names cert = first_seen (map clean (cert.common_name ∷ cert.dns_names)) []

-- The wildcard part of `dnsMatch`, both names clean.
unfoldable pub wildcard_match : Bytes → Bytes → Bool
wildcard_match cert_name host =
    let base = trim_prefix cert_name (codes "*.") in
    has_prefix cert_name (codes "*.")
    && (has_suffix host (b'.' ∷ base) && leb (count_byte base b'.' + 1) (count_byte host b'.'))

unfoldable pub dns_match : Bytes → Bytes → Bool
unfolding wildcard_match
dns_match cert_name host =
    let c = clean cert_name in
    let h = clean host in
    if is_empty c || is_empty h then false else str_eq c h || wildcard_match c h

unfoldable pub matches_allowed_names : Certificate → List Bytes → Bool
unfolding cert_names dns_match
matches_allowed_names cert names =
    any
      (λ name.
        (let a = clean name in
          not (is_empty a) && any (λ c. dns_match c a || dns_match a c) (cert_names cert)))
      names

-- One candidate, in lower case, against a clean suffix.
unfoldable pub suffix_match : Bytes → Bytes → Bool
suffix_match suffix candidate =
    str_eq candidate suffix
    || (has_suffix candidate suffix
        || (has_prefix candidate (codes "*.")
            && (str_eq (trim_prefix candidate (codes "*")) suffix
                || has_suffix (trim_prefix candidate (codes "*")) suffix)))

unfoldable pub matches_allowed_suffixes : Certificate → List Bytes → Bool
unfolding cert_names suffix_match
matches_allowed_suffixes cert suffixes =
    any
      (λ suffix.
        (let s = clean suffix in
          not (is_empty s) && any (λ c. suffix_match s (to_lower c)) (cert_names cert)))
      suffixes

-- `EqualFold`, of texts in base64
unfoldable pub matches_spki : Certificate → List Bytes → Bool
matches_spki cert allowed =
    any (λ item. str_eq (to_lower (trim_space item)) (to_lower cert.spki_hash)) allowed

unfoldable pub maybe_ignore_unknown_authority : ChainResult → CertVerifyConfig → Option VerifyError
maybe_ignore_unknown_authority valid cfg = none
maybe_ignore_unknown_authority unknown_authority cfg =
    if cfg.allow_unknown_authority then none else some (chain_error unknown_authority)
maybe_ignore_unknown_authority other_error cfg = some (chain_error other_error)

-- The chain first, then a test of the leaf.
abbrev pub and_then : Option VerifyError → Bool → VerifyError → Option VerifyError
and_then (some e) ok mismatch = some e
and_then none ok mismatch = if ok then none else some mismatch

unfoldable pub verify_leaf :
    CertVerifyConfig → (Bool → ChainResult) → Certificate → Option VerifyError
unfolding maybe_ignore_unknown_authority matches_allowed_names matches_allowed_suffixes matches_spki
verify_leaf cfg verify_chain leaf =
    let chain = maybe_ignore_unknown_authority (verify_chain false) cfg in
    if str_eq cfg.mode (codes "strict_real")
    then maybe_ignore_unknown_authority (verify_chain true) cfg
    else if str_eq cfg.mode (codes "chain_only")
    then chain
    else if str_eq cfg.mode (codes "allow_names")
    then and_then chain (matches_allowed_names leaf cfg.names) names_mismatch
    else if str_eq cfg.mode (codes "allow_suffixes")
    then and_then chain (matches_allowed_suffixes leaf cfg.suffixes) suffixes_mismatch
    else if str_eq cfg.mode (codes "allow_spki")
    then and_then chain (matches_spki leaf cfg.spki_sha256) spki_mismatch
    else some unknown_mode

unfoldable pub verify_connection : CertVerifyConfig → ConnectionState → Option VerifyError
unfolding verify_leaf
verify_connection cfg cs = elim cs.peer_certificates [
  | [] ↦ some no_peer_certificates
  | leaf ∷ rest ↦ verify_leaf cfg cs.verify_chain leaf
]

-- No verification of its own is asked for where the mode stays empty.
unfoldable pub build_verify_connection :
    Bytes → CertVerifyConfig → Option (ConnectionState → Option VerifyError)
unfolding normalize_cert_verify_config verify_connection
build_verify_connection real_name cfg =
    let c = normalize_cert_verify_config cfg real_name in
    if is_empty c.mode then none else some (verify_connection c)
