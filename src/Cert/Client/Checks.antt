-- ===== src/Cert/Client/Checks.antt =====
-- Which connections to an upstream are made without any verification of its certificate.
use sni_shaper_linux.Prelude.{
  ◌≡◌, refl, Bool, true, false, ◌&&◌, ◌||◌, Option, none, some, if◌then◌else◌,
}
use sni_shaper_linux.Text.{Bytes, is_empty}
use sni_shaper_linux.Rules.Types.{Rule}
use sni_shaper_linux.Net.Address.{normalize_host}
use sni_shaper_linux.Cert.Verify.{ConnectionState, VerifyError, build_verify_connection}
use sni_shaper_linux.Cert.Client.{
  ClientConfig, Checks, bypass, with_ech, get_uconn, upstream_client,
}

abbrev pub is_unset : Option (ConnectionState → Option VerifyError) → Bool
is_unset none = true
is_unset (some check) = false

-- The chain is not verified, and nothing is in its place.
abbrev pub unverified : ClientConfig → Bool
unverified c = c.skip_verify && is_unset c.verify

abbrev unchecked : Checks → Bool
unchecked (skip, verify) = skip && is_unset verify

unchecked_lem :
    (no_ech bypassed moded : Bool) (v : Option (ConnectionState → Option VerifyError))
    → unchecked (with_ech no_ech (bypass bypassed (if moded then no_ech else true, v)))
      ≡ (no_ech && (bypassed || is_unset v))
unchecked_lem true true moded v = refl
unchecked_lem true false true v = refl
unchecked_lem true false false v = refl
unchecked_lem false bypassed moded v = refl

-- The certificate of an upstream is not verified at all exactly where there is no configuration of ECH and
-- either the user lets the host pass, or the rule asks for no verification of its own.
pub upstream_client-unverified :
    (bypassed : Bytes → Bool) (sni_host host : Bytes) (rule : Rule) (alpn ech : Bytes)
    → unverified (upstream_client bypassed sni_host host rule alpn ech) ≡ (
        is_empty ech
        && (bypassed (normalize_host host)
            || is_unset (build_verify_connection host rule.cert_verify)))
unfolding upstream_client get_uconn
upstream_client-unverified bypassed sni_host host rule alpn ech =
    unchecked_lem (is_empty ech) (bypassed (normalize_host host)) (is_empty rule.cert_verify.mode)
      (build_verify_connection host rule.cert_verify)
