-- ===== src/Cert/Client.antt =====
-- proxy/proxy.go, `GetUConn` and its helpers: the configuration of a TLS connection to an upstream. Whether
-- the user lets a host pass unverified (`certBypassMap`) is the parameter `bypassed`. The presets of
-- uTLS are outside: which of them is taken is a field.
pub mod Checks
use sni_shaper_linux.Prelude.{
  Bool, true, false, not, ◌||◌, Option, none, some, List, [], ◌∷◌, if◌then◌else◌,
}
use sni_shaper_linux.Text.{Bytes, codes, str_eq, is_empty, trim_space, to_lower}
use sni_shaper_linux.Rules.Types.{Rule, CertVerifyConfig}
use sni_shaper_linux.Net.Address.{normalize_host}
use sni_shaper_linux.Cert.Verify.{ConnectionState, VerifyError, build_verify_connection}

pub data ClientHelloId : Type 0 where
  firefox_120 chrome_120 : ClientHelloId

-- `strings.EqualFold(strings.TrimSpace(alpn), name)`, for a name in lower case
abbrev pub asks_for : Bytes → Bytes → Bool
asks_for alpn name = str_eq (to_lower (trim_space alpn)) name

unfoldable pub choose_utls_client_hello_id : Bytes → ClientHelloId
choose_utls_client_hello_id alpn =
    if asks_for alpn (codes "http/1.1") then firefox_120 else chrome_120

-- What the client is offered, by what the upstream agreed on.
unfoldable pub next_protos_for_negotiated_alpn : Bytes → List Bytes
next_protos_for_negotiated_alpn alpn =
    if asks_for alpn (codes "h2") then codes "h2" ∷ [] else codes "http/1.1" ∷ []

-- The name "*" of `InsecureServerNameToVerify` asks for a chain whatever its names: `any_name`.
pub record ClientConfig : Type 0 where
  pub server_name : Bytes
  pub skip_verify : Bool
  pub verify : Option (ConnectionState → Option VerifyError)
  pub ech : Bytes
  pub next_protos : List Bytes
  pub any_name : Bool
  pub client_hello : ClientHelloId

-- The checks, as the user's bypass leaves them.
abbrev pub Checks : Type 0
Checks = Bool × Option (ConnectionState → Option VerifyError)

abbrev pub bypass : Bool → Checks → Checks
bypass true checks = (true, none)
bypass false checks = checks

-- With a configuration of ECH the chain is always verified, and nothing else.
abbrev pub with_ech : Bool → Checks → Checks
with_ech true (skip, verify) = (skip, verify)
with_ech false checks = (false, none)

-- The name of the handshake.
abbrev pub handshake_name : Bytes → Bytes → Bytes → Bytes
handshake_name ech sni verify_name =
    if is_empty ech then (if is_empty sni then verify_name else sni) else verify_name

unfoldable pub get_uconn :
    (Bytes → Bool) → Bytes → Bytes → CertVerifyConfig → Bool → Bytes → Bytes → ClientConfig
unfolding choose_utls_client_hello_id
get_uconn bypassed sni verify_name cert_verify allow_insecure alpn ech =
    let checks : Checks = with_ech (is_empty ech) (
      bypass (bypassed (normalize_host verify_name)) (
        if is_empty cert_verify.mode then allow_insecure else true,
        build_verify_connection verify_name cert_verify,
      )) in
    record {
      server_name = handshake_name ech sni verify_name;
      skip_verify = checks.0;
      verify = checks.1;
      ech = ech;
      next_protos =
          if asks_for alpn (codes "http/1.1")
          then codes "http/1.1" ∷ []
          else codes "h2" ∷ codes "http/1.1" ∷ [];
      any_name = not (is_empty ech);
      client_hello = choose_utls_client_hello_id alpn;
    }

-- What `establishUpstreamConn` asks for: without ECH it allows an insecure connection.
unfoldable pub upstream_client :
    (Bytes → Bool) → Bytes → Bytes → Rule → Bytes → Bytes → ClientConfig
unfolding get_uconn
upstream_client bypassed sni_host host rule alpn ech =
    get_uconn bypassed sni_host host rule.cert_verify (is_empty ech) alpn ech
