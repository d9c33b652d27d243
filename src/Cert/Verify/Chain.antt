-- ===== src/Cert/Verify/Chain.antt =====
-- What a connection that is accepted has passed.
use sni_shaper_linux.Prelude.{
  ◌≡◌, refl, ap, ◌∙◌, ◌⊎◌, inl, inr, Bool, true, false, Option, none, some, List, [], ◌∷◌, arith,
  Bool-cases,
}
use sni_shaper_linux.Text.{Bytes, codes, str_eq, str_eq_iff}
use sni_shaper_linux.Rules.Types.{CertVerifyConfig}
use sni_shaper_linux.Cert.Verify.{
  Certificate, ChainResult, valid, unknown_authority, other_error, names_mismatch,
  suffixes_mismatch, spki_mismatch, ConnectionState, VerifyError, matches_allowed_names,
  matches_allowed_suffixes, matches_spki, maybe_ignore_unknown_authority, and_then, verify_leaf,
  verify_connection,
}

-- A chain that is valid, or one of an authority that is not known where that is allowed.
abbrev pub IsTrusted : CertVerifyConfig → ChainResult → Type 0
IsTrusted cfg r = (r ≡ valid) ⊎ ((r ≡ unknown_authority) × (cfg.allow_unknown_authority ≡ true))

trusted :
    (cfg : CertVerifyConfig) (r : ChainResult)
    → maybe_ignore_unknown_authority r cfg ≡ none
    → IsTrusted cfg r
unfolding maybe_ignore_unknown_authority
trusted cfg valid h = inl refl
trusted cfg unknown_authority h = inr (refl, ground arith)
trusted cfg other_error h = ground arith

-- What is asked of the leaf, by the mode.
abbrev pub IsPinned : CertVerifyConfig → Certificate → Type 0
IsPinned cfg leaf =
    (str_eq cfg.mode (codes "allow_names") ≡ true → matches_allowed_names leaf cfg.names ≡ true)
    × ((str_eq cfg.mode (codes "allow_suffixes") ≡ true
          → matches_allowed_suffixes leaf cfg.suffixes ≡ true)
        × (str_eq cfg.mode (codes "allow_spki") ≡ true → matches_spki leaf cfg.spki_sha256 ≡ true))

-- A mode is no other one.
other_mode : (m a b : Bytes) → str_eq m a ≡ true → str_eq a b ≡ false → str_eq m b ≡ false
other_mode m a b h d = ap (λ x. str_eq x b) ((str_eq_iff m a).0 h) ∙ d

first_of_both :
    (chain : Option VerifyError) (b : Bool) (e : VerifyError)
    → and_then chain b e ≡ none
    → (chain ≡ none) × (b ≡ true)
first_of_both none true e h = (refl, refl)
first_of_both none false e h = ground arith
first_of_both (some x) b e h = ground arith

leaf-IsTrusted :
    (cfg : CertVerifyConfig) (verify_chain : Bool → ChainResult) (leaf : Certificate)
    → verify_leaf cfg verify_chain leaf ≡ none
    → IsTrusted cfg (verify_chain (str_eq cfg.mode (codes "strict_real")))
unfolding verify_leaf
leaf-IsTrusted cfg verify_chain leaf h =
    let chain = maybe_ignore_unknown_authority (verify_chain false) cfg in
    elim (Bool-cases (str_eq cfg.mode (codes "strict_real"))) [
      | inl e ↦ rw e (trusted cfg (verify_chain true) (ground arith))
      | inr e ↦ rw e (
          trusted cfg (verify_chain false) (
            ground (
              arith,
              first_of_both chain (matches_allowed_names leaf cfg.names) names_mismatch,
              first_of_both chain (matches_allowed_suffixes leaf cfg.suffixes) suffixes_mismatch,
              first_of_both chain (matches_spki leaf cfg.spki_sha256) spki_mismatch,
            )))
    ]

leaf-IsPinned :
    (cfg : CertVerifyConfig) (verify_chain : Bool → ChainResult) (leaf : Certificate)
    → verify_leaf cfg verify_chain leaf ≡ none
    → IsPinned cfg leaf
unfolding verify_leaf str_eq
leaf-IsPinned cfg verify_chain leaf h =
    let chain = maybe_ignore_unknown_authority (verify_chain false) cfg in
    (
      λ e. ground (
        arith,
        e,
        other_mode cfg.mode (codes "allow_names") (codes "strict_real") e refl,
        other_mode cfg.mode (codes "allow_names") (codes "chain_only") e refl,
        first_of_both chain (matches_allowed_names leaf cfg.names) names_mismatch,
      ),
      (
        λ e. ground (
          arith,
          e,
          other_mode cfg.mode (codes "allow_suffixes") (codes "strict_real") e refl,
          other_mode cfg.mode (codes "allow_suffixes") (codes "chain_only") e refl,
          other_mode cfg.mode (codes "allow_suffixes") (codes "allow_names") e refl,
          first_of_both chain (matches_allowed_suffixes leaf cfg.suffixes) suffixes_mismatch,
        ),
        λ e. ground (
          arith,
          e,
          other_mode cfg.mode (codes "allow_spki") (codes "strict_real") e refl,
          other_mode cfg.mode (codes "allow_spki") (codes "chain_only") e refl,
          other_mode cfg.mode (codes "allow_spki") (codes "allow_names") e refl,
          other_mode cfg.mode (codes "allow_spki") (codes "allow_suffixes") e refl,
          first_of_both chain (matches_spki leaf cfg.spki_sha256) spki_mismatch,
        ),
      ),
    )

passed :
    (cfg : CertVerifyConfig) (cs : ConnectionState) (certs : List Certificate)
    → cs.peer_certificates ≡ certs
    → verify_connection cfg cs ≡ none
    → (leaf : Certificate) × ((rest : List Certificate) × ((cs.peer_certificates ≡ leaf ∷ rest)
          × (IsTrusted cfg (cs.verify_chain (str_eq cfg.mode (codes "strict_real")))
              × IsPinned cfg leaf)))
unfolding verify_connection
passed cfg cs [] e h = ground (arith, e)
passed cfg cs (leaf ∷ rest) e h =
    let ok : verify_leaf cfg cs.verify_chain leaf ≡ none = ground (arith, e) in
    (
      leaf,
      (
        rest,
        (
          e,
          (leaf-IsTrusted cfg cs.verify_chain leaf ok, leaf-IsPinned cfg cs.verify_chain leaf ok),
        ),
      ),
    )

-- A connection that passes the verification sent a leaf certificate. Its chain is trusted, with the
-- name in it where the mode is `strict_real`, and the leaf passes the list that the mode names.
pub verify_connection_lem :
    (cfg : CertVerifyConfig) (cs : ConnectionState)
    → verify_connection cfg cs ≡ none
    → (leaf : Certificate) × ((rest : List Certificate) × ((cs.peer_certificates ≡ leaf ∷ rest)
          × (IsTrusted cfg (cs.verify_chain (str_eq cfg.mode (codes "strict_real")))
              × IsPinned cfg leaf)))
verify_connection_lem cfg cs h = passed cfg cs cs.peer_certificates refl h
