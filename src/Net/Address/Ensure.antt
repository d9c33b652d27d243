-- ===== src/Net/Address/Ensure.antt =====
-- `ensureAddrWithPort` gives an address with a port.
use mathlib.Core.Option.{some-injective}
use mathlib.Core.Path.{subst}
use sni_shaper_linux.Prelude.{
  ℕ, ◌≡◌, ◌∙◌, refl, sym, ap, false, none, some, [], ◌∷◌, ◌++◌, arith, if◌then◌else◌, Bool-cases,
  Option-cases, inl, inr,
}
use sni_shaper_linux.Text.{Bytes, is_empty, has_prefix, trim_space}
use sni_shaper_linux.Net.Address.{
  has_byte, last_index_byte, split_host_port, join_host_port, in_brackets, ensure_addr_with_port,
}
use sni_shaper_linux.Net.Address.HostPort.{
  IsUnbracketed, has_byte-append, split_no_colon, split_plain, split_host_port-join_host_port,
}

no_index : (s : Bytes) (c : ℕ) → last_index_byte s c ≡ none → has_byte s c ≡ false
unfolding last_index_byte has_byte
no_index [] c h = refl
no_index (d ∷ s) c h = ground (arith, no_index s c)

last_index_parts :
    (s : Bytes) (c i : ℕ)
    → last_index_byte s c ≡ some i
    → (q : Bytes) × (t : Bytes) × (s ≡ q ++ c ∷ t) × (has_byte t c ≡ false)
unfolding last_index_byte
last_index_parts [] c i h = cc
last_index_parts (d ∷ s) c i h = elim (Option-cases (last_index_byte s c)) [
  | inl e ↦ let same : d ≡ c = ground arith in ([], s, ap (λ x. x ∷ s) same, no_index s c e)
  | inr found ↦
      let (j, e) = found in
      let (q, t, eq, h') = last_index_parts s c j e in (d ∷ q, t, ap (λ x. d ∷ x) eq, h')
]

-- A host, and a port that is not empty and has no colon, neither with a bracket.
abbrev pub IsGoodPair : Bytes × Bytes → Type 0
IsGoodPair (host, port) = IsUnbracketed host × IsUnbracketed port × (has_byte port b':' ≡ false)

parts-IsUnbracketed :
    (q t : Bytes) → IsUnbracketed (q ++ b':' ∷ t) → IsUnbracketed q × IsUnbracketed t
unfolding has_byte
parts-IsUnbracketed q t (h, k) =
    ground (arith, has_byte-append q (b':' ∷ t) b'[', has_byte-append q (b':' ∷ t) b']')

-- What a split of an address with no bracket gives.
split-good :
    (s : Bytes) (r : Bytes × Bytes) → IsUnbracketed s → split_host_port s ≡ some r → IsGoodPair r
split-good s r ub h = elim (Option-cases (last_index_byte s b':')) [
  | inl e ↦ absurd (ground (arith, split_no_colon s e))
  | inr found ↦
      let (i, e) = found in
      let (q, t, eq, tc) = last_index_parts s b':' i e in
      let (qb, tb) = parts-IsUnbracketed q t (subst IsUnbracketed eq ub) in
      let cut = ap split_host_port eq ∙ split_plain q t qb tb tc in
      elim (Bool-cases (has_byte q b':')) [
        | inl many ↦ absurd (ground (arith, cut))
        | inr one ↦
            let taken : split_host_port s ≡ some (q, t) = cut ∙ rw one in
            subst IsGoodPair (some-injective (q, t) r (sym taken ∙ h)) (qb, tb, tc)
      ]
]

-- An address that `SplitHostPort` takes apart, with a port that is not empty.
abbrev pub HasPort : Bytes → Type 0
HasPort s =
    (host : Bytes) × (port : Bytes) × (split_host_port s ≡ some (host, port))
    × (is_empty port ≡ false)

joined-HasPort :
    (host port : Bytes)
    → IsGoodPair (host, port)
    → is_empty port ≡ false
    → HasPort (join_host_port host port)
joined-HasPort host port (hb, pb, pc) filled =
    (host, port, split_host_port-join_host_port host port hb pb pc, filled)

port_or : Bytes → Bytes → Bytes
port_or port default_port = if is_empty port then default_port else port

not_in_brackets : (s : Bytes) → IsUnbracketed s → in_brackets s ≡ false
unfolding has_byte has_prefix
not_in_brackets [] ub = refl
not_in_brackets (c ∷ s) ub = ground arith

module _ (addr default_port : Bytes) where
  ensured_split :
      (host port : Bytes)
      → is_empty (trim_space addr) ≡ false
      → split_host_port (trim_space addr) ≡ some (host, port)
      → ensure_addr_with_port addr default_port ≡ join_host_port host (port_or port default_port)
  unfolding ensure_addr_with_port port_or
  ensured_split host port filled e = rw (filled, e)

  ensured_whole :
      is_empty (trim_space addr) ≡ false
      → IsUnbracketed (trim_space addr)
      → split_host_port (trim_space addr) ≡ none
      → ensure_addr_with_port addr default_port ≡ join_host_port (trim_space addr) default_port
  unfolding ensure_addr_with_port
  ensured_whole filled ub e = rw (filled, e, not_in_brackets (trim_space addr) ub)

  port_or-good :
      (host port : Bytes)
      → IsGoodPair (host, port)
      → IsGoodPair (host, default_port)
      → is_empty default_port ≡ false
      → IsGoodPair (host, port_or port default_port)
        × (is_empty (port_or port default_port) ≡ false)
  unfolding port_or
  port_or-good host port g d filled = elim (Bool-cases (is_empty port)) [
    | inl none_given ↦ rw none_given (d, filled)
    | inr given ↦ rw given (g, given)
  ]

  -- An address that is not blank and has no bracket is given a port: what `ensure_addr_with_port`
  -- makes of it splits into a host and a port that is not empty, if the default port is not empty and has
  -- neither bracket nor colon.
  pub ensure_addr_with_port-HasPort :
      is_empty (trim_space addr) ≡ false
      → IsUnbracketed (trim_space addr)
      → IsUnbracketed default_port
      → has_byte default_port b':' ≡ false
      → is_empty default_port ≡ false
      → HasPort (ensure_addr_with_port addr default_port)
  ensure_addr_with_port-HasPort filled ub db dc dfilled =
      elim (Option-cases (split_host_port (trim_space addr))) [
        | inl e ↦
            rw (ensured_whole filled ub e)
              (joined-HasPort (trim_space addr) default_port (ub, db, dc) dfilled)
        | inr found ↦
            let ((host, port), e) = found in
            let good = split-good (trim_space addr) (host, port) ub e in
            let (good', filled') = port_or-good host port good (good.0, db, dc) dfilled in
            rw (ensured_split host port filled e)
              (joined-HasPort host (port_or port default_port) good' filled')
      ]
