-- ===== src/Net/Address/HostPort.antt =====
-- Hosts and ports, joined and split.
use sni_shaper_linux.Prelude.{
  ℕ, suc, ◌+◌, ◌-◌, ◌≡◌, ◌∙◌, refl, sym, ap, true, false, ◌||◌, none, some, [], ◌∷◌, ◌++◌, arith,
  if◌then◌else◌, length, take, drop, Bool-cases, inl, inr, length-append, append_assoc,
}
use sni_shaper_linux.Text.{Bytes, codes, has_prefix}
use sni_shaper_linux.Net.Address.{
  has_byte, index_byte, last_index_byte, split_end, split_host_port, join_host_port,
}

pub has_byte-append : (s t : Bytes) (c : ℕ) → has_byte (s ++ t) c ≡ (has_byte s c || has_byte t c)
unfolding has_byte
has_byte-append [] t c = refl
has_byte-append (d ∷ s) t c = ground (arith, has_byte-append s t c)

index_byte_at :
    (s t : Bytes) (c : ℕ) → has_byte s c ≡ false → index_byte (s ++ c ∷ t) c ≡ some (length s)
unfolding index_byte has_byte
index_byte_at [] t c h = ground arith
index_byte_at (d ∷ s) t c h = ground (arith, index_byte_at s t c)

last_index_none : (t : Bytes) (c : ℕ) → has_byte t c ≡ false → last_index_byte t c ≡ none
unfolding last_index_byte has_byte
last_index_none [] c h = refl
last_index_none (d ∷ t) c h = ground (arith, last_index_none t c)

pub last_index_at :
    (s t : Bytes) (c : ℕ) → has_byte t c ≡ false → last_index_byte (s ++ c ∷ t) c ≡ some (length s)
unfolding last_index_byte
last_index_at [] t c h = ground (arith, last_index_none t c h)
last_index_at (d ∷ s) t c h = rw (last_index_at s t c h)

take_front : (s t : Bytes) → take (length s) (s ++ t) ≡ s
take_front [] t = refl
take_front (c ∷ s) t = rw (take_front s t)

drop_front : (s t : Bytes) → drop (length s) (s ++ t) ≡ t
drop_front [] t = refl
drop_front (c ∷ s) t = drop_front s t

drop_behind : (s t : Bytes) (c : ℕ) → drop (length s + 1) (s ++ c ∷ t) ≡ t
drop_behind [] t c = refl
drop_behind (d ∷ s) t c =
    let e : length (d ∷ s) + 1 ≡ suc (length s + 1) = omega arith in rw e (drop_behind s t c)

-- A text with neither bracket.
abbrev pub IsUnbracketed : Bytes → Type 0
IsUnbracketed s = (has_byte s b'[' ≡ false) × (has_byte s b']' ≡ false)

no_bracket_front :
    (host port : Bytes)
    → has_byte host b'[' ≡ false
    → has_prefix (host ++ b':' ∷ port) (codes "[") ≡ false
unfolding has_byte has_prefix
no_bracket_front [] port h = refl
no_bracket_front (c ∷ host) port h = ground arith

split_end_plain :
    (host port : Bytes)
    → IsUnbracketed host
    → IsUnbracketed port
    → split_end (host ++ b':' ∷ port) host 0 0 (length host) ≡ some (host, port)
unfolding split_end has_byte
split_end_plain host port hb pb = ground (
  arith,
  has_byte-append host (b':' ∷ port) b'[',
  has_byte-append host (b':' ∷ port) b']',
  drop_behind host port b':',
)

pub split_of_plain :
    (s : Bytes) (i : ℕ)
    → last_index_byte s b':' ≡ some i
    → has_prefix s (codes "[") ≡ false
    → split_host_port s ≡ (if has_byte (take i s) b':' then none else split_end s (take i s) 0 0 i)
unfolding split_host_port
split_of_plain s i e p = ground arith

-- No colon, no port.
pub split_no_colon : (s : Bytes) → last_index_byte s b':' ≡ none → split_host_port s ≡ none
unfolding split_host_port
split_no_colon s e = ground arith

split_of_bracket :
    (s : Bytes) (i e : ℕ)
    → last_index_byte s b':' ≡ some i
    → has_prefix s (codes "[") ≡ true
    → index_byte s b']' ≡ some e
    → e + 1 ≡ i
    → split_host_port s ≡ split_end s (take (e - 1) (drop 1 s)) 1 (e + 1) i
unfolding split_host_port
split_of_bracket s i e ei p ee h = ground arith

-- A text with no bracket, cut at its last colon.
pub split_plain :
    (host port : Bytes)
    → IsUnbracketed host
    → IsUnbracketed port
    → has_byte port b':' ≡ false
    → split_host_port (host ++ b':' ∷ port)
      ≡ (if has_byte host b':' then none else some (host, port))
split_plain host port hb pb pc =
    let front : take (length host) (host ++ b':' ∷ port) ≡ host = take_front host (b':' ∷ port) in
    let cut = split_end_plain host port hb pb in
    split_of_plain (host ++ b':' ∷ port) (length host) (last_index_at host port b':' pc)
      (no_bracket_front host port hb.0)
    ∙ rw (front, cut)

module _ (host port : Bytes) (hb : IsUnbracketed host) (pb : IsUnbracketed port)
    (pc : has_byte port b':' ≡ false) where
  abbrev bracketed : Bytes
  bracketed = b'[' ∷ (host ++ b']' ∷ b':' ∷ port)

  regrouped : bracketed ≡ (b'[' ∷ (host ++ b']' ∷ [])) ++ b':' ∷ port
  regrouped = ap (λ s. b'[' ∷ s) (sym (append_assoc host (b']' ∷ []) (b':' ∷ port)))

  last_colon : last_index_byte bracketed b':' ≡ some (length host + 2)
  last_colon =
      ap (λ s. last_index_byte s b':') regrouped
      ∙ last_index_at (b'[' ∷ (host ++ b']' ∷ [])) port b':' pc
      ∙ ap some (omega (arith, length-append host (b']' ∷ [])))

  close_bracket : index_byte bracketed b']' ≡ some (length host + 1)
  close_bracket =
      index_byte_at (b'[' ∷ host) (b':' ∷ port) b']' (unfold has_byte in ground arith)
      ∙ ap some (omega arith)

  behind_host : (e : ℕ) → e ≡ length host + 2 → drop e bracketed ≡ b':' ∷ port
  behind_host e h =
      let n : e ≡ length (b'[' ∷ host) + 1 = omega arith in
      rw n (drop_behind (b'[' ∷ host) (b':' ∷ port) b']')

  behind_colon : (i : ℕ) → i ≡ length host + 3 → drop i bracketed ≡ port
  behind_colon i h =
      let n : i ≡ length (b'[' ∷ (host ++ b']' ∷ [])) + 1 =
        omega (arith, length-append host (b']' ∷ [])) in
      rw (regrouped, n) (drop_behind (b'[' ∷ (host ++ b']' ∷ [])) port b':')

  split_end-bracketed :
      (e i : ℕ)
      → e ≡ length host + 2
      → i ≡ length host + 2
      → split_end bracketed host 1 e i ≡ some (host, port)
  unfolding split_end has_byte
  split_end-bracketed e i he hi = ground (
    arith,
    behind_host e he,
    behind_colon (i + 1) (omega arith),
    has_byte-append host (b']' ∷ b':' ∷ port) b'[',
  )

  split_whole : split_host_port bracketed ≡ some (host, port)
  split_whole =
      let front : take (length host + 1 - 1) (drop 1 bracketed) ≡ host =
        let n : length host + 1 - 1 ≡ length host = omega arith in
        rw n (take_front host (b']' ∷ b':' ∷ port)) in
      split_of_bracket bracketed (length host + 2) (length host + 1) last_colon
        (unfold has_prefix in refl) close_bracket (omega arith)
      ∙ rw front
          (split_end-bracketed (length host + 1 + 1) (length host + 2) (omega arith) (omega arith))

-- What `JoinHostPort` joins, `SplitHostPort` takes apart again, for a host with no bracket and a port
-- with neither bracket nor colon.
pub split_host_port-join_host_port :
    (host port : Bytes)
    → IsUnbracketed host
    → IsUnbracketed port
    → has_byte port b':' ≡ false
    → split_host_port (join_host_port host port) ≡ some (host, port)
unfolding join_host_port
split_host_port-join_host_port host port hb pb pc = elim (Bool-cases (has_byte host b':')) [
  | inl colon ↦ rw colon (split_whole host port hb pb pc)
  | inr plain ↦ rw plain (split_plain host port hb pb pc ∙ rw plain)
]
