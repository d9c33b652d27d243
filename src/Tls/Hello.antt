-- ===== src/Tls/Hello.antt =====
-- proxy/tls_fragment.go, `parseClientHello`: where the server name stands in a ClientHello.
-- One function for each stretch of the source, each from an offset to the next one. The partial
-- results that Go returns beside an error are never read, so an error is its message alone.

pub mod Bounds
use sni_shaper_linux.Prelude.{
  ℕ, zero, suc, ◌+◌, ◌-◌, ◌*◌, Bool, true, false, not, ◌&&◌, ◌||◌, Option, none, some, List, ltb,
  leb, ◌==◌, if◌then◌else◌, length, Outcome, ok, err, panic, out_of_fuel, ◌>>=◌, ◌>>◌, reject_if,
  at, slice,
}
use sni_shaper_linux.Text.{Bytes}

pub data HelloError : Type 0 where
  record_too_short record_exceeds_data handshake_too_short not_client_hello : HelloError
  handshake_exceeds_record mandatory_fields end_after_random session_id_exceeds : HelloError
  no_cipher_suites cipher_suites_exceed no_compression compression_exceeds : HelloError
  extensions_exceed extension_exceeds_block malformed_sni sni_list_mismatch : HelloError
  sni_entry_too_short sni_name_type sni_name_exceeds : HelloError

-- `sniPos` is -1 until a server name is found: here `none`.
pub record Hello : Type 0 where
  pub version : Bytes
  pub sni_pos : Option ℕ
  pub sni_len : ℕ
  pub has_key_share : Bool

abbrev pub record_header_len : ℕ
record_header_len = 5

abbrev pub handshake_header_len : ℕ
handshake_header_len = 4

abbrev pub byte_at : Bytes → ℕ → Outcome HelloError ℕ
byte_at d i = at 0 d i

-- `binary.BigEndian.Uint16(data[i:i+2])`
unfoldable pub uint16_at : Bytes → ℕ → Outcome HelloError ℕ
uint16_at d i = do hi ← byte_at d i; lo ← byte_at d (i + 1); ok (hi * 256 + lo)

-- The record header: the length of the record.
record_length : Bytes → Outcome HelloError ℕ
unfolding uint16_at
record_length d = do
  reject_if (ltb (length d) record_header_len) record_too_short
  n ← uint16_at d 3
  reject_if (ltb (length d) (record_header_len + n)) record_exceeds_data
  ok n

-- The handshake header, up to the session id: the two bytes of the version.
client_version : Bytes → ℕ → Outcome HelloError Bytes
client_version d record_len = do
  reject_if (ltb record_len handshake_header_len) handshake_too_short
  t ← byte_at d 5
  reject_if (not (t == 1)) not_client_hello
  a ← byte_at d 6
  b ← byte_at d 7
  c ← byte_at d 8
  let handshake_len : ℕ = a * 65536 + b * 256 + c
  reject_if (ltb record_len (handshake_len + handshake_header_len)) handshake_exceeds_record
  reject_if (ltb handshake_len 35) mandatory_fields
  slice d 9 11

-- Where the session id begins: behind the headers, the version and the random bytes.
abbrev session_offset : ℕ
session_offset = 43

skip_session_id : Bytes → ℕ → Outcome HelloError ℕ
skip_session_id d o = do
  reject_if (leb (length d) o) end_after_random
  n ← byte_at d o
  reject_if (ltb (length d) (o + 1 + n)) session_id_exceeds
  ok (o + 1 + n)

skip_cipher_suites : Bytes → ℕ → Outcome HelloError ℕ
unfolding uint16_at
skip_cipher_suites d o = do
  reject_if (ltb (length d) (o + 2)) no_cipher_suites
  n ← uint16_at d o
  reject_if (ltb (length d) (o + 2 + n)) cipher_suites_exceed
  ok (o + 2 + n)

skip_compression : Bytes → ℕ → Outcome HelloError ℕ
skip_compression d o = do
  reject_if (leb (length d) o) no_compression
  n ← byte_at d o
  reject_if (ltb (length d) (o + 1 + n)) compression_exceeds
  ok (o + 1 + n)

-- The body of a server_name extension: where the name begins, and its length.
server_name : Bytes → ℕ → ℕ → Outcome HelloError (ℕ × ℕ)
unfolding uint16_at
server_name d start len = do
  reject_if (ltb len 2) malformed_sni
  list_len ← uint16_at d start
  reject_if (not (list_len + 2 == len)) sni_list_mismatch
  reject_if (ltb (start + len) (start + 5)) sni_entry_too_short
  name_type ← byte_at d (start + 2)
  reject_if (not (name_type == 0)) sni_name_type
  name_len ← uint16_at d (start + 3)
  reject_if (ltb (start + len) (start + 5 + name_len)) sni_name_exceeds
  ok (start + 5, name_len)

-- A round of the loop over the extensions: whether it returns, the result so far, and the offset
-- of the next extension.
abbrev Round : Type 0
Round = Bool × Hello × ℕ

abbrev found : Option ℕ → Bool
found none = false
found (some p) = true

-- The `server_name` branch of a round.
take_name : Bytes → ℕ → ℕ → Hello → Outcome HelloError Round
take_name d start len h = do
  (p, n) ← server_name d start len
  ok (h.has_key_share, record h { sni_pos = some p; sni_len = n }, start + len)

extension_round : Bytes → ℕ → ℕ → Hello → Outcome HelloError Round
unfolding uint16_at
extension_round d end_ o h = do
  ext_type ← uint16_at d o
  ext_len ← uint16_at d (o + 2)
  let start : ℕ = o + 4
  reject_if (ltb end_ (start + ext_len)) extension_exceeds_block
  let is_share : Bool = ext_type == 0x33
  let h' : Hello = record h { has_key_share = is_share || h.has_key_share }
  if is_share && found h.sni_pos
      then ok (true, h', start + ext_len)
      else if not (found h.sni_pos) && ext_type == 0
      then take_name d start ext_len h'
      else ok (false, h', start + ext_len)

-- `for offset+4 <= extensionsEnd`
extension_loop : ℕ → Bytes → ℕ → ℕ → Hello → Outcome HelloError Hello
extension_loop zero d end_ o h = out_of_fuel
extension_loop (suc f) d end_ o h = elim (leb (o + 4) end_) [
  | true ↦ extension_round d end_ o h >>= λ (returns, h', o').
      let rest = extension_loop f d end_ o' h' in if returns then ok h' else rest
  | false ↦ ok h
]

-- What follows the compression methods. Every extension takes four bytes at least, so the length
-- of the data is fuel enough.
read_extensions : Bytes → ℕ → Hello → Outcome HelloError Hello
unfolding uint16_at
read_extensions d o h = if ltb (length d) (o + 2) then ok h else do
  total ← uint16_at d o
  reject_if (ltb (length d) (o + 2 + total)) extensions_exceed
  extension_loop (length d) d (o + 2 + total) (o + 2) h

unfoldable pub parse_client_hello : Bytes → Outcome HelloError Hello
unfolding record_length client_version skip_session_id skip_cipher_suites skip_compression
    server_name take_name extension_round extension_loop read_extensions
parse_client_hello d = do
  record_len ← record_length d
  version ← client_version d record_len
  after_session ← skip_session_id d session_offset
  after_ciphers ← skip_cipher_suites d after_session
  after_compression ← skip_compression d after_ciphers
  read_extensions d after_compression
      (record { version = version; sni_pos = none; sni_len = 0; has_key_share = false })
