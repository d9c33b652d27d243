-- ===== src/Tls/Fragment.antt =====
-- proxy/tls_fragment.go, `findLastDot`, `splitAndAppend`, `makeRecord` and `sendRecords`: the
-- ClientHello cut at the last dot of the server name, and sent as several TLS records.
pub mod Cut
pub mod Split
pub mod Reassembly
pub mod Wire
use sni_shaper_linux.Prelude.{
  ℕ, zero, suc, ◌+◌, ◌-◌, ◌*◌, ◌/◌, ◌%◌, Bool, true, false, not, ◌&&◌, ◌||◌, Option, none, some,
  List, [], ◌∷◌, ◌++◌, map, ltb, leb, ◌==◌, if◌then◌else◌, length, take, drop, set, concat, Outcome,
  ok, panic, ◌>>=◌, ◌>>◌, at, slice,
}
use sni_shaper_linux.Text.{Bytes}

-- A call that returns no error of its own.
abbrev pub Call : Type 0 → Type 0
Call A = Outcome ⊥ A

-- The loop of `findLastDot`, from `pos + k` down to `pos`.
last_dot : Bytes → ℕ → ℕ → Call (Option ℕ)
last_dot d pos zero = do c ← at 0 d pos; ok (if c == b'.' then some pos else none)
last_dot d pos (suc k) = do
  c ← at 0 d (pos + suc k)
  let rest = last_dot d pos k
  if c == b'.' then ok (some (pos + suc k)) else rest

-- The offset to cut at, and whether it is that of a dot.
unfoldable pub find_last_dot : Bytes → ℕ → ℕ → Call (ℕ × Bool)
unfolding last_dot
find_last_dot d pos len =
    last_dot d pos len >>= λ r. ok (elim r [ some i ↦ (i, true) | none ↦ (len / 2 + pos, false) ])

-- The length field is a uint16.
unfoldable pub make_record : Bytes → Bytes → Bytes
make_record header payload =
    let n = length payload % 65536 in
    take 3 (header ++ 0 ∷ 0 ∷ 0 ∷ []) ++ (n / 256) ∷ (n % 256) ∷ payload

-- A part, as a record if there is a header.
abbrev pub wrap_part : Option Bytes → Bytes → Bytes
wrap_part none part = part
wrap_part (some header) part = make_record header part

-- `for i := 0; i < n; i++`, with `k` rounds left behind round `i`: the last part takes the rest.
pub split_loop : Bytes → ℕ → ℕ → ℕ → List Bytes
split_loop d base i zero = drop (i * base) d ∷ []
split_loop d base i (suc k) = take base (drop (i * base) d) ∷ split_loop d base (i + 1) k

-- The parts that `splitAndAppend` cuts.
unfoldable pub split_parts : Bytes → ℕ → List Bytes
unfolding split_loop
split_parts d zero = []
split_parts d (suc k) =
    if suc k == 1 || ltb (length d) (suc k) then d ∷ [] else split_loop d (length d / suc k) 0 k

unfoldable pub split_and_append : Bytes → Option Bytes → ℕ → List Bytes → List Bytes
unfolding split_parts make_record
split_and_append d header n result = result ++ map (wrap_part header) (split_parts d n)

-- What `sendRecords` does to the connection: a write, a send whose last byte is out of band, a
-- pause.
pub data Send : Type 0 where
  write : Bytes → Send
  urgent : Bytes → ℕ → Send
  sleep : ℕ → Send

-- `segments`: -1, or a number. No other negative number is modelled.
pub data Segments : Type 0 where
  per_record : Segments
  count : ℕ → Segments

-- `if interval > 0 { time.Sleep(interval) }`
abbrev pub pause : ℕ → List Send
pause interval = if ltb 0 interval then sleep interval ∷ [] else []

-- The two sends of `oobex` at the head of a buffer, and what is left of it.
urgent_head : Bytes → ℕ → Call (List Send × Bytes)
urgent_head h interval = do
  a ← slice h 0 15
  x ← at 0 h 15
  b ← slice h 16 20
  rest ← slice h 20 (length h)
  ok (urgent a x ∷ urgent b 0 ∷ pause interval, rest)

maybe_urgent_head : Bool → Bytes → ℕ → Call (List Send × Bytes)
unfolding urgent_head
maybe_urgent_head oobex h interval = if oobex then urgent_head h interval else ok ([], h)

-- A loop that writes packets, the first of them out of band under `oob`.
send_packets : Bool → ℕ → List Bytes → List Send
send_packets oob interval [] = []
send_packets oob interval (p ∷ ps) =
    (if oob then urgent p 0 else write p) ∷ pause interval ++ send_packets false interval ps

-- `findLastDot(clientHello, offset-20, length)`, where the start may be negative.
cut_of_single : Bytes → ℕ → ℕ → Call ℕ
unfolding find_last_dot
cut_of_single h offset len =
    if leb 20 offset
    then (find_last_dot h (offset - 20) len >>= λ (cut, _). ok cut)
    else if ltb (offset + len) 20
    then panic
    else last_dot h 0 (offset + len - 20) >>= λ r. elim r [ some i ↦ ok i | none ↦ panic ]

-- The branch `records == 1`. The packets' capacity -1 is a panic.
single_packets : Bytes → ℕ → ℕ → Segments → Bool → ℕ → Call (List Send)
unfolding cut_of_single send_packets split_and_append
single_packets h offset len per_record oob interval = panic
single_packets h offset len (count n) oob interval = if n == 1 then ok (write h ∷ []) else do
  cut ← cut_of_single h offset len
  a ← slice h 0 cut
  b ← slice h cut (length h)
  let packets : List Bytes = split_and_append a none (n / 2) []
  ok (send_packets oob interval (split_and_append b none (n - n / 2) packets))

send_single : Bytes → ℕ → ℕ → Segments → Bool → Bool → ℕ → Call (List Send)
unfolding maybe_urgent_head single_packets
send_single h offset len segments oob oobex interval = do
  (early, h') ← maybe_urgent_head oobex h interval
  late ← single_packets h' offset len segments oob interval
  ok (early ++ late)

-- The records to send.
unfoldable pub make_chunks : Bytes → ℕ → ℕ → ℕ → Call (List Bytes)
unfolding find_last_dot split_and_append
make_chunks h offset len records = do
  (cut, _) ← find_last_dot h offset len
  header ← slice h 0 3
  left ← slice h 5 cut
  right ← slice h cut (length h)
  let chunks : List Bytes = split_and_append left (some header) (records / 2) []
  ok (split_and_append right (some header) (records - records / 2) chunks)

-- A chunk whose own last byte goes out of band.
urgent_whole : Bytes → Call (List Send)
urgent_whole c = do a ← slice c 0 (length c - 1); x ← at 0 c (length c - 1); ok (urgent a x ∷ [])

-- The first chunk under `segments == -1`: nothing is sent unless `oob` or `oobex` is set.
first_chunk : Bytes → Bool → Bool → ℕ → Call (List Send)
unfolding urgent_whole
first_chunk c oob oobex interval =
    if oob then ok (urgent c 0 ∷ pause interval) else if oobex then urgent_whole c else ok []

plain_chunks : ℕ → List Bytes → List Send
plain_chunks interval [] = []
plain_chunks interval (c ∷ cs) = write c ∷ pause interval ++ plain_chunks interval cs

-- The chunks behind the first one.
later_chunks : Bool → ℕ → List Bytes → List Send
unfolding plain_chunks
later_chunks oobex interval [] = []
later_chunks oobex interval (c ∷ cs) =
    if oobex then urgent c 0 ∷ plain_chunks interval cs else plain_chunks interval (c ∷ cs)

send_chunks : List Bytes → Bool → Bool → ℕ → Call (List Send)
unfolding first_chunk later_chunks
send_chunks [] oob oobex interval = ok []
send_chunks (c ∷ cs) oob oobex interval = do
  first ← first_chunk c oob oobex interval
  ok (first ++ later_chunks oobex interval cs)

-- The records, merged and cut into `n` segments. No segment is a division by zero.
segment_loop : Bytes → ℕ → Bool → ℕ → Call (List Send)
unfolding send_packets split_loop
segment_loop merged zero oob interval = panic
segment_loop merged (suc k) oob interval =
    ok (send_packets oob interval (split_loop merged (length merged / suc k) 0 k))

send_merged : Bytes → ℕ → Bool → Bool → ℕ → Call (List Send)
unfolding maybe_urgent_head segment_loop
send_merged chunks n oob oobex interval = do
  (early, merged) ← maybe_urgent_head oobex chunks interval
  late ←
      if n == 1 || leb (length merged) n
      then ok (write merged ∷ [])
      else segment_loop merged n oob interval
  ok (early ++ late)

pub send_multi : Bytes → ℕ → ℕ → ℕ → Segments → Bool → Bool → ℕ → Call (List Send)
unfolding make_chunks send_chunks send_merged
send_multi h offset len records per_record oob oobex interval = do
  chunks ← make_chunks h offset len records
  send_chunks chunks oob oobex interval
send_multi h offset len records (count n) oob oobex interval = do
  chunks ← make_chunks h offset len records
  send_merged (concat chunks) n oob oobex interval

-- `clientHello[2] = 0x04`
unfoldable pub mod_minor_version : Bool → Bytes → Bytes
mod_minor_version modify h = if modify && leb 3 (length h) then set h 2 4 else h

-- The parameters that `handleTLSFragment` passes on.
pub record SendConfig : Type 0 where
  pub records : ℕ
  pub segments : Segments
  pub oob : Bool
  pub oobex : Bool
  pub mod_minor : Bool
  pub interval : ℕ

-- In milliseconds.
abbrev pub default_config : SendConfig
default_config = record {
  records = 4;
  segments = count 1;
  oob = false;
  oobex = false;
  mod_minor = true;
  interval = 50;
}

unfoldable pub send_records : Bytes → ℕ → ℕ → SendConfig → Call (List Send)
unfolding mod_minor_version send_single send_multi
send_records h offset len c =
    let h' = mod_minor_version c.mod_minor h in
    if c.records == 1
    then send_single h' offset len c.segments c.oob c.oobex c.interval
    else send_multi h' offset len c.records c.segments c.oob c.oobex c.interval
