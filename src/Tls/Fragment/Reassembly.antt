-- ===== src/Tls/Fragment/Reassembly.antt =====
-- A peer that reads the records which `sendRecords` writes has the handshake bytes back.
use sni_shaper_linux.Prelude.{
  ℕ, zero, suc, ◌+◌, ◌-◌, ◌*◌, ◌/◌, ◌%◌, ◌≤◌, ◌<◌, ◌≡◌, ◌∙◌, refl, Bool, false, Option, none, some,
  List, [], ◌∷◌, ◌++◌, map, arith, length, take, drop, concat, append-nil, append_assoc,
  take-append-drop, leb, ◌==◌, ◌||◌, if◌then◌else◌, ap, length-append, length-take, length-drop,
  All, All-append, Bool-cases, inl, inr, ok,
}
use sni_shaper_linux.Text.{Bytes}
use sni_shaper_linux.Tls.Fragment.{
  make_record, split_parts, split_and_append, make_chunks, Send, write, urgent, sleep, count,
  send_packets, send_merged, send_multi, find_last_dot, split_loop,
}
use sni_shaper_linux.Tls.Fragment.Cut.{find_last_dot-IsCut, IsCut-bounds}
use sni_shaper_linux.Tls.Fragment.Split.{
  concat-split_parts, length-split_parts-le, split_parts_lengths, concat-split_loop_all, drop-drop,
}

-- The bytes of the stream, in order. An urgent byte is not one of them.
abbrev pub stream : List Send → Bytes
stream [] = []
stream (write b ∷ ss) = b ++ stream ss
stream (urgent b x ∷ ss) = b ++ stream ss
stream (sleep t ∷ ss) = stream ss

abbrev pub put_before : Bytes → Option Bytes → Option Bytes
put_before p none = none
put_before p (some r) = some (p ++ r)

-- A peer reads records: five bytes of header, of which the last two are the length of the payload.
-- The fuel is the number of records that it may read.
unfoldable pub read_records : ℕ → Bytes → Option Bytes
read_records f [] = some []
read_records (suc f) (t ∷ a ∷ b ∷ hi ∷ lo ∷ rest) =
    let n = hi * 256 + lo in
    let later = read_records f (drop n rest) in
    if leb n (length rest) then put_before (take n rest) later else none
read_records f s = none

take-append : (p rest : Bytes) → take (length p) (p ++ rest) ≡ p
take-append [] rest = refl
take-append (c ∷ p) rest = rw (take-append p rest)

drop-append : (p rest : Bytes) → drop (length p) (p ++ rest) ≡ rest
drop-append [] rest = refl
drop-append (c ∷ p) rest = drop-append p rest

module _ (a b c : ℕ) where
  abbrev records_of : List Bytes → Bytes
  records_of ps = concat (map (make_record (a ∷ b ∷ c ∷ [])) ps)

  read_records_step :
      (f : ℕ) (p rest r : Bytes)
      → length p ≤ 65535
      → read_records f rest ≡ some r
      → read_records (suc f) (make_record (a ∷ b ∷ c ∷ []) p ++ rest) ≡ some (p ++ r)
  unfolding read_records make_record
  read_records_step f p rest r h e =
      let n : (length p % 65536 / 256) * 256 + length p % 65536 % 256 ≡ length p = omega arith in
      rw (n, take-append, drop-append, e) (ground (arith, length-append p rest))

  read_records-records_of :
      (f : ℕ) (ps : List Bytes)
      → length ps ≤ f
      → All (λ p. length p ≤ 65535) ps
      → read_records f (records_of ps) ≡ some (concat ps)
  read_records-records_of f [] h fits = unfold read_records in ground arith
  read_records-records_of zero (p ∷ ps) h fits = absurd (omega arith)
  read_records-records_of (suc f) (p ∷ ps) h (hp, hps) =
      read_records_step f p (records_of ps) (concat ps) hp
        (read_records-records_of f ps (omega arith) hps)

stream-send_packets :
    (oob : Bool) (interval : ℕ) (ps : List Bytes)
    → stream (send_packets oob interval ps) ≡ concat ps
unfolding send_packets
stream-send_packets oob interval [] = refl
stream-send_packets oob interval (p ∷ ps) = ground (arith, stream-send_packets false interval ps)

concat-append : (xs ys : List Bytes) → concat (xs ++ ys) ≡ concat xs ++ concat ys
concat-append [] ys = refl
concat-append (x ∷ xs) ys = rw (concat-append xs ys, append_assoc)

map-append : (f : Bytes → Bytes) (xs ys : List Bytes) → map f (xs ++ ys) ≡ map f xs ++ map f ys
map-append f [] ys = refl
map-append f (x ∷ xs) ys = rw (map-append f xs ys)

-- Without out-of-band data, what is sent of the merged records is the merged records.
stream-send_merged :
    (merged : Bytes) (k interval : ℕ) (oob : Bool)
    → (sent : List Send) × (send_merged merged (suc k) oob false interval ≡ ok sent)
      × (stream sent ≡ merged)
unfolding send_merged
stream-send_merged merged k interval oob =
    elim (Bool-cases (suc k == 1 || leb (length merged) (suc k))) [
      | inl whole ↦ (write merged ∷ [], rw whole, append-nil merged)
      | inr cut ↦ (
        send_packets oob interval (split_loop merged (length merged / suc k) 0 k),
        rw cut,
        stream-send_packets oob interval _ ∙ concat-split_loop_all merged (length merged / suc k) k,
      )
    ]

-- The records that carry the parts of `left` and then those of `right`.
chunks_of : Bytes → Bytes → Bytes → ℕ → ℕ → List Bytes
unfolding split_and_append
chunks_of header left right m n =
    split_and_append right (some header) n (split_and_append left (some header) m [])

read_records-chunks_of :
    (a b c : ℕ) (left right : Bytes) (m n f : ℕ)
    → length left ≤ 65535
    → length right ≤ 65535
    → length (split_parts left (suc m) ++ split_parts right (suc n)) ≤ f
    → read_records f (concat (chunks_of (a ∷ b ∷ c ∷ []) left right (suc m) (suc n)))
      ≡ some (left ++ right)
unfolding chunks_of
read_records-chunks_of a b c left right m n f hl hr hf =
    let ps = split_parts left (suc m) ++ split_parts right (suc n) in
    let fits =
      All-append (λ p. length p ≤ 65535) (split_parts left (suc m)) (split_parts right (suc n))
        (split_parts_lengths left (suc m) 65535 hl) (split_parts_lengths right (suc n) 65535 hr) in
    rw (← map-append) (
      read_records-records_of a b c f ps hf fits
      ∙ rw (concat-append, concat-split_parts, concat-split_parts))

take-all : (n : ℕ) (xs : Bytes) → length xs ≤ n → take n xs ≡ xs
take-all zero [] h = refl
take-all zero (x ∷ xs) h = absurd (omega arith)
take-all (suc n) [] h = refl
take-all (suc n) (x ∷ xs) h = rw (take-all n xs (omega arith))

make_chunks-chunks_of :
    (h : Bytes) (offset len r cut : ℕ) (dot : Bool)
    → find_last_dot h offset len ≡ ok (cut, dot)
    → 5 ≤ cut
    → cut ≤ length h
    → make_chunks h offset len (suc (suc r))
      ≡ ok (
          chunks_of
            (take 3 h)
            (take (cut - 5) (drop 5 h))
            (take (length h - cut) (drop cut h))
            (suc (r / 2))
            (suc (r - r / 2)))
unfolding make_chunks chunks_of
make_chunks-chunks_of h offset len r cut dot e lo hi =
    let half : suc (suc r) / 2 ≡ suc (r / 2) = omega arith in
    let other : suc (suc r) - suc (r / 2) ≡ suc (r - r / 2) = omega arith in
    rw (e, half, other) (ground arith)

halves :
    (h : Bytes) (cut : ℕ)
    → 5 ≤ cut
    → take (cut - 5) (drop 5 h) ++ take (length h - cut) (drop cut h) ≡ drop 5 h
halves h cut lo =
    let whole : take (length h - cut) (drop cut h) ≡ drop cut h =
      take-all (length h - cut) (drop cut h) (omega (arith, length-drop cut h)) in
    rw (whole, ← drop-drop 5 (cut - 5) cut h (omega arith)) (take-append-drop (cut - 5) (drop 5 h))

three_bytes : (h : Bytes) → 3 ≤ length h → (a : ℕ) × (b : ℕ) × (c : ℕ) × (take 3 h ≡ a ∷ b ∷ c ∷ [])
three_bytes [] l = absurd (omega arith)
three_bytes (a ∷ []) l = absurd (omega arith)
three_bytes (a ∷ b ∷ []) l = absurd (omega arith)
three_bytes (a ∷ b ∷ c ∷ h) l = (a, b, c, refl)

-- `sendRecords` with the modified ClientHello in hand, in its branch for several records.
pub read_records-send_multi :
    (h : Bytes) (offset len r k interval : ℕ) (oob : Bool)
    → 5 ≤ offset
    → offset + len < length h
    → length h ≤ 65540
    → (sent : List Send) × (send_multi h offset len (suc (suc r)) (count (suc k)) oob false interval
        ≡ ok sent)
      × (read_records (suc (suc r)) (stream sent) ≡ some (drop 5 h))
unfolding send_multi
read_records-send_multi h offset len r k interval oob lo fits small =
    let ((cut, dot), cut_eq, is_cut) = find_last_dot-IsCut h offset len fits in
    let (above, below) = IsCut-bounds h offset len cut dot is_cut in
    let (a, b, c, header_eq) = three_bytes h (omega arith) in
    let left = take (cut - 5) (drop 5 h) in
    let right = take (length h - cut) (drop cut h) in
    let chunks = chunks_of (a ∷ b ∷ c ∷ []) left right (suc (r / 2)) (suc (r - r / 2)) in
    let made : make_chunks h offset len (suc (suc r)) ≡ ok chunks =
      make_chunks-chunks_of h offset len r cut dot cut_eq (omega arith) (omega arith)
      ∙ rw header_eq in
    let (sent, sent_eq, stream_eq) = stream-send_merged (concat chunks) k interval oob in
    (
      sent,
      rw made sent_eq,
      rw stream_eq (
          read_records-chunks_of a b c left right (r / 2) (r - r / 2) (suc (suc r))
            (omega (arith, length-take (cut - 5) (drop 5 h), length-drop 5 h))
            (omega (arith, length-take (length h - cut) (drop cut h), length-drop cut h))
            (omega (
              arith,
              length-append (split_parts left (suc (r / 2))) (split_parts right (suc (r - r / 2))),
              length-split_parts-le left (r / 2),
              length-split_parts-le right (r - r / 2),
            ))
          ∙ ap some (halves h cut (omega arith))),
    )
