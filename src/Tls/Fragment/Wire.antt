-- ===== src/Tls/Fragment/Wire.antt =====
-- What `sendRecords` puts on the wire, for the parameters that a caller passes.
use sni_shaper_linux.Prelude.{
  ℕ, suc, ◌+◌, ◌≤◌, ◌<◌, ◌≡◌, ◌∙◌, refl, Bool, false, some, List, [], ◌∷◌, arith, length, drop, set,
  length-set, concat, ok, panic, ◌==◌, ap,
}
use sni_shaper_linux.Text.{Bytes}
use sni_shaper_linux.Tls.Fragment.{
  make_chunks, Send, Segments, count, per_record, plain_chunks, later_chunks, send_chunks,
  send_multi, first_chunk, mod_minor_version, SendConfig, send_records,
}
use sni_shaper_linux.Tls.Fragment.Cut.{find_last_dot_panics}
use sni_shaper_linux.Tls.Fragment.Reassembly.{stream, read_records, read_records-send_multi}

length-mod_minor_version : (b : Bool) (h : Bytes) → length (mod_minor_version b h) ≡ length h
unfolding mod_minor_version
length-mod_minor_version b h = ground (arith, length-set h 2 4)

drop-set : (h : Bytes) → drop 5 (set h 2 4) ≡ drop 5 h
drop-set [] = refl
drop-set (a ∷ []) = refl
drop-set (a ∷ b ∷ []) = refl
drop-set (a ∷ b ∷ c ∷ h) = refl

drop-mod_minor_version : (b : Bool) (h : Bytes) → drop 5 (mod_minor_version b h) ≡ drop 5 h
unfolding mod_minor_version
drop-mod_minor_version b h = ground (arith, drop-set h)

several :
    (h : Bytes) (offset len r : ℕ) (c : SendConfig)
    → c.records ≡ suc (suc r)
    → send_records h offset len c
      ≡ send_multi
          (mod_minor_version c.mod_minor h)
          offset
          len
          (suc (suc r))
          c.segments
          c.oob
          c.oobex
          c.interval
unfolding send_records
several h offset len r c e =
    let many : (suc (suc r) == 1) ≡ false = ground arith in rw (e, many) refl

-- Where `sendRecords` sends two records or more, merged into one segment or more, with no `oobex`,
-- and the byte behind the name is in the ClientHello of one record: the call returns, and a peer that
-- reads the stream finds records, as many as asked for at most, whose payloads joined are the
-- ClientHello without its record header.
pub send_records-read_records :
    (h : Bytes) (offset len r k : ℕ) (c : SendConfig)
    → c.records ≡ suc (suc r)
    → c.segments ≡ count (suc k)
    → c.oobex ≡ false
    → 5 ≤ offset
    → offset + len < length h
    → length h ≤ 65540
    → (sent : List Send) × (send_records h offset len c ≡ ok sent)
      × (read_records c.records (stream sent) ≡ some (drop 5 h))
send_records-read_records h offset len r k c er es ex lo fits small =
    let h' = mod_minor_version c.mod_minor h in
    let same = length-mod_minor_version c.mod_minor h in
    let (sent, sent_eq, read_eq) =
      read_records-send_multi h' offset len r k c.interval c.oob lo
        (omega (arith, length-mod_minor_version c.mod_minor h))
        (omega (arith, length-mod_minor_version c.mod_minor h)) in
    (
      sent,
      several h offset len r c er ∙ rw (es, ex) sent_eq,
      rw er (read_eq ∙ ap some (drop-mod_minor_version c.mod_minor h)),
    )

multi_panics :
    (h : Bytes) (offset len records interval : ℕ) (s : Segments) (oob oobex : Bool)
    → length h ≤ offset + len
    → send_multi h offset len records s oob oobex interval ≡ panic
unfolding send_multi make_chunks
multi_panics h offset len records interval per_record oob oobex l =
    rw (find_last_dot_panics h offset len l)
multi_panics h offset len records interval (count n) oob oobex l =
    rw (find_last_dot_panics h offset len l)

-- Where the name ends the data, `sendRecords` of two records or more panics, whatever else it is asked for.
pub send_records_panics :
    (h : Bytes) (offset len r : ℕ) (c : SendConfig)
    → c.records ≡ suc (suc r)
    → length h ≤ offset + len
    → send_records h offset len c ≡ panic
send_records_panics h offset len r c er out =
    several h offset len r c er
    ∙ multi_panics (mod_minor_version c.mod_minor h) offset len (suc (suc r)) c.interval c.segments
        c.oob c.oobex (omega (arith, length-mod_minor_version c.mod_minor h))

stream-plain_chunks :
    (interval : ℕ) (cs : List Bytes) → stream (plain_chunks interval cs) ≡ concat cs
unfolding plain_chunks
stream-plain_chunks interval [] = refl
stream-plain_chunks interval (c ∷ cs) = ground (arith, stream-plain_chunks interval cs)

-- With one write for each record and no out-of-band data, the first record is never sent: the
-- stream holds the records behind it alone.
pub send_multi-per_record :
    (h : Bytes) (offset len records interval : ℕ) (x : Bytes) (xs : List Bytes)
    → make_chunks h offset len records ≡ ok (x ∷ xs)
    → (sent : List Send) × (send_multi h offset len records per_record false false interval
        ≡ ok sent)
      × (stream sent ≡ concat xs)
unfolding send_multi send_chunks first_chunk later_chunks
send_multi-per_record h offset len records interval x [] e = ([], rw e, refl)
send_multi-per_record h offset len records interval x (y ∷ ys) e =
    (plain_chunks interval (y ∷ ys), rw e, stream-plain_chunks interval (y ∷ ys))
