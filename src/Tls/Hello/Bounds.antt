-- ===== src/Tls/Hello/Bounds.antt =====
-- `parseClientHello` reads no byte out of range and ends on every input, and the server name that
-- it returns lies in the record.
use sni_shaper_linux.Prelude.{
  ℕ, zero, suc, ◌+◌, ◌-◌, ◌*◌, ◌≤◌, ◌<◌, ◌≡◌, true, false, Option, none, some, arith, length,
  get_or, ok, if◌then◌else◌, Returns, Returns-bind, leb, Bool-cases, inl, inr,
}
use sni_shaper_linux.Text.{Bytes}
use sni_shaper_linux.Tls.Hello.{
  Hello, Round, record_length, client_version, skip_session_id, skip_cipher_suites,
  skip_compression, server_name, take_name, extension_round, extension_loop, read_extensions,
  parse_client_hello,
}

-- The name found at `p` is an entry of type 0 whose two length bytes say `n`, and it lies in `d`.
abbrev pub IsLocated : Bytes → Option ℕ → ℕ → Type 0
IsLocated d none n = Unit
IsLocated d (some p) n =
    (5 ≤ p)
    × (p + n ≤ length d)
    × (get_or d (p - 3) 0 ≡ 0)
    × (get_or d (p - 2) 0 * 256 + get_or d (p - 1) 0 ≡ n)

abbrev pub HasName : Bytes → Hello → Type 0
HasName d h = IsLocated d h.sni_pos h.sni_len

module _ (d : Bytes) where
  record_length-Returns : Returns (λ n. 5 + n ≤ length d) (record_length d)
  unfolding record_length
  record_length-Returns = ground arith

  client_version-Returns :
      (n : ℕ) → 5 + n ≤ length d → Returns (λ v. 44 ≤ length d) (client_version d n)
  unfolding client_version
  client_version-Returns n h = ground arith

  abbrev Advances : ℕ → ℕ → Type 0
  Advances o o' = (o < o') × (o' ≤ length d)

  skip_session_id-Returns : (o : ℕ) → Returns (Advances o) (skip_session_id d o)
  unfolding skip_session_id
  skip_session_id-Returns o = ground arith

  skip_cipher_suites-Returns : (o : ℕ) → Returns (Advances o) (skip_cipher_suites d o)
  unfolding skip_cipher_suites
  skip_cipher_suites-Returns o = ground arith

  skip_compression-Returns : (o : ℕ) → Returns (Advances o) (skip_compression d o)
  unfolding skip_compression
  skip_compression-Returns o = ground arith

  server_name-Returns :
      (start len : ℕ)
      → start + len ≤ length d
      → Returns (λ r. IsLocated d (some r.0) r.1) (server_name d start len)
  unfolding server_name
  server_name-Returns start len h = ground arith

  abbrev GoodRound : ℕ → ℕ → Round → Type 0
  GoodRound end_ o r = HasName d r.1 × (o + 4 ≤ r.2) × (r.2 ≤ end_)

  take_name-Returns :
      (end_ o start len : ℕ) (h : Hello)
      → end_ ≤ length d
      → o + 4 ≤ start
      → start + len ≤ end_
      → Returns (GoodRound end_ o) (take_name d start len h)
  unfolding take_name
  take_name-Returns end_ o start len h he hs hl =
      Returns-bind _ (GoodRound end_ o) (server_name d start len) _
        (server_name-Returns start len (omega arith)) (λ (p, n) k. (k, omega arith, omega arith))

  extension_round-Returns :
      (end_ o : ℕ) (h : Hello)
      → end_ ≤ length d
      → o + 4 ≤ end_
      → HasName d h
      → Returns (GoodRound end_ o) (extension_round d end_ o h)
  unfolding extension_round
  extension_round-Returns end_ o h he ho hn = ground (
    arith,
    take_name-Returns end_ o (o + 4) (get_or d (o + 2) 0 * 256 + get_or d (o + 2 + 1) 0) h,
  )

  extension_loop-Returns :
      (f end_ o : ℕ) (h : Hello)
      → end_ ≤ length d
      → o ≤ end_
      → end_ < o + f
      → HasName d h
      → Returns (HasName d) (extension_loop f d end_ o h)
  unfolding extension_loop
  extension_loop-Returns zero end_ o h he ho hf hn = absurd (omega arith)
  extension_loop-Returns (suc f) end_ o h he ho hf hn = elim (Bool-cases (leb (o + 4) end_)) [
    | inl more ↦
        rw (more, Returns)
          (Returns-bind (GoodRound end_ o) (HasName d) (extension_round d end_ o h) _
            (extension_round-Returns end_ o h he (ground arith) hn)
            (λ (returns, h', o') k.
              elim returns
                as (λ b. Returns (HasName d) (if b then ok h' else extension_loop f d end_ o' h')) [
                  | true ↦ k.0
                  | false ↦ extension_loop-Returns f end_ o' h' he k.2 (omega arith) k.0
                ]))
    | inr done ↦ rw (done, Returns) hn
  ]

  read_extensions-Returns :
      (o : ℕ) (h : Hello) → 0 < o → HasName d h → Returns (HasName d) (read_extensions d o h)
  unfolding read_extensions
  read_extensions-Returns o h ho hn =
      let total : ℕ = get_or d o 0 * 256 + get_or d (o + 1) 0 in
      ground (arith, extension_loop-Returns (length d) (o + 2 + total) (o + 2) h)

-- On every input, `parse_client_hello` returns, with no panic and no want of fuel; where it returns
-- a server name, the name is an entry of type 0 behind its two length bytes, and lies in the data.
pub parse_client_hello-Returns : (d : Bytes) → Returns (HasName d) (parse_client_hello d)
unfolding parse_client_hello
parse_client_hello-Returns d =
    Returns-bind (λ n. 5 + n ≤ length d) (HasName d) (record_length d) _ (record_length-Returns d)
      λ n hn.
        Returns-bind (λ v. 44 ≤ length d) (HasName d) (client_version d n) _
          (client_version-Returns d n hn)
          λ version hv.
            Returns-bind (Advances d 43) (HasName d) (skip_session_id d 43) _
              (skip_session_id-Returns d 43)
              λ o1 h1.
                Returns-bind (Advances d o1) (HasName d) (skip_cipher_suites d o1) _
                  (skip_cipher_suites-Returns d o1)
                  λ o2 h2.
                    Returns-bind (Advances d o2) (HasName d) (skip_compression d o2) _
                      (skip_compression-Returns d o2)
                      λ o3 h3. read_extensions-Returns d o3 _ (omega arith) tt
