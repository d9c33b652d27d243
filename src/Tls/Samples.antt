-- ===== src/Tls/Samples.antt =====
-- A ClientHello for `a.bc`, with and without an extension behind the name, and runs on it.
use sni_shaper_linux.Prelude.{
  ◌≡◌, refl, true, false, some, List, [], ◌∷◌, ◌++◌, arith, drop, ok, panic, Returns,
}
use sni_shaper_linux.Text.{codes}
use sni_shaper_linux.Tls.SampleHellos.{zeros, key_share, hello_bytes, hello_end_bytes}
use sni_shaper_linux.Tls.Hello.{parse_client_hello}
use sni_shaper_linux.Tls.Hello.Bounds.{HasName, parse_client_hello-Returns}
use sni_shaper_linux.Tls.Fragment.{make_chunks, Send, default_config, send_records}
use sni_shaper_linux.Tls.Fragment.Reassembly.{stream, read_records}
use sni_shaper_linux.Tls.Fragment.Wire.{send_records-read_records, send_records_panics}

parsed :
    parse_client_hello hello_bytes
    ≡ ok (record { version = 3 ∷ 3 ∷ []; sni_pos = some 61; sni_len = 4; has_key_share = true })
unfolding parse_client_hello
parsed = refl

parsed_end :
    parse_client_hello hello_end_bytes
    ≡ ok (record { version = 3 ∷ 3 ∷ []; sni_pos = some 61; sni_len = 4; has_key_share = false })
unfolding parse_client_hello
parsed_end = refl

-- The four records of the default parameters, cut at the dot of the name.
fragments :
    make_chunks hello_bytes 61 4 4
    ≡ ok (
        (22 ∷ 3 ∷ 1 ∷ 0 ∷ 28 ∷ (1 ∷ 0 ∷ 0 ∷ 60 ∷ 3 ∷ 3 ∷ zeros 22))
        ∷ (22
            ∷ 3
            ∷ 1
            ∷ 0
            ∷ 29
            ∷ (zeros 12
                ++ 2 ∷ 0x13 ∷ 1 ∷ 1 ∷ 0 ∷ 0 ∷ 17 ∷ 0 ∷ 0 ∷ 0 ∷ 9 ∷ 0 ∷ 7 ∷ 0 ∷ 0 ∷ 4 ∷ b'a' ∷ []))
        ∷ (22 ∷ 3 ∷ 1 ∷ 0 ∷ 3 ∷ codes ".bc")
        ∷ (22 ∷ 3 ∷ 1 ∷ 0 ∷ 4 ∷ key_share)
        ∷ [])
unfolding make_chunks
fragments = refl

parse_client_hello-Returns_example : Returns (HasName hello_bytes) (parse_client_hello hello_bytes)
parse_client_hello-Returns_example = parse_client_hello-Returns hello_bytes

send_records-read_records_example :
    (sent : List Send) × (send_records hello_bytes 61 4 default_config ≡ ok sent)
    × (read_records 4 (stream sent) ≡ some (drop 5 hello_bytes))
send_records-read_records_example =
    send_records-read_records hello_bytes 61 4 2 0 default_config refl refl refl (omega arith)
      (omega arith) (omega arith)

send_records_panics_example : send_records hello_end_bytes 61 4 default_config ≡ panic
send_records_panics_example =
    send_records_panics hello_end_bytes 61 4 2 default_config refl (omega arith)

two_chunks :
    make_chunks (codes "123..ab.c") 5 3 2
    ≡ ok ((codes "123" ++ 0 ∷ 2 ∷ codes "ab") ∷ (codes "123" ++ 0 ∷ 2 ∷ codes ".c") ∷ [])
unfolding make_chunks
two_chunks = refl
