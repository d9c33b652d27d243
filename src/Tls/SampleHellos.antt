-- ===== src/Tls/SampleHellos.antt =====
-- A ClientHello for `a.bc`, with and without an extension behind the name, for the runs on it.
use sni_shaper_linux.Prelude.{ℕ, zero, suc, ◌+◌, [], ◌∷◌, ◌++◌}
use sni_shaper_linux.Text.{Bytes, codes}

abbrev pub zeros : ℕ → Bytes
zeros zero = []
zeros (suc n) = 0 ∷ zeros n

abbrev sni_extension : Bytes
sni_extension = 0 ∷ 0 ∷ 0 ∷ 9 ∷ 0 ∷ 7 ∷ 0 ∷ 0 ∷ 4 ∷ codes "a.bc"

abbrev pub key_share : Bytes
key_share = 0 ∷ 0x33 ∷ 0 ∷ 0 ∷ []

-- The headers and the mandatory fields, for extensions of `n` bytes, less than 200.
abbrev hello_head : ℕ → Bytes
hello_head n =
    22
    ∷ 3
    ∷ 1
    ∷ 0
    ∷ (n + 47)
    ∷ 1
    ∷ 0
    ∷ 0
    ∷ (n + 43)
    ∷ 3
    ∷ 3
    ∷ (zeros 32 ++ 0 ∷ 0 ∷ 2 ∷ 0x13 ∷ 1 ∷ 1 ∷ 0 ∷ 0 ∷ n ∷ [])

abbrev pub hello_bytes : Bytes
hello_bytes = hello_head 17 ++ sni_extension ++ key_share

-- The name ends the data.
abbrev pub hello_end_bytes : Bytes
hello_end_bytes = hello_head 13 ++ sni_extension
