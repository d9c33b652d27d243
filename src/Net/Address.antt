-- ===== src/Net/Address.antt =====
-- proxy/proxy.go, the helpers on addresses, and what they use of package net: `SplitHostPort` (an
-- error is `none`) and `JoinHostPort`. Whether a text is an IP address is the parameter `is_ip`, the
-- test `net.ParseIP(s) != nil`.
pub mod HostPort
pub mod Ensure
use mathlib.Core.List.{reverse}
use sni_shaper_linux.Prelude.{
  ℕ, zero, suc, ◌+◌, ◌-◌, ◌<◌, Bool, true, false, not, ◌&&◌, ◌||◌, Option, none, some, List, [],
  ◌∷◌, ◌++◌, ltb, ◌==◌, if◌then◌else◌, length, take, drop,
}
use sni_shaper_linux.Text.{
  Bytes, codes, str_eq, mem_str, trim_space, to_lower, is_empty, has_prefix, has_suffix,
  trim_prefix, trim_suffix, split, join,
}

unfoldable pub has_byte : Bytes → ℕ → Bool
has_byte [] c = false
has_byte (d ∷ s) c = d == c || has_byte s c

-- The first and the last place of a byte.
unfoldable pub index_byte : Bytes → ℕ → Option ℕ
index_byte [] c = none
index_byte (d ∷ s) c =
    let later = index_byte s c in
    if d == c then some 0 else elim later [ none ↦ none | some i ↦ some (suc i) ]

unfoldable pub last_index_byte : Bytes → ℕ → Option ℕ
last_index_byte [] c = none
last_index_byte (d ∷ s) c = elim (last_index_byte s c) [
  | some i ↦ some (suc i)
  | none ↦ if d == c then some 0 else none
]

-- The last checks of `SplitHostPort`: no bracket but those of the host.
pub split_end : Bytes → Bytes → ℕ → ℕ → ℕ → Option (Bytes × Bytes)
split_end s host j k i =
    if has_byte (drop j s) b'[' || has_byte (drop k s) b']'
    then none
    else some (host, drop (i + 1) s)

pub split_bracketed : Bytes → ℕ → Option (Bytes × Bytes)
unfolding split_end
split_bracketed s i = elim (index_byte s b']') [
  | none ↦ none
  | some e ↦ if e + 1 == i then split_end s (take (e - 1) (drop 1 s)) 1 (e + 1) i else none
]

-- `net.SplitHostPort`
unfoldable pub split_host_port : Bytes → Option (Bytes × Bytes)
unfolding has_byte index_byte last_index_byte split_end split_bracketed
split_host_port s = elim (last_index_byte s b':') [
  | none ↦ none
  | some i ↦
      if has_prefix s (codes "[")
      then split_bracketed s i
      else if has_byte (take i s) b':'
      then none
      else split_end s (take i s) 0 0 i
]

-- `net.JoinHostPort`
unfoldable pub join_host_port : Bytes → Bytes → Bytes
join_host_port host port =
    if has_byte host b':' then b'[' ∷ (host ++ b']' ∷ b':' ∷ port) else host ++ b':' ∷ port

abbrev pub in_brackets : Bytes → Bool
in_brackets s = has_prefix s (codes "[") && has_suffix s (codes "]")

abbrev pub unbracket : Bytes → Bytes
unbracket s = trim_suffix (trim_prefix s (codes "[")) (codes "]")

unfoldable pub normalize_host : Bytes → Bytes
unfolding split_host_port
normalize_host hostport =
    let s = trim_space hostport in
    if is_empty s then [] else elim (split_host_port s) [
      | some (host, port) ↦ to_lower (trim_space host)
      | none ↦ if in_brackets s then to_lower (unbracket s) else to_lower s
    ]

unfoldable pub ensure_addr_with_port : Bytes → Bytes → Bytes
unfolding split_host_port join_host_port
ensure_addr_with_port addr default_port =
    let s = trim_space addr in
    if is_empty s then [] else elim (split_host_port s) [
      | some (host, port) ↦ join_host_port host (if is_empty port then default_port else port)
      | none ↦
          if in_brackets s
          then join_host_port (unbracket s) default_port
          else join_host_port s default_port
    ]

strip_brackets : Bytes → Bytes
strip_brackets [] = []
strip_brackets (c ∷ s) = if c == b'[' || c == b']' then strip_brackets s else c ∷ s

-- `strings.Trim(s, "[]")`
unfoldable pub trim_brackets : Bytes → Bytes
unfolding strip_brackets
trim_brackets s = reverse (strip_brackets (reverse (strip_brackets s)))

abbrev pub is_literal_ip : (Bytes → Bool) → Bytes → Bool
is_literal_ip is_ip host = is_ip (trim_brackets host)
