-- ===== src/Auto/GfwList.antt =====
-- proxy/gfwlist.go: the list of blocked domains. The map of domains is a list of its keys. What the
-- scanner of package bufio makes of a reader is the input: its lines, and whether it failed.
pub mod Blocked
pub mod Load
use Prim.Native.Nat.{compare, Ordering}
use sni_shaper_linux.Prelude.{
  ℕ, zero, suc, ◌+◌, Bool, true, false, ◌||◌, Option, none, some, List, [], ◌∷◌, if◌then◌else◌,
}
use sni_shaper_linux.Text.{
  Bytes, codes, mem_str, trim_space, to_lower, is_empty, has_prefix, split, join,
}

pub record GfwList : Type 0 where
  pub domains : List Bytes
  pub count : ℕ
  pub last_load : ℕ

unfoldable pub new_gfw_list : GfwList
new_gfw_list = record { domains = []; count = 0; last_load = 0 }

-- Lines that hold no domain, once trimmed.
unfoldable pub is_skipped : Bytes → Bool
is_skipped line =
    is_empty line
    || has_prefix line (codes "#")
    || has_prefix line (codes "!")
    || has_prefix line (codes "Source:")
    || has_prefix line (codes "---")

-- The loop over the lines, with the domains and the count so far.
read_lines : List Bytes → List Bytes → ℕ → List Bytes × ℕ
unfolding is_skipped
read_lines [] domains count = (domains, count)
read_lines (text ∷ lines) domains count =
    let line = trim_space text in
    let skip = read_lines lines domains count in
    let keep = read_lines lines (to_lower line ∷ domains) (count + 1) in
    if is_skipped line then skip else keep

-- `LoadFromReader` at the time `now`: the list, and the count unless the scanner failed.
unfoldable pub load_from_reader : List Bytes → Bool → ℕ → GfwList → GfwList × Option ℕ
unfolding read_lines
load_from_reader lines failed now g =
    let (domains, count) = read_lines lines [] 0 in
    if failed
    then (g, none)
    else (record { domains = domains; count = count; last_load = now }, some count)

-- The answer of the server: none at all, or a status and a body.
pub record Response : Type 0 where
  pub status : ℕ
  pub lines : List Bytes
  pub failed : Bool

-- `LoadFromURL`, behind the request.
unfoldable pub load_from_url : Option Response → ℕ → GfwList → GfwList × Option ℕ
unfolding load_from_reader
load_from_url none now g = (g, none)
load_from_url (some r) now g = elim (compare r.status 200) [
  | Ordering.eq ↦ load_from_reader r.lines r.failed now g
  | _ ↦ (g, none)
]

-- The walk up the domain hierarchy: the labels of the host, of which the first is taken off.
any_parent : List Bytes → List Bytes → Bool
any_parent domains [] = false
any_parent domains (p ∷ parts) = mem_str (join (p ∷ parts) b'.') domains || any_parent domains parts

abbrev pub behind_first : List Bytes → List Bytes
behind_first [] = []
behind_first (p ∷ parts) = parts

abbrev no_domains : List Bytes → Bool
no_domains [] = true
no_domains (d ∷ ds) = false

unfoldable pub is_blocked : GfwList → Bytes → Bool
unfolding any_parent
is_blocked g host =
    let h = to_lower (trim_space host) in
    if is_empty h
    then false
    else if no_domains g.domains
    then false
    else if mem_str h g.domains
    then true
    else any_parent g.domains (behind_first (split h b'.'))
