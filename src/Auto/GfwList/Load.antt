-- ===== src/Auto/GfwList/Load.antt =====
-- What a load leaves in the list.
use sni_shaper_linux.Prelude.{
  ℕ, ◌+◌, ◌≡◌, ◌∙◌, refl, ap, true, false, not, ◌||◌, none, some, List, [], ◌∷◌, map, arith, length,
  select,
}
use sni_shaper_linux.Text.{Bytes, mem_str, mem_str_cons, trim_space, to_lower}
use sni_shaper_linux.Auto.GfwList.{GfwList, is_skipped, read_lines, load_from_reader}

-- The domains that the lines of a file name, in order, each as often as it is named.
abbrev pub named : List Bytes → List Bytes
named lines = map to_lower (select (λ line. not (is_skipped line)) (map trim_space lines))

length-read_lines :
    (lines domains : List Bytes) (n : ℕ) → (read_lines lines domains n).1 ≡ n + length (named lines)
unfolding read_lines
length-read_lines [] domains n = omega arith
length-read_lines (text ∷ lines) domains n = ground (
  arith,
  length-read_lines lines domains n,
  length-read_lines lines (to_lower (trim_space text) ∷ domains) (n + 1),
)

mem_none : (d : Bytes) → mem_str d [] ≡ false
unfolding mem_str
mem_none d = refl

mem-read_lines :
    (lines domains : List Bytes) (n : ℕ) (d : Bytes)
    → mem_str d (read_lines lines domains n).0 ≡ (mem_str d domains || mem_str d (named lines))
unfolding read_lines
mem-read_lines [] domains n d = ground (arith, mem_none d)
mem-read_lines (text ∷ lines) domains n d = ground (
  arith,
  mem-read_lines lines domains n d,
  mem-read_lines lines (to_lower (trim_space text) ∷ domains) (n + 1) d,
  mem_str_cons d (to_lower (trim_space text)) domains,
  mem_str_cons d (to_lower (trim_space text)) (named lines),
)

-- A load that the scanner finishes replaces the list: its domains are those that the lines name, and
-- the count that it returns and keeps is the number of lines that name one, a domain named twice
-- counted twice. A load that fails returns no count and leaves the list as it was.
pub load_from_reader_lem :
    (lines : List Bytes) (now : ℕ) (g : GfwList)
    → (load_from_reader lines true now g ≡ (g, none))
      × ((load_from_reader lines false now g).1 ≡ some (length (named lines)))
      × ((load_from_reader lines false now g).0.count ≡ length (named lines))
      × ((d : Bytes)
          → mem_str d (load_from_reader lines false now g).0.domains ≡ mem_str d (named lines))
unfolding load_from_reader
load_from_reader_lem lines now g = (
  refl,
  ap some (length-read_lines lines [] 0 ∙ omega arith),
  length-read_lines lines [] 0 ∙ omega arith,
  λ d. mem-read_lines lines [] 0 d ∙ rw (mem_none d),
)
