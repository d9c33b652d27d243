-- ===== src/Pool/Entries.antt =====
-- The entries of the map, and the objects that they stand for.
use sni_shaper_linux.Prelude.{
  ℕ, zero, suc, ◌<◌, ◌≡◌, refl, sym, ap, ◌∙◌, subst, inl, inr, Bool, true, false, Option, none,
  some, List, [], ◌∷◌, ◌++◌, arith, All, Bool-cases, length, length-append, length-set, set, leb,
}
use sni_shaper_linux.Text.{Bytes, str_eq, str_eq_iff, trim_space, is_empty}
use sni_shaper_linux.Pool.Stats.{
  IpStats, new_stats, stats_at, Entry, find_entry, put_entry, place_ip, new_map, keep_valid,
}

-- The object of an entry is in the heap, and bears the address that is the key.
abbrev pub Owns : List IpStats → Entry → Type 0
Owns heap (ip, r) = (r < length heap) × ((stats_at heap r).ip ≡ ip)

stats_at-append :
    (heap more : List IpStats) (r : ℕ)
    → r < length heap
    → stats_at (heap ++ more) r ≡ stats_at heap r
stats_at-append [] more r h = ground arith
stats_at-append (x ∷ heap) more zero h = refl
stats_at-append (x ∷ heap) more (suc r) h = stats_at-append heap more r (omega arith)

stats_at-last : (heap : List IpStats) (s : IpStats) → stats_at (heap ++ s ∷ []) (length heap) ≡ s
stats_at-last [] s = refl
stats_at-last (x ∷ heap) s = stats_at-last heap s

Owns-append :
    (heap more : List IpStats) (entries : List Entry)
    → All (Owns heap) entries
    → All (Owns (heap ++ more)) entries
Owns-append heap more [] h = tt
Owns-append heap more ((ip, r) ∷ entries) ((bound, own), h) = (
  (
    omega (arith, length-append heap more),
    ap (λ s. s.ip) (stats_at-append heap more r bound) ∙ own,
  ),
  Owns-append heap more entries h,
)

found-Owns :
    (heap : List IpStats) (entries : List Entry) (ip : Bytes) (r : ℕ)
    → All (Owns heap) entries
    → find_entry entries ip ≡ some r
    → Owns heap (ip, r)
unfolding find_entry
found-Owns heap [] ip r h e = ground arith
found-Owns heap ((key, x) ∷ entries) ip r (own, h) e = elim (Bool-cases (str_eq key ip)) [
  | inl same ↦
      let here : x ≡ r = ground arith in
      subst (λ k. Owns heap (k, r)) ((str_eq_iff key ip).0 same)
        (subst (λ z. Owns heap (key, z)) here own)
  | inr other ↦ found-Owns heap entries ip r h (ground arith)
]

put-same :
    (key ip : Bytes) (x r : ℕ) (entries : List Entry)
    → str_eq key ip ≡ true
    → put_entry ((key, x) ∷ entries) ip r ≡ (key, r) ∷ entries
unfolding put_entry
put-same key ip x r entries h = rw h refl

put-other :
    (key ip : Bytes) (x r : ℕ) (entries : List Entry)
    → str_eq key ip ≡ false
    → put_entry ((key, x) ∷ entries) ip r ≡ (key, x) ∷ put_entry entries ip r
unfolding put_entry
put-other key ip x r entries h = rw h refl

put-Owns :
    (heap : List IpStats) (entries : List Entry) (ip : Bytes) (r : ℕ)
    → All (Owns heap) entries
    → Owns heap (ip, r)
    → All (Owns heap) (put_entry entries ip r)
unfolding put_entry
put-Owns heap [] ip r h own = (own, tt)
put-Owns heap ((key, x) ∷ entries) ip r (old, h) own = elim (Bool-cases (str_eq key ip)) [
  | inl same ↦
      subst (All (Owns heap)) (sym (put-same key ip x r entries same))
        (subst (λ k. Owns heap (k, r)) (sym ((str_eq_iff key ip).0 same)) own, h)
  | inr other ↦
      subst (All (Owns heap)) (sym (put-other key ip x r entries other))
        (old, put-Owns heap entries ip r h own)
]

place-Owns :
    (blank : Bool) (found : Option ℕ) (old : List Entry) (ip : Bytes) (heap : List IpStats)
    (entries : List Entry)
    → find_entry old ip ≡ found
    → All (Owns heap) old
    → All (Owns heap) entries
    → All (Owns (place_ip blank found ip heap entries).0) old
      × All (Owns (place_ip blank found ip heap entries).0) (place_ip blank found ip heap entries).1
unfolding place_ip
place-Owns true found old ip heap entries e ho he = (ho, he)
place-Owns false (some r) old ip heap entries e ho he =
    (ho, put-Owns heap entries ip r he (found-Owns heap old ip r ho e))
place-Owns false none old ip heap entries e ho he =
    let grown = heap ++ new_stats ip ∷ [] in
    let own : Owns grown (ip, length heap) = (
      omega (arith, length-append heap (new_stats ip ∷ [])),
      ap (λ s. s.ip) (stats_at-last heap (new_stats ip)),
    ) in
    (
      Owns-append heap (new_stats ip ∷ []) old ho,
      put-Owns grown entries ip (length heap) (Owns-append heap (new_stats ip ∷ []) entries he) own,
    )

pub new_map-Owns :
    (old : List Entry) (ips : List Bytes) (heap : List IpStats) (entries : List Entry)
    → All (Owns heap) old
    → All (Owns heap) entries
    → All (Owns (new_map old ips heap entries).0) (new_map old ips heap entries).1
unfolding new_map
new_map-Owns old [] heap entries ho he = he
new_map-Owns old (ip ∷ ips) heap entries ho he =
    let s = trim_space ip in
    let (ho', he') = place-Owns (is_empty s) (find_entry old s) old s heap entries refl ho he in
    new_map-Owns old ips _ _ ho' he'

-- A write to an object that leaves its address.
get_or-set-ip :
    (heap : List IpStats) (r x : ℕ) (s : IpStats)
    → s.ip ≡ (stats_at heap r).ip
    → (stats_at (set heap r s) x).ip ≡ (stats_at heap x).ip
get_or-set-ip [] r x s h = refl
get_or-set-ip (y ∷ heap) zero zero s h = h
get_or-set-ip (y ∷ heap) zero (suc x) s h = refl
get_or-set-ip (y ∷ heap) (suc r) zero s h = refl
get_or-set-ip (y ∷ heap) (suc r) (suc x) s h = get_or-set-ip heap r x s h

pub set-Owns :
    (heap : List IpStats) (r : ℕ) (s : IpStats) (entries : List Entry)
    → s.ip ≡ (stats_at heap r).ip
    → All (Owns heap) entries
    → All (Owns (set heap r s)) entries
set-Owns heap r s [] e h = tt
set-Owns heap r s ((ip, x) ∷ entries) e ((bound, own), h) = (
  (omega (arith, length-set heap r s), get_or-set-ip heap r x s e ∙ own),
  set-Owns heap r s entries e h,
)

kept-invalid :
    (heap : List IpStats) (ip : Bytes) (r : ℕ) (entries : List Entry)
    → leb 3 (stats_at heap r).failures ≡ true
    → keep_valid heap ((ip, r) ∷ entries)
      ≡ (suc (keep_valid heap entries).0, (keep_valid heap entries).1)
unfolding keep_valid
kept-invalid heap ip r entries h = rw h refl

kept-valid :
    (heap : List IpStats) (ip : Bytes) (r : ℕ) (entries : List Entry)
    → leb 3 (stats_at heap r).failures ≡ false
    → keep_valid heap ((ip, r) ∷ entries)
      ≡ ((keep_valid heap entries).0, (ip, r) ∷ (keep_valid heap entries).1)
unfolding keep_valid
kept-valid heap ip r entries h = rw h refl

pub kept-Owns :
    (heap : List IpStats) (entries : List Entry)
    → All (Owns heap) entries
    → All (Owns heap) (keep_valid heap entries).1
unfolding keep_valid
kept-Owns heap [] h = tt
kept-Owns heap ((ip, r) ∷ entries) (own, h) = elim (Bool-cases (leb 3 (stats_at heap r).failures)) [
  | inl e ↦
      subst (λ k. All (Owns heap) k.1) (sym (kept-invalid heap ip r entries e))
        (kept-Owns heap entries h)
  | inr e ↦
      subst (λ k. All (Owns heap) k.1) (sym (kept-valid heap ip r entries e))
        (own, kept-Owns heap entries h)
]
