-- ===== src/Pool/Stats.antt =====
-- proxy/cf_pool.go. The statistics of an address are an object that the map and the list of active ones
-- share: here a place in a heap that only grows. Each function is what happens between two locks. Go
-- goes through a map in any order, and `sort.Slice` leaves equal elements in any order: both are the
-- parameter `order`, which is applied to the map first. Time is in nanoseconds. The texts of a latency and of
-- a time, which are for display, are left out.
use sni_shaper_linux.Prelude.{
  ℕ, suc, ◌+◌, ◌-◌, Bool, true, false, ◌&&◌, ◌||◌, Option, none, some, List, [], ◌∷◌, ◌++◌, map,
  ltb, leb, if◌then◌else◌, length, get_or, set, take, select,
}
use sni_shaper_linux.Text.{Bytes, str_eq, trim_space, is_empty}

pub record IpStats : Type 0 where
  pub ip : Bytes
  pub failures : ℕ
  pub latency_val : ℕ
  pub last_check_time : ℕ

-- `&IPStats{IP: ip}`
abbrev pub new_stats : Bytes → IpStats
new_stats ip = record { ip = ip; failures = 0; latency_val = 0; last_check_time = 0 }

abbrev pub Entry : Type 0
Entry = Bytes × ℕ

pub record CloudflarePool : Type 0 where
  pub heap : List IpStats
  pub all_ips : List Entry
  pub active_ips : List ℕ
  pub running : Bool

abbrev pub stats_at : List IpStats → ℕ → IpStats
stats_at heap r = get_or heap r (new_stats [])

unfoldable pub is_healthy : IpStats → Bool
is_healthy s = ltb 0 s.latency_val && ltb s.failures 3

-- Sorted by latency.
unfoldable pub insert_ref : List IpStats → ℕ → List ℕ → List ℕ
insert_ref heap r [] = r ∷ []
insert_ref heap r (x ∷ xs) =
    let rest = insert_ref heap r xs in
    if ltb (stats_at heap x).latency_val (stats_at heap r).latency_val then x ∷ rest else r ∷ x ∷ xs

unfoldable pub active_of : List IpStats → List Entry → List ℕ
unfolding insert_ref is_healthy
active_of heap [] = []
active_of heap ((ip, r) ∷ entries) =
    let rest = active_of heap entries in
    if is_healthy (stats_at heap r) then insert_ref heap r rest else rest

abbrev pub Order : Type 0
Order = List Entry → List Entry

unfoldable pub rebuild_active_ips : Order → CloudflarePool → CloudflarePool
unfolding active_of
rebuild_active_ips order p = record p { active_ips = active_of p.heap (order p.all_ips) }

-- `p.allIPs[ip]`
unfoldable pub find_entry : List Entry → Bytes → Option ℕ
find_entry [] ip = none
find_entry ((key, r) ∷ entries) ip =
    let later = find_entry entries ip in if str_eq key ip then some r else later

-- `newMap[ip] = r`
unfoldable pub put_entry : List Entry → Bytes → ℕ → List Entry
put_entry [] ip r = (ip, r) ∷ []
put_entry ((key, x) ∷ entries) ip r =
    let rest = put_entry entries ip r in
    if str_eq key ip then (key, r) ∷ entries else (key, x) ∷ rest

-- The heap and the new map after one address, which is blank or not: the object that the old map has
-- for it is kept, and a new one is made if there is none.
unfoldable pub place_ip :
    Bool → Option ℕ → Bytes → List IpStats → List Entry → List IpStats × List Entry
unfolding put_entry
place_ip true found ip heap entries = (heap, entries)
place_ip false (some r) ip heap entries = (heap, put_entry entries ip r)
place_ip false none ip heap entries =
    (heap ++ new_stats ip ∷ [], put_entry entries ip (length heap))

unfoldable pub new_map :
    List Entry → List Bytes → List IpStats → List Entry → List IpStats × List Entry
unfolding find_entry place_ip
new_map old [] heap entries = (heap, entries)
new_map old (ip ∷ ips) heap entries =
    let s = trim_space ip in
    let (heap', entries') = place_ip (is_empty s) (find_entry old s) s heap entries in
    new_map old ips heap' entries'

-- Once the lock is left, `checkAllIPs` is started.
unfoldable pub update_ips : Order → List Bytes → CloudflarePool → CloudflarePool
unfolding new_map rebuild_active_ips
update_ips order ips p =
    let (heap, entries) = new_map p.all_ips ips p.heap [] in
    rebuild_active_ips order (record p { heap = heap; all_ips = entries })

unfoldable pub new_cloudflare_pool : Order → List Bytes → CloudflarePool
unfolding update_ips
new_cloudflare_pool order ips =
    update_ips order ips (record { heap = []; all_ips = []; active_ips = []; running = false })

-- Without active addresses: `n` of all, but one even if `n` is 0.
unfoldable pub get_top_ips : Order → ℕ → CloudflarePool → List Bytes
get_top_ips order n p = elim p.active_ips [
  | [] ↦ take (if leb 1 n then n else 1) (map (λ e. e.0) (order p.all_ips))
  | r ∷ rs ↦ take n (map (λ x. (stats_at p.heap x).ip) (r ∷ rs))
]

-- How many are removed, and what is left of the map.
unfoldable pub keep_valid : List IpStats → List Entry → ℕ × List Entry
keep_valid heap [] = (0, [])
keep_valid heap ((ip, r) ∷ entries) =
    let (n, rest) = keep_valid heap entries in
    if leb 3 (stats_at heap r).failures then (suc n, rest) else (n, (ip, r) ∷ rest)

unfoldable pub remove_invalid_ips : Order → CloudflarePool → CloudflarePool × ℕ
unfolding keep_valid rebuild_active_ips
remove_invalid_ips order p =
    let (n, rest) = keep_valid p.heap p.all_ips in
    let p' = record p { all_ips = rest } in
    ((if ltb 0 n then rebuild_active_ips order p' else p'), n)

-- What an operation does to the object of an address, if there is one.
unfoldable pub with_stats : CloudflarePool → Option ℕ → (IpStats → IpStats) → CloudflarePool
with_stats p none f = p
with_stats p (some r) f = record p { heap = set p.heap r (f (stats_at p.heap r)) }

-- 1000 milliseconds
abbrev pub penalty : ℕ
penalty = 1000000000

abbrev pub failed : IpStats → IpStats
failed s = record s { failures = suc s.failures; latency_val = s.latency_val + penalty }

-- At two failures or more `checkIncremental` is started, too.
unfoldable pub report_failure : Order → Bytes → CloudflarePool → CloudflarePool
unfolding with_stats find_entry rebuild_active_ips
report_failure order ip p = rebuild_active_ips order (with_stats p (find_entry p.all_ips ip) failed)

unfoldable pub report_success : Bytes → CloudflarePool → CloudflarePool
unfolding with_stats find_entry
report_success ip p =
    with_stats p (find_entry p.all_ips ip) (λ s. record s { failures = s.failures - 1 })

-- A test of an address: how long it took, or `none` where it failed.
unfoldable pub checked : ℕ → Option ℕ → IpStats → IpStats
checked now none s = record s { failures = suc s.failures; latency_val = 0; last_check_time = now }
checked now (some latency) s = record s {
  failures = 0;
  latency_val = latency;
  last_check_time = now;
}

-- The results of `checkIPs`, in the order in which the tests end.
unfoldable pub check_results : List (Bytes × (ℕ × Option ℕ)) → CloudflarePool → CloudflarePool
unfolding with_stats find_entry checked
check_results [] p = p
check_results ((ip, (now, result)) ∷ results) p =
    check_results results (with_stats p (find_entry p.all_ips ip) (checked now result))

unfoldable pub check_ips : Order → List (Bytes × (ℕ × Option ℕ)) → CloudflarePool → CloudflarePool
unfolding check_results rebuild_active_ips
check_ips order [] p = p
check_ips order (result ∷ results) p = rebuild_active_ips order (check_results (result ∷ results) p)

-- 30 minutes
abbrev pub stale_after : ℕ
stale_after = 1800000000000

-- The addresses that `checkIncremental` tests.
unfoldable pub ips_to_check : Order → ℕ → CloudflarePool → List Bytes
ips_to_check order now p =
    map (λ e. e.0)
      (select
        (λ (ip, r).
          leb 2 (stats_at p.heap r).failures
          || ltb stale_after (now - (stats_at p.heap r).last_check_time))
        (order p.all_ips))
