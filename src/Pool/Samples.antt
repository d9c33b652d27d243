-- ===== src/Pool/Samples.antt =====
-- A pool, and runs on it.
use sni_shaper_linux.Prelude.{ℕ, ◌<◌, ◌≡◌, ◌↔◌, refl, some, [], ◌∷◌, IsIn, length, arith}
use sni_shaper_linux.Text.{is_empty, str_eq, trim_space, Bytes, codes}
use sni_shaper_linux.Pool.Reach.{IsWellFormed, begin, next, recorded, reachable-IsWellFormed}
use sni_shaper_linux.Pool.Stats.{
  Order, CloudflarePool, new_cloudflare_pool, update_ips, get_top_ips, check_ips,
  rebuild_active_ips, find_entry, stats_at,
}
use sni_shaper_linux.Pool.Sorted.{IsSorted}
use sni_shaper_linux.Pool.Active.{IsOrder, IsHealthyIn, rebuild_active_ips_lem}

abbrev in_order : Order
in_order entries = entries

in_order-IsOrder : IsOrder in_order
in_order-IsOrder l e = (λ i. i, λ i. i)

abbrev first_ip : Bytes
first_ip = codes "192.0.2.1"

abbrev second_ip : Bytes
second_ip = codes "192.0.2.2"

abbrev pool : CloudflarePool
pool = new_cloudflare_pool in_order (first_ip ∷ [] ∷ second_ip ∷ [])

abbrev tested : CloudflarePool
tested = check_ips in_order ((first_ip, (9, some 70)) ∷ (second_ip, (9, some 50)) ∷ []) pool

fastest_first : get_top_ips in_order 5 tested ≡ second_ip ∷ first_ip ∷ []
unfolding get_top_ips check_ips new_cloudflare_pool is_empty trim_space str_eq
fastest_first = refl

one_for_none : get_top_ips in_order 0 pool ≡ first_ip ∷ []
unfolding get_top_ips new_cloudflare_pool is_empty trim_space str_eq
one_for_none = refl

kept_stats : get_top_ips in_order 5 (update_ips in_order (first_ip ∷ []) tested) ≡ first_ip ∷ []
unfolding get_top_ips update_ips is_empty trim_space check_ips new_cloudflare_pool str_eq
kept_stats = refl

rebuild_active_ips_lem_example :
    IsSorted tested.heap (rebuild_active_ips in_order tested).active_ips
    × ((r : ℕ)
        → IsIn r (rebuild_active_ips in_order tested).active_ips
          ↔ IsHealthyIn tested.heap tested.all_ips r)
rebuild_active_ips_lem_example = rebuild_active_ips_lem in_order tested in_order-IsOrder

found_first : find_entry pool.all_ips first_ip ≡ some 0
unfolding find_entry new_cloudflare_pool is_empty trim_space str_eq
found_first = refl

two_objects : length pool.heap ≡ 2
unfolding new_cloudflare_pool is_empty trim_space
two_objects = refl

not_failed : (stats_at pool.heap 0).failures ≡ 0
unfolding new_cloudflare_pool is_empty trim_space
not_failed = refl

in_heap : 0 < length pool.heap
in_heap = omega (arith, two_objects)

no_failures : (stats_at pool.heap 0).failures < 2
no_failures = omega (arith, not_failed)

reachable-IsWellFormed_example : IsWellFormed tested
reachable-IsWellFormed_example = reachable-IsWellFormed in_order tested (
    next (begin (first_ip ∷ [] ∷ second_ip ∷ []))
      (recorded ((first_ip, (9, some 70)) ∷ (second_ip, (9, some 50)) ∷ []) pool))
