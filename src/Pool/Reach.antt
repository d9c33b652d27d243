-- ===== src/Pool/Reach.antt =====
-- The pools that the operations lead to, in any order of them.
use sni_shaper_linux.Prelude.{ℕ, ◌≡◌, refl, Option, none, some, List, [], ◌∷◌, All, if_either, ltb}
use sni_shaper_linux.Text.{Bytes}
use sni_shaper_linux.Pool.Entries.{Owns, new_map-Owns, set-Owns, kept-Owns}
use sni_shaper_linux.Pool.Stats.{
  IpStats, stats_at, Order, CloudflarePool, find_entry, update_ips, new_cloudflare_pool, keep_valid,
  remove_invalid_ips, with_stats, failed, report_failure, report_success, checked, check_results,
  check_ips, rebuild_active_ips,
}

-- One operation on a pool.
pub data PoolStep (order : Order) : CloudflarePool → CloudflarePool → Type 0 where
  updated : (ips : List Bytes) (p : CloudflarePool) → PoolStep order p (update_ips order ips p)
  removed : (p : CloudflarePool) → PoolStep order p (remove_invalid_ips order p).0
  reported_failure :
      (ip : Bytes) (p : CloudflarePool) → PoolStep order p (report_failure order ip p)
  reported_success : (ip : Bytes) (p : CloudflarePool) → PoolStep order p (report_success ip p)
  recorded :
      (results : List (Bytes × (ℕ × Option ℕ))) (p : CloudflarePool)
      → PoolStep order p (check_ips order results p)

-- A pool that a new one comes to.
pub data IsReachable (order : Order) : CloudflarePool → Type 0 where
  begin : (ips : List Bytes) → IsReachable order (new_cloudflare_pool order ips)
  next : {p q : CloudflarePool} → IsReachable order p → PoolStep order p q → IsReachable order q

abbrev pub IsWellFormed : CloudflarePool → Type 0
IsWellFormed p = All (Owns p.heap) p.all_ips

with_stats-IsWellFormed :
    (p : CloudflarePool) (o : Option ℕ) (f : IpStats → IpStats)
    → ((s : IpStats) → (f s).ip ≡ s.ip)
    → IsWellFormed p
    → IsWellFormed (with_stats p o f)
unfolding with_stats
with_stats-IsWellFormed p none f same h = h
with_stats-IsWellFormed p (some r) f same h =
    set-Owns p.heap r (f (stats_at p.heap r)) p.all_ips (same (stats_at p.heap r)) h

checked-ip : (now : ℕ) (result : Option ℕ) (s : IpStats) → (checked now result s).ip ≡ s.ip
unfolding checked
checked-ip now none s = refl
checked-ip now (some latency) s = refl

check_results-IsWellFormed :
    (results : List (Bytes × (ℕ × Option ℕ))) (p : CloudflarePool)
    → IsWellFormed p
    → IsWellFormed (check_results results p)
unfolding check_results
check_results-IsWellFormed [] p h = h
check_results-IsWellFormed ((ip, (now, result)) ∷ results) p h =
    check_results-IsWellFormed results _ (
      with_stats-IsWellFormed p (find_entry p.all_ips ip) (checked now result)
        (checked-ip now result) h)

step-IsWellFormed :
    (order : Order) (p q : CloudflarePool) → PoolStep order p q → IsWellFormed p → IsWellFormed q
unfolding update_ips remove_invalid_ips report_failure report_success check_ips rebuild_active_ips
step-IsWellFormed order _ _ (updated ips p) h = new_map-Owns p.all_ips ips p.heap [] h tt
step-IsWellFormed order _ _ (removed p) h =
    let rest = kept-Owns p.heap p.all_ips h in
    if_either IsWellFormed (ltb 0 (keep_valid p.heap p.all_ips).0) rest rest
step-IsWellFormed order _ _ (reported_failure ip p) h =
    with_stats-IsWellFormed p (find_entry p.all_ips ip) failed (λ s. refl) h
step-IsWellFormed order _ _ (reported_success ip p) h =
    with_stats-IsWellFormed p (find_entry p.all_ips ip) _ (λ s. refl) h
step-IsWellFormed order _ _ (recorded [] p) h = h
step-IsWellFormed order _ _ (recorded (result ∷ results) p) h =
    check_results-IsWellFormed (result ∷ results) p h

-- In every pool that the operations lead to, in whatever order they come, each key of the map has an
-- object in the heap, and the object bears the key as its address.
pub reachable-IsWellFormed :
    (order : Order) (p : CloudflarePool) → IsReachable order p → IsWellFormed p
unfolding new_cloudflare_pool update_ips rebuild_active_ips
reachable-IsWellFormed order _ (begin ips) = new_map-Owns [] ips [] [] tt tt
reachable-IsWellFormed order _ (next {p} {q} r step) =
    step-IsWellFormed order p q step (reachable-IsWellFormed order p r)
