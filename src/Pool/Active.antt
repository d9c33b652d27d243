-- ===== src/Pool/Active.antt =====
-- The list of active addresses after it is rebuilt.
use sni_shaper_linux.Prelude.{
  ℕ, zero, suc, ◌<◌, ◌≡◌, refl, sym, ap, ◌∙◌, ◌↔◌, inl, inr, true, false, some, List, [], ◌∷◌,
  arith, IsIn, subst, Bool-cases, length, set,
}
use sni_shaper_linux.Text.{Bytes, str_eq}
use sni_shaper_linux.Pool.Sorted.{IsSorted, insert_ref-IsSorted, insert→, →insert}
use sni_shaper_linux.Pool.Stats.{
  IpStats, Entry, Order, CloudflarePool, stats_at, is_healthy, insert_ref, active_of,
  rebuild_active_ips, find_entry, with_stats, failed, report_failure,
}

-- An order in which a map may be gone through.
abbrev pub IsOrder : Order → Type 0
IsOrder order = (l : List Entry) (e : Entry) → IsIn e (order l) ↔ IsIn e l

active_of-IsSorted :
    (heap : List IpStats) (entries : List Entry) → IsSorted heap (active_of heap entries)
unfolding active_of
active_of-IsSorted heap [] = tt
active_of-IsSorted heap ((ip, r) ∷ entries) = elim (Bool-cases (is_healthy (stats_at heap r))) [
  | inl e ↦
      rw e (insert_ref-IsSorted heap r (active_of heap entries) (active_of-IsSorted heap entries))
  | inr e ↦ rw e (active_of-IsSorted heap entries)
]

-- An address of the map whose object is healthy.
abbrev HasHealthy : List IpStats → List Entry → ℕ → Type 0
HasHealthy heap entries r =
    (ip : Bytes) × (IsIn (ip, r) entries × (is_healthy (stats_at heap r) ≡ true))

active-on :
    (heap : List IpStats) (ip : Bytes) (r : ℕ) (entries : List Entry)
    → is_healthy (stats_at heap r) ≡ true
    → active_of heap ((ip, r) ∷ entries) ≡ insert_ref heap r (active_of heap entries)
unfolding active_of
active-on heap ip r entries h = rw h refl

active-off :
    (heap : List IpStats) (ip : Bytes) (r : ℕ) (entries : List Entry)
    → is_healthy (stats_at heap r) ≡ false
    → active_of heap ((ip, r) ∷ entries) ≡ active_of heap entries
unfolding active_of
active-off heap ip r entries h = rw h refl

active→ :
    (heap : List IpStats) (entries : List Entry) (r : ℕ)
    → IsIn r (active_of heap entries)
    → HasHealthy heap entries r
unfolding active_of
active→ heap [] r h = absurd h
active→ heap ((ip, x) ∷ entries) r h =
    let deeper : IsIn r (active_of heap entries) → HasHealthy heap ((ip, x) ∷ entries) r =
      λ i. (let (key, (j, ok)) = active→ heap entries r i in (key, (inr j, ok))) in
    elim (Bool-cases (is_healthy (stats_at heap x))) [
      | inl e ↦
          elim (insert→ heap x r (active_of heap entries)
            (subst (IsIn r) (active-on heap ip x entries e) h)) [
              | inl same ↦ (
                ip,
                (inl (ap (λ z. (ip, z)) same), ap (λ z. is_healthy (stats_at heap z)) same ∙ e),
              )
              | inr rest ↦ deeper rest
            ]
      | inr e ↦ deeper (subst (IsIn r) (active-off heap ip x entries e) h)
    ]

→active :
    (heap : List IpStats) (entries : List Entry) (r : ℕ)
    → HasHealthy heap entries r
    → IsIn r (active_of heap entries)
unfolding active_of
→active heap [] r (ip, (i, ok)) = absurd i
→active heap ((key, x) ∷ entries) r (ip, (inl same, ok)) =
    let here : r ≡ x = ap (λ z. z.1) same in
    let on : is_healthy (stats_at heap x) ≡ true =
      ap (λ z. is_healthy (stats_at heap z)) (sym here) ∙ ok in
    subst (IsIn r) (sym (active-on heap key x entries on))
      (→insert heap x r (active_of heap entries) (inl here))
→active heap ((key, x) ∷ entries) r (ip, (inr i, ok)) =
    let deeper = →active heap entries r (ip, (i, ok)) in
    elim (Bool-cases (is_healthy (stats_at heap x))) [
      | inl e ↦
          subst (IsIn r) (sym (active-on heap key x entries e))
            (→insert heap x r (active_of heap entries) (inr deeper))
      | inr e ↦ subst (IsIn r) (sym (active-off heap key x entries e)) deeper
    ]

-- An address of the map whose object was tested with success, and has less than three failures.
abbrev pub IsHealthyIn : List IpStats → List Entry → ℕ → Type 0
IsHealthyIn heap entries r =
    (ip : Bytes) × (IsIn (ip, r) entries
      × ((0 < (stats_at heap r).latency_val) × ((stats_at heap r).failures < 3)))

is_healthy_iff : (s : IpStats) → (is_healthy s ≡ true) ↔ ((0 < s.latency_val) × (s.failures < 3))
unfolding is_healthy
is_healthy_iff s = (λ h. (ground arith, ground arith), λ (a, b). ground arith)

-- In whatever order the map is gone through, the list that is rebuilt is sorted by latency, and an object
-- is on it exactly if it is that of an address of the map, its latency is not 0, and its failures are less
-- than three.
pub rebuild_active_ips_lem :
    (order : Order) (p : CloudflarePool)
    → IsOrder order
    → IsSorted p.heap (rebuild_active_ips order p).active_ips
      × ((r : ℕ) → IsIn r (rebuild_active_ips order p).active_ips ↔ IsHealthyIn p.heap p.all_ips r)
unfolding rebuild_active_ips
rebuild_active_ips_lem order p any_order = (
  active_of-IsSorted p.heap (order p.all_ips),
  λ r. (
    λ i.
        (let (ip, (j, ok)) = active→ p.heap (order p.all_ips) r i in
          (ip, ((any_order p.all_ips (ip, r)).0 j, (is_healthy_iff (stats_at p.heap r)).0 ok))),
    λ (ip, (j, ok)).
        →active p.heap (order p.all_ips) r
          (ip, ((any_order p.all_ips (ip, r)).1 j, (is_healthy_iff (stats_at p.heap r)).1 ok)),
  ),
)

found-IsIn :
    (entries : List Entry) (ip : Bytes) (r : ℕ)
    → find_entry entries ip ≡ some r
    → (key : Bytes) × IsIn (key, r) entries
unfolding find_entry
found-IsIn [] ip r h = ground arith
found-IsIn ((key, x) ∷ entries) ip r h = elim (Bool-cases (str_eq key ip)) [
  | inl e ↦ let same : r ≡ x = ground arith in (key, inl (ap (λ z. (key, z)) same))
  | inr e ↦ let (k, i) = found-IsIn entries ip r (ground arith) in (k, inr i)
]

stats_at-set :
    (heap : List IpStats) (r : ℕ) (s : IpStats) → r < length heap → stats_at (set heap r s) r ≡ s
stats_at-set [] r s h = ground arith
stats_at-set (x ∷ heap) zero s h = refl
stats_at-set (x ∷ heap) (suc r) s h = stats_at-set heap r s (omega arith)

failed_healthy : (s : IpStats) → s.failures < 2 → is_healthy (failed s) ≡ true
unfolding is_healthy
failed_healthy s h = ground arith

-- A failure that is reported of an address with less than two failures so far makes the address active,
-- also where it was never tested: the penalty alone makes its latency positive.
pub report_failure_active :
    (order : Order) (ip : Bytes) (p : CloudflarePool) (r : ℕ)
    → IsOrder order
    → find_entry p.all_ips ip ≡ some r
    → r < length p.heap
    → (stats_at p.heap r).failures < 2
    → IsIn r (report_failure order ip p).active_ips
unfolding report_failure with_stats
report_failure_active order ip p r any_order found bound few =
    let after = with_stats p (some r) failed in
    let (key, i) = found-IsIn p.all_ips ip r found in
    let ok : is_healthy (stats_at after.heap r) ≡ true =
      ap is_healthy (stats_at-set p.heap r (failed (stats_at p.heap r)) bound)
      ∙ failed_healthy (stats_at p.heap r) few in
    let listed =
      ((rebuild_active_ips_lem order after any_order).1 r).1
        (key, (i, (is_healthy_iff (stats_at after.heap r)).0 ok)) in
    subst (λ o. IsIn r (rebuild_active_ips order (with_stats p o failed)).active_ips) (sym found)
      listed
