-- ===== src/Rules/Manage.antt =====
-- proxy/proxy.go: the operations on site groups, upstreams, DNS nodes and ECH profiles. Each returns
-- the configuration that it leaves and the error, if any, of `saveRulesConfig`, which is the parameter
-- `save`; the id that `generateID` makes is the parameter `new_id`.
pub mod Order
pub mod Upsert
use sni_shaper_linux.Prelude.{
  ℕ, zero, suc, ◌-◌, Bool, true, false, not, ◌&&◌, ◌||◌, Option, none, some, List, [], ◌∷◌, ◌++◌,
  leb, ◌==◌, if◌then◌else◌, length, take, drop, ℤ, pos, negsuc, get_elem?, without,
}
use sni_shaper_linux.Text.{Bytes, codes, str_eq, trim_space, is_empty}
use sni_shaper_linux.Rules.Types.{SiteGroup, Upstream, EchProfile, DnsNode}
use sni_shaper_linux.Rules.Build.{RulesConfig, build_rules}
use sni_shaper_linux.Rules.Ech.{normalize_ech_profile}

abbrev pub Save : Type 0
Save = RulesConfig → Option Bytes

abbrev pub saved : Save → RulesConfig → RulesConfig × Option Bytes
saved save rm = (rm, save rm)

module _ {A : Type 0} where
  -- The loops that overwrite or remove the first element that passes a test.
  unfoldable pub replace_first : (A → Bool) → A → List A → List A
  replace_first p v [] = []
  replace_first p v (x ∷ xs) = let rest = replace_first p v xs in if p x then v ∷ xs else x ∷ rest

  unfoldable pub remove_first : (A → Bool) → List A → List A
  remove_first p [] = []
  remove_first p (x ∷ xs) = let rest = remove_first p xs in if p x then xs else x ∷ rest

  -- The place of the first element that passes a test.
  unfoldable pub find_index : (A → Bool) → List A → Option ℕ
  find_index p [] = none
  find_index p (x ∷ xs) =
      let later = find_index p xs in
      if p x then some 0 else elim later [ none ↦ none | some i ↦ some (suc i) ]

unfoldable pub add_site_group : Save → Bytes → SiteGroup → RulesConfig → RulesConfig × Option Bytes
add_site_group save new_id sg rm =
    let sg' = record sg { id = new_id; website = trim_space sg.website } in
    saved save (build_rules (record rm { site_groups = rm.site_groups ++ sg' ∷ [] }))

unfoldable pub update_site_group : Save → SiteGroup → RulesConfig → RulesConfig × Option Bytes
unfolding replace_first
update_site_group save sg rm =
    let sg' = record sg { website = trim_space sg.website } in
    let groups = replace_first (λ s. str_eq s.id sg.id) sg' rm.site_groups in
    saved save (build_rules (record rm { site_groups = groups }))

unfoldable pub delete_site_group : Save → Bytes → RulesConfig → RulesConfig × Option Bytes
unfolding remove_first
delete_site_group save id rm =
    let groups = remove_first (λ s. str_eq s.id id) rm.site_groups in
    saved save (build_rules (record rm { site_groups = groups }))

unfoldable pub add_upstream : Save → Bytes → Upstream → RulesConfig → RulesConfig × Option Bytes
add_upstream save new_id u rm =
    saved save (record rm { upstreams = rm.upstreams ++ record u { id = new_id } ∷ [] })

unfoldable pub update_upstream : Save → Upstream → RulesConfig → RulesConfig × Option Bytes
unfolding replace_first
update_upstream save u rm =
    saved save (record rm { upstreams = replace_first (λ x. str_eq x.id u.id) u rm.upstreams })

unfoldable pub delete_upstream : Save → Bytes → RulesConfig → RulesConfig × Option Bytes
unfolding remove_first
delete_upstream save id rm =
    saved save (record rm { upstreams = remove_first (λ x. str_eq x.id id) rm.upstreams })

unfoldable pub add_dns_node : Save → Bytes → DnsNode → RulesConfig → RulesConfig × Option Bytes
add_dns_node save new_id n rm =
    saved save (record rm { dns_nodes = rm.dns_nodes ++ record n { id = new_id } ∷ [] })

unfoldable pub update_dns_node : Save → DnsNode → RulesConfig → RulesConfig × Option Bytes
unfolding replace_first
update_dns_node save n rm =
    saved save (record rm { dns_nodes = replace_first (λ x. str_eq x.id n.id) n rm.dns_nodes })

unfoldable pub delete_dns_node : Save → Bytes → RulesConfig → RulesConfig × Option Bytes
unfolding remove_first
delete_dns_node save id rm =
    saved save (record rm { dns_nodes = remove_first (λ x. str_eq x.id id) rm.dns_nodes })

-- A target below the list or above it is moved into it.
unfoldable pub clamp : ℤ → ℕ → ℕ
clamp (negsuc n) len = 0
clamp (pos n) len = if leb len n then len - 1 else n

-- Takes the element at a place out and puts it at another place of what is left.
unfoldable pub move : {A : Type 0} → ℕ → A → ℕ → List A → List A
move src node target nodes =
    let rest = without src nodes in take target rest ++ node ∷ drop target rest

unfoldable pub put_node : Save → RulesConfig → ℕ → ℕ → Option DnsNode → RulesConfig × Option Bytes
unfolding move
put_node save rm src target none = (rm, none)
put_node save rm src target (some node) =
    saved save (record rm { dns_nodes = move src node target rm.dns_nodes })

-- What is done with the place of the node, if there is one.
unfoldable pub reorder_from : Save → RulesConfig → Bytes → ℤ → Option ℕ → RulesConfig × Option Bytes
unfolding clamp put_node
reorder_from save rm id target_index none =
    (rm, some (codes "dns node " ++ id ++ codes " not found"))
reorder_from save rm id target_index (some src) =
    let target = clamp target_index (length rm.dns_nodes) in
    if src == target then (rm, none) else put_node save rm src target (get_elem? rm.dns_nodes src)

unfoldable pub set_dns_node_priority : Save → Bytes → ℤ → RulesConfig → RulesConfig × Option Bytes
unfolding find_index reorder_from
set_dns_node_priority save id target_index rm =
    reorder_from save rm id target_index (find_index (λ n. str_eq n.id id) rm.dns_nodes)

-- What is done with the place of the profile with the id, if there is one.
unfoldable pub upsert_at : Save → EchProfile → RulesConfig → Option ℕ → RulesConfig × Option Bytes
unfolding replace_first
upsert_at save p rm none = saved save (record rm { ech_profiles = rm.ech_profiles ++ p ∷ [] })
upsert_at save p rm (some i) =
    saved save
      (record rm { ech_profiles = replace_first (λ x. str_eq x.id p.id) p rm.ech_profiles })

unfoldable pub upsert_ech_profile :
    Save → Bytes → EchProfile → RulesConfig → RulesConfig × Option Bytes
unfolding upsert_at find_index
upsert_ech_profile save new_id profile rm =
    let p = normalize_ech_profile profile in
    if is_empty p.id
    then saved save (record rm { ech_profiles = rm.ech_profiles ++ record p { id = new_id } ∷ [] })
    else upsert_at save p rm (find_index (λ x. str_eq x.id p.id) rm.ech_profiles)

unfoldable pub delete_ech_profile : Save → Bytes → RulesConfig → RulesConfig × Option Bytes
unfolding remove_first
delete_ech_profile save id rm =
    saved save (record rm { ech_profiles = remove_first (λ x. str_eq x.id id) rm.ech_profiles })
