-- ===== src/Auto/Router/Decide.antt =====
-- What `Decide` decides, and how long an answer of `IsCloudflare` stands.
use sni_shaper_linux.Prelude.{
  ℕ, ◌-◌, ◌<◌, ◌≡◌, ◌≢◌, refl, ap, ◌↔◌, ◌⊎◌, inl, inr, Bool, true, false, Option, none, some, List,
  ◌∷◌, arith, if◌then◌else◌, Bool-cases,
}
use sni_shaper_linux.Text.{Bytes, codes, str_eq, str_eq_iff, is_empty}
use sni_shaper_linux.Rules.Domain.{clean}
use sni_shaper_linux.Auto.GfwList.{is_blocked}
use sni_shaper_linux.Auto.GfwList.Blocked.{IsListed, is_blocked_iff}
use sni_shaper_linux.Auto.Router.{
  Ip, AutoRouter, resolved, CfCacheEntry, cf_cache_ttl, lookup, cached, is_cloudflare, decide,
  direct_rule, cloudflare_rule, fragment_rule,
}

lookup_first :
    (k : Bytes) (e : CfCacheEntry) (m : List (Bytes × CfCacheEntry))
    → lookup k ((k, e) ∷ m) ≡ some e
unfolding lookup
lookup_first k e m = ground (arith, (str_eq_iff k k).1 refl)

-- The router with one more answer written down.
abbrev noted : AutoRouter → Bytes → Bool → ℕ → AutoRouter
noted ar h b after = record ar {
  cf_cache = (h, record { is_cf = b; checked_at = after }) ∷ ar.cf_cache;
}

ask_fresh :
    (resolve : Bytes → Option (List Ip)) (now after : ℕ) (ar : AutoRouter) (host : Bytes)
    → is_empty (clean host) ≡ false
    → cached ar (clean host) now ≡ none
    → (b : Bool) × (is_cloudflare resolve now after ar host ≡ (noted ar (clean host) b after, b))
unfolding is_cloudflare
ask_fresh resolve now after ar host filled fresh =
    (resolved ar (resolve (clean host)), ground arith)

ask_cached :
    (resolve : Bytes → Option (List Ip)) (now after : ℕ) (ar : AutoRouter) (host : Bytes) (b : Bool)
    → is_empty (clean host) ≡ false
    → cached ar (clean host) now ≡ some b
    → is_cloudflare resolve now after ar host ≡ (ar, b)
unfolding is_cloudflare
ask_cached resolve now after ar host b filled known = ground arith

cached-noted :
    (ar : AutoRouter) (h : Bytes) (b : Bool) (after now : ℕ)
    → now - after < cf_cache_ttl
    → cached (noted ar h b after) h now ≡ some b
unfolding cached
cached-noted ar h b after now soon =
    ground (arith, lookup_first h (record { is_cf = b; checked_at = after }) ar.cf_cache)

-- An answer that was asked for, of a host that is not blank, stands for 30 minutes from when it was
-- written down: within them every further question has the same answer, whatever the resolver says
-- then, and leaves the cache alone.
pub is_cloudflare_again :
    (resolve resolve' : Bytes → Option (List Ip)) (now after now' after' : ℕ) (ar : AutoRouter)
    (host : Bytes)
    → is_empty (clean host) ≡ false
    → cached ar (clean host) now ≡ none
    → now' - after < cf_cache_ttl
    → is_cloudflare resolve' now' after' (is_cloudflare resolve now after ar host).0 host
      ≡ is_cloudflare resolve now after ar host
is_cloudflare_again resolve resolve' now after now' after' ar host filled fresh soon =
    let (b, e) = ask_fresh resolve now after ar host filled fresh in
    rw e (
      ask_cached resolve' now' after' (noted ar (clean host) b after) host b filled
        (cached-noted ar (clean host) b after now' soon))

module _ (resolve : Bytes → Option (List Ip)) (now after : ℕ) (ar : AutoRouter) (host : Bytes) where
  decide_off : is_empty ar.config.mode ≡ true → decide resolve now after ar host ≡ (ar, direct_rule)
  unfolding decide
  decide_off h = rw h

  decide_free :
      is_blocked ar.gfw_list host ≡ false → decide resolve now after ar host ≡ (ar, direct_rule)
  unfolding decide
  decide_free h = ground arith

  decide_blocked :
      is_empty ar.config.mode ≡ false
      → is_blocked ar.gfw_list host ≡ true
      → ((decide resolve now after ar host).1.mode ≡ codes "mitm")
        ⊎ ((decide resolve now after ar host).1.mode ≡ codes "tls-rf")
  unfolding decide
  decide_blocked on h = ground arith

  -- A decision is other than direct exactly if the automatic routing is on and the host is listed.
  pub decide_iff : ((decide resolve now after ar host).1.mode ≢ codes "direct") ↔ (
      (is_empty ar.config.mode ≡ false)
      × ((is_empty (clean host) ≡ false) × IsListed ar.gfw_list (clean host)))
  decide_iff = (
    λ routed. elim (Bool-cases (is_empty ar.config.mode)) [
      | inl off ↦ absurd (routed (ap (λ r. r.1.mode) (decide_off off)))
      | inr on ↦ elim (Bool-cases (is_blocked ar.gfw_list host)) [
        | inl listed ↦ (on, (is_blocked_iff ar.gfw_list host).0 listed)
        | inr free ↦ absurd (routed (ap (λ r. r.1.mode) (decide_free free)))
      ]
    ],
    λ (on, listed) direct. elim (decide_blocked on ((is_blocked_iff ar.gfw_list host).1 listed)) [
      | inl mitm ↦ ground arith
      | inr fragmented ↦ ground arith
    ],
  )

  -- A decision for a listed host, with the routing on: Encrypted ClientHello over the Cloudflare pool if
  -- `is_cloudflare` says so, else fragments, with a fallback exactly in the mode `server`; and the router
  -- is left as `is_cloudflare` leaves it.
  pub decide_listed :
      is_empty ar.config.mode ≡ false
      → is_empty (clean host) ≡ false
      → IsListed ar.gfw_list (clean host)
      → let (ar', cf) = is_cloudflare resolve now after ar host in
        ((decide resolve now after ar host).0 ≡ ar')
        × ((decide resolve now after ar host).1 ≡ (
            if cf
            then cloudflare_rule
            else if str_eq ar.config.mode (codes "server")
            then record fragment_rule { fallback_mode = codes "server" }
            else fragment_rule))
  unfolding decide
  decide_listed on filled listed =
      let blocked = (is_blocked_iff ar.gfw_list host).1 (filled, listed) in
      (ground arith, ground arith)
