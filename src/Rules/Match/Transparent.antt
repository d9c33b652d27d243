-- ===== src/Rules/Match/Transparent.antt =====
-- When `matchRule`, asked in the mode `transparent`, answers with the mode `mitm`.
use sni_shaper_linux.Prelude.{
  [], ◌∷◌, ◌++◌, ℕ, ◌≡◌, ◌∙◌, refl, sym, ap, subst, ◌↔◌, inl, inr, Option, some, List, arith, All,
  Bool-cases, Option-cases, true, false,
}
use sni_shaper_linux.Text.{Bytes, codes, is_empty, str_eq, str_eq_iff}
use sni_shaper_linux.Rules.Types.{Rule}
use sni_shaper_linux.Rules.Domain.{Regex, clean}
use sni_shaper_linux.Net.Address.{normalize_host}
use sni_shaper_linux.Auto.GfwList.{is_blocked}
use sni_shaper_linux.Auto.GfwList.Blocked.{IsListed, is_blocked_iff}
use sni_shaper_linux.Auto.Router.{Ip, AutoRouter, is_cloudflare, decide}
use sni_shaper_linux.Rules.Match.{Routes, auto_match, match_rule}
use sni_shaper_linux.Rules.Match.Routing.{
  Scores, Unfit, IsFirstBest, match_rule_lem, transparent_mitm,
}

All-middle :
    (P : Rule → Type 0) (before : List Rule) (x : Rule) (behind : List Rule)
    → All P (before ++ x ∷ behind)
    → P x
All-middle P [] x behind h = h.0
All-middle P (y ∷ before) x behind h = All-middle P before x behind h.1

Unfit-Scores :
    (regex : Regex) (host : Bytes) (x : Rule) (n : ℕ)
    → Unfit regex host (λ m. ⊥) x
    → ¬ Scores regex host x n
Unfit-Scores regex host x n (inl off) (on, e) = ground arith
Unfit-Scores regex host x n (inr (inl blank)) (on, e) = ground arith
Unfit-Scores regex host x n (inr (inr (m, (e', bad)))) (on, e) = bad

Unfit-IsFirstBest :
    (regex : Regex) (host : Bytes) (rules : List Rule) (best : Rule) (n : ℕ)
    → All (Unfit regex host (λ m. ⊥)) rules
    → ¬ IsFirstBest regex host rules best n
Unfit-IsFirstBest regex host rules best n unfit (scores, (before, (behind, (place, _)))) =
    Unfit-Scores regex host best n
      (All-middle (Unfit regex host (λ m. ⊥)) before best behind
        (subst (All (Unfit regex host (λ m. ⊥))) place unfit))
      scores

-- The automatic routing has the host decrypted: the manager and its router have it on, the list has the
-- host or a domain above it, and the host is taken to be at Cloudflare.
abbrev pub IsRoutedByMitm :
    (Bytes → Option (List Ip)) → ℕ → ℕ → Routes → Bytes → AutoRouter → Type 0
IsRoutedByMitm resolve now after r host ar =
    (r.auto_router ≡ some ar)
    × ((is_empty r.auto_routing_config.mode ≡ false)
        × ((is_empty ar.config.mode ≡ false)
            × ((is_empty (clean host) ≡ false)
                × (IsListed ar.gfw_list (clean host)
                    × ((is_cloudflare resolve now after ar host).1 ≡ true)))))

module _ (resolve : Bytes → Option (List Ip)) (now after : ℕ) (r : Routes) (host : Bytes) where
  decide_mitm :
      (ar : AutoRouter)
      → (decide resolve now after ar host).1.mode ≡ codes "mitm"
      → (is_empty ar.config.mode ≡ false)
        × ((is_blocked ar.gfw_list host ≡ true)
            × ((is_cloudflare resolve now after ar host).1 ≡ true))
  unfolding decide
  decide_mitm ar e = (ground (arith, e), (ground (arith, e), ground (arith, e)))

  mitm_decide :
      (ar : AutoRouter)
      → is_empty ar.config.mode ≡ false
      → is_blocked ar.gfw_list host ≡ true
      → (is_cloudflare resolve now after ar host).1 ≡ true
      → (decide resolve now after ar host).1.mode ≡ codes "mitm"
  unfolding decide
  mitm_decide ar on blocked cf = rw (on, blocked, cf) refl

  auto→ :
      (auto_match resolve now after r host).rule.mode ≡ codes "mitm"
      → (ar : AutoRouter) × IsRoutedByMitm resolve now after r host ar
  unfolding auto_match
  auto→ e = elim (Option-cases r.auto_router) [
    | inl absent ↦ let bad : codes "direct" ≡ codes "mitm" = rw absent at e in ground arith
    | inr (ar, ea) ↦ elim (Bool-cases (is_empty r.auto_routing_config.mode)) [
      | inl off ↦ let bad : codes "direct" ≡ codes "mitm" = rw (ea, off) at e in ground arith
      | inr on ↦
          elim (Bool-cases (str_eq (decide resolve now after ar host).1.mode (codes "direct"))) [
            | inl plain ↦
                let bad : codes "direct" ≡ codes "mitm" = rw (ea, on, plain) at e in ground arith
            | inr routed ↦
                let decided : (decide resolve now after ar host).1.mode ≡ codes "mitm" =
                  rw (ea, on, routed) at e in
                let (on', (blocked, cf)) = decide_mitm ar decided in
                let (filled, listed) = (is_blocked_iff ar.gfw_list host).0 blocked in
                (ar, (ea, (on, (on', (filled, (listed, cf))))))
          ]
    ]
  ]

  →auto :
      (ar : AutoRouter)
      → IsRoutedByMitm resolve now after r host ar
      → (auto_match resolve now after r host).rule.mode ≡ codes "mitm"
  unfolding auto_match
  →auto ar (ea, (on, (on', (filled, (listed, cf))))) =
      let decided = mitm_decide ar on' ((is_blocked_iff ar.gfw_list host).1 (filled, listed)) cf in
      elim (Bool-cases (str_eq (decide resolve now after ar host).1.mode (codes "direct"))) [
        | inl plain ↦
            let bad =
              sym decided
              ∙ (str_eq_iff (decide resolve now after ar host).1.mode (codes "direct")).0 plain in
            ground arith
        | inr routed ↦ rw (ea, on, routed) decided
      ]

module _ (regex : Regex) (resolve : Bytes → Option (List Ip)) (now after : ℕ) (r : Routes)
    (host mode : Bytes) (transparent : str_eq (clean mode) (codes "transparent") ≡ true) where
  -- Asked in the mode `transparent`, `match_rule` answers with the mode `mitm`, which that mode is to
  -- keep away, exactly if no enabled rule of the user has a score on the host, the automatic routing is
  -- on in the manager and in its router, the host or a domain above it is on the list, and
  -- `is_cloudflare` says yes to the host.
  pub match_rule-mitm_iff :
      ((match_rule regex resolve now after r host mode).rule.mode ≡ codes "mitm") ↔ (
        All (Unfit regex (normalize_host host) (λ m. ⊥)) r.rules
        × ((ar : AutoRouter) × IsRoutedByMitm resolve now after r (normalize_host host) ar))
  match_rule-mitm_iff = (
    λ e.
        let (unfit, by_auto) = transparent_mitm regex resolve now after r host mode transparent e in
        (
          unfit,
          auto→ resolve now after r (normalize_host host) (ap (λ m. m.rule.mode) (sym by_auto) ∙ e),
        ),
    λ (unfit, (ar, routed)). elim (match_rule_lem regex resolve now after r host mode) [
      | inl (best, n, is_best, _) ↦
          absurd (Unfit-IsFirstBest regex (normalize_host host) r.rules best n unfit is_best)
      | inr (_, by_auto) ↦
          ap (λ m. m.rule.mode) by_auto ∙ →auto resolve now after r (normalize_host host) ar routed
    ],
  )
