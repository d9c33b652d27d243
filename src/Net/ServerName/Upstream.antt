-- ===== src/Net/ServerName/Upstream.antt =====
-- What `chooseUpstreamSNI` shows.
use sni_shaper_linux.Prelude.{
  ◌≡◌, ◌≢◌, ◌⊎◌, refl, sym, ap, inl, inr, true, false, arith, Bool-cases, Option, none, some, List,
  [], ◌∷◌, ◌++◌, map, All, subst,
}
use sni_shaper_linux.Text.{
  Bytes, codes, is_empty, trim_space, to_lower, str_eq, str_eq_iff, split, mem_str,
}
use sni_shaper_linux.Rules.Types.{Rule}
use sni_shaper_linux.Net.Address.{
  ensure_addr_with_port, split_host_port, normalize_host, is_literal_ip,
}
use sni_shaper_linux.Net.Candidates.{
  Network, resolve_upstream_host, resolve_rule_upstream, first_seen, split_upstream_candidates,
  first_upstream_host,
}
use sni_shaper_linux.Net.ServerName.{sni_of_upstream, choose_upstream_sni}

-- The address that a part of the list of upstreams stands for.
abbrev pub address_of : Bytes → Bytes
address_of part = ensure_addr_with_port (trim_space part) (codes "443")

-- The host of an address, or the address itself where there is no port to take off.
abbrev pub IsHostOf : Bytes → Option (Bytes × Bytes) → Bytes → Type 0
IsHostOf address none name = name ≡ normalize_host address
IsHostOf address (some (host, port)) name = name ≡ normalize_host host

-- The part is the first one that stands for an address.
abbrev pub IsFirstPart : List Bytes → Bytes → Type 0
IsFirstPart parts part =
    (before : List Bytes) × ((behind : List Bytes) × ((parts ≡ before ++ part ∷ behind)
        × ((is_empty (address_of part) ≡ false)
            × All (λ p. is_empty (address_of p) ≡ true) before)))

-- The parts between the commas of the rule's upstream, in which `$1` stands for the host's first label.
abbrev pub upstream_parts : Bytes → Bytes → List Bytes
upstream_parts host upstream = split (resolve_upstream_host host upstream) b','

abbrev pub IsUpstreamName : Bytes → Bytes → Bytes → Type 0
IsUpstreamName host upstream name =
    (part : Bytes) × (IsFirstPart (upstream_parts host upstream) part
      × IsHostOf (address_of part) (split_host_port (address_of part)) name)

-- There is no upstream.
abbrev pub HasNone : Bytes → Bytes → Type 0
HasNone host upstream =
    (is_empty (resolve_upstream_host host upstream) ≡ true)
    ⊎ All (λ p. is_empty (address_of p) ≡ true) (upstream_parts host upstream)

-- The name of the first upstream, if there is one and it is a name; else the host that was asked for.
abbrev pub IsNameOr : Network → Bytes → Bytes → Bytes → Type 0
IsNameOr net host upstream shown =
    (IsUpstreamName host upstream shown
      × ((is_empty shown ≡ false) × (is_literal_ip net.is_ip shown ≡ false)))
    ⊎ ((shown ≡ host)
        × (HasNone host upstream
            ⊎ ((name : Bytes) × (IsUpstreamName host upstream name
                  × ((is_empty name ≡ true) ⊎ (is_literal_ip net.is_ip name ≡ true))))))

first_part :
    (parts : List Bytes)
    → ((part : Bytes) × (IsFirstPart parts part
          × ((rest : List Bytes) × (first_seen (map address_of parts) []
                ≡ address_of part ∷ rest))))
      ⊎ (All (λ p. is_empty (address_of p) ≡ true) parts
          × (first_seen (map address_of parts) [] ≡ []))
unfolding first_seen mem_str
first_part [] = inr (tt, refl)
first_part (p ∷ parts) = elim (Bool-cases (is_empty (address_of p))) [
  | inr filled ↦ inl (
    p,
    (
      ([], (parts, (refl, (filled, tt)))),
      (first_seen (map address_of parts) (address_of p ∷ []), rw (filled, first_seen) refl),
    ),
  )
  | inl blank ↦ elim (first_part parts) [
    | inr (others, e) ↦ inr ((blank, others), rw (blank, first_seen) e)
    | inl (part, ((before, (behind, (place, (filled, blanks)))), (rest, e))) ↦ inl (
      part,
      (
        (p ∷ before, (behind, (ap (λ l. p ∷ l) place, (filled, (blank, blanks))))),
        (rest, rw (blank, first_seen) e),
      ),
    )
  ]
]

first_host :
    (a : Bytes) (o : Option (Bytes × Bytes))
    → IsHostOf a o (elim o as (λ _. Bytes) [
      | none ↦ normalize_host a
      | some (host, port) ↦ normalize_host host
    ])
first_host a none = refl
first_host a (some (host, port)) = refl

first_upstream_host_lem :
    (host upstream : Bytes)
    → IsUpstreamName host upstream (first_upstream_host host upstream)
      ⊎ (HasNone host upstream × (first_upstream_host host upstream ≡ []))
unfolding first_upstream_host split_upstream_candidates
first_upstream_host_lem host upstream =
    elim (Bool-cases (is_empty (resolve_upstream_host host upstream))) [
      | inl blank ↦ inr (inl blank, rw (blank, first_upstream_host) refl)
      | inr filled ↦ elim (first_part (upstream_parts host upstream)) [
        | inr (others, e) ↦ inr (inr others, rw (filled, e, first_upstream_host) refl)
        | inl (part, (first, (rest, e))) ↦ inl (
          part,
          (
            first,
            rw (filled, e, first_upstream_host)
                (first_host (address_of part) (split_host_port (address_of part))),
          ),
        )
      ]
    ]

unequal : (s t : Bytes) → s ≢ t → str_eq s t ≡ false
unequal s t h = elim (Bool-cases (str_eq s t)) [
  | inl e ↦ absurd (h ((str_eq_iff s t).0 e))
  | inr e ↦ e
]

no_upstream :
    (net : Network) (h resolved : Bytes)
    → is_empty resolved ≡ true
    → h ≡ sni_of_upstream net h resolved
unfolding sni_of_upstream first_upstream_host split_upstream_candidates resolve_upstream_host
    is_empty trim_space
no_upstream net h [] e = refl
no_upstream net h (c ∷ s) e = ground arith

by_upstream :
    (net : Network) (host : Bytes) (rule : Rule)
    → is_empty (trim_space rule.sni_fake) ≡ true
    → str_eq (to_lower (trim_space rule.sni_policy)) (codes "none") ≡ false
    → str_eq (to_lower (trim_space rule.sni_policy)) (codes "fake") ≡ false
    → str_eq (to_lower (trim_space rule.sni_policy)) (codes "original") ≡ false
    → choose_upstream_sni net host rule
      ≡ sni_of_upstream net (normalize_host host) (resolve_rule_upstream (normalize_host host) rule)
unfolding choose_upstream_sni
by_upstream net host rule no_fake a b c = ground (
  arith,
  no_upstream net (normalize_host host) (resolve_rule_upstream (normalize_host host) rule),
)

sni_of_upstream-IsNameOr :
    (net : Network) (host upstream : Bytes)
    → IsNameOr net host upstream (sni_of_upstream net host upstream)
unfolding sni_of_upstream is_empty
sni_of_upstream-IsNameOr net host upstream =
    let name = first_upstream_host host upstream in
    elim (first_upstream_host_lem host upstream) [
      | inr (nothing, e) ↦ inr (rw e refl, inl nothing)
      | inl named ↦ elim (Bool-cases (is_empty name)) [
        | inl blank ↦ inr (rw blank refl, inr (name, (named, inl blank)))
        | inr filled ↦ elim (Bool-cases (is_literal_ip net.is_ip name)) [
          | inl literal ↦ inr (rw (filled, literal) refl, inr (name, (named, inr literal)))
          | inr no_literal ↦ inl (
              subst
                (λ s.
                  IsUpstreamName host upstream s
                  × ((is_empty s ≡ false) × (is_literal_ip net.is_ip s ≡ false)))
                (rw (filled, no_literal) refl) (named, (filled, no_literal)))
        ]
      ]
    ]

-- With no fake name configured, and under a policy other than `none` and `fake`: under `original` the
-- server name is the host that was asked for. Else it is the name of the first upstream of the rule, the
-- first part of its text that stands for an address; if there is none, or its name is empty or an
-- address, it is the host that was asked for.
pub choose_upstream_sni-IsNameOr :
    (net : Network) (host : Bytes) (rule : Rule)
    → is_empty (trim_space rule.sni_fake) ≡ true
    → to_lower (trim_space rule.sni_policy) ≢ codes "none"
    → to_lower (trim_space rule.sni_policy) ≢ codes "fake"
    → ((to_lower (trim_space rule.sni_policy) ≡ codes "original")
        × (choose_upstream_sni net host rule ≡ normalize_host host))
      ⊎ ((to_lower (trim_space rule.sni_policy) ≢ codes "original")
          × IsNameOr net
              (normalize_host host)
              (resolve_rule_upstream (normalize_host host) rule)
              (choose_upstream_sni net host rule))
choose_upstream_sni-IsNameOr net host rule no_fake not_none not_fake =
    let h = normalize_host host in
    let resolved = resolve_rule_upstream h rule in
    let policy = to_lower (trim_space rule.sni_policy) in
    let no_none = unequal policy (codes "none") not_none in
    let no_fake_policy = unequal policy (codes "fake") not_fake in
    elim (Bool-cases (str_eq policy (codes "original"))) [
      | inl original ↦ inl (
        (str_eq_iff policy (codes "original")).0 original,
        unfold choose_upstream_sni in (rw (no_none, original) refl),
      )
      | inr other ↦ inr (
        λ e. ground (arith, (str_eq_iff policy (codes "original")).1 e, other),
        subst (IsNameOr net h resolved)
            (sym (by_upstream net host rule no_fake no_none no_fake_policy other))
            (sni_of_upstream-IsNameOr net h resolved),
      )
    ]
