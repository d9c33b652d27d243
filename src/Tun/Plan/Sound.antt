-- ===== src/Tun/Plan/Sound.antt =====
-- What every plan keeps to.
use sni_shaper_linux.Prelude.{
  ℕ, if_either, if_cases, if◌then◌else◌, ◌≡◌, refl, subst, sym, Bool, true, false, not, ◌&&◌, ◌||◌,
  none, some, List, [], ◌∷◌, ◌++◌, arith,
}
use sni_shaper_linux.Text.{Bytes, codes, str_eq, str_eq_iff, is_empty, trim_space, decimal}
use sni_shaper_linux.Rules.Types.{Rule}
use sni_shaper_linux.Rules.Domain.{clean}
use sni_shaper_linux.Net.Address.{
  split_host_port, join_host_port, ensure_addr_with_port, in_brackets, unbracket, has_byte,
}
use sni_shaper_linux.Net.Candidates.{Network, build_dial_candidates}
use sni_shaper_linux.Net.Candidates.Dial.{
  IsDialList, joined_not_blank, build_dial_candidates-IsDialList,
}
use sni_shaper_linux.Tun.Plan.{
  TunFlow, or_text, flow_protocol, flow_host, flow_port, Handling, tcp_only, handle_udp, handle_tcp,
  handle_flow, target_addr, udp_candidates, plan_with,
}

append_filled : (s t : Bytes) (c : ℕ) → is_empty (s ++ c ∷ t) ≡ false
unfolding is_empty
append_filled [] t c = refl
append_filled (d ∷ s) t c = refl

joined_filled : (host port : Bytes) → is_empty (join_host_port host port) ≡ false
unfolding join_host_port is_empty
joined_filled host port =
    if_either (λ s. is_empty s ≡ false) (has_byte host b':') refl (append_filled host port b':')

ensured_filled :
    (addr port : Bytes)
    → is_empty (trim_space addr) ≡ false
    → is_empty (ensure_addr_with_port addr port) ≡ false
unfolding ensure_addr_with_port
ensured_filled addr port h =
    if_cases (λ s. is_empty s ≡ false) (is_empty (trim_space addr)) (λ e. ground arith)
      (λ e.
        elim (split_host_port (trim_space addr))
          as (λ o.
            is_empty (elim o [
              | some (host, p) ↦ join_host_port host (if is_empty p then port else p)
              | none ↦
                  if in_brackets (trim_space addr)
                  then join_host_port (unbracket (trim_space addr)) port
                  else join_host_port (trim_space addr) port
            ])
            ≡ false) [
              | some (host, p) ↦ joined_filled host (if is_empty p then port else p)
              | none ↦
                  if_either (λ s. is_empty s ≡ false) (in_brackets (trim_space addr))
                    (joined_filled (unbracket (trim_space addr)) port)
                    (joined_filled (trim_space addr) port)
            ])

-- UDP is never carried by a mode for TCP, nor by MITM; MITM is possible under TCP alone, and not in the modes
-- that leave the bytes as they are; another protocol goes direct.
abbrev pub KeepsTo : Bytes → Bool → Bytes → Type 0
KeepsTo protocol mitm mode =
    ((str_eq protocol (codes "udp") && (mitm || tcp_only mode)) ≡ false)
    × ((mitm
          && (not (str_eq protocol (codes "tcp"))
              || (str_eq mode (codes "direct") || str_eq mode (codes "transparent"))))
        ≡ false)
    × ((not (str_eq protocol (codes "udp"))
          && (not (str_eq protocol (codes "tcp")) && not (str_eq mode (codes "direct"))))
        ≡ false)

abbrev Keeps : Bytes → Handling → Type 0
Keeps protocol h = KeepsTo protocol h.mitm h.mode

udp_alone :
    (protocol mode : Bytes)
    → str_eq protocol (codes "udp") ≡ true
    → tcp_only mode ≡ false
    → KeepsTo protocol false mode
udp_alone protocol mode p t = (ground arith, refl, ground arith)

handle_udp-KeepsTo :
    (protocol mode : Bytes)
    → str_eq protocol (codes "udp") ≡ true
    → Keeps protocol (handle_udp mode)
unfolding handle_udp str_eq
handle_udp-KeepsTo protocol mode p =
    if_cases (Keeps protocol) (tcp_only mode) (λ t. udp_alone protocol (codes "transparent") p refl)
      λ t. if_either (Keeps protocol) (str_eq mode (codes "quic")) (udp_alone protocol mode p t) (
        if_either (Keeps protocol) (str_eq mode (codes "warp")) (udp_alone protocol mode p t)
          (udp_alone protocol mode p t))

tcp_alone :
    (protocol mode : Bytes) (mitm : Bool)
    → str_eq protocol (codes "tcp") ≡ true
    → str_eq protocol (codes "udp") ≡ false
    → (mitm && (str_eq mode (codes "direct") || str_eq mode (codes "transparent"))) ≡ false
    → KeepsTo protocol mitm mode
tcp_alone protocol mode mitm p q m = (ground arith, ground arith, ground arith)

handle_tcp-KeepsTo :
    (protocol mode : Bytes)
    → str_eq protocol (codes "tcp") ≡ true
    → str_eq protocol (codes "udp") ≡ false
    → Keeps protocol (handle_tcp mode)
unfolding handle_tcp str_eq
handle_tcp-KeepsTo protocol mode p q =
    if_cases (Keeps protocol) (str_eq mode (codes "quic"))
      (λ e. tcp_alone protocol mode true p q (
        subst (λ m. (str_eq m (codes "direct") || str_eq m (codes "transparent")) ≡ false)
          (sym ((str_eq_iff mode (codes "quic")).0 e)) refl))
      λ e.
        if_cases (Keeps protocol) (str_eq mode (codes "transparent"))
          (λ t. tcp_alone protocol mode false p q refl)
          λ t.
            if_cases (Keeps protocol) (str_eq mode (codes "direct"))
              (λ d. tcp_alone protocol mode false p q refl)
              λ d. tcp_alone protocol mode true p q (ground arith)

handle_flow-KeepsTo : (protocol mode : Bytes) → Keeps protocol (handle_flow protocol mode)
unfolding handle_flow str_eq
handle_flow-KeepsTo protocol mode =
    if_cases (Keeps protocol) (str_eq protocol (codes "udp")) (handle_udp-KeepsTo protocol mode)
      λ q.
        if_cases (Keeps protocol) (str_eq protocol (codes "tcp"))
          (λ p. handle_tcp-KeepsTo protocol mode p q) λ p. (ground arith, refl, ground arith)

target_filled :
    (dest host port : Bytes)
    → (is_empty dest || not (is_empty (trim_space dest))) ≡ true
    → is_empty (trim_space (target_addr dest host port)) ≡ false
unfolding target_addr
target_filled dest host port h =
    if_cases (λ s. is_empty (trim_space s) ≡ false)
      (is_empty (trim_space dest) && not (is_empty host)) (λ e. joined_not_blank host port)
      λ e.
        if_cases (λ s. is_empty (trim_space s) ≡ false) (is_empty dest)
          (λ d. joined_not_blank (codes "0.0.0.0") port) λ d. ground arith

udp_candidates-IsDialList :
    (protocol target port : Bytes) (l : List Bytes)
    → IsDialList l
    → IsDialList (udp_candidates protocol target port l)
udp_candidates-IsDialList protocol target port [] h = absurd (h.0 refl)
udp_candidates-IsDialList protocol target port (a ∷ rest) h = h

-- Under any rule, for a flow whose address is empty or not blank: a UDP flow is never planned under a mode
-- for TCP nor for MITM; MITM is planned under TCP alone, and neither in mode `direct` nor in `transparent`; a
-- flow of another protocol goes direct; and there is an address to dial, none is empty, and none is
-- dialled twice.
pub plan_with-KeepsTo :
    (net : Network) (flow : TunFlow) (rule : Rule)
    → (is_empty flow.dest_addr || not (is_empty (trim_space flow.dest_addr))) ≡ true
    → KeepsTo
        (plan_with net flow rule).protocol
        (plan_with net flow rule).can_mitm
        (plan_with net flow rule).effective_mode
      × IsDialList (plan_with net flow rule).dial_candidates
unfolding plan_with
plan_with-KeepsTo net flow rule h =
    let host = flow_host flow in
    let port = decimal (flow_port flow.dest_port) in
    let mode = or_text (clean rule.mode) (codes "direct") in
    let target = target_addr flow.dest_addr host port in
    (
      handle_flow-KeepsTo (flow_protocol flow) mode,
      udp_candidates-IsDialList (flow_protocol flow) target port
          (build_dial_candidates net host (ensure_addr_with_port target port) rule
            (handle_flow (flow_protocol flow) mode).mode)
          (build_dial_candidates-IsDialList net host (ensure_addr_with_port target port) rule
            (handle_flow (flow_protocol flow) mode).mode
            (ensured_filled target port (target_filled flow.dest_addr host port h))),
    )
