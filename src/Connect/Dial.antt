-- ===== src/Connect/Dial.antt =====
-- proxy/proxy.go, `dialUpstream`: the candidates are dialled in turn. Which addresses answer is the
-- parameter `dial`; what the pool is told is a list of reports.
pub mod First
use sni_shaper_linux.Prelude.{
  Bool, true, false, not, ◌&&◌, Option, none, some, List, [], ◌∷◌, ◌++◌, map, if◌then◌else◌,
}
use sni_shaper_linux.Text.{Bytes, is_empty}
use sni_shaper_linux.Net.Address.{split_host_port}
use sni_shaper_linux.Net.Candidates.{Network, build_dial_candidates}
use sni_shaper_linux.Connect.Prepare.{ConnectResult}

pub data Report : Type 0 where
  success : Bytes → Report
  failure : Bytes → Report

-- Nothing is reported of an address that does not split, or whose host is empty.
unfoldable pub report_of : Bool → (Bytes → Report) → Bytes → List Report
report_of reports make addr =
    if reports
    then (elim (split_host_port addr) [
      | none ↦ []
      | some (host, port) ↦ if is_empty host then [] else make host ∷ []
    ])
    else []

-- What one address adds to what the ones behind it give: nothing behind it is dialled if it answers.
unfoldable pub dial_one :
    Bool → Bool → Bytes → Option Bytes × List Report → Option Bytes × List Report
unfolding report_of
dial_one true reports addr behind = (some addr, report_of reports success addr)
dial_one false reports addr (found, later) = (found, report_of reports failure addr ++ later)

-- The address that answers first, and the reports.
unfoldable pub dial_each : (Bytes → Bool) → Bool → List Bytes → Option Bytes × List Report
unfolding dial_one
dial_each dial reports [] = (none, [])
dial_each dial reports (addr ∷ rest) =
    dial_one (dial addr) reports addr (dial_each dial reports rest)

-- The rule uses a pool, and there is one.
abbrev pub reports_to_pool : Network → ConnectResult → Bool
reports_to_pool net cr = elim net.cf_pool [ none ↦ false | some top_ips ↦ cr.rule.use_cf_pool ]

-- Of a single candidate nothing is reported.
abbrev pub tells : Bool → List Bytes → Bool
tells reports [] = false
tells reports (a ∷ []) = false
tells reports (a ∷ b ∷ rest) = reports

-- The candidates, or else the address that was asked for.
unfoldable pub candidates_of : Network → ConnectResult → List Bytes
candidates_of net cr =
    elim (build_dial_candidates net cr.target_host cr.target_addr cr.rule cr.effective_mode) [
      | [] ↦ cr.target_addr ∷ []
      | a ∷ rest ↦ a ∷ rest
    ]

-- The address that is connected to, or `none` for the error.
unfoldable pub dial_upstream : Network → (Bytes → Bool) → ConnectResult → Option Bytes × List Report
unfolding candidates_of dial_each
dial_upstream net dial cr =
    let candidates = candidates_of net cr in
    dial_each dial (tells (reports_to_pool net cr) candidates) candidates
