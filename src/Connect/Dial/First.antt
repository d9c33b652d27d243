-- ===== src/Connect/Dial/First.antt =====
-- Which candidate is connected to.
use sni_shaper_linux.Prelude.{
  ◌≡◌, Bool, true, false, Option, none, some, List, ◌∷◌, ◌++◌, All, concat, map,
}
use sni_shaper_linux.Text.{Bytes}
use sni_shaper_linux.Connect.Dial.{Report, success, failure, report_of}

abbrev failures_of : Bool → List Bytes → List Report
failures_of reports addrs = concat (map (report_of reports failure) addrs)

-- One candidate answers, and those before it do not; or none does.
abbrev pub IsFirst : (Bytes → Bool) → Bool → List Bytes → Option Bytes × List Report → Type 0
IsFirst dial reports addrs (none, told) =
    All (λ a. dial a ≡ false) addrs × (told ≡ failures_of reports addrs)
IsFirst dial reports addrs (some addr, told) =
    (before : List Bytes) × ((behind : List Bytes) × ((addrs ≡ before ++ addr ∷ behind)
        × (All (λ a. dial a ≡ false) before
            × ((dial addr ≡ true)
                × (told ≡ failures_of reports before ++ report_of reports success addr)))))
