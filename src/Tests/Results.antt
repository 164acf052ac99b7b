-- ===== src/Tests/Results.antt =====
-- The theorems on scan results, at the BSS of a network "ab" on channel 1.
use platform_system_connecti.Base.{ℕ, ◌≡◌, refl, true, none, some, List, [], ◌∷◌, ok, arith}
use platform_system_connecti.Wire.{Bytes, le_bytes, nla_align}
use platform_system_connecti.ScanResult.{get_ssid_from_info_element, parse_bss}
use platform_system_connecti.ScanResult.Ssid.{elements, get_ssid-elements}
use platform_system_connecti.ScanResult.Fields.{parse_bss-build}
use platform_system_connecti.Attribute.{nested_attr, base_attr}
use platform_system_connecti.Attribute.Search.{Attrs, AllFit, encode}
use platform_system_connecti.Attribute.Nested.{build}

-- An element of supported rates, then the SSID "ab".
abbrev rates_and_ssid : List (ℕ × Bytes)
rates_and_ssid = (1, 130 ∷ []) ∷ (0, 97 ∷ 98 ∷ []) ∷ []

get_ssid-elements_example : get_ssid_from_info_element (elements rates_and_ssid) ≡ ok (97 ∷ 98 ∷ [])
get_ssid-elements_example = get_ssid-elements rates_and_ssid

abbrev fields : Attrs
fields =
    (1, 2 ∷ 0 ∷ 0 ∷ 10 ∷ 11 ∷ 12 ∷ [])
    ∷ (2, le_bytes 4 2412)
    ∷ (6, 1 ∷ 1 ∷ 130 ∷ 0 ∷ 2 ∷ 97 ∷ 98 ∷ [])
    ∷ (3, le_bytes 8 5000)
    ∷ (13, le_bytes 8 6000)
    ∷ (7, le_bytes 4 4294962296)
    ∷ (5, le_bytes 2 1041)
    ∷ (9, le_bytes 4 1)
    ∷ (19, encode ((0, 196 ∷ []) ∷ []))
    ∷ []

fields_fit : AllFit fields
unfolding encode base_attr nla_align
fields_fit = (
  omega arith,
  omega arith,
  (
    omega arith,
    omega arith,
    (
      omega arith,
      omega arith,
      (
        omega arith,
        omega arith,
        (
          omega arith,
          omega arith,
          (
            omega arith,
            omega arith,
            (omega arith, omega arith, (omega arith, omega arith, (omega arith, omega arith, tt))),
          ),
        ),
      ),
    ),
  ),
)

parse_bss-build_example :
    parse_bss (build (nested_attr 47) fields)
    ≡ ok (record {
      ssid = 97 ∷ 98 ∷ [];
      bssid = 2 ∷ 0 ∷ 0 ∷ 10 ∷ 11 ∷ 12 ∷ [];
      info_element = elements rates_and_ssid;
      frequency = 2412;
      signal_mbm = 4294962296;
      tsf = 6000;
      capability = 1041;
      associated = true;
      radio_chain_infos = record { chain_id = 0; level = 4294967236 } ∷ [];
    })
unfolding elements
parse_bss-build_example =
    parse_bss-build 47 fields fields_fit (2 ∷ 0 ∷ 0 ∷ 10 ∷ 11 ∷ 12 ∷ []) 2412 4294962296 1041 6000
      (some 1) none (some 5000) (some 6000) (some ((0, 196) ∷ [])) rates_and_ssid (97 ∷ 98 ∷ [])
      refl refl refl refl refl refl refl refl refl refl
      (omega arith, omega arith, omega arith, omega arith)
      (tt, omega arith, omega arith, (omega arith, omega arith, tt)) refl refl
