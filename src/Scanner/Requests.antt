-- ===== src/Scanner/Requests.antt =====
-- The requests stay within what the device supports.
use platform_system_connecti.Base.{
  ℕ, zero, suc, ◌+◌, ◌*◌, ◌-◌, ◌≤◌, ◌<◌, ◌^◌, ◌%◌, ◌≡◌, refl, sym, ap, ◌∙◌, Bool, true, ◌&&◌, List,
  [], ◌∷◌, ◌++◌, ltb, leb, length, length-append, take, append-nil, append_assoc, arith, Bool-cases,
  inl, inr, ltb-false→le, ltb→lt,
}
use platform_system_connecti.Wire.{Bytes}
use platform_system_connecti.ScanRequest.{
  PnoNetwork, PnoSettings, SingleScanSettings, ScanType, Device, scan_request, add_hidden, Lists,
  add_match, add_network, parse_pno_settings, supports_scan_plan, generate_interval_setting,
  network_flags_default,
}

take-nil : (n : ℕ) → take {A = Bytes} n [] ≡ []
take-nil zero = refl
take-nil (suc n) = refl

-- The loop keeps the first networks, as many as there is room for.
add_hidden_lem :
    (max : ℕ) (ssids networks : List Bytes)
    → add_hidden max ssids networks ≡ ssids ++ take (max - length ssids) networks
unfolding add_hidden
add_hidden_lem max ssids [] =
    sym (ap (◌++◌ ssids) (take-nil (max - length ssids)) ∙ append-nil ssids)
add_hidden_lem max ssids (n ∷ networks) = elim (Bool-cases (ltb max (length ssids + 1))) [
  | inl full ↦
      let none_left : max - length ssids ≡ 0 = omega (arith, ltb→lt max (length ssids + 1) full) in
      let rest = add_hidden_lem max ssids networks in rw (full, none_left) (rw none_left at rest)
  | inr room ↦
      let longer : length (ssids ++ (n ∷ [])) ≡ length ssids + 1 =
        omega (arith, length-append ssids (n ∷ [])) in
      let k = max - length (ssids ++ (n ∷ [])) in
      let left : max - length ssids ≡ suc k =
        omega (arith, longer, ltb-false→le max (length ssids + 1) room) in
      rw (room, left)
        (add_hidden_lem max (ssids ++ (n ∷ [])) networks
          ∙ append_assoc ssids (n ∷ []) (take k networks))
]

-- A one-shot scan asks for the wild card, then for the hidden networks in their order, as many as
-- the device takes besides it; the networks behind are left out.
pub scan_request-ssids :
    (d : Device) (associated : Bool) (type : ScanType) (settings : SingleScanSettings)
    → (scan_request d associated type settings).ssids
      ≡ [] ∷ take (d.max_num_scan_ssids - 1) settings.hidden_networks
unfolding scan_request
scan_request-ssids d associated type settings =
    add_hidden_lem d.max_num_scan_ssids ([] ∷ []) settings.hidden_networks

-- What holds of the three lists.
pub record IsWithin (d : Device) (lists : Lists) : Type 0 where
  pub scans_fit : length lists.0 ≤ d.max_num_sched_scan_ssids
  pub matches_fit : length lists.1 ≤ d.max_match_sets
  pub flags_match : length lists.2 ≡ length lists.1

add_match-IsWithin :
    (d : Device) (ssid : Bytes) (lists : Lists)
    → IsWithin d lists
    → IsWithin d (add_match d ssid lists)
unfolding add_match
add_match-IsWithin d ssid (scans, matches, security) w =
    elim (Bool-cases (ltb d.max_match_sets (length matches + 1))) [
      | inl full ↦ rw full w
      | inr room ↦
          let more = length-append matches (ssid ∷ []) in
          let flags = length-append security (network_flags_default ∷ []) in
          rw room (record {
            scans_fit = w.scans_fit;
            matches_fit =
                omega (arith, more, ltb-false→le d.max_match_sets (length matches + 1) room);
            flags_match = omega (arith, more, flags, w.flags_match);
          })
    ]

add_network-IsWithin :
    (d : Device) (n : PnoNetwork) (lists : Lists)
    → IsWithin d lists
    → IsWithin d (add_network d n lists)
unfolding add_network
add_network-IsWithin d n (scans, matches, security) w = elim (Bool-cases n.is_hidden) [
  | inr shown ↦ simp shown (add_match-IsWithin d n.pno_ssid (scans, matches, security) w)
  | inl hidden ↦ elim (Bool-cases (ltb d.max_num_sched_scan_ssids (length scans + 1))) [
    | inl full ↦ simp (hidden, full) w
    | inr room ↦
        let more = length-append scans (n.pno_ssid ∷ []) in
        simp (hidden, room)
          (add_match-IsWithin d n.pno_ssid (scans ++ (n.pno_ssid ∷ []), matches, security)
            (record {
              scans_fit =
                  omega
                    (arith, more, ltb-false→le d.max_num_sched_scan_ssids (length scans + 1) room);
              matches_fit = w.matches_fit;
              flags_match = w.flags_match;
            }))
  ]
]

-- From lists within the device's limits, with one security flag for each ssid to match,
-- `ParsePnoSettings` goes on to lists of that kind.
pub parse-IsWithin :
    (d : Device) (networks : List PnoNetwork) (lists : Lists)
    → IsWithin d lists
    → IsWithin d (parse_pno_settings d networks lists)
unfolding parse_pno_settings
parse-IsWithin d [] lists w = w
parse-IsWithin d (n ∷ networks) lists w =
    parse-IsWithin d networks (add_network d n lists) (add_network-IsWithin d n lists w)

-- The scan plans a device supports, without the wrap-around of the products.
pub AllowsPlan : Device → PnoSettings → Type 0
AllowsPlan d settings =
    (2 ≤ d.max_num_scan_plans)
    × (settings.interval_ms * 3 ≤ d.max_scan_plan_interval * 1000)
    × (3 ≤ d.max_scan_plan_iterations)

leb-true : (a b : ℕ) → a ≤ b → leb a b ≡ true
leb-true a b h = ground arith

three_leb : (a b c d e f : ℕ) → (leb a b && leb c d && leb e f) ≡ true → (a ≤ b) × (c ≤ d) × (e ≤ f)
three_leb a b c d e f h = (ground arith, ground arith, ground arith)

-- While the products fit 32 bits, a device that has two plans or more, of three rounds or more, and
-- allows three times the interval, scans three times at the interval and then at three times it;
-- another one is given the interval alone.
pub generate_interval_setting_lem :
    (d : Device) (settings : PnoSettings)
    → settings.interval_ms * 3 < 2 ^ 32
    → d.max_scan_plan_interval * 1000 < 2 ^ 32
    → (AllowsPlan d settings
        → generate_interval_setting d settings ≡ record {
          plans = record { plan_interval_ms = settings.interval_ms; plan_iterations = 3 } ∷ [];
          final_interval_ms = settings.interval_ms * 3;
        })
      × (¬ AllowsPlan d settings
          → generate_interval_setting d settings
            ≡ record { plans = []; final_interval_ms = settings.interval_ms })
unfolding generate_interval_setting supports_scan_plan AllowsPlan
generate_interval_setting_lem d settings a b =
    let long : (settings.interval_ms * 3) % 2 ^ 32 ≡ settings.interval_ms * 3 = omega arith in
    let most : (d.max_scan_plan_interval * 1000) % 2 ^ 32 ≡ d.max_scan_plan_interval * 1000 =
      omega arith in
    let n = leb 2 d.max_num_scan_plans in
    let i = leb (settings.interval_ms * 3) (d.max_scan_plan_interval * 1000) in
    let r = leb 3 d.max_scan_plan_iterations in
    (
      λ (x, y, z).
          rw
            (
              long,
              most,
              leb-true 2 d.max_num_scan_plans x,
              leb-true (settings.interval_ms * 3) (d.max_scan_plan_interval * 1000) y,
              leb-true 3 d.max_scan_plan_iterations z,
            )
            refl,
      λ no. elim (Bool-cases (n && i && r)) [
        | inl all ↦ absurd (
            no (
              three_leb 2 d.max_num_scan_plans (settings.interval_ms * 3)
                (d.max_scan_plan_interval * 1000) 3 d.max_scan_plan_iterations all))
        | inr lost ↦ rw (long, most, lost) refl
      ],
    )
