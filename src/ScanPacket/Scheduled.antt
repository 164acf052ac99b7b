-- ===== src/ScanPacket/Scheduled.antt =====
-- The request for scheduled scans as a list of attributes.
use platform_system_connecti.Base.{
  ℕ, suc, ◌/◌, ◌≡◌, refl, ◌∙◌, ap, sym, List, [], ◌∷◌, ◌++◌, map, bit_or, ◌+◌, ◌-◌, ◌^◌, ◌%◌, ◌<◌,
  Bool, true, false, arith,
}
use platform_system_connecti.Wire.{Bytes, le_bytes}
use platform_system_connecti.Nl80211.{attr_ifindex, attr_scan_ssids}
use platform_system_connecti.Nl80211.Scans.{
  cmd_start_sched_scan, attr_sched_scan_match, attr_sched_scan_rssi_adjust, attr_sched_scan_plans,
  attr_sched_scan_interval, sched_scan_match_attr_ssid, sched_scan_match_attr_rssi,
  sched_scan_plan_interval, sched_scan_plan_iterations,
}
use platform_system_connecti.Attribute.{base_attr, nested_attr, add_attribute}
use platform_system_connecti.Attribute.Search.{Attrs, encode}
use platform_system_connecti.Attribute.Nested.{build, build-nested}
use platform_system_connecti.Packet.{nlm_f_ack, add_flag, packet_add_attribute}
use platform_system_connecti.Packet.Contents.{packet_build}
use platform_system_connecti.NetlinkUtils.{Link, request}
use platform_system_connecti.ScanRequest.{ScanPlan, IntervalSetting, SchedRequest}
use platform_system_connecti.ScanPacket.{
  add_freqs_attr, add_flags_attr, random_flag, match_group, add_matches, rssi_adjust, scan_plan,
  last_scan_plan, add_plans, add_interval, power_flag, start_sched_scan,
}
use platform_system_connecti.ScanPacket.Built.{
  numbered, int_attr-base, ssids-lem, freqs_part, flags_part, packet_build-append,
  add_freqs_attr-build, add_flags_attr-build,
}

-- A match set holds an SSID and the threshold of the 5 GHz band.
unfoldable pub match_attrs : ℕ → Bytes → Attrs
match_attrs rssi ssid =
    (sched_scan_match_attr_ssid, ssid) ∷ (sched_scan_match_attr_rssi, le_bytes 4 rssi) ∷ []

match_group-build :
    (rssi i : ℕ) (ssid : Bytes)
    → match_group rssi i ssid ≡ base_attr i (encode (match_attrs rssi ssid))
unfolding match_group build match_attrs
match_group-build rssi i ssid =
    rw (int_attr-base sched_scan_match_attr_rssi rssi) (build-nested i (match_attrs rssi ssid))

unfoldable pub match_sets : ℕ → List Bytes → List Bytes
unfolding match_attrs
match_sets rssi ssids = map (λ s. encode (match_attrs rssi s)) ssids

add_matches-build :
    (rssi : ℕ) (attr : Bytes) (i : ℕ) (ssids : List Bytes)
    → add_matches rssi attr i ssids ≡ build attr (numbered i (match_sets rssi ssids))
unfolding add_matches build match_sets
add_matches-build rssi attr i [] = refl
add_matches-build rssi attr i (s ∷ ssids) = rw (match_group-build rssi i s) (
    add_matches-build rssi (add_attribute attr (base_attr i (encode (match_attrs rssi s)))) (suc i)
      ssids)

-- A plan holds its interval in whole seconds and its iterations; the last one runs for ever.
unfoldable pub plan_attrs : ScanPlan → Attrs
plan_attrs plan =
    (sched_scan_plan_interval, le_bytes 4 (plan.plan_interval_ms / 1000))
    ∷ (sched_scan_plan_iterations, le_bytes 4 plan.plan_iterations)
    ∷ []

unfoldable pub last_attrs : ℕ → Attrs
last_attrs interval_ms = (sched_scan_plan_interval, le_bytes 4 (interval_ms / 1000)) ∷ []

unfoldable pub plan_list : List ScanPlan → ℕ → List Bytes
unfolding plan_attrs last_attrs
plan_list [] final = encode (last_attrs final) ∷ []
plan_list (plan ∷ plans) final = encode (plan_attrs plan) ∷ plan_list plans final

scan_plan-build :
    (i : ℕ) (plan : ScanPlan) → scan_plan i plan ≡ base_attr i (encode (plan_attrs plan))
unfolding scan_plan build plan_attrs
scan_plan-build i plan =
    rw
      (
        int_attr-base sched_scan_plan_interval (plan.plan_interval_ms / 1000),
        int_attr-base sched_scan_plan_iterations plan.plan_iterations,
      )
      (build-nested i (plan_attrs plan))

last_scan_plan-build : (i ms : ℕ) → last_scan_plan i ms ≡ base_attr i (encode (last_attrs ms))
unfolding last_scan_plan build last_attrs
last_scan_plan-build i ms =
    rw (int_attr-base sched_scan_plan_interval (ms / 1000)) (build-nested i (last_attrs ms))

add_plans-build :
    (attr : Bytes) (i : ℕ) (plans : List ScanPlan) (final : ℕ)
    → add_plans attr i plans final ≡ build attr (numbered i (plan_list plans final))
unfolding add_plans build plan_list
add_plans-build attr i [] final = rw (last_scan_plan-build i final)
add_plans-build attr i (plan ∷ plans) final = rw (scan_plan-build i plan) (
    add_plans-build (add_attribute attr (base_attr i (encode (plan_attrs plan)))) (suc i) plans
      final)

-- The interval in milliseconds, or the plans.
unfoldable pub interval_part : List ScanPlan → ℕ → Attrs
unfolding plan_list
interval_part [] final = (attr_sched_scan_interval, le_bytes 4 final) ∷ []
interval_part (plan ∷ plans) final =
    (attr_sched_scan_plans, encode (numbered 1 (plan_list (plan ∷ plans) final))) ∷ []

add_interval-build :
    (plans : List ScanPlan) (final : ℕ) (p : Bytes)
    → add_interval (record { plans = plans; final_interval_ms = final }) p
      ≡ packet_build p (interval_part plans final)
unfolding add_interval interval_part packet_build
add_interval-build [] final p = rw (int_attr-base attr_sched_scan_interval final)
add_interval-build (plan ∷ plans) final p = ap (packet_add_attribute p) (
    add_plans-build (nested_attr attr_sched_scan_plans) 1 (plan ∷ plans) final
    ∙ build-nested attr_sched_scan_plans (numbered 1 (plan_list (plan ∷ plans) final)))

-- The last three steps of the function.
tail-build :
    (freqs : List ℕ) (s : IntervalSetting) (flags : ℕ) (p : Bytes)
    → add_flags_attr flags (add_interval s (add_freqs_attr freqs p))
      ≡ packet_build p
          (freqs_part freqs ++ (interval_part s.plans s.final_interval_ms ++ flags_part flags))
tail-build freqs s flags p =
    let between = interval_part s.plans s.final_interval_ms in
    add_flags_attr-build flags (add_interval s (add_freqs_attr freqs p))
    ∙ ap (λ t. packet_build t (flags_part flags))
        (add_interval-build s.plans s.final_interval_ms (add_freqs_attr freqs p)
          ∙ ap (λ t. packet_build t between) (add_freqs_attr-build freqs p))
    ∙ sym (packet_build-append (packet_build p (freqs_part freqs)) between (flags_part flags))
    ∙ sym (packet_build-append p (freqs_part freqs) (between ++ flags_part flags))

-- The scan flags: bit 3 for random addresses, bit 9 for low power.
abbrev pub sched_flags : Bool → Bool → ℕ
sched_flags true true = 520
sched_flags true false = 8
sched_flags false true = 512
sched_flags false false = 0

flags-lem :
    (random low : Bool) → bit_or (random_flag random) (power_flag low) ≡ sched_flags random low
flags-lem true true = refl
flags-lem true false = refl
flags-lem false true = refl
flags-lem false false = refl

-- The attributes of a request for scheduled scans, with a correction for the band 0 of 2.4 GHz.
unfoldable pub sched_attrs : ℕ → ℕ → SchedRequest → Attrs
unfolding match_sets interval_part freqs_part flags_part
sched_attrs interface_index correction r =
    (attr_sched_scan_match, encode (numbered 0 (match_sets r.rssi_5g r.match_ssids)))
    ∷ (attr_sched_scan_rssi_adjust, 0 ∷ correction ∷ [])
    ∷ (attr_ifindex, le_bytes 4 interface_index)
    ∷ (attr_scan_ssids, encode (numbered 0 r.scan_ssids))
    ∷ (freqs_part r.sched_freqs
        ++ (interval_part r.interval_setting.plans r.interval_setting.final_interval_ms
            ++ flags_part (sched_flags r.sched_random_mac r.request_low_power)))

start_sched_scan-attrs :
    (l : Link) (interface_index : ℕ) (r : SchedRequest)
    → start_sched_scan l interface_index r
      ≡ packet_build
          (add_flag (request l cmd_start_sched_scan) nlm_f_ack)
          (sched_attrs interface_index ((r.rssi_2g + 2 ^ 32 - r.rssi_5g) % 256) r)
unfolding start_sched_scan sched_attrs packet_build rssi_adjust
start_sched_scan-attrs l interface_index r =
    rw
      (
        int_attr-base attr_ifindex interface_index,
        ssids-lem attr_scan_ssids r.scan_ssids,
        add_matches-build r.rssi_5g (nested_attr attr_sched_scan_match) 0 r.match_ssids,
        build-nested attr_sched_scan_match (numbered 0 (match_sets r.rssi_5g r.match_ssids)),
        sym (flags-lem r.sched_random_mac r.request_low_power),
      )
      (tail-build r.sched_freqs r.interval_setting
        (bit_or (random_flag r.sched_random_mac) (power_flag r.request_low_power)) _)

-- The packet for scheduled scans, for a 5 GHz threshold that is a 32-bit word: a header with command
-- START_SCHED_SCAN that asks for an ACK, a match set for each SSID to match, with the threshold of
-- the 5 GHz band, a correction for the 2.4 GHz band, the interface, the SSIDs, the frequencies if
-- there are any, the plans with their intervals in whole seconds, numbered from 1 and the last
-- without an end, or without plans the interval in milliseconds, and, if any is set, the flags for
-- random addresses and low power. The correction is the byte that leads, modulo 256, from the
-- threshold of the 5 GHz band to that of the 2.4 GHz band.
pub start_sched_scan-build :
    (l : Link) (interface_index : ℕ) (r : SchedRequest)
    → r.rssi_5g < 2 ^ 32
    → (correction : ℕ) × (correction < 256)
      × ((r.rssi_5g + correction) % 256 ≡ r.rssi_2g % 256)
      × (start_sched_scan l interface_index r
          ≡ packet_build
              (add_flag (request l cmd_start_sched_scan) nlm_f_ack)
              (sched_attrs interface_index correction r))
start_sched_scan-build l interface_index r h = (
  (r.rssi_2g + 2 ^ 32 - r.rssi_5g) % 256,
  omega arith,
  omega (arith, h),
  start_sched_scan-attrs l interface_index r,
)
