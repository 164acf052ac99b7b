-- ===== src/ScanPacket.antt =====
-- scanning/scan_utils.cpp: the requests to scan, to scan by a schedule, and to stop, as packets, and
-- what the callers learn of the answer.
pub mod Built
pub mod Scheduled
pub mod Sent
use platform_system_connecti.Base.{
  ℕ, suc, ◌+◌, ◌-◌, ◌/◌, ◌%◌, ◌^◌, Bool, true, false, Option, none, some, List, [], ◌∷◌, bit_or,
  ◌==◌, if◌then◌else◌, length, Outcome, ok, fail, hang, fault, ◌>>=◌, ◌>>◌, guard,
}
use platform_system_connecti.Wire.{Bytes}
use platform_system_connecti.Nl80211.{attr_ifindex, attr_scan_ssids, attr_scan_frequencies}
use platform_system_connecti.Nl80211.Scans.{
  cmd_trigger_scan, cmd_start_sched_scan, cmd_stop_sched_scan, cmd_abort_scan, attr_scan_flags,
  attr_sched_scan_match, attr_sched_scan_rssi_adjust, attr_sched_scan_plans,
  attr_sched_scan_interval, scan_flag_random_addr, scan_flag_low_span, scan_flag_low_power,
  scan_flag_high_accuracy, sched_scan_match_attr_ssid, sched_scan_match_attr_rssi,
  sched_scan_plan_interval, sched_scan_plan_iterations, band_2ghz,
}
use platform_system_connecti.Attribute.{base_attr, int_attr, nested_attr, add_attribute}
use platform_system_connecti.Packet.{nlm_f_ack, add_flag, packet_add_attribute}
use platform_system_connecti.Netlink.Requests.{ack_or_error, ack}
use platform_system_connecti.NetlinkUtils.{Link, request}
use platform_system_connecti.ScanRequest.{
  ScanType, default_type, low_span, low_power, high_accuracy, other_type, ScanRequest, ScanPlan,
  IntervalSetting, SchedRequest,
}

abbrev pub msec_per_sec : ℕ
msec_per_sec = 1000

abbrev pub enoent : ℕ
enoent = 2

-- The loops that number the entries of a nested attribute, from `i`.
unfoldable pub add_ssids : Bytes → ℕ → List Bytes → Bytes
add_ssids attr i [] = attr
add_ssids attr i (ssid ∷ ssids) = add_ssids (add_attribute attr (base_attr i ssid)) (suc i) ssids

unfoldable pub add_freqs : Bytes → ℕ → List ℕ → Bytes
add_freqs attr i [] = attr
add_freqs attr i (freq ∷ freqs) = add_freqs (add_attribute attr (int_attr 4 i freq)) (suc i) freqs

-- An absent frequency attribute stands for all frequencies.
unfoldable pub add_freqs_attr : List ℕ → Bytes → Bytes
unfolding add_freqs
add_freqs_attr [] packet = packet
add_freqs_attr (freq ∷ freqs) packet =
    packet_add_attribute packet (add_freqs (nested_attr attr_scan_frequencies) 0 (freq ∷ freqs))

unfoldable pub type_flag : ScanType → Outcome ℕ
type_flag low_span = ok scan_flag_low_span
type_flag low_power = ok scan_flag_low_power
type_flag high_accuracy = ok scan_flag_high_accuracy
type_flag default_type = ok 0
type_flag (other_type n) = fault

unfoldable pub add_flags_attr : ℕ → Bytes → Bytes
add_flags_attr flags packet =
    if flags == 0 then packet else packet_add_attribute packet (int_attr 4 attr_scan_flags flags)

abbrev pub random_flag : Bool → ℕ
random_flag request_random_mac = if request_random_mac then scan_flag_random_addr else 0

unfoldable pub trigger_scan_packet : Link → ℕ → ScanRequest → Outcome Bytes
unfolding add_ssids add_freqs_attr type_flag add_flags_attr
trigger_scan_packet l interface_index r = do
  let p = add_flag (request l cmd_trigger_scan) nlm_f_ack
  let p1 = packet_add_attribute p (int_attr 4 attr_ifindex interface_index)
  let p2 = packet_add_attribute p1 (add_ssids (nested_attr attr_scan_ssids) 0 r.ssids)
  let p3 = add_freqs_attr r.freqs p2
  flag ← type_flag r.requested_type
  ok (add_flags_attr (bit_or (random_flag r.request_random_mac) flag) p3)

-- What a caller learns that has set its error code to 0: none after an ACK, else the error code.
unfoldable pub error_of : Outcome ℕ → Outcome (Option ℕ)
error_of (ok code) = ok (if code == 0 then none else some code)
error_of fail = ok (some 0)
error_of hang = hang
error_of fault = fault

-- `Scan`.
unfoldable pub trigger_scan : Link → ℕ → ScanRequest → Outcome (Option ℕ)
unfolding trigger_scan_packet error_of
trigger_scan l interface_index r = do
  packet ← trigger_scan_packet l interface_index r
  error_of (ack_or_error (l.responses packet))

unfoldable pub stop_sched_scan : Link → ℕ → Bytes
stop_sched_scan l interface_index =
    packet_add_attribute (add_flag (request l cmd_stop_sched_scan) nlm_f_ack)
      (int_attr 4 attr_ifindex interface_index)

unfoldable pub stop_scheduled_scan : Link → ℕ → Outcome (Unit {0})
unfolding stop_sched_scan
stop_scheduled_scan l interface_index = do
  error_code ← ack_or_error (l.responses (stop_sched_scan l interface_index))
  if error_code == enoent then fail else guard (error_code == 0)

unfoldable pub abort_scan_packet : Link → ℕ → Bytes
abort_scan_packet l interface_index =
    packet_add_attribute (add_flag (request l cmd_abort_scan) nlm_f_ack)
      (int_attr 4 attr_ifindex interface_index)

unfoldable pub abort_scan : Link → ℕ → Outcome (Unit {0})
unfolding abort_scan_packet
abort_scan l interface_index = ack (l.responses (abort_scan_packet l interface_index))

-- A match set of `StartScheduledScan`, and the loop over the SSIDs to match.
unfoldable pub match_group : ℕ → ℕ → Bytes → Bytes
match_group rssi i ssid =
    add_attribute (add_attribute (nested_attr i) (base_attr sched_scan_match_attr_ssid ssid))
      (int_attr 4 sched_scan_match_attr_rssi rssi)

unfoldable pub add_matches : ℕ → Bytes → ℕ → List Bytes → Bytes
unfolding match_group
add_matches rssi attr i [] = attr
add_matches rssi attr i (ssid ∷ ssids) =
    add_matches rssi (add_attribute attr (match_group rssi i ssid)) (suc i) ssids

-- struct nl80211_bss_select_rssi_adjust: a band, and the difference of the thresholds as an `int8_t`.
unfoldable pub rssi_adjust : ℕ → ℕ → Bytes
rssi_adjust rssi_2g rssi_5g = band_2ghz ∷ ((rssi_2g + 2 ^ 32 - rssi_5g) % 256) ∷ []

-- The plans, numbered from `i`, and the last one, which has no number of iterations.
unfoldable pub scan_plan : ℕ → ScanPlan → Bytes
scan_plan i plan =
    add_attribute
      (add_attribute (nested_attr i)
        (int_attr 4 sched_scan_plan_interval (plan.plan_interval_ms / msec_per_sec)))
      (int_attr 4 sched_scan_plan_iterations plan.plan_iterations)

unfoldable pub last_scan_plan : ℕ → ℕ → Bytes
last_scan_plan i interval_ms =
    add_attribute (nested_attr i) (int_attr 4 sched_scan_plan_interval (interval_ms / msec_per_sec))

unfoldable pub add_plans : Bytes → ℕ → List ScanPlan → ℕ → Bytes
unfolding scan_plan last_scan_plan
add_plans attr i [] final = add_attribute attr (last_scan_plan i final)
add_plans attr i (plan ∷ plans) final =
    add_plans (add_attribute attr (scan_plan i plan)) (suc i) plans final

unfoldable pub add_interval : IntervalSetting → Bytes → Bytes
unfolding add_plans
add_interval s packet = elim s.plans [
  | [] ↦ packet_add_attribute packet (int_attr 4 attr_sched_scan_interval s.final_interval_ms)
  | plan ∷ plans ↦
      packet_add_attribute packet
        (add_plans (nested_attr attr_sched_scan_plans) 1 (plan ∷ plans) s.final_interval_ms)
]

abbrev pub power_flag : Bool → ℕ
power_flag request_low_power = if request_low_power then scan_flag_low_power else 0

unfoldable pub start_sched_scan : Link → ℕ → SchedRequest → Bytes
unfolding add_ssids add_freqs_attr add_matches rssi_adjust add_interval add_flags_attr
start_sched_scan l interface_index r =
    let p = add_flag (request l cmd_start_sched_scan) nlm_f_ack in
    let p1 =
      packet_add_attribute p
        (add_matches r.rssi_5g (nested_attr attr_sched_scan_match) 0 r.match_ssids) in
    let p2 =
      packet_add_attribute p1
        (base_attr attr_sched_scan_rssi_adjust (rssi_adjust r.rssi_2g r.rssi_5g)) in
    let p3 = packet_add_attribute p2 (int_attr 4 attr_ifindex interface_index) in
    let p4 = packet_add_attribute p3 (add_ssids (nested_attr attr_scan_ssids) 0 r.scan_ssids) in
    let p5 = add_interval r.interval_setting (add_freqs_attr r.sched_freqs p4) in
    add_flags_attr (bit_or (random_flag r.sched_random_mac) (power_flag r.request_low_power)) p5

-- `StartScheduledScan`.
unfoldable pub start_scheduled_scan : Link → ℕ → SchedRequest → Outcome (Option ℕ)
unfolding start_sched_scan error_of
start_scheduled_scan l interface_index r =
    error_of (ack_or_error (l.responses (start_sched_scan l interface_index r)))
