-- ===== src/Tests/ScanPackets.antt =====
-- The theorems on scan requests, at requests of interface 7.
use platform_system_connecti.Base.{
  ℕ, ◌≡◌, refl, true, false, none, [], ◌∷◌, ok, arith, ◌>>=◌, bit_or, ◌+◌, ◌%◌, ◌<◌,
}
use platform_system_connecti.Wire.{Bytes, nla_align}
use platform_system_connecti.Nl80211.{attr_ifindex, attr_scan_ssids, attr_scan_frequencies}
use platform_system_connecti.Nl80211.Scans.{cmd_trigger_scan, cmd_start_sched_scan}
use platform_system_connecti.Attribute.{base_attr, get_list_of_raw_values, get_list_of_int_values}
use platform_system_connecti.Attribute.Search.{encode, AllFit}
use platform_system_connecti.Broadcast.{list_or_empty}
use platform_system_connecti.Packet.{nlm_f_ack, add_flag, packet_get_int, packet_get_attribute}
use platform_system_connecti.Packet.Contents.{packet_build}
use platform_system_connecti.NetlinkUtils.{Link, request}
use platform_system_connecti.ScanRequest.{ScanRequest, SchedRequest, low_span}
use platform_system_connecti.ScanPacket.{
  type_flag, random_flag, trigger_scan_packet, start_sched_scan,
}
use platform_system_connecti.ScanPacket.Built.{
  trigger_attrs, freqs_part, flags_part, trigger_scan_packet-build,
}
use platform_system_connecti.ScanPacket.Scheduled.{sched_attrs, start_sched_scan-build}
use platform_system_connecti.ScanPacket.Sent.{trigger_scan_packet-read}

abbrev link : Link
link = record { family_id = 28; sequence = 5; pid = 100; responses = λ packet. none }

-- A low span scan for hidden network "ab" on two frequencies.
abbrev wanted : ScanRequest
wanted = record {
  request_random_mac = true;
  requested_type = low_span;
  ssids = [] ∷ (97 ∷ 98 ∷ []) ∷ [];
  freqs = 2412 ∷ 5180 ∷ [];
}

low_span_flag : type_flag wanted.requested_type ≡ ok 256
unfolding type_flag
low_span_flag = refl

abbrev flags : ℕ
flags = bit_or (random_flag true) 256

abbrev packet : Bytes
packet =
    packet_build (add_flag (request link cmd_trigger_scan) nlm_f_ack) (trigger_attrs 7 wanted flags)

built : trigger_scan_packet link 7 wanted ≡ ok packet
unfolding type_flag
built = trigger_scan_packet-build link 7 wanted

scan_fit : AllFit (trigger_attrs 7 wanted flags)
unfolding trigger_attrs freqs_part flags_part encode base_attr nla_align
scan_fit = (
  omega arith,
  omega arith,
  (omega arith, omega arith, (omega arith, omega arith, (omega arith, omega arith, tt))),
)

trigger_scan_packet-read_example :
    (packet_get_int 4 packet attr_ifindex ≡ ok 7)
    × ((packet_get_attribute packet attr_scan_ssids >>= get_list_of_raw_values)
        ≡ ok ([] ∷ (97 ∷ 98 ∷ []) ∷ []))
    × (list_or_empty (packet_get_attribute packet attr_scan_frequencies) (get_list_of_int_values 4)
        ≡ ok (2412 ∷ 5180 ∷ []))
trigger_scan_packet-read_example =
    trigger_scan_packet-read link 7 256 wanted packet (omega arith) low_span_flag scan_fit
      (omega arith, omega arith, (omega arith, omega arith, tt))
      (omega arith, omega arith, (omega arith, omega arith, tt)) (omega arith, (omega arith, tt))
      built

abbrev sched : SchedRequest
sched = record {
  interval_setting = record {
    plans = record { plan_interval_ms = 10000; plan_iterations = 3 } ∷ [];
    final_interval_ms = 30000;
  };
  rssi_2g = 4294967216;
  rssi_5g = 4294967219;
  sched_random_mac = true;
  request_low_power = false;
  scan_ssids = [] ∷ [];
  match_ssids = (97 ∷ 98 ∷ []) ∷ [];
  sched_freqs = [];
}

start_sched_scan-build_example :
    (correction : ℕ) × (correction < 256)
    × ((sched.rssi_5g + correction) % 256 ≡ sched.rssi_2g % 256)
    × (start_sched_scan link 7 sched
        ≡ packet_build
            (add_flag (request link cmd_start_sched_scan) nlm_f_ack)
            (sched_attrs 7 correction sched))
start_sched_scan-build_example = start_sched_scan-build link 7 sched (omega arith)
