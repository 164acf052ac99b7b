-- ===== src/Nl80211/Scans.antt =====
-- The numbers of net/kernel-header-latest/nl80211.h in scan requests.
use platform_system_connecti.Base.{ℕ}

-- Commands.
abbrev pub cmd_trigger_scan : ℕ
cmd_trigger_scan = 33

abbrev pub cmd_start_sched_scan : ℕ
cmd_start_sched_scan = 75

abbrev pub cmd_stop_sched_scan : ℕ
cmd_stop_sched_scan = 76

abbrev pub cmd_abort_scan : ℕ
cmd_abort_scan = 114

-- Attributes of messages.
abbrev pub attr_scan_flags : ℕ
attr_scan_flags = 158

abbrev pub attr_sched_scan_match : ℕ
attr_sched_scan_match = 132

abbrev pub attr_sched_scan_rssi_adjust : ℕ
attr_sched_scan_rssi_adjust = 247

abbrev pub attr_sched_scan_plans : ℕ
attr_sched_scan_plans = 225

abbrev pub attr_sched_scan_interval : ℕ
attr_sched_scan_interval = 119

-- Bits of the scan flags.
abbrev pub scan_flag_random_addr : ℕ
scan_flag_random_addr = 8

abbrev pub scan_flag_low_span : ℕ
scan_flag_low_span = 256

abbrev pub scan_flag_low_power : ℕ
scan_flag_low_power = 512

abbrev pub scan_flag_high_accuracy : ℕ
scan_flag_high_accuracy = 1024

-- Match sets and scan plans.
abbrev pub sched_scan_match_attr_ssid : ℕ
sched_scan_match_attr_ssid = 1

abbrev pub sched_scan_match_attr_rssi : ℕ
sched_scan_match_attr_rssi = 2

abbrev pub sched_scan_plan_interval : ℕ
sched_scan_plan_interval = 1

abbrev pub sched_scan_plan_iterations : ℕ
sched_scan_plan_iterations = 2

abbrev pub band_2ghz : ℕ
band_2ghz = 0
