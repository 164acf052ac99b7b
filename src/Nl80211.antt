-- ===== src/Nl80211.antt =====
-- The numbers of net/kernel-header-latest/nl80211.h that the modelled code uses.
use platform_system_connecti.Base.{ℕ}
pub mod Replies
pub mod Scans

-- Commands.
abbrev pub cmd_new_scan_results : ℕ
cmd_new_scan_results = 34

abbrev pub cmd_scan_aborted : ℕ
cmd_scan_aborted = 35

abbrev pub cmd_reg_change : ℕ
cmd_reg_change = 36

abbrev pub cmd_new_wiphy : ℕ
cmd_new_wiphy = 3

abbrev pub cmd_new_station : ℕ
cmd_new_station = 19

abbrev pub cmd_del_station : ℕ
cmd_del_station = 20

abbrev pub cmd_associate : ℕ
cmd_associate = 38

abbrev pub cmd_disassociate : ℕ
cmd_disassociate = 40

abbrev pub cmd_connect : ℕ
cmd_connect = 46

abbrev pub cmd_roam : ℕ
cmd_roam = 47

abbrev pub cmd_disconnect : ℕ
cmd_disconnect = 48

abbrev pub cmd_sched_scan_results : ℕ
cmd_sched_scan_results = 77

abbrev pub cmd_sched_scan_stopped : ℕ
cmd_sched_scan_stopped = 78

abbrev pub cmd_ch_switch_notify : ℕ
cmd_ch_switch_notify = 88

-- Attributes.
abbrev pub attr_wiphy : ℕ
attr_wiphy = 1

abbrev pub attr_ifindex : ℕ
attr_ifindex = 3

abbrev pub attr_mac : ℕ
attr_mac = 6

abbrev pub attr_wiphy_bands : ℕ
attr_wiphy_bands = 22

abbrev pub attr_reg_alpha2 : ℕ
attr_reg_alpha2 = 33

abbrev pub attr_bss : ℕ
attr_bss = 47

abbrev pub attr_reg_type : ℕ
attr_reg_type = 49

abbrev pub attr_timed_out : ℕ
attr_timed_out = 65

abbrev pub attr_status_code : ℕ
attr_status_code = 72

abbrev pub attr_scan_frequencies : ℕ
attr_scan_frequencies = 44

abbrev pub attr_scan_ssids : ℕ
attr_scan_ssids = 45

abbrev pub attr_max_num_scan_ssids : ℕ
attr_max_num_scan_ssids = 43

abbrev pub attr_max_num_sched_scan_ssids : ℕ
attr_max_num_sched_scan_ssids = 123

abbrev pub attr_max_match_sets : ℕ
attr_max_match_sets = 133

abbrev pub attr_max_num_sched_scan_plans : ℕ
attr_max_num_sched_scan_plans = 222

abbrev pub attr_max_scan_plan_interval : ℕ
attr_max_scan_plan_interval = 223

abbrev pub attr_max_scan_plan_iterations : ℕ
attr_max_scan_plan_iterations = 224

abbrev pub attr_wdev : ℕ
attr_wdev = 153

abbrev pub attr_wiphy_freq : ℕ
attr_wiphy_freq = 38

abbrev pub attr_channel_width : ℕ
attr_channel_width = 159

-- BSS, regulatory domains, bands.
abbrev pub bss_bssid : ℕ
bss_bssid = 1

abbrev pub bss_frequency : ℕ
bss_frequency = 2

abbrev pub bss_tsf : ℕ
bss_tsf = 3

abbrev pub bss_capability : ℕ
bss_capability = 5

abbrev pub bss_information_elements : ℕ
bss_information_elements = 6

abbrev pub bss_signal_mbm : ℕ
bss_signal_mbm = 7

abbrev pub bss_status : ℕ
bss_status = 9

abbrev pub bss_beacon_tsf : ℕ
bss_beacon_tsf = 13

abbrev pub bss_last_seen_boottime : ℕ
bss_last_seen_boottime = 15

abbrev pub bss_chain_signal : ℕ
bss_chain_signal = 19

abbrev pub bss_status_authenticated : ℕ
bss_status_authenticated = 0

abbrev pub bss_status_associated : ℕ
bss_status_associated = 1

abbrev pub regdom_type_country : ℕ
regdom_type_country = 0

abbrev pub regdom_type_world : ℕ
regdom_type_world = 1

abbrev pub regdom_type_custom_world : ℕ
regdom_type_custom_world = 2

abbrev pub regdom_type_intersection : ℕ
regdom_type_intersection = 3

abbrev pub band_attr_freqs : ℕ
band_attr_freqs = 1

abbrev pub frequency_attr_freq : ℕ
frequency_attr_freq = 1

abbrev pub frequency_attr_disabled : ℕ
frequency_attr_disabled = 2

abbrev pub frequency_attr_no_ir : ℕ
frequency_attr_no_ir = 3

abbrev pub frequency_attr_dfs_state : ℕ
frequency_attr_dfs_state = 7

abbrev pub dfs_usable : ℕ
dfs_usable = 0

abbrev pub dfs_available : ℕ
dfs_available = 2
