-- ===== src/Nl80211/Replies.antt =====
-- The numbers of net/kernel-header-latest/nl80211.h in the requests for wiphys, interfaces and stations,
-- and in their replies.
use platform_system_connecti.Base.{ℕ}

-- Commands.
abbrev pub cmd_get_wiphy : ℕ
cmd_get_wiphy = 1

abbrev pub cmd_get_interface : ℕ
cmd_get_interface = 5

abbrev pub cmd_set_interface : ℕ
cmd_set_interface = 6

abbrev pub cmd_new_interface : ℕ
cmd_new_interface = 7

abbrev pub cmd_get_station : ℕ
cmd_get_station = 17

abbrev pub cmd_get_reg : ℕ
cmd_get_reg = 31

abbrev pub cmd_get_protocol_features : ℕ
cmd_get_protocol_features = 95

-- Attributes of messages.
abbrev pub attr_ifname : ℕ
attr_ifname = 4

abbrev pub attr_iftype : ℕ
attr_iftype = 5

abbrev pub attr_sta_info : ℕ
attr_sta_info = 21

abbrev pub attr_feature_flags : ℕ
attr_feature_flags = 143

abbrev pub attr_ext_features : ℕ
attr_ext_features = 217

abbrev pub attr_protocol_features : ℕ
attr_protocol_features = 173

abbrev pub attr_split_wiphy_dump : ℕ
attr_split_wiphy_dump = 174

-- Interface types.
abbrev pub iftype_unspecified : ℕ
iftype_unspecified = 0

abbrev pub iftype_station : ℕ
iftype_station = 2

-- Bits of the feature flags, and indices of the extended features.
abbrev pub feature_scan_random_mac_addr : ℕ
feature_scan_random_mac_addr = 536870912

abbrev pub feature_sched_scan_random_mac_addr : ℕ
feature_sched_scan_random_mac_addr = 1073741824

abbrev pub protocol_feature_split_wiphy_dump : ℕ
protocol_feature_split_wiphy_dump = 1

abbrev pub ext_feature_low_span_scan : ℕ
ext_feature_low_span_scan = 22

abbrev pub ext_feature_low_power_scan : ℕ
ext_feature_low_power_scan = 23

abbrev pub ext_feature_high_accuracy_scan : ℕ
ext_feature_high_accuracy_scan = 24

-- Attributes of stations.
abbrev pub sta_info_tx_packets : ℕ
sta_info_tx_packets = 10

abbrev pub sta_info_tx_failed : ℕ
sta_info_tx_failed = 12

abbrev pub sta_info_signal : ℕ
sta_info_signal = 7

abbrev pub sta_info_tx_bitrate : ℕ
sta_info_tx_bitrate = 8

abbrev pub rate_info_bitrate32 : ℕ
rate_info_bitrate32 = 5
