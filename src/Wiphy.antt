-- ===== src/Wiphy.antt =====
-- net/netlink_utils.cpp: what a NEW_WIPHY message tells of the device: its frequencies by band, its
-- scan capabilities and its features.
pub mod Frequencies
pub mod Bands
pub mod Features
pub mod Capabilities
use platform_system_connecti.Base.{
  ℕ, ◌/◌, ◌%◌, ◌^◌, Bool, false, not, ◌&&◌, ◌||◌, Option, none, some, List, [], ◌∷◌, ◌++◌, bit_and,
  ltb, leb, ◌==◌, if◌then◌else◌, length, Outcome, ok, fail, ◌>>=◌, ◌>>◌, guard, attempt, or_else,
}
use platform_system_connecti.Wire.{Bytes, read_le}
use platform_system_connecti.Nl80211.{
  cmd_new_wiphy, attr_wiphy, attr_wiphy_bands, attr_max_num_scan_ssids,
  attr_max_num_sched_scan_ssids, attr_max_match_sets, attr_max_num_sched_scan_plans,
  attr_max_scan_plan_interval, attr_max_scan_plan_iterations, band_attr_freqs, frequency_attr_freq,
  frequency_attr_disabled, frequency_attr_no_ir, frequency_attr_dfs_state, dfs_usable,
  dfs_available,
}
use platform_system_connecti.Nl80211.Replies.{
  attr_feature_flags, attr_ext_features, feature_scan_random_mac_addr,
  feature_sched_scan_random_mac_addr, ext_feature_low_span_scan, ext_feature_low_power_scan,
  ext_feature_high_accuracy_scan,
}
use platform_system_connecti.Attribute.{
  get_attribute, get_int, has_attribute, get_list_of_nested_attributes,
}
use platform_system_connecti.Packet.{
  get_command, packet_get_attribute, packet_get_int, packet_get_raw,
}

-- `IsExtFeatureFlagSet`.
unfoldable pub is_ext_feature_flag_set : Bytes → ℕ → Bool
is_ext_feature_flag_set bytes flag =
    if leb (length bytes) (flag / 8)
    then false
    else not (bit_and (read_le 1 (flag / 8) bytes) (2 ^ (flag % 8)) == 0)

pub record WiphyFeatures : Type 0 where
  pub supports_random_mac_oneshot_scan : Bool
  pub supports_random_mac_sched_scan : Bool
  pub supports_low_span_oneshot_scan : Bool
  pub supports_low_power_oneshot_scan : Bool
  pub supports_high_accuracy_oneshot_scan : Bool

unfoldable pub wiphy_features : ℕ → Bytes → WiphyFeatures
wiphy_features flags bytes = record {
  supports_random_mac_oneshot_scan = not (bit_and flags feature_scan_random_mac_addr == 0);
  supports_random_mac_sched_scan = not (bit_and flags feature_sched_scan_random_mac_addr == 0);
  supports_low_span_oneshot_scan = is_ext_feature_flag_set bytes ext_feature_low_span_scan;
  supports_low_power_oneshot_scan = is_ext_feature_flag_set bytes ext_feature_low_power_scan;
  supports_high_accuracy_oneshot_scan =
      is_ext_feature_flag_set bytes ext_feature_high_accuracy_scan;
}

pub record BandInfo : Type 0 where
  pub band_2g : List ℕ
  pub band_5g : List ℕ
  pub band_dfs : List ℕ

abbrev pub lower_bound_2g : ℕ
lower_bound_2g = 2400

abbrev pub upper_bound_2g : ℕ
upper_bound_2g = 2500

abbrev pub lower_bound_5g : ℕ
lower_bound_5g = 5000

abbrev pub upper_bound_5g : ℕ
upper_bound_5g = 5850

-- The three `push_back`s.
abbrev pub push_2g : ℕ → BandInfo → BandInfo
push_2g f b = record b { band_2g = b.band_2g ++ (f ∷ []) }

abbrev pub push_5g : ℕ → BandInfo → BandInfo
push_5g f b = record b { band_5g = b.band_5g ++ (f ∷ []) }

abbrev pub push_dfs : ℕ → BandInfo → BandInfo
push_dfs f b = record b { band_dfs = b.band_dfs ++ (f ∷ []) }

-- `GetAttributeValue(…, &dfs_state) && (…)`.
abbrev pub is_dfs_state : Option ℕ → Bool
is_dfs_state none = false
is_dfs_state (some s) = (s == dfs_available) || (s == dfs_usable)

-- The branch for a frequency of the 5 GHz band, from the test of NO_IR on.
unfoldable pub add_non_dfs : Bytes → ℕ → BandInfo → Outcome BandInfo
add_non_dfs freq f b = do
  no_ir ← has_attribute freq frequency_attr_no_ir
  ok (if no_ir then push_dfs f b else push_5g f b)

unfoldable pub add_5g : Bytes → ℕ → BandInfo → Outcome BandInfo
unfolding add_non_dfs
add_5g freq f b = do
  dfs_state ← attempt (get_int 4 freq frequency_attr_dfs_state)
  if is_dfs_state dfs_state then ok (push_dfs f b) else add_non_dfs freq f b

-- The rest of a round, on the frequency that was read.
unfoldable pub add_value : Bytes → Option ℕ → BandInfo → Outcome BandInfo
unfolding add_5g
add_value freq none b = ok b
add_value freq (some f) b = do
  disabled ← has_attribute freq frequency_attr_disabled
  if disabled
      then ok b
      else if ltb lower_bound_2g f && ltb f upper_bound_2g
      then ok (push_2g f b)
      else if ltb lower_bound_5g f && ltb f upper_bound_5g
      then add_5g freq f b
      else ok b

unfoldable pub add_frequency : Bytes → BandInfo → Outcome BandInfo
unfolding add_value
add_frequency freq b = do
  frequency_value ← attempt (get_int 4 freq frequency_attr_freq)
  add_value freq frequency_value b

unfoldable pub add_frequencies : List Bytes → BandInfo → Outcome BandInfo
unfolding add_frequency
add_frequencies [] b = ok b
add_frequencies (freq ∷ freqs) b = do b1 ← add_frequency freq b; add_frequencies freqs b1

-- A band's frequencies; a band without any, or with a broken list, is skipped.
unfoldable pub add_listed : Option (List Bytes) → BandInfo → Outcome BandInfo
unfolding add_frequencies
add_listed none b = ok b
add_listed (some freqs) b = add_frequencies freqs b

unfoldable pub add_band : Bytes → BandInfo → Outcome BandInfo
unfolding add_listed
add_band band b = do
  freqs ← attempt (get_attribute band band_attr_freqs >>= get_list_of_nested_attributes)
  add_listed freqs b

unfoldable pub add_bands : List Bytes → BandInfo → Outcome BandInfo
unfolding add_band
add_bands [] b = ok b
add_bands (band ∷ bands) b = do b1 ← add_band band b; add_bands bands b1

unfoldable pub parse_band_info : Bytes → Outcome BandInfo
unfolding add_bands
parse_band_info packet = do
  bands_attr ← packet_get_attribute packet attr_wiphy_bands
  bands ← get_list_of_nested_attributes bands_attr
  add_bands bands (record { band_2g = []; band_5g = []; band_dfs = [] })

pub record ScanCapabilities : Type 0 where
  pub max_num_scan_ssids : ℕ
  pub max_num_sched_scan_ssids : ℕ
  pub max_match_sets : ℕ
  pub max_num_scan_plans : ℕ
  pub max_scan_plan_interval : ℕ
  pub max_scan_plan_iterations : ℕ

unfoldable pub parse_scan_capabilities : Bytes → Outcome ScanCapabilities
parse_scan_capabilities packet = do
  scan_ssids ← packet_get_int 1 packet attr_max_num_scan_ssids
  sched_scan_ssids ← packet_get_int 1 packet attr_max_num_sched_scan_ssids
  scan_plans ← or_else (packet_get_int 4 packet attr_max_num_sched_scan_plans) (ok 0)
  interval ← or_else (packet_get_int 4 packet attr_max_scan_plan_interval) (ok 0)
  iterations ← or_else (packet_get_int 4 packet attr_max_scan_plan_iterations) (ok 0)
  match_sets ← packet_get_int 1 packet attr_max_match_sets
  ok (record {
    max_num_scan_ssids = scan_ssids;
    max_num_sched_scan_ssids = sched_scan_ssids;
    max_match_sets = match_sets;
    max_num_scan_plans = scan_plans;
    max_scan_plan_interval = interval;
    max_scan_plan_iterations = iterations;
  })

-- What `GetWiphyInfo` writes through its pointers.
pub record WiphyInfo : Type 0 where
  pub band_info : BandInfo
  pub scan_capabilities : ScanCapabilities
  pub features : WiphyFeatures

unfoldable pub parse_wiphy_info : Bytes → Outcome WiphyInfo
unfolding parse_band_info parse_scan_capabilities wiphy_features
parse_wiphy_info packet = do
  guard (get_command packet == cmd_new_wiphy)
  bands ← parse_band_info packet
  capabilities ← parse_scan_capabilities packet
  flags ← packet_get_int 4 packet attr_feature_flags
  bytes ← or_else (packet_get_raw packet attr_ext_features) (ok [])
  ok (record {
    band_info = bands;
    scan_capabilities = capabilities;
    features = wiphy_features flags bytes;
  })

-- The loop of `GetWiphyInfo` over the packets: those of another wiphy, or without an index, are
-- passed over, and so are those that do not parse.
unfoldable pub find_wiphy_info : ℕ → List Bytes → Outcome WiphyInfo
unfolding parse_wiphy_info
find_wiphy_info wiphy_index [] = fail
find_wiphy_info wiphy_index (packet ∷ packets) =
    or_else
      (do
        index ← packet_get_int 4 packet attr_wiphy
        guard (index == wiphy_index)
        parse_wiphy_info packet)
      (find_wiphy_info wiphy_index packets)
