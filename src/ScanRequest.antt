-- ===== src/ScanRequest.antt =====
-- scanning/scanner_impl.cpp: the requests that the scanner makes of `ScanUtils`, and the settings
-- they are made from (scanning/pno_settings.h, net/netlink_utils.h).
use platform_system_connecti.Base.{
  ℕ, ◌+◌, ◌*◌, ◌^◌, ◌%◌, Bool, not, ◌&&◌, List, [], ◌∷◌, ◌++◌, ltb, leb, if◌then◌else◌, length,
  Outcome, ok, fault, ◌>>=◌,
}
use platform_system_connecti.Wire.{Bytes}

pub record PnoNetwork : Type 0 where
  pub is_hidden : Bool
  pub pno_ssid : Bytes

-- `interval_ms` and the thresholds are the 32-bit words of the `int32_t` members.
pub record PnoSettings : Type 0 where
  pub interval_ms : ℕ
  pub min_2g_rssi : ℕ
  pub min_5g_rssi : ℕ
  pub pno_networks : List PnoNetwork

-- `IWifiScannerImpl`'s scan types; `other_type` is a value outside them.
pub data ScanType : Type 0 where
  default_type low_span low_power high_accuracy : ScanType
  other_type : ℕ → ScanType

pub record SingleScanSettings : Type 0 where
  pub scan_type : ScanType
  pub channel_frequencies : List ℕ
  pub hidden_networks : List Bytes

-- `ScanCapabilities` and `WiphyFeatures`.
pub record Device : Type 0 where
  pub max_num_scan_ssids : ℕ
  pub max_num_sched_scan_ssids : ℕ
  pub max_match_sets : ℕ
  pub max_num_scan_plans : ℕ
  pub max_scan_plan_interval : ℕ
  pub max_scan_plan_iterations : ℕ
  pub supports_random_mac_oneshot_scan : Bool
  pub supports_random_mac_sched_scan : Bool
  pub supports_low_span_oneshot_scan : Bool
  pub supports_low_power_oneshot_scan : Bool
  pub supports_high_accuracy_oneshot_scan : Bool

-- The arguments of `ScanUtils::Scan`.
pub record ScanRequest : Type 0 where
  pub request_random_mac : Bool
  pub requested_type : ScanType
  pub ssids : List Bytes
  pub freqs : List ℕ

pub record ScanPlan : Type 0 where
  pub plan_interval_ms : ℕ
  pub plan_iterations : ℕ

-- `SchedScanIntervalSetting`.
pub record IntervalSetting : Type 0 where
  pub plans : List ScanPlan
  pub final_interval_ms : ℕ

-- The arguments of `ScanUtils::StartScheduledScan`.
pub record SchedRequest : Type 0 where
  pub interval_setting : IntervalSetting
  pub rssi_2g : ℕ
  pub rssi_5g : ℕ
  pub sched_random_mac : Bool
  pub request_low_power : Bool
  pub scan_ssids : List Bytes
  pub match_ssids : List Bytes
  pub sched_freqs : List ℕ

-- `IsScanTypeSupported`, whose default case ends the process.
unfoldable pub is_scan_type_supported : ScanType → Device → Outcome Bool
is_scan_type_supported low_span d = ok d.supports_low_span_oneshot_scan
is_scan_type_supported low_power d = ok d.supports_low_power_oneshot_scan
is_scan_type_supported high_accuracy d = ok d.supports_high_accuracy_oneshot_scan
is_scan_type_supported default_type d = fault
is_scan_type_supported (other_type n) d = fault

unfoldable pub scan_type_of : Device → SingleScanSettings → Outcome ScanType
scan_type_of d settings = do
  supported ← is_scan_type_supported settings.scan_type d
  ok (if not supported then default_type else settings.scan_type)

-- The loop over the hidden networks, from the ssids it has.
unfoldable pub add_hidden : ℕ → List Bytes → List Bytes → List Bytes
add_hidden max ssids [] = ssids
add_hidden max ssids (n ∷ networks) =
    if ltb max (length ssids + 1)
    then add_hidden max ssids networks
    else add_hidden max (ssids ++ (n ∷ [])) networks

unfoldable pub scan_request : Device → Bool → ScanType → SingleScanSettings → ScanRequest
scan_request d associated type settings = record {
  request_random_mac = d.supports_random_mac_oneshot_scan && not associated;
  requested_type = type;
  ssids = add_hidden d.max_num_scan_ssids ([] ∷ []) settings.hidden_networks;
  freqs = settings.channel_frequencies;
}

abbrev pub network_flags_default : ℕ
network_flags_default = 0

abbrev pub Lists : Type 0
Lists = List Bytes × List Bytes × List ℕ

-- A round of `ParsePnoSettings`: an ssid to look for, then one to match.
unfoldable pub add_match : Device → Bytes → Lists → Lists
add_match d ssid (scans, matches, security) =
    if ltb d.max_match_sets (length matches + 1)
    then (scans, matches, security)
    else (scans, matches ++ (ssid ∷ []), security ++ (network_flags_default ∷ []))

unfoldable pub add_network : Device → PnoNetwork → Lists → Lists
unfolding add_match
add_network d n (scans, matches, security) =
    if not n.is_hidden
    then add_match d n.pno_ssid (scans, matches, security)
    else if ltb d.max_num_sched_scan_ssids (length scans + 1)
    then (scans, matches, security)
    else add_match d n.pno_ssid (scans ++ (n.pno_ssid ∷ []), matches, security)

unfoldable pub parse_pno_settings : Device → List PnoNetwork → Lists → Lists
parse_pno_settings d [] lists = lists
parse_pno_settings d (n ∷ networks) lists = parse_pno_settings d networks (add_network d n lists)

-- From the scan ssids that the caller starts with.
unfoldable pub pno_lists : Device → List Bytes → List PnoNetwork → Lists
pno_lists d scans networks = parse_pno_settings d networks (scans, [], [])

abbrev pub fast_scan_iterations : ℕ
fast_scan_iterations = 3

abbrev pub slow_scan_interval_multiplier : ℕ
slow_scan_interval_multiplier = 3

-- The products are `uint32_t`.
unfoldable pub supports_scan_plan : Device → PnoSettings → Bool
supports_scan_plan d settings =
    leb 2 d.max_num_scan_plans
    && leb ((settings.interval_ms * slow_scan_interval_multiplier) % 2 ^ 32)
        ((d.max_scan_plan_interval * 1000) % 2 ^ 32)
    && leb fast_scan_iterations d.max_scan_plan_iterations

unfoldable pub generate_interval_setting : Device → PnoSettings → IntervalSetting
generate_interval_setting d settings =
    if supports_scan_plan d settings
    then record {
      plans =
          record { plan_interval_ms = settings.interval_ms; plan_iterations = fast_scan_iterations }
          ∷ [];
      final_interval_ms = (settings.interval_ms * slow_scan_interval_multiplier) % 2 ^ 32;
    }
    else record { plans = []; final_interval_ms = settings.interval_ms }

unfoldable pub sched_request : Device → Bool → PnoSettings → SchedRequest
sched_request d associated settings =
    let (scans, matches, _) = pno_lists d ([] ∷ []) settings.pno_networks in
    record {
      interval_setting = generate_interval_setting d settings;
      rssi_2g = settings.min_2g_rssi;
      rssi_5g = settings.min_5g_rssi;
      sched_random_mac = d.supports_random_mac_sched_scan && not associated;
      request_low_power = d.supports_low_power_oneshot_scan;
      scan_ssids = scans;
      match_ssids = matches;
      sched_freqs = [];
    }
