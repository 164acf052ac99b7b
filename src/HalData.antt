-- ===== src/HalData.antt =====
-- scanning/offload/offload_scan_utils.cpp: the offload HAL's data, and the conversions of the
-- scan requests, results and statistics.
use platform_system_connecti.Base.{ℕ, suc, ◌+◌, ◌/◌, ◌%◌, ◌^◌, false, List, [], ◌∷◌}
use platform_system_connecti.Wire.{Bytes}
use platform_system_connecti.ScanResult.{NativeScanResult}

-- The HAL's `OffloadStatusCode`; `unknown` is a value outside the enumeration.
pub data HalCode : Type 0 where
  hal_ok hal_timeout hal_no_connection hal_error hal_unknown : HalCode

-- The HAL's `ScanResult`.
pub record HalScanResult : Type 0 where
  pub hal_ssid : Bytes
  pub hal_bssid : Bytes
  pub hal_frequency : ℕ
  pub hal_rssi : ℕ
  pub hal_capability : ℕ

-- `NetworkInfo`, `ScanParam` and `ScanFilter` of the HAL.
pub record NetworkInfo : Type 0 where
  pub network_ssid : Bytes
  pub network_flags : ℕ

pub record ScanParam : Type 0 where
  pub ssid_list : List Bytes
  pub frequency_list : List ℕ
  pub disconnected_mode_scan_interval_ms : ℕ

pub record ScanFilter : Type 0 where
  pub preferred_network_info_list : List NetworkInfo
  pub rssi_threshold : ℕ

-- The scan requests.
unfoldable pub create_scan_param : List Bytes → List ℕ → ℕ → ScanParam
create_scan_param ssids frequencies interval_ms = record {
  ssid_list = ssids;
  frequency_list = frequencies;
  disconnected_mode_scan_interval_ms = interval_ms;
}

unfoldable pub network_infos : List Bytes → List ℕ → List NetworkInfo
network_infos [] flags = []
network_infos (s ∷ ssids) [] = network_infos ssids []
network_infos (s ∷ ssids) (f ∷ flags) =
    record { network_ssid = s; network_flags = f } ∷ network_infos ssids flags

-- The threshold is passed as an `int8_t`: the low byte of the 32-bit word.
unfoldable pub create_scan_filter : List Bytes → List ℕ → ℕ → ScanFilter
create_scan_filter ssids flags threshold = record {
  preferred_network_info_list = network_infos ssids flags;
  rssi_threshold = threshold % 256;
}

-- `systemTime` is a parameter: the clock's value in each round of the loop.
unfoldable pub convert_to_native : (ℕ → ℕ) → List HalScanResult → List NativeScanResult
convert_to_native clock [] = []
convert_to_native clock (r ∷ results) =
    record {
      ssid = r.hal_ssid;
      bssid = r.hal_bssid;
      info_element = [];
      frequency = r.hal_frequency;
      signal_mbm = r.hal_rssi;
      tsf = clock 0 / 1000;
      capability = r.hal_capability;
      associated = false;
      radio_chain_infos = [];
    }
    ∷ convert_to_native (λ n. clock (suc n)) results

-- The HAL's `ScanRecord` and `ScanStats`, and `NativeScanStats`.
pub record ScanRecord : Type 0 where
  pub duration_ms : ℕ
  pub record_channels_scanned : ℕ

pub record ScanStats : Type 0 where
  pub num_scans_requested_by_wifi : ℕ
  pub num_scans_serviced_by_wifi : ℕ
  pub subscription_duration_ms : ℕ
  pub scan_records : List ScanRecord
  pub histogram_channels_scanned : List ℕ

pub record NativeScanStats : Type 0 where
  pub num_scans_requested : ℕ
  pub num_scans_serviced : ℕ
  pub native_subscription_duration_ms : ℕ
  pub scan_duration_ms : ℕ
  pub num_channels_scanned : ℕ
  pub histogram_channels : List ℕ

-- The two `uint32_t` counters of the loop, from what they hold.
unfoldable pub total_records : ℕ → ℕ → List ScanRecord → ℕ × ℕ
total_records duration channels [] = (duration, channels)
total_records duration channels (r ∷ records) =
    total_records ((duration + r.duration_ms) % 2 ^ 32)
      ((channels + r.record_channels_scanned) % 2 ^ 32) records

unfoldable pub convert_stats : ScanStats → NativeScanStats
convert_stats s =
    let (duration, channels) = total_records 0 0 s.scan_records in
    record {
      num_scans_requested = s.num_scans_requested_by_wifi;
      num_scans_serviced = s.num_scans_serviced_by_wifi;
      native_subscription_duration_ms = s.subscription_duration_ms;
      scan_duration_ms = duration;
      num_channels_scanned = channels;
      histogram_channels = s.histogram_channels_scanned;
    }
