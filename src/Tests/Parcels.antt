-- ===== src/Tests/Parcels.antt =====
-- The theorems on parcelables, at parcels that are lists of items with a position.
use platform_system_connecti.Base.{◌≡◌, refl, true, List, [], ◌∷◌, ok, fail, arith}
use platform_system_connecti.ScanRequest.{low_power, other_type, SingleScanSettings}
use platform_system_connecti.ScanResult.{NativeScanResult}
use platform_system_connecti.Parcel.{
  int32, Calls, is_valid_scan_type, read_single_scan_settings, write_single_scan_settings,
}
use platform_system_connecti.Parcel.Reports.{write_scan_result, read_scan_result}
use platform_system_connecti.Parcel.Laws.{Item, number, byte_vector, IsParcel, passed}
use platform_system_connecti.Parcel.RoundTrips.{
  result_items, single_scan_items, scan_result_round_trip, single_scan_settings_round_trip,
  single_scan_settings_refused,
}

abbrev Queue : Type 0
Queue = List Item × List Item

abbrev queue : Calls Queue
queue = record {
  write_number =
      λ k n (done, rest). elim rest [ [] ↦ ok (number k n ∷ done, []) | i ∷ items ↦ fail ];
  write_byte_vector =
      λ bytes (done, rest). elim rest [ [] ↦ ok (byte_vector bytes ∷ done, []) | i ∷ items ↦ fail ];
  read_number = λ k (done, rest). elim rest [
    | [] ↦ fail
    | number j n ∷ items ↦ ok (n, (number j n ∷ done, items))
    | byte_vector bytes ∷ items ↦ fail
  ];
  read_byte_vector = λ (done, rest). elim rest [
    | [] ↦ fail
    | number j n ∷ items ↦ fail
    | byte_vector bytes ∷ items ↦ ok (bytes, (byte_vector bytes ∷ done, items))
  ];
}

abbrev queue_at : List Item → List Item → Queue
queue_at done rest = (done, rest)

queue-IsParcel : IsParcel queue queue_at
queue-IsParcel = record {
  writes_number = λ k n done h. refl;
  writes_bytes = λ bytes done h. refl;
  reads_number = λ k n done rest h. refl;
  reads_bytes = λ bytes done rest h. refl;
}

abbrev result : NativeScanResult
result = record {
  ssid = 97 ∷ 98 ∷ [];
  bssid = 2 ∷ 0 ∷ 0 ∷ 10 ∷ 11 ∷ 12 ∷ [];
  info_element = [];
  frequency = 2412;
  signal_mbm = 4294962296;
  tsf = 6000;
  capability = 1041;
  associated = true;
  radio_chain_infos = record { chain_id = 0; level = 4294967236 } ∷ [];
}

scan_result_round_trip_example :
    (write_scan_result queue result ([], []) ≡ ok (passed (result_items result) [], []))
    × (read_scan_result queue ([], result_items result)
        ≡ ok (result, (passed (result_items result) [], [])))
scan_result_round_trip_example =
    scan_result_round_trip queue-IsParcel result (omega arith, (omega arith, (tt, tt)))
      (
        omega arith,
        (
          omega arith,
          (
            omega arith,
            (
              omega arith,
              (
                omega arith,
                (
                  omega arith,
                  (
                    omega arith,
                    (omega arith, (omega arith, (omega arith, (omega arith, (omega arith, tt))))),
                  ),
                ),
              ),
            ),
          ),
        ),
      )

abbrev settings : SingleScanSettings
settings = record {
  scan_type = low_power;
  channel_frequencies = 2412 ∷ [];
  hidden_networks = (97 ∷ 98 ∷ []) ∷ [];
}

low_power_valid : is_valid_scan_type low_power ≡ true
unfolding is_valid_scan_type
low_power_valid = refl

single_scan_settings_round_trip_example :
    (write_single_scan_settings queue settings ([], [])
      ≡ ok (passed (single_scan_items settings) [], []))
    × (read_single_scan_settings queue ([], single_scan_items settings)
        ≡ ok (settings, (passed (single_scan_items settings) [], [])))
single_scan_settings_round_trip_example =
    single_scan_settings_round_trip queue-IsParcel settings
      (low_power_valid, (omega arith, (tt, tt)), (omega arith, (tt, tt)))
      (
        omega arith,
        (
          omega arith,
          (omega arith, (omega arith, (omega arith, (omega arith, (omega arith, tt))))),
        ),
      )

abbrev refused : SingleScanSettings
refused = record { scan_type = other_type 5; channel_frequencies = []; hidden_networks = [] }

single_scan_settings_refused_example :
    (read_single_scan_settings queue ([], number int32 5 ∷ []) ≡ fail)
    × (write_single_scan_settings queue refused ([], []) ≡ fail)
single_scan_settings_refused_example =
    single_scan_settings_refused queue-IsParcel 5 [] [] refused (omega arith) (omega arith) refl
