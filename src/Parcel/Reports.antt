-- ===== src/Parcel/Reports.antt =====
-- The parcelables that the daemon hands out: scanning/scan_result.cpp and scanning/offload/scan_stats.cpp.
use platform_system_connecti.Base.{ℕ, ◌^◌, ◌%◌, not, ◌==◌, Outcome, ok, ◌>>=◌, or_else}
use platform_system_connecti.ScanResult.{NativeScanResult}
use platform_system_connecti.HalData.{NativeScanStats}
use platform_system_connecti.Parcel.{
  Kind, int32, uint32, uint64, Calls, flag_number, write_typed_list, read_typed_list,
  write_radio_chain_info, read_radio_chain_info,
}

module _ {P : Type 0} (c : Calls P) where
  unfoldable pub write_scan_result : NativeScanResult → P → Outcome P
  unfolding write_typed_list write_radio_chain_info
  write_scan_result r p = do
    p1 ← c.write_byte_vector r.ssid p
    p2 ← c.write_byte_vector r.bssid p1
    p3 ← c.write_byte_vector r.info_element p2
    p4 ← c.write_number uint32 r.frequency p3
    p5 ← c.write_number int32 r.signal_mbm p4
    p6 ← c.write_number uint64 r.tsf p5
    p7 ← c.write_number uint32 r.capability p6
    p8 ← c.write_number int32 (flag_number r.associated) p7
    write_typed_list c (write_radio_chain_info c) r.radio_chain_infos p8

  -- `readUint32()` and `readInt32()` without an argument return 0 where they fail.
  unfoldable pub read_or_zero : Kind → P → Outcome (ℕ × P)
  read_or_zero k p = or_else (c.read_number k p) (ok (0, p))

  unfoldable pub read_scan_result : P → Outcome (NativeScanResult × P)
  unfolding read_typed_list read_radio_chain_info read_or_zero
  read_scan_result p = do
    (ssid, p1) ← c.read_byte_vector p
    (bssid, p2) ← c.read_byte_vector p1
    (info_element, p3) ← c.read_byte_vector p2
    (frequency, p4) ← c.read_number uint32 p3
    (signal_mbm, p5) ← c.read_number int32 p4
    (tsf, p6) ← c.read_number uint64 p5
    (capability, p7) ← read_or_zero uint32 p6
    (associated, p8) ← read_or_zero int32 p7
    (infos, p9) ← read_typed_list c (read_radio_chain_info c) p8
    ok (
      record {
        ssid = ssid;
        bssid = bssid;
        info_element = info_element;
        frequency = frequency;
        signal_mbm = signal_mbm;
        tsf = tsf;
        capability = capability % 2 ^ 16;
        associated = not (associated == 0);
        radio_chain_infos = infos;
      },
      p9,
    )

  unfoldable pub write_stats : NativeScanStats → P → Outcome P
  write_stats s p = do
    p1 ← c.write_number uint32 s.num_scans_requested p
    p2 ← c.write_number uint32 s.num_scans_serviced p1
    p3 ← c.write_number uint32 s.native_subscription_duration_ms p2
    p4 ← c.write_number uint32 s.scan_duration_ms p3
    p5 ← c.write_number uint32 s.num_channels_scanned p4
    c.write_byte_vector s.histogram_channels p5

  unfoldable pub read_stats : P → Outcome (NativeScanStats × P)
  read_stats p = do
    (requested, p1) ← c.read_number uint32 p
    (serviced, p2) ← c.read_number uint32 p1
    (subscribed, p3) ← c.read_number uint32 p2
    (scanned, p4) ← c.read_number uint32 p3
    (channels, p5) ← c.read_number uint32 p4
    (histogram, p6) ← c.read_byte_vector p5
    ok (
      record {
        num_scans_requested = requested;
        num_scans_serviced = serviced;
        native_subscription_duration_ms = subscribed;
        scan_duration_ms = scanned;
        num_channels_scanned = channels;
        histogram_channels = histogram;
      },
      p6,
    )
