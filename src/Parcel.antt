-- ===== src/Parcel.antt =====
-- The parcelables: scanning/{single_scan_settings, channel_settings, hidden_network, pno_settings,
-- pno_network, scan_result, radio_chain_info}.cpp and scanning/offload/scan_stats.cpp. The calls of
-- `Parcel`, which stands outside the repository, are a parameter; an error status is `fail`. An object
-- that is read into is a new one, and 32-bit values are their bit patterns.
pub mod Reports
pub mod Laws
pub mod Parts
pub mod RoundTrips
use platform_system_connecti.Base.{
  ℕ, zero, suc, ◌^◌, ◌%◌, Bool, true, false, not, List, [], ◌∷◌, ltb, ◌==◌, if◌then◌else◌, length,
  Outcome, ok, fail, ◌>>=◌, ◌>>◌, guard, attempt, Option, none, some,
}
use platform_system_connecti.Wire.{Bytes}
use platform_system_connecti.ScanRequest.{
  ScanType, low_span, low_power, high_accuracy, default_type, other_type, SingleScanSettings,
  PnoNetwork, PnoSettings,
}
use platform_system_connecti.ScanResult.{RadioChainInfo, NativeScanResult}
use platform_system_connecti.HalData.{NativeScanStats}

pub data Kind : Type 0 where
  int32 uint32 uint64 : Kind

pub record Calls (P : Type 0) : Type 0 where
  pub write_number : Kind → ℕ → P → Outcome P
  pub write_byte_vector : Bytes → P → Outcome P
  pub read_number : Kind → P → Outcome (ℕ × P)
  pub read_byte_vector : P → Outcome (Bytes × P)

-- `IWifiScannerImpl`'s numbers of the scan types.
abbrev pub code_of : ScanType → ℕ
code_of low_span = 0
code_of low_power = 1
code_of high_accuracy = 2
code_of default_type = 4294967295
code_of (other_type n) = n

abbrev pub type_of : ℕ → ScanType
type_of n =
    if n == 0
    then low_span
    else if n == 1
    then low_power
    else if n == 2
    then high_accuracy
    else if n == 4294967295
    then default_type
    else other_type n

unfoldable pub is_valid_scan_type : ScanType → Bool
is_valid_scan_type low_span = true
is_valid_scan_type low_power = true
is_valid_scan_type high_accuracy = true
is_valid_scan_type default_type = false
is_valid_scan_type (other_type n) = false

abbrev pub flag_number : Bool → ℕ
flag_number b = if b then 1 else 0

module _ {P : Type 0} (c : Calls P) where
  -- The loops over the lists: each object comes behind a 1.
  unfoldable pub write_list : {A : Type 0} → (A → P → Outcome P) → List A → P → Outcome P
  write_list w [] p = ok p
  write_list w (x ∷ xs) p = do p1 ← c.write_number int32 1 p; p2 ← w x p1; write_list w xs p2

  unfoldable pub write_typed_list : {A : Type 0} → (A → P → Outcome P) → List A → P → Outcome P
  unfolding write_list
  write_typed_list w xs p = do p1 ← c.write_number int32 (length xs % 2 ^ 32) p; write_list w xs p1

  unfoldable pub read_list : {A : Type 0} → (P → Outcome (A × P)) → ℕ → P → Outcome (List A × P)
  read_list r zero p = ok ([], p)
  read_list r (suc n) p = do
    (leading_number, p1) ← c.read_number int32 p
    guard (leading_number == 1)
    (x, p2) ← r p1
    (xs, p3) ← read_list r n p2
    ok (x ∷ xs, p3)

  -- A negative number of objects makes no round.
  unfoldable pub read_typed_list : {A : Type 0} → (P → Outcome (A × P)) → P → Outcome (List A × P)
  unfolding read_list
  read_typed_list r p = do
    (n, p1) ← c.read_number int32 p
    read_list r (if ltb n (2 ^ 31) then n else 0) p1

  unfoldable pub write_channel : ℕ → P → Outcome P
  write_channel frequency p = c.write_number int32 frequency p

  unfoldable pub read_channel : P → Outcome (ℕ × P)
  read_channel p = c.read_number int32 p

  unfoldable pub write_hidden_network : Bytes → P → Outcome P
  write_hidden_network ssid p = c.write_byte_vector ssid p

  unfoldable pub read_hidden_network : P → Outcome (Bytes × P)
  read_hidden_network p = c.read_byte_vector p

  unfoldable pub write_single_scan_settings : SingleScanSettings → P → Outcome P
  unfolding is_valid_scan_type write_typed_list write_channel write_hidden_network
  write_single_scan_settings s p = do
    guard (is_valid_scan_type s.scan_type)
    p1 ← c.write_number int32 (code_of s.scan_type) p
    p2 ← write_typed_list write_channel s.channel_frequencies p1
    write_typed_list write_hidden_network s.hidden_networks p2

  unfoldable pub read_single_scan_settings : P → Outcome (SingleScanSettings × P)
  unfolding is_valid_scan_type read_typed_list read_channel read_hidden_network
  read_single_scan_settings p = do
    (n, p1) ← c.read_number int32 p
    guard (is_valid_scan_type (type_of n))
    (channels, p2) ← read_typed_list read_channel p1
    (networks, p3) ← read_typed_list read_hidden_network p2
    ok (
      record { scan_type = type_of n; channel_frequencies = channels; hidden_networks = networks },
      p3,
    )

  unfoldable pub write_pno_network : PnoNetwork → P → Outcome P
  write_pno_network n p = do
    p1 ← c.write_number int32 (flag_number n.is_hidden) p
    c.write_byte_vector n.pno_ssid p1

  unfoldable pub read_pno_network : P → Outcome (PnoNetwork × P)
  read_pno_network p = do
    (hidden, p1) ← c.read_number int32 p
    (ssid, p2) ← c.read_byte_vector p1
    ok (record { is_hidden = not (hidden == 0); pno_ssid = ssid }, p2)

  unfoldable pub write_pno_settings : PnoSettings → P → Outcome P
  unfolding write_typed_list write_pno_network
  write_pno_settings s p = do
    p1 ← c.write_number int32 s.interval_ms p
    p2 ← c.write_number int32 s.min_2g_rssi p1
    p3 ← c.write_number int32 s.min_5g_rssi p2
    write_typed_list write_pno_network s.pno_networks p3

  unfoldable pub read_pno_settings : P → Outcome (PnoSettings × P)
  unfolding read_typed_list read_pno_network
  read_pno_settings p = do
    (interval, p1) ← c.read_number int32 p
    (rssi_2g, p2) ← c.read_number int32 p1
    (rssi_5g, p3) ← c.read_number int32 p2
    (networks, p4) ← read_typed_list read_pno_network p3
    ok (
      record {
        interval_ms = interval;
        min_2g_rssi = rssi_2g;
        min_5g_rssi = rssi_5g;
        pno_networks = networks;
      },
      p4,
    )

  unfoldable pub write_radio_chain_info : RadioChainInfo → P → Outcome P
  write_radio_chain_info r p = do
    p1 ← c.write_number int32 r.chain_id p
    c.write_number int32 r.level p1

  unfoldable pub read_radio_chain_info : P → Outcome (RadioChainInfo × P)
  read_radio_chain_info p = do
    (chain_id, p1) ← c.read_number int32 p
    (level, p2) ← c.read_number int32 p1
    ok (record { chain_id = chain_id; level = level }, p2)
