-- ===== src/Parcel/RoundTrips.antt =====
-- What the parcelables write is what they read.
use platform_system_connecti.Base.{
  ℕ, ◌<◌, ◌^◌, ◌%◌, ◌≡◌, refl, true, false, List, [], ◌∷◌, ◌++◌, Outcome, ok, fail, arith,
  append_assoc, append-nil, subst,
}
use platform_system_connecti.ScanRequest.{
  ScanType, low_span, low_power, high_accuracy, default_type, other_type, SingleScanSettings,
  PnoSettings,
}
use platform_system_connecti.ScanResult.{NativeScanResult}
use platform_system_connecti.Parcel.{
  int32, uint32, uint64, Calls, code_of, type_of, is_valid_scan_type, flag_number,
  write_single_scan_settings, read_single_scan_settings, write_pno_settings, read_pno_settings,
}
use platform_system_connecti.Parcel.Reports.{write_scan_result, read_or_zero, read_scan_result}
use platform_system_connecti.Parcel.Laws.{
  Item, number, byte_vector, AllFitIn, IsParcel, passed, passed-append, all_append, RoundTrip,
  typed_items, SoundList, typed_list-RoundTrip,
}
use platform_system_connecti.Parcel.Parts.{
  channel_items, hidden_network_items, pno_network_items, radio_chain_info_items, Any, flag_back,
  channel-RoundTrip, hidden_network-RoundTrip, pno_network-RoundTrip, radio_chain_info-RoundTrip,
}

-- The items of each object, and when an object can be sent.
abbrev pub single_scan_items : SingleScanSettings → List Item
single_scan_items s =
    number int32 (code_of s.scan_type)
    ∷ (typed_items channel_items s.channel_frequencies
        ++ typed_items hidden_network_items s.hidden_networks)

abbrev pub pno_items : PnoSettings → List Item
pno_items s =
    number int32 s.interval_ms
    ∷ number int32 s.min_2g_rssi
    ∷ number int32 s.min_5g_rssi
    ∷ typed_items pno_network_items s.pno_networks

abbrev pub result_items : NativeScanResult → List Item
result_items r =
    byte_vector r.ssid
    ∷ byte_vector r.bssid
    ∷ byte_vector r.info_element
    ∷ number uint32 r.frequency
    ∷ number int32 r.signal_mbm
    ∷ number uint64 r.tsf
    ∷ number uint32 r.capability
    ∷ number int32 (flag_number r.associated)
    ∷ typed_items radio_chain_info_items r.radio_chain_infos

abbrev pub SoundSettings : SingleScanSettings → Type 0
SoundSettings s =
    (is_valid_scan_type s.scan_type ≡ true)
    × SoundList Any s.channel_frequencies
    × SoundList Any s.hidden_networks

abbrev pub SoundPno : PnoSettings → Type 0
SoundPno s = SoundList Any s.pno_networks

abbrev pub SoundResult : NativeScanResult → Type 0
SoundResult r = (r.capability < 2 ^ 16) × SoundList Any r.radio_chain_infos

valid_code : (t : ScanType) → is_valid_scan_type t ≡ true → type_of (code_of t) ≡ t
unfolding is_valid_scan_type
valid_code low_span h = refl
valid_code low_power h = refl
valid_code high_accuracy h = refl
valid_code default_type h = absurd (cc)
valid_code (other_type n) h = absurd (cc)

module _ {P : Type 0} {c : Calls P} {at : List Item → List Item → P} (p : IsParcel c at) where
  single_scan_settings-RoundTrip :
      RoundTrip at
        (write_single_scan_settings c)
        (read_single_scan_settings c)
        single_scan_items
        SoundSettings
  unfolding write_single_scan_settings read_single_scan_settings
  single_scan_settings-RoundTrip =
      let channels = typed_list-RoundTrip p (channel-RoundTrip p) in
      let networks = typed_list-RoundTrip p (hidden_network-RoundTrip p) in
      record {
        written = λ s done (v, a, b) (h, all).
            let as_items = typed_items channel_items s.channel_frequencies in
            let bs = typed_items hidden_network_items s.hidden_networks in
            let (k, m) = all_append as_items bs all in
            let done1 = number int32 (code_of s.scan_type) ∷ done in
            rw
              (
                v,
                p.writes_number int32 (code_of s.scan_type) done h,
                channels.written s.channel_frequencies done1 a k,
                networks.written s.hidden_networks (passed as_items done1) b m,
                passed-append as_items bs done1,
              )
              refl;
        read_back = λ s done rest (v, a, b) (h, all).
            let as_items = typed_items channel_items s.channel_frequencies in
            let bs = typed_items hidden_network_items s.hidden_networks in
            let (k, m) = all_append as_items bs all in
            let done1 = number int32 (code_of s.scan_type) ∷ done in
            rw
              (
                p.reads_number int32 (code_of s.scan_type) done ((as_items ++ bs) ++ rest) h,
                valid_code s.scan_type v,
                v,
                append_assoc as_items bs rest,
                channels.read_back s.channel_frequencies done1 (bs ++ rest) a k,
                networks.read_back s.hidden_networks (passed as_items done1) rest b m,
                passed-append as_items bs done1,
              )
              refl;
      }

  pno_settings-RoundTrip :
      RoundTrip at (write_pno_settings c) (read_pno_settings c) pno_items SoundPno
  unfolding write_pno_settings read_pno_settings
  pno_settings-RoundTrip =
      let networks = typed_list-RoundTrip p (pno_network-RoundTrip p) in
      record {
        written = λ s done a (h, (k, (m, all))).
            rw
              (
                p.writes_number int32 s.interval_ms _ h,
                p.writes_number int32 s.min_2g_rssi _ k,
                p.writes_number int32 s.min_5g_rssi _ m,
              )
              (networks.written s.pno_networks _ a all);
        read_back = λ s done rest a (h, (k, (m, all))).
            rw
              (
                p.reads_number int32 s.interval_ms _ _ h,
                p.reads_number int32 s.min_2g_rssi _ _ k,
                p.reads_number int32 s.min_5g_rssi _ _ m,
                networks.read_back s.pno_networks _ rest a all,
              )
              refl;
      }

  scan_result-RoundTrip :
      RoundTrip at (write_scan_result c) (read_scan_result c) result_items SoundResult
  unfolding write_scan_result read_scan_result read_or_zero
  scan_result-RoundTrip =
      let infos = typed_list-RoundTrip p (radio_chain_info-RoundTrip p) in
      record {
        written = λ r done (small, a) (h1, (h2, (h3, (h4, (h5, (h6, (h7, (h8, all)))))))).
            rw
              (
                p.writes_bytes r.ssid _ h1,
                p.writes_bytes r.bssid _ h2,
                p.writes_bytes r.info_element _ h3,
                p.writes_number uint32 r.frequency _ h4,
                p.writes_number int32 r.signal_mbm _ h5,
                p.writes_number uint64 r.tsf _ h6,
                p.writes_number uint32 r.capability _ h7,
                p.writes_number int32 (flag_number r.associated) _ h8,
              )
              (infos.written r.radio_chain_infos _ a all);
        read_back = λ r done rest (small, a) (h1, (h2, (h3, (h4, (h5, (h6, (h7, (h8, all)))))))).
            let cut : r.capability % 2 ^ 16 ≡ r.capability = omega (arith, small) in
            rw
              (
                p.reads_bytes r.ssid _ _ h1,
                p.reads_bytes r.bssid _ _ h2,
                p.reads_bytes r.info_element _ _ h3,
                p.reads_number uint32 r.frequency _ _ h4,
                p.reads_number int32 r.signal_mbm _ _ h5,
                p.reads_number uint64 r.tsf _ _ h6,
                p.reads_number uint32 r.capability _ _ h7,
                p.reads_number int32 (flag_number r.associated) _ _ h8,
                infos.read_back r.radio_chain_infos _ rest a all,
                cut,
                flag_back r.associated,
              )
              refl;
      }

  whole :
      {A : Type 0} {write : A → P → Outcome P} {read : P → Outcome (A × P)} {items : A → List Item}
      {IsSound : A → Type 0} (r : RoundTrip at write read items IsSound) (x : A)
      → IsSound x
      → AllFitIn (items x)
      → (write x (at [] []) ≡ ok (at (passed (items x) []) []))
        × (read (at [] (items x)) ≡ ok (x, at (passed (items x) []) []))
  whole {read = read} {items = items} r x s h = (
    r.written x [] s h,
    subst (λ l. read (at [] l) ≡ ok (x, at (passed (items x) []) [])) (append-nil (items x))
        (r.read_back x [] [] s h),
  )

  -- A parcel that keeps its values in order, and a scan result whose numbers and lists are in the
  -- ranges of their types, the capability in 16 bits: writing the result puts its items into an empty
  -- parcel, and reading a parcel of these items from its start gives the result back and leaves none.
  pub scan_result_round_trip :
      (r : NativeScanResult)
      → SoundResult r
      → AllFitIn (result_items r)
      → (write_scan_result c r (at [] []) ≡ ok (at (passed (result_items r) []) []))
        × (read_scan_result c (at [] (result_items r)) ≡ ok (r, at (passed (result_items r) []) []))
  scan_result_round_trip r s h = whole scan_result-RoundTrip r s h

  -- A parcel that keeps its values in order, and settings of one of the three valid scan types whose
  -- numbers and lists are in the ranges of their types: writing the settings puts their items into an
  -- empty parcel, and reading a parcel of these items from its start gives the settings back and
  -- leaves none.
  pub single_scan_settings_round_trip :
      (s : SingleScanSettings)
      → SoundSettings s
      → AllFitIn (single_scan_items s)
      → (write_single_scan_settings c s (at [] []) ≡ ok (at (passed (single_scan_items s) []) []))
        × (read_single_scan_settings c (at [] (single_scan_items s))
            ≡ ok (s, at (passed (single_scan_items s) []) []))
  single_scan_settings_round_trip s v h = whole single_scan_settings-RoundTrip s v h

  invalid : (n : ℕ) → 2 < n → is_valid_scan_type (type_of n) ≡ false
  unfolding is_valid_scan_type
  invalid n h = ground arith

  -- A parcel that keeps its values in order: no settings are read from one that starts with a 32-bit
  -- number above 2, whatever follows, and none of such a scan type are written.
  pub single_scan_settings_refused :
      (n : ℕ) (done rest : List Item) (s : SingleScanSettings)
      → 2 < n
      → n < 2 ^ 32
      → s.scan_type ≡ type_of n
      → (read_single_scan_settings c (at done (number int32 n ∷ rest)) ≡ fail)
        × (write_single_scan_settings c s (at done []) ≡ fail)
  unfolding read_single_scan_settings write_single_scan_settings
  single_scan_settings_refused n done rest s large small e = (
    rw (p.reads_number int32 n done rest small, invalid n large) refl,
    rw (e, invalid n large) refl,
  )
