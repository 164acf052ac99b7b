-- ===== src/ScanResult.antt =====
-- scanning/scan_utils.cpp: scan results in the packets of a GET_SCAN dump, and scan_result.h.
-- `nullopt` is no result: a packet that the code skips.
pub mod Ssid
pub mod Fields
use platform_system_connecti.Base.{
  ℕ, zero, suc, ◌+◌, ◌-◌, ◌/◌, ◌<◌, Bool, true, false, not, ◌&&◌, ◌||◌, Option, none, some, List,
  [], ◌∷◌, ltb, leb, ◌==◌, if◌then◌else◌, length, take, drop, Outcome, ok, fail, hang, fault, ◌>>=◌,
  ◌>>◌, guard, attempt, or_else, sign_extend,
}
use platform_system_connecti.Wire.{Bytes, read_le}
use platform_system_connecti.Attribute.{
  get_attribute_id, int_get_value, get_attribute, get_int, get_raw, get_list_of_int_attributes,
}
use platform_system_connecti.Packet.{
  get_command, get_message_type, packet_get_attribute, packet_get_int, nlmsg_error,
}
use platform_system_connecti.Nl80211.{
  cmd_new_scan_results, attr_bss, attr_ifindex, bss_bssid, bss_frequency, bss_tsf, bss_capability,
  bss_information_elements, bss_signal_mbm, bss_status, bss_beacon_tsf, bss_last_seen_boottime,
  bss_chain_signal, bss_status_authenticated, bss_status_associated,
}

-- `int32_t` members, as 32-bit words.
pub record RadioChainInfo : Type 0 where
  pub chain_id : ℕ
  pub level : ℕ

-- `signal_mbm` is the 32-bit word that was read as an `int32_t`.
pub record NativeScanResult : Type 0 where
  pub ssid : Bytes
  pub bssid : Bytes
  pub info_element : Bytes
  pub frequency : ℕ
  pub signal_mbm : ℕ
  pub tsf : ℕ
  pub capability : ℕ
  pub associated : Bool
  pub radio_chain_infos : List RadioChainInfo

-- `NativeScanResult()`: its lists are empty and the code leaves its numbers unset.
pub data Parsed : Type 0 where
  parsed : NativeScanResult → Parsed
  left_unset : Parsed

abbrev pub elem_id_ssid : ℕ
elem_id_ssid = 0

-- The loop of `GetSSIDFromInfoElement` over the bytes from `ptr` to `end`.
unfoldable pub ssid_loop : ℕ → Bytes → Outcome Bytes
ssid_loop zero ie = hang
ssid_loop (suc fuel) ie =
    let type = read_le 1 0 ie in
    let len = read_le 1 1 ie in
    let next = ssid_loop fuel (drop (2 + len) ie) in
    if not (ltb 1 (length ie))
    then fail
    else if leb (length ie) (1 + len)
    then fail
    else if type == elem_id_ssid
    then ok (take len (drop 2 ie))
    else next

unfoldable pub get_ssid_from_info_element : Bytes → Outcome Bytes
get_ssid_from_info_element ie = ssid_loop (suc (length ie)) ie

abbrev pub max : ℕ → ℕ → ℕ
max a b = if ltb a b then b else a

unfoldable pub get_bss_timestamp : Bytes → Outcome ℕ
get_bss_timestamp bss = do
  boot ← attempt (get_int 8 bss bss_last_seen_boottime)
  elim boot [
    | some nanoseconds ↦ ok (nanoseconds / 1000)
    | none ↦ do
      tsf ← get_int 8 bss bss_tsf
      beacon ← attempt (get_int 8 bss bss_beacon_tsf)
      elim beacon [ some beacon_tsf ↦ ok (max tsf beacon_tsf) | none ↦ ok tsf ]
  ]

unfoldable pub chain_infos : List Bytes → List RadioChainInfo
chain_infos [] = []
chain_infos (a ∷ attributes) =
    record { chain_id = get_attribute_id a; level = sign_extend (int_get_value 1 a) }
    ∷ chain_infos attributes

unfoldable pub parse_radio_chain_infos : Bytes → Outcome (List RadioChainInfo)
unfolding chain_infos
parse_radio_chain_infos bss = do
  nested ← get_attribute bss bss_chain_signal
  attributes ← get_list_of_int_attributes 1 nested
  ok (chain_infos attributes)

-- `GetAttributeValue(…, &bss_status) && (…)`.
abbrev pub is_associated_status : Option ℕ → Bool
is_associated_status none = false
is_associated_status (some s) = (s == bss_status_authenticated) || (s == bss_status_associated)

unfoldable pub parse_bss : Bytes → Outcome NativeScanResult
parse_bss bss = do
  bssid ← get_raw bss bss_bssid
  freq ← get_int 4 bss bss_frequency
  ie ← get_raw bss bss_information_elements
  ssid ← get_ssid_from_info_element ie
  last_seen ← get_bss_timestamp bss
  signal ← get_int 4 bss bss_signal_mbm
  capability ← get_int 2 bss bss_capability
  status ← attempt (get_int 4 bss bss_status)
  chains ← or_else (parse_radio_chain_infos bss) (ok [])
  ok (record {
    ssid = ssid;
    bssid = bssid;
    info_element = ie;
    frequency = freq;
    signal_mbm = signal;
    tsf = last_seen;
    capability = capability;
    associated = is_associated_status status;
    radio_chain_infos = chains;
  })

unfoldable pub parse_scan_result : Bytes → Outcome Parsed
parse_scan_result packet = if not (get_command packet == cmd_new_scan_results) then fail else do
  found ← attempt (packet_get_attribute packet attr_bss)
  elim found [ none ↦ ok left_unset | some bss ↦ parse_bss bss >>= λ r. ok (parsed r) ]

-- The rounds of the loop over the response of `GetScanResult`.
unfoldable pub interesting_result : ℕ → ℕ → Bytes → Outcome Parsed
interesting_result family_id interface_index packet = do
  guard (not (get_message_type packet == nlmsg_error))
  guard (get_message_type packet == family_id)
  if_index ← packet_get_int 4 packet attr_ifindex
  guard (if_index == interface_index)
  parse_scan_result packet

unfoldable pub scan_results_of : ℕ → ℕ → List Bytes → Outcome (List Parsed)
scan_results_of family_id interface_index [] = ok []
scan_results_of family_id interface_index (packet ∷ response) = do
  result ← attempt (interesting_result family_id interface_index packet)
  rest ← scan_results_of family_id interface_index response
  elim result [ some r ↦ ok (r ∷ rest) | none ↦ ok rest ]

-- `GetScanResult`: the answer of `SendMessageAndGetResponses` is a parameter, none if it failed.
unfoldable pub get_scan_result : ℕ → ℕ → Option (List Bytes) → Outcome (List Parsed)
get_scan_result family_id interface_index none = fail
get_scan_result family_id interface_index (some response) =
    scan_results_of family_id interface_index response
