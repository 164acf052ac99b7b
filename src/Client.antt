-- ===== src/Client.antt =====
-- client_interface_impl.cpp: the association state of a client interface, the MLME handlers that
-- keep it, and the requests that depend on it. What the kernel or the interface tool answers
-- (`GetScanResult`, `GetStationInfo`, `SetWifiUpState`, `SetMacAddress`) is an argument.
pub mod Association
use platform_system_connecti.Base.{
  ℕ, ◌+◌, ◌-◌, ◌/◌, ◌^◌, ltb, Bool, true, false, not, ◌&&◌, Option, none, some, List, [], ◌∷◌, ◌++◌,
  ◌==◌, if◌then◌else◌, length, sign_extend,
}
use platform_system_connecti.Wire.{Bytes}
use platform_system_connecti.Mlme.{ConnectEvent, CommonFields}

-- The fields of `NativeScanResult` that are read here.
pub record AssociationResult : Type 0 where
  pub frequency : ℕ
  pub associated : Bool

pub record Client : Type 0 where
  pub is_associated : Bool
  pub bssid : Bytes
  pub associate_freq : ℕ

-- The constructor leaves `associate_freq_` uninitialised: any number.
unfoldable pub new_client : ℕ → Client
new_client freq = record { is_associated = false; bssid = []; associate_freq = freq }

-- The last associated result decides.
unfoldable pub refresh_loop : ℕ → List AssociationResult → ℕ
refresh_loop freq [] = freq
refresh_loop freq (r ∷ rs) = refresh_loop (if r.associated then r.frequency else freq) rs

-- It returns false on every path; the callers do not look at the result.
unfoldable pub refresh_associate_freq : Option (List AssociationResult) → Client → Client × Bool
unfolding refresh_loop
refresh_associate_freq none c = (c, false)
refresh_associate_freq (some scan_results) c =
    (record c { associate_freq = refresh_loop c.associate_freq scan_results }, false)

-- The successful half of the handlers: mark, refresh the frequency, keep the address.
associate : Option (List AssociationResult) → Bytes → Client → Client
unfolding refresh_associate_freq
associate scan bssid c =
    let (c', done) = refresh_associate_freq scan (record c { is_associated = true }) in
    record c' { bssid = bssid }

dissociate : Client → Client
dissociate c = record c { is_associated = false; bssid = [] }

unfoldable pub on_connect : Option (List AssociationResult) → ConnectEvent → Client → Client
unfolding associate dissociate
on_connect scan event c =
    if not event.is_timeout && event.status_code == 0
    then associate scan event.common.bssid c
    else dissociate c

unfoldable pub on_associate : Option (List AssociationResult) → ConnectEvent → Client → Client
unfolding associate dissociate
on_associate scan event c =
    if not event.is_timeout && event.status_code == 0
    then associate scan event.common.bssid c
    else dissociate c

unfoldable pub on_roam : Option (List AssociationResult) → CommonFields → Client → Client
unfolding associate
on_roam scan event c = associate scan event.bssid c

unfoldable pub on_disconnect : CommonFields → Client → Client
unfolding dissociate
on_disconnect event c = dissociate c

unfoldable pub on_disassociate : CommonFields → Client → Client
unfolding dissociate
on_disassociate event c = dissociate c

-- `StationInfo`; the signed counters and the RSSI are bit patterns.
pub record StationInfo : Type 0 where
  pub station_tx_packets : ℕ
  pub station_tx_failed : ℕ
  pub station_tx_bitrate : ℕ
  pub current_rssi : ℕ

-- `station` is what `GetStationInfo` returns for `bssid_`.
unfoldable pub get_packet_counters : (Bytes → Option StationInfo) → Client → Option (List ℕ)
get_packet_counters station c = elim (station c.bssid) [
  | none ↦ none
  | some info ↦ some (info.station_tx_packets ∷ info.station_tx_failed ∷ [])
]

unfoldable pub signal_poll : (Bytes → Option StationInfo) → Client → Option (List ℕ)
signal_poll station c = if not c.is_associated then none else elim (station c.bssid) [
  | none ↦ none
  | some info ↦
      some (sign_extend info.current_rssi ∷ info.station_tx_bitrate / 10 ∷ c.associate_freq ∷ [])
]

-- The calls of `SetMacAddress` on the interface tool, and what they answer.
pub data ToolCall : Type 0 where
  wifi_down wifi_up : ToolCall
  set_mac : Bytes → ToolCall

-- The calls made, in order, and whether the address was set.
unfoldable pub set_mac_address : (ToolCall → Bool) → Bytes → List ToolCall × Bool
set_mac_address tool mac =
    if not (length mac == 6)
    then ([], false)
    else if not (tool wifi_down)
    then (wifi_down ∷ [], false)
    else if not (tool (set_mac mac))
    then (wifi_down ∷ set_mac mac ∷ [], false)
    else if not (tool wifi_up)
    then (wifi_down ∷ set_mac mac ∷ wifi_up ∷ [], false)
    else (wifi_down ∷ set_mac mac ∷ wifi_up ∷ [], true)
