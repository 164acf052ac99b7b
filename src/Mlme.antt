-- ===== src/Mlme.antt =====
-- net/mlme_event.h and net/mlme_event.cpp. `InitFromPacket` returns a null pointer where the model
-- says `fail`. A disconnect or disassociate event keeps what a roam event keeps.
pub mod Decode
use platform_system_connecti.Base.{
  ℕ, Bool, true, false, not, Option, none, some, List, [], ◌==◌, if◌then◌else◌, Outcome, ok, fail,
  hang, fault, ◌>>=◌, attempt, or_else,
}
use platform_system_connecti.Wire.{Bytes}
use platform_system_connecti.Packet.{
  get_command, packet_get_int, packet_get_raw, packet_has_attribute,
}
use platform_system_connecti.Nl80211.{
  cmd_connect, cmd_associate, cmd_roam, cmd_disconnect, cmd_disassociate, attr_ifindex, attr_mac,
  attr_status_code, attr_timed_out,
}

pub record CommonFields : Type 0 where
  pub interface_index : ℕ
  pub bssid : Bytes

-- `MlmeConnectEvent` and `MlmeAssociateEvent`.
pub record ConnectEvent : Type 0 where
  pub common : CommonFields
  pub status_code : ℕ
  pub is_timeout : Bool

-- A missing MAC address leaves the address empty.
unfoldable pub get_common_fields : Bytes → Outcome CommonFields
get_common_fields packet = do
  if_index ← packet_get_int 4 packet attr_ifindex
  bssid ← or_else (packet_get_raw packet attr_mac) (ok [])
  ok (record { interface_index = if_index; bssid = bssid })

associate_fields : Bytes → Outcome ConnectEvent
associate_fields packet = do
  common ← get_common_fields packet
  timeout ← packet_has_attribute packet attr_timed_out
  ok (record { common = common; status_code = 0; is_timeout = timeout })

unfoldable pub associate_event : Bytes → Outcome ConnectEvent
unfolding associate_fields
associate_event packet =
    if not (get_command packet == cmd_associate) then fail else associate_fields packet

connect_fields : Bytes → Outcome ConnectEvent
connect_fields packet = do
  common ← get_common_fields packet
  status ← or_else (packet_get_int 2 packet attr_status_code) (ok 0)
  timeout ← packet_has_attribute packet attr_timed_out
  ok (record { common = common; status_code = status; is_timeout = timeout })

unfoldable pub connect_event : Bytes → Outcome ConnectEvent
unfolding connect_fields
connect_event packet =
    if not (get_command packet == cmd_connect) then fail else connect_fields packet

unfoldable pub roam_event : Bytes → Outcome CommonFields
roam_event packet = if not (get_command packet == cmd_roam) then fail else get_common_fields packet

unfoldable pub disconnect_event : Bytes → Outcome CommonFields
disconnect_event packet =
    if not (get_command packet == cmd_disconnect) then fail else get_common_fields packet

unfoldable pub disassociate_event : Bytes → Outcome CommonFields
disassociate_event packet =
    if not (get_command packet == cmd_disassociate) then fail else get_common_fields packet
