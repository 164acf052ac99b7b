-- ===== src/NetlinkUtils.antt =====
-- net/netlink_utils.cpp: the requests about wiphys, interfaces and stations, and the reading of their
-- replies. `Link` is the netlink manager as these functions see it.
pub mod Stations
pub mod Interfaces
use platform_system_connecti.Base.{
  ℕ, Bool, false, not, Option, none, some, List, [], ◌∷◌, ◌++◌, bit_and, ◌==◌, Outcome, ok, fail,
  ◌>>=◌, ◌>>◌, guard, attempt, true,
}
use platform_system_connecti.Wire.{Bytes}
use platform_system_connecti.Nl80211.{
  cmd_new_wiphy, cmd_new_station, attr_wiphy, attr_ifindex, attr_mac, attr_reg_alpha2,
}
use platform_system_connecti.Nl80211.Replies.{
  cmd_get_wiphy, cmd_get_interface, cmd_set_interface, cmd_new_interface, cmd_get_station,
  cmd_get_reg, cmd_get_protocol_features, attr_ifname, attr_iftype, attr_sta_info,
  attr_protocol_features, iftype_station, protocol_feature_split_wiphy_dump, sta_info_tx_packets,
  sta_info_tx_failed, sta_info_signal, sta_info_tx_bitrate, rate_info_bitrate32,
}
use platform_system_connecti.Attribute.{base_attr, int_attr, get_attribute, get_int}
use platform_system_connecti.Packet.{
  nlmsg_error, nlm_f_dump, nlm_f_ack, get_message_type, get_command, new_packet, add_flag,
  packet_add_attribute, packet_get_int, packet_get_raw, packet_get_string, packet_get_attribute,
}
use platform_system_connecti.Netlink.Requests.{single_response, ack}
use platform_system_connecti.Client.{StationInfo}

-- The family id, the next sequence number, the process id, and what `SendMessageAndGetResponses`
-- returns for a request: none where it fails.
pub record Link : Type 0 where
  pub family_id : ℕ
  pub sequence : ℕ
  pub pid : ℕ
  pub responses : Bytes → Option (List Bytes)

abbrev pub request : Link → ℕ → Bytes
request l command = new_packet l.family_id command l.sequence l.pid

pub record InterfaceInfo : Type 0 where
  pub index : ℕ
  pub name : Bytes
  pub mac_address : Bytes

-- The tests on each message of a dump.
unfoldable pub check_reply : Link → ℕ → Bytes → Outcome (Unit {0})
check_reply l command packet = do
  guard (not (get_message_type packet == nlmsg_error))
  guard (get_message_type packet == l.family_id)
  guard (get_command packet == command)

unfoldable pub wiphy_index_of : Link → Bytes → Outcome ℕ
unfolding check_reply
wiphy_index_of l packet = do check_reply l cmd_new_wiphy packet; packet_get_int 4 packet attr_wiphy

-- The loop of `GetWiphyIndex`: every packet writes the caller's variable, up to one that is refused.
-- The result is what the variable holds, and whether all packets were accepted.
unfoldable pub wiphy_index_loop : Link → ℕ → List Bytes → Outcome (ℕ × Bool)
unfolding wiphy_index_of
wiphy_index_loop l index [] = ok (index, true)
wiphy_index_loop l index (packet ∷ response) = do
  found ← attempt (wiphy_index_of l packet)
  elim found [ none ↦ ok (index, false) | some i ↦ wiphy_index_loop l i response ]

unfoldable pub get_wiphy_index_request : Link → Bytes
get_wiphy_index_request l = add_flag (request l cmd_get_wiphy) nlm_f_dump

-- From what the caller's variable holds.
unfoldable pub get_wiphy_index : Link → ℕ → Outcome (ℕ × Bool)
unfolding wiphy_index_loop get_wiphy_index_request
get_wiphy_index l before = elim (l.responses (get_wiphy_index_request l)) [
  | none ↦ ok (before, false)
  | some [] ↦ ok (before, false)
  | some (packet ∷ response) ↦ wiphy_index_loop l before (packet ∷ response)
]

-- An interface with its index, name and address; a pseudo interface lacks one and is skipped.
unfoldable pub interface_of : Bytes → Outcome InterfaceInfo
interface_of packet = do
  if_index ← packet_get_int 4 packet attr_ifindex
  if_name ← packet_get_string packet attr_ifname
  if_mac_addr ← packet_get_raw packet attr_mac
  ok (record { index = if_index; name = if_name; mac_address = if_mac_addr })

abbrev pub push : Option InterfaceInfo → List InterfaceInfo → List InterfaceInfo
push none infos = infos
push (some i) infos = infos ++ (i ∷ [])

-- The loop of `GetInterfaces`, from the list it has, up to a packet that is refused. The result is the
-- list, and whether all packets were accepted.
unfoldable pub interfaces_loop :
    Link → List InterfaceInfo → List Bytes → Outcome (List InterfaceInfo × Bool)
unfolding check_reply interface_of
interfaces_loop l infos [] = ok (infos, true)
interfaces_loop l infos (packet ∷ response) = do
  accepted ← attempt (check_reply l cmd_new_interface packet)
  elim accepted [
    | none ↦ ok (infos, false)
    | some done ↦ do
      found ← attempt (interface_of packet)
      interfaces_loop l (push found infos) response
  ]

unfoldable pub get_interfaces_request : Link → ℕ → Bytes
get_interfaces_request l wiphy_index =
    packet_add_attribute (add_flag (request l cmd_get_interface) nlm_f_dump)
      (int_attr 4 attr_wiphy wiphy_index)

unfoldable pub get_interfaces : Link → ℕ → Outcome (List InterfaceInfo × Bool)
unfolding interfaces_loop get_interfaces_request
get_interfaces l wiphy_index = elim (l.responses (get_interfaces_request l wiphy_index)) [
  | none ↦ ok ([], false)
  | some [] ↦ ok ([], false)
  | some (packet ∷ response) ↦ interfaces_loop l [] (packet ∷ response)
]

-- The one mode there is, and a value outside the enumeration.
pub data InterfaceMode : Type 0 where
  station_mode other_mode : InterfaceMode

unfoldable pub set_interface_mode_request : Link → ℕ → Bytes
set_interface_mode_request l interface_index =
    packet_add_attribute
      (packet_add_attribute (add_flag (request l cmd_set_interface) nlm_f_ack)
        (int_attr 4 attr_ifindex interface_index))
      (int_attr 4 attr_iftype iftype_station)

unfoldable pub set_interface_mode : Link → ℕ → InterfaceMode → Outcome (Unit {0})
unfolding set_interface_mode_request
set_interface_mode l interface_index other_mode = fail
set_interface_mode l interface_index station_mode =
    ack (l.responses (set_interface_mode_request l interface_index))

unfoldable pub get_protocol_features : Link → Outcome ℕ
get_protocol_features l = do
  response ← single_response (l.responses (request l cmd_get_protocol_features))
  packet_get_int 4 response attr_protocol_features

abbrev pub splits : Option ℕ → Bool
splits none = false
splits (some features) = not (bit_and features protocol_feature_split_wiphy_dump == 0)

-- What the constructor stores in `supports_split_wiphy_dump_`.
unfoldable pub supports_split_wiphy_dump : Link → Outcome Bool
unfolding get_protocol_features
supports_split_wiphy_dump l = do features ← attempt (get_protocol_features l); ok (splits features)

unfoldable pub get_country_code : Link → Outcome Bytes
get_country_code l = do
  response ← single_response (l.responses (request l cmd_get_reg))
  packet_get_string response attr_reg_alpha2

unfoldable pub parse_station_info : Bytes → Outcome StationInfo
parse_station_info response = do
  guard (get_command response == cmd_new_station)
  sta_info ← packet_get_attribute response attr_sta_info
  tx_good ← get_int 4 sta_info sta_info_tx_packets
  tx_bad ← get_int 4 sta_info sta_info_tx_failed
  rssi ← get_int 1 sta_info sta_info_signal
  tx_bitrate_attr ← get_attribute sta_info sta_info_tx_bitrate
  tx_bitrate ← get_int 4 tx_bitrate_attr rate_info_bitrate32
  ok (record {
    station_tx_packets = tx_good;
    station_tx_failed = tx_bad;
    station_tx_bitrate = tx_bitrate;
    current_rssi = rssi;
  })

unfoldable pub get_station_info_request : Link → ℕ → Bytes → Bytes
get_station_info_request l interface_index mac_address =
    packet_add_attribute
      (packet_add_attribute (request l cmd_get_station) (int_attr 4 attr_ifindex interface_index))
      (base_attr attr_mac mac_address)

unfoldable pub get_station_info : Link → ℕ → Bytes → Outcome StationInfo
unfolding parse_station_info get_station_info_request
get_station_info l interface_index mac_address = do
  response ← single_response (l.responses (get_station_info_request l interface_index mac_address))
  parse_station_info response
