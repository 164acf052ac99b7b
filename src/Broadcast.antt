-- ===== src/Broadcast.antt =====
-- net/netlink_manager.cpp: `BroadcastHandler` and the handlers that the rest of the daemon has
-- subscribed. A result is the list of calls that are made; `fail` is a return before any call.
pub mod Delivery
pub mod Subscribing
use platform_system_connecti.Base.{
  ℕ, Bool, true, false, not, ◌&&◌, ◌||◌, List, [], ◌∷◌, map, ◌==◌, if◌then◌else◌, Outcome, ok, fail,
  Option, none, some, ◌>>=◌, ◌>>◌, guard, attempt, or_else,
}
use platform_system_connecti.Wire.{Bytes}
use platform_system_connecti.Nl80211.{
  cmd_new_scan_results, cmd_scan_aborted, cmd_sched_scan_results, cmd_sched_scan_stopped,
  cmd_connect, cmd_associate, cmd_roam, cmd_disconnect, cmd_disassociate, cmd_reg_change,
  cmd_new_station, cmd_del_station, cmd_ch_switch_notify, attr_ifindex, attr_mac, attr_reg_type,
  attr_reg_alpha2, attr_scan_ssids, attr_scan_frequencies, attr_wiphy_freq, attr_channel_width,
  regdom_type_country, regdom_type_world, regdom_type_custom_world, regdom_type_intersection,
}
use platform_system_connecti.Attribute.{get_list_of_raw_values, get_list_of_int_values}
use platform_system_connecti.Packet.{
  get_message_type, get_command, packet_get_int, packet_get_raw, packet_get_string,
  packet_get_attribute,
}
use platform_system_connecti.Mlme.{
  CommonFields, ConnectEvent, connect_event, associate_event, roam_event, disconnect_event,
  disassociate_event,
}
use platform_system_connecti.Netlink.{has_handler}
use platform_system_connecti.Ap.{StationEvent, new_station, del_station}

pub data ChannelBandwidth : Type 0 where
  bw_invalid bw_20_noht bw_20 bw_40 bw_80 bw_80p80 bw_160 : ChannelBandwidth

-- The cases are the values of `enum nl80211_chan_width`, from 0.
unfoldable pub get_bandwidth_type : ℕ → ChannelBandwidth
get_bandwidth_type width =
    if width == 0
    then bw_20_noht
    else if width == 1
    then bw_20
    else if width == 2
    then bw_40
    else if width == 3
    then bw_80
    else if width == 4
    then bw_80p80
    else if width == 5
    then bw_160
    else bw_invalid

-- A call of a handler. The first number is the key it is subscribed under.
pub data Call : Type 0 where
  scan_results_ready : ℕ → Bool → List Bytes → List ℕ → Call
  sched_scan_results_ready : ℕ → Bool → Call
  mlme_connect mlme_associate : ℕ → ConnectEvent → Call
  mlme_roam mlme_disconnect mlme_disassociate : ℕ → CommonFields → Call
  reg_domain_changed : ℕ → Bytes → Call
  station : ℕ → StationEvent → Bytes → Call
  channel_switch : ℕ → ℕ → ChannelBandwidth → Call

-- The keys of the maps of handlers.
pub record Subscriptions : Type 0 where
  pub on_scan_result_ready : List ℕ
  pub on_sched_scan_result_ready : List ℕ
  pub on_mlme_event : List ℕ
  pub on_reg_domain_changed : List ℕ
  pub on_station_event : List ℕ
  pub on_channel_switch_event : List ℕ

-- A list that a packet may lack.
abbrev pub list_or_empty {ℓ} :
    {A : Type ℓ} → Outcome Bytes → (Bytes → Outcome (List A)) → Outcome (List A)
list_or_empty nested values =
    attempt nested >>= λ found. elim found [ none ↦ ok [] | some attribute ↦ values attribute ]

unfoldable pub scan_results_calls : Subscriptions → Bytes → Outcome (List Call)
scan_results_calls s packet = do
  if_index ← packet_get_int 4 packet attr_ifindex
  guard (has_handler if_index s.on_scan_result_ready)
  ssids ← list_or_empty (packet_get_attribute packet attr_scan_ssids) get_list_of_raw_values
  freqs ←
      list_or_empty (packet_get_attribute packet attr_scan_frequencies) (get_list_of_int_values 4)
  ok (scan_results_ready if_index (get_command packet == cmd_scan_aborted) ssids freqs ∷ [])

unfoldable pub sched_scan_calls : Subscriptions → Bytes → Outcome (List Call)
sched_scan_calls s packet = do
  if_index ← packet_get_int 4 packet attr_ifindex
  guard (has_handler if_index s.on_sched_scan_result_ready)
  ok (sched_scan_results_ready if_index (get_command packet == cmd_sched_scan_stopped) ∷ [])

abbrev pub one {ℓ} : {A : Type ℓ} → (A → Call) → Outcome A → Outcome (List Call)
one call event = event >>= λ e. ok (call e ∷ [])

unfoldable pub mlme_calls : Subscriptions → Bytes → Outcome (List Call)
mlme_calls s packet = do
  if_index ← packet_get_int 4 packet attr_ifindex
  guard (has_handler if_index s.on_mlme_event)
  let command = get_command packet
  if command == cmd_connect
      then one (mlme_connect if_index) (connect_event packet)
      else if command == cmd_associate
      then one (mlme_associate if_index) (associate_event packet)
      else if command == cmd_roam
      then one (mlme_roam if_index) (roam_event packet)
      else if command == cmd_disconnect
      then one (mlme_disconnect if_index) (disconnect_event packet)
      else if command == cmd_disassociate
      then one (mlme_disassociate if_index) (disassociate_event packet)
      else fail

-- A packet without a type leaves `reg_type` unset: `unset` is what the memory holds.
unfoldable pub reg_change_calls : ℕ → Subscriptions → Bytes → Outcome (List Call)
reg_change_calls unset s packet = do
  type ← or_else (packet_get_int 1 packet attr_reg_type) (ok unset)
  let is_world =
      (type == regdom_type_world)
      || (type == regdom_type_custom_world)
      || (type == regdom_type_intersection)
  country_code ←
      if type == regdom_type_country
      then packet_get_string packet attr_reg_alpha2
      else if is_world
      then ok []
      else fail
  ok (map (λ key. reg_domain_changed key country_code) s.on_reg_domain_changed)

unfoldable pub station_calls : Subscriptions → Bytes → Outcome (List Call)
station_calls s packet = do
  if_index ← packet_get_int 4 packet attr_ifindex
  guard (has_handler if_index s.on_station_event)
  mac_address ← packet_get_raw packet attr_mac
  let event = if get_command packet == cmd_new_station then new_station else del_station
  ok (station if_index event mac_address ∷ [])

unfoldable pub channel_switch_calls : Subscriptions → Bytes → Outcome (List Call)
channel_switch_calls s packet = do
  if_index ← packet_get_int 4 packet attr_ifindex
  frequency ← packet_get_int 4 packet attr_wiphy_freq
  bandwidth ← packet_get_int 4 packet attr_channel_width
  guard (has_handler if_index s.on_channel_switch_event)
  ok (channel_switch if_index frequency (get_bandwidth_type bandwidth) ∷ [])

-- The handler that `BroadcastHandler` chooses.
unfoldable pub calls_for : ℕ → Subscriptions → Bytes → Outcome (List Call)
calls_for unset s packet =
    let command = get_command packet in
    if (command == cmd_new_scan_results) || (command == cmd_scan_aborted)
    then scan_results_calls s packet
    else if (command == cmd_sched_scan_results) || (command == cmd_sched_scan_stopped)
    then sched_scan_calls s packet
    else if (command == cmd_connect)
        || (command == cmd_associate)
        || (command == cmd_roam)
        || (command == cmd_disconnect)
        || (command == cmd_disassociate)
    then mlme_calls s packet
    else if command == cmd_reg_change
    then reg_change_calls unset s packet
    else if (command == cmd_new_station) || (command == cmd_del_station)
    then station_calls s packet
    else if command == cmd_ch_switch_notify
    then channel_switch_calls s packet
    else fail

unfoldable pub broadcast_handler : ℕ → ℕ → Subscriptions → Bytes → Outcome (List Call)
broadcast_handler unset family_id s packet =
    if not (get_message_type packet == family_id)
    then ok []
    else or_else (calls_for unset s packet) (ok [])
