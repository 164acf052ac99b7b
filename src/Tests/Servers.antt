-- ===== src/Tests/Servers.antt =====
-- The theorems on the server, at two interfaces of the kernel.
use platform_system_connecti.Base.{
  inl, inr, put, some, if◌then◌else◌, true, ◌==◌, some, ◌≡◌, refl, not, [], ◌∷◌, ok, text_key, find,
  same_text,
}
use platform_system_connecti.Wire.{read_le, nla_type, nla_len, nla_align, Bytes}
use platform_system_connecti.NetlinkUtils.{
  get_interfaces, wiphy_index_loop, wiphy_index_of, check_reply, get_wiphy_index_request,
  interfaces_loop, interface_of, get_interfaces_request, Link, get_wiphy_index, InterfaceInfo,
}
use platform_system_connecti.Packet.{
  packet_get_string, packet_get_raw, get_command, add_flag, packet_get_int, packet_get_attribute,
  get_message_type, new_packet, packet_add_attribute, set_message_length, set_message_type,
  set_flags, set_message_sequence, set_port_id, set_command, get_flags, get_message_length,
}
use platform_system_connecti.Attribute.{
  get_int, get_attribute, get_attribute_impl, search_behind, find_valid, int_get_value, is_valid,
  int_is_valid, int_attr, init_header_and_resize, base_attr, string_attr, get_string, get_raw,
  raw_get_value, payload_in_range, string_get_value, trimmed_length,
}
use platform_system_connecti.Broadcast.{Subscriptions}
use platform_system_connecti.Server.{
  client_ready, create_client_interface, setup_interface, refresh_wiphy_index, Server, new_server,
  register_callback, add_client,
}
use platform_system_connecti.Server.Interfaces.{
  find_named, choose_interface, Choice, choose_interface-Choice,
}
use platform_system_connecti.Server.Shared.{choose_interface-shared}
use platform_system_connecti.Server.Usable.{Barred}
use platform_system_connecti.Server.Lifecycle.{
  ApKept, ClientKept, held, subscriptions_after_ap, subscriptions_after_client,
  subscriptions_after_ap-kept, subscriptions_after_client-kept,
}
use platform_system_connecti.Server.Registry.{created, registry, Allowed, Request, no_reply}
use platform_system_connecti.Server.Refinement.{
  creates_client, registers_callback, run_call, starts, goes_on, run_call-Allowed, Asks,
}

-- "p2p0" and "wlan0".
abbrev peer : InterfaceInfo
peer = record { index = 3; name = 112 ∷ 50 ∷ 112 ∷ 48 ∷ []; mac_address = [] }

abbrev wlan0 : Bytes
wlan0 = 119 ∷ 108 ∷ 97 ∷ 110 ∷ 48 ∷ []

abbrev station : InterfaceInfo
station = record { index = 7; name = wlan0; mac_address = 1 ∷ [] }

choose_interface-Choice_example :
    Choice wlan0 (peer ∷ station ∷ []) (choose_interface wlan0 (peer ∷ station ∷ []))
choose_interface-Choice_example = choose_interface-Choice wlan0 (peer ∷ station ∷ [])

abbrev busy : Server
busy = record {
  wiphy_index = 0;
  interfaces = peer ∷ station ∷ [];
  interface_event_callbacks = 5 ∷ 6 ∷ [];
  ap_interfaces = (wlan0, record { binder = 1; info = station }) ∷ [];
  client_interfaces = (wlan0, record { binder = 0; info = station }) ∷ [];
  reg_domain_handlers = 0 ∷ [];
  next_binder = 2;
  events = [];
}

-- "a" and "b" are no names of the kernel's, and "p2p0" is not usable.
not-Barred : ¬ Barred wlan0
not-Barred (inl e) = absurd (cc)
not-Barred (inr (rest, e)) = absurd (cc)

choose_interface-shared_example :
    let t = (add_client (97 ∷ []) (choose_interface (97 ∷ []) (peer ∷ station ∷ [])) busy).0 in
    let u = (add_client (98 ∷ []) (choose_interface (98 ∷ []) (peer ∷ station ∷ [])) t).0 in
    (find (97 ∷ []) u.client_interfaces ≡ some (record { binder = 2; info = station }))
    × (find (98 ∷ []) u.client_interfaces ≡ some (record { binder = 3; info = station }))
unfolding same_text
choose_interface-shared_example =
    choose_interface-shared (97 ∷ []) (98 ∷ []) (peer ∷ []) [] station busy (refl, (refl, tt))
      (refl, (refl, tt)) (inl refl, tt) not-Barred refl

abbrev nobody : Subscriptions
nobody = record {
  on_scan_result_ready = [];
  on_sched_scan_result_ready = [];
  on_mlme_event = [];
  on_reg_domain_changed = [];
  on_station_event = [];
  on_channel_switch_event = [];
}

subscriptions_after_ap-kept_example :
    ApKept 7
      (not (held (find wlan0 busy.ap_interfaces) 7))
      (subscriptions_after_ap wlan0 station busy nobody)
subscriptions_after_ap-kept_example = subscriptions_after_ap-kept wlan0 station busy nobody

subscriptions_after_client-kept_example :
    ClientKept 7
      (not (held (find wlan0 busy.client_interfaces) 7))
      (subscriptions_after_client wlan0 station busy nobody)
subscriptions_after_client-kept_example = subscriptions_after_client-kept wlan0 station busy nobody

abbrev registered : Server
registered = register_callback 5 (new_server 0)

first_call : run_call (registers_callback 5) (new_server 0) ≡ ok (registered, no_reply)
unfolding run_call
first_call = refl

-- A kernel with wiphy 0 and the interface "wlan0".
abbrev wiphy_reply : Bytes
wiphy_reply = packet_add_attribute (new_packet 28 3 1 2) (int_attr 4 1 0)

abbrev interface_reply : Bytes
interface_reply =
    packet_add_attribute
      (packet_add_attribute (packet_add_attribute (new_packet 28 7 1 2) (int_attr 4 3 7))
        (string_attr 4 wlan0))
      (base_attr 6 (1 ∷ []))

abbrev kernel : Link
kernel = record {
  family_id = 28;
  sequence = 1;
  pid = 2;
  responses = λ p. some ((if get_command p == 1 then wiphy_reply else interface_reply) ∷ []);
}

gives_wiphy : get_wiphy_index kernel 0 ≡ ok (0, true)
unfolding get_wiphy_index wiphy_index_loop wiphy_index_of check_reply get_wiphy_index_request
    add_flag get_command packet_get_int packet_get_attribute get_int get_attribute
    get_attribute_impl search_behind find_valid int_get_value is_valid int_is_valid get_message_type
    new_packet packet_add_attribute int_attr set_message_length set_message_type set_flags
    set_message_sequence set_port_id set_command init_header_and_resize get_flags base_attr
    nla_align get_message_length read_le nla_type nla_len
gives_wiphy = refl

gives_interface : get_interfaces kernel 0 ≡ ok (station ∷ [], true)
unfolding get_interfaces interfaces_loop interface_of check_reply get_interfaces_request add_flag
    get_command packet_get_int packet_get_attribute get_int get_attribute get_attribute_impl
    search_behind find_valid int_get_value is_valid int_is_valid get_message_type new_packet
    packet_add_attribute int_attr set_message_length set_message_type set_flags set_message_sequence
    set_port_id set_command init_header_and_resize get_flags base_attr nla_align get_message_length
    packet_get_string packet_get_raw string_attr get_string get_raw raw_get_value payload_in_range
    string_get_value trimmed_length nla_type nla_len
gives_interface = refl

-- The server behind the call: it has the object 0 for "wlan0".
abbrev with_client : Server
with_client = record registered {
  interfaces = station ∷ [];
  client_interfaces = (wlan0, record { binder = 0; info = station }) ∷ [];
  reg_domain_handlers = 0 ∷ [];
  next_binder = 1;
  events = client_ready 5 0 ∷ [];
}

creates_one : run_call (creates_client kernel wlan0) registered ≡ ok (with_client, created (some 0))
unfolding run_call create_client_interface setup_interface refresh_wiphy_index add_client new_server
    register_callback put choose_interface find_named same_text find
creates_one = rw gives_wiphy (rw gives_interface refl)

run_call-Allowed_example :
    (q : Request) × Asks (creates_client kernel wlan0) registered q
    × Allowed q (registry registered) (registry with_client) (created (some 0))
run_call-Allowed_example =
    run_call-Allowed (creates_client kernel wlan0) registered with_client (created (some 0))
      (goes_on (registers_callback 5) (starts 0) first_call) creates_one
