-- ===== src/Server/Lifecycle.antt =====
-- ap_interface_impl.cpp, client_interface_impl.cpp and scanning/scanner_impl.cpp: what the constructors
-- and destructors of the interface objects subscribe to and unsubscribe from, and server.cpp: what that
-- comes to when an object is put into its map.
use platform_system_connecti.Scanner.Invalidating.{unsubscribe_scanner}
use platform_system_connecti.Base.{
  ℕ, ◌≡◌, ◌∙◌, Bool, true, false, not, Option, none, some, List, ◌==◌, text_key, find, ==_refl,
  arith,
}
use platform_system_connecti.Wire.{Bytes}
use platform_system_connecti.Netlink.{has_handler, erase}
use platform_system_connecti.NetlinkUtils.{InterfaceInfo}
use platform_system_connecti.Broadcast.{Subscriptions}
use platform_system_connecti.Broadcast.Subscribing.{
  set_key, subscribe_scan_result_notification, unsubscribe_scan_result_notification,
  subscribe_sched_scan_result_notification, unsubscribe_sched_scan_result_notification,
  subscribe_mlme_event, unsubscribe_mlme_event, subscribe_station_event, unsubscribe_station_event,
  subscribe_channel_switch_event, unsubscribe_channel_switch_event, has_handler-set_key,
  has_handler-erase,
}
use platform_system_connecti.Server.{Server, Interface}

unfoldable pub construct_ap : ℕ → Subscriptions → Subscriptions
unfolding subscribe_station_event subscribe_channel_switch_event
construct_ap index s = subscribe_channel_switch_event index (subscribe_station_event index s)

unfoldable pub destroy_ap : ℕ → Subscriptions → Subscriptions
unfolding unsubscribe_station_event unsubscribe_channel_switch_event
destroy_ap index s = unsubscribe_channel_switch_event index (unsubscribe_station_event index s)

-- `ScannerImpl::ScannerImpl`.
unfoldable pub construct_scanner : ℕ → Subscriptions → Subscriptions
unfolding subscribe_scan_result_notification subscribe_sched_scan_result_notification
construct_scanner index s =
    subscribe_sched_scan_result_notification index (subscribe_scan_result_notification index s)

unfoldable pub construct_client : ℕ → Subscriptions → Subscriptions
unfolding subscribe_mlme_event construct_scanner
construct_client index s = construct_scanner index (subscribe_mlme_event index s)

unfoldable pub destroy_client : ℕ → Subscriptions → Subscriptions
unfolding unsubscribe_mlme_event unsubscribe_scanner
destroy_client index s = unsubscribe_mlme_event index (unsubscribe_scanner index s)

-- The object that an assignment to a map entry destroys, if there was one.
abbrev pub destroyed :
    (ℕ → Subscriptions → Subscriptions) → Option Interface → Subscriptions → Subscriptions
destroyed destroy none s = s
destroyed destroy (some old) s = destroy old.info.index s

-- `createApInterface` and `createClientInterface` behind `SetupInterface`: the new object is made
-- first, and the old one of that name is destroyed when the new one takes its place.
unfoldable pub subscriptions_after_ap :
    Bytes → InterfaceInfo → Server → Subscriptions → Subscriptions
unfolding construct_ap destroy_ap
subscriptions_after_ap name i server s =
    destroyed destroy_ap (find name server.ap_interfaces) (construct_ap i.index s)

unfoldable pub subscriptions_after_client :
    Bytes → InterfaceInfo → Server → Subscriptions → Subscriptions
unfolding construct_client destroy_client
subscriptions_after_client name i server s =
    destroyed destroy_client (find name server.client_interfaces) (construct_client i.index s)

-- Whether the map holds an object of this name for this kernel interface.
abbrev pub held : Option Interface → ℕ → Bool
held none index = false
held (some old) index = old.info.index == index

just_set : (index : ℕ) (keys : List ℕ) → has_handler index (set_key index keys) ≡ true
just_set index keys = has_handler-set_key index index keys ∙ ground (arith, ==_refl index)

erased :
    (old index : ℕ) (keys : List ℕ)
    → has_handler index keys ≡ true
    → has_handler index (erase old keys) ≡ not (old == index)
erased old index keys h = has_handler-erase index old keys ∙ ground (arith, h)

-- The lists in which the new object's kernel interface stands, as a whole.
abbrev pub ApKept : ℕ → Bool → Subscriptions → Type 0
ApKept index b s =
    (has_handler index s.on_station_event ≡ b) × (has_handler index s.on_channel_switch_event ≡ b)

abbrev pub ClientKept : ℕ → Bool → Subscriptions → Type 0
ClientKept index b s =
    (has_handler index s.on_mlme_event ≡ b)
    × (has_handler index s.on_scan_result_ready ≡ b)
    × (has_handler index s.on_sched_scan_result_ready ≡ b)

ap_kept :
    (index : ℕ) (s : Subscriptions) (o : Option Interface)
    → ApKept index (not (held o index)) (destroyed destroy_ap o (construct_ap index s))
unfolding destroy_ap construct_ap subscribe_station_event subscribe_channel_switch_event
    unsubscribe_station_event unsubscribe_channel_switch_event
ap_kept index s none = (just_set index s.on_station_event, just_set index s.on_channel_switch_event)
ap_kept index s (some old) = (
  erased old.info.index index _ (just_set index s.on_station_event),
  erased old.info.index index _ (just_set index s.on_channel_switch_event),
)

client_kept :
    (index : ℕ) (s : Subscriptions) (o : Option Interface)
    → ClientKept index (not (held o index)) (destroyed destroy_client o (construct_client index s))
unfolding destroy_client construct_client construct_scanner unsubscribe_scanner subscribe_mlme_event
    unsubscribe_mlme_event subscribe_scan_result_notification unsubscribe_scan_result_notification
    subscribe_sched_scan_result_notification unsubscribe_sched_scan_result_notification
client_kept index s none = (
  just_set index s.on_mlme_event,
  just_set index s.on_scan_result_ready,
  just_set index s.on_sched_scan_result_ready,
)
client_kept index s (some old) = (
  erased old.info.index index _ (just_set index s.on_mlme_event),
  erased old.info.index index _ (just_set index s.on_scan_result_ready),
  erased old.info.index index _ (just_set index s.on_sched_scan_result_ready),
)

-- An access point that is made is subscribed to the station events and channel switches of its
-- kernel interface, unless the server already has one of that name for the same kernel interface:
-- then it is subscribed to neither.
pub subscriptions_after_ap-kept :
    (name : Bytes) (i : InterfaceInfo) (server : Server) (s : Subscriptions)
    → ApKept i.index
        (not (held (find name server.ap_interfaces) i.index))
        (subscriptions_after_ap name i server s)
unfolding subscriptions_after_ap
subscriptions_after_ap-kept name i server s = ap_kept i.index s (find name server.ap_interfaces)

-- A client interface that is made is subscribed to the MLME events and both kinds of scan results of
-- its kernel interface, unless the server already has one of that name for the same kernel
-- interface: then it is subscribed to none of them.
pub subscriptions_after_client-kept :
    (name : Bytes) (i : InterfaceInfo) (server : Server) (s : Subscriptions)
    → ClientKept i.index
        (not (held (find name server.client_interfaces) i.index))
        (subscriptions_after_client name i server s)
unfolding subscriptions_after_client
subscriptions_after_client-kept name i server s =
    client_kept i.index s (find name server.client_interfaces)
