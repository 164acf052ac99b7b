-- ===== src/Server.antt =====
-- server.cpp: the interfaces that the daemon has made, and the callbacks that are told of them. A
-- binder object is a number: the callbacks' as the callers have them, those of the interfaces in the
-- order in which they are made.
pub mod Interfaces
pub mod Registry
pub mod Offers
pub mod Callbacks
pub mod Usable
pub mod Shared
pub mod Channels
pub mod TornDown
pub mod Lifecycle
pub mod Refinement
use platform_system_connecti.Base.{
  ℕ, suc, ◌+◌, Bool, true, false, not, ◌&&◌, Option, none, some, List, [], ◌∷◌, ◌++◌, map, ◌==◌,
  if◌then◌else◌, Outcome, ok, fail, ◌>>=◌, attempt, same_text, text_key, find, put, remove,
}
use platform_system_connecti.Wire.{Bytes}
use platform_system_connecti.Netlink.{has_handler, erase}
use platform_system_connecti.NetlinkUtils.{Link, InterfaceInfo, get_wiphy_index, get_interfaces}
use platform_system_connecti.Wiphy.{BandInfo, WiphyInfo}
use platform_system_connecti.SplitDump.{get_wiphy_info}
use platform_system_connecti.Server.Interfaces.{choose_interface}

-- What a callback is told of an interface, the interface that is taken down, in order.
pub data Event : Type 0 where
  ap_ready ap_torn_down client_ready client_torn_down : ℕ → ℕ → Event
  interface_down : Bytes → Event

-- An `ApInterfaceImpl` or `ClientInterfaceImpl`: its binder object, and the kernel's interface.
pub record Interface : Type 0 where
  pub binder : ℕ
  pub info : InterfaceInfo

pub record Server : Type 0 where
  pub wiphy_index : ℕ
  pub interfaces : List InterfaceInfo
  pub interface_event_callbacks : List ℕ
  pub ap_interfaces : List (Bytes × Interface)
  pub client_interfaces : List (Bytes × Interface)
  pub reg_domain_handlers : List ℕ
  pub next_binder : ℕ
  pub events : List Event

unfoldable pub new_server : ℕ → Server
new_server unset = record {
  wiphy_index = unset;
  interfaces = [];
  interface_event_callbacks = [];
  ap_interfaces = [];
  client_interfaces = [];
  reg_domain_handlers = [];
  next_binder = 0;
  events = [];
}

unfoldable pub register_callback : ℕ → Server → Server
register_callback c s =
    if has_handler c s.interface_event_callbacks
    then s
    else record s { interface_event_callbacks = s.interface_event_callbacks ++ (c ∷ []) }

-- The first entry that is the callback goes.
unfoldable pub erase_first : ℕ → List ℕ → List ℕ
erase_first c [] = []
erase_first c (k ∷ ks) = let rest = erase_first c ks in if c == k then ks else k ∷ rest

unfoldable pub unregister_callback : ℕ → Server → Server
unfolding erase_first
unregister_callback c s = record s {
  interface_event_callbacks = erase_first c s.interface_event_callbacks;
}

-- The four `Broadcast…` functions.
abbrev pub broadcast : (ℕ → Event) → Server → Server
broadcast event s = record s { events = s.events ++ map event s.interface_event_callbacks }

unfoldable pub refresh_wiphy_index : Link → Server → Outcome (Server × Bool)
refresh_wiphy_index l s = do
  (index, success) ← get_wiphy_index l s.wiphy_index
  ok (record s { wiphy_index = index }, success)

-- `on_reg_domain_changed_handler_[wiphy_index] = …`, by its keys.
abbrev pub subscribe_reg_domain_change : Server → Server
subscribe_reg_domain_change s =
    if has_handler s.wiphy_index s.reg_domain_handlers
    then s
    else record s { reg_domain_handlers = s.wiphy_index ∷ s.reg_domain_handlers }

abbrev pub chosen : Bytes → Bool → List InterfaceInfo → Option InterfaceInfo
chosen name success infos = if success then choose_interface name infos else none

unfoldable pub setup_interface : Link → Bytes → Server → Outcome (Server × Option InterfaceInfo)
unfolding refresh_wiphy_index choose_interface
setup_interface l iface_name s = do
  (s1, success) ← refresh_wiphy_index l s
  if not success then ok (s1, none) else do
    let s2 = subscribe_reg_domain_change s1
    (infos, listed) ← get_interfaces l s2.wiphy_index
    ok (record s2 { interfaces = infos }, chosen iface_name listed infos)

-- What the destructors of interface objects do to the kernel: each takes its interface down.
abbrev pub downs : List (Bytes × Interface) → List Event
downs [] = []
downs ((name, i) ∷ rest) = interface_down i.info.name ∷ downs rest

abbrev pub down : Option Interface → List Event
down none = []
down (some i) = interface_down i.info.name ∷ []

-- The rest of the `create` functions: what the caller gets is the binder object, none if there is no
-- interface. The object whose map entry is assigned to is destroyed.
unfoldable pub add_ap : Bytes → Option InterfaceInfo → Server → Server × Option ℕ
add_ap iface_name none s = (s, none)
add_ap iface_name (some i) s =
    let b = s.next_binder in
    let s1 = broadcast (λ c. ap_ready c b) s in
    (
      record s1 {
        next_binder = suc b;
        events = s1.events ++ down (find iface_name s.ap_interfaces);
        ap_interfaces = put iface_name (record { binder = b; info = i }) s.ap_interfaces;
      },
      some b,
    )

unfoldable pub add_client : Bytes → Option InterfaceInfo → Server → Server × Option ℕ
add_client iface_name none s = (s, none)
add_client iface_name (some i) s =
    let b = s.next_binder in
    let s1 = broadcast (λ c. client_ready c b) s in
    (
      record s1 {
        next_binder = suc b;
        events = s1.events ++ down (find iface_name s.client_interfaces);
        client_interfaces = put iface_name (record { binder = b; info = i }) s.client_interfaces;
      },
      some b,
    )

unfoldable pub create_ap_interface : Link → Bytes → Server → Outcome (Server × Option ℕ)
unfolding setup_interface add_ap
create_ap_interface l iface_name s = do
  (s1, interface) ← setup_interface l iface_name s
  ok (add_ap iface_name interface s1)

unfoldable pub create_client_interface : Link → Bytes → Server → Outcome (Server × Option ℕ)
unfolding setup_interface add_client
create_client_interface l iface_name s = do
  (s1, interface) ← setup_interface l iface_name s
  ok (add_client iface_name interface s1)

unfoldable pub tear_down_ap_interface : Bytes → Server → Server × Bool
tear_down_ap_interface iface_name s = elim (find iface_name s.ap_interfaces) [
  | none ↦ (s, false)
  | some i ↦
      let s1 = broadcast (λ c. ap_torn_down c i.binder) s in
      (
        record s1 {
          ap_interfaces = remove iface_name s.ap_interfaces;
          events = s1.events ++ down (some i);
        },
        true,
      )
]

unfoldable pub tear_down_client_interface : Bytes → Server → Server × Bool
tear_down_client_interface iface_name s = elim (find iface_name s.client_interfaces) [
  | none ↦ (s, false)
  | some i ↦
      let s1 = broadcast (λ c. client_torn_down c i.binder) s in
      (
        record s1 {
          client_interfaces = remove iface_name s.client_interfaces;
          events = s1.events ++ down (some i);
        },
        true,
      )
]

-- The loops of `tearDownInterfaces`.
unfoldable pub tell_clients_torn_down : List (Bytes × Interface) → Server → Server
tell_clients_torn_down [] s = s
tell_clients_torn_down ((name, i) ∷ rest) s =
    tell_clients_torn_down rest (broadcast (λ c. client_torn_down c i.binder) s)

unfoldable pub tell_aps_torn_down : List (Bytes × Interface) → Server → Server
tell_aps_torn_down [] s = s
tell_aps_torn_down ((name, i) ∷ rest) s =
    tell_aps_torn_down rest (broadcast (λ c. ap_torn_down c i.binder) s)

abbrev pub down_events : Bool → List InterfaceInfo → List Event
down_events success infos =
    if success then map (λ (i : InterfaceInfo). interface_down i.name) infos else []

-- `MarkDownAllInterfaces`, with variables of its own; `unset` is what its index holds at first.
unfoldable pub mark_down_all_interfaces : Link → ℕ → Server → Outcome Server
mark_down_all_interfaces l unset s = do
  (wiphy_index, success) ← get_wiphy_index l unset
  if not success then ok s else do
    (infos, listed) ← get_interfaces l wiphy_index
    ok (record s { events = s.events ++ down_events listed infos })

-- `cleared` is the order in which `clear` of a map destroys its entries, which `std::map` leaves open.
abbrev pub Clearing : Type 0
Clearing = List (Bytes × Interface) → List (Bytes × Interface)

unfoldable pub forget_all : Clearing → Server → Server
unfolding tell_clients_torn_down tell_aps_torn_down
forget_all cleared s =
    let s1 = tell_clients_torn_down s.client_interfaces s in
    let s2 = record s1 {
      client_interfaces = [];
      events = s1.events ++ downs (cleared s1.client_interfaces);
    } in
    let s3 = tell_aps_torn_down s2.ap_interfaces s2 in
    record s3 { ap_interfaces = []; events = s3.events ++ downs (cleared s3.ap_interfaces) }

unfoldable pub tear_down_interfaces : Clearing → Link → ℕ → Server → Outcome Server
unfolding forget_all mark_down_all_interfaces
tear_down_interfaces cleared l unset s = do
  s1 ← mark_down_all_interfaces l unset (forget_all cleared s)
  ok (record s1 { reg_domain_handlers = erase s1.wiphy_index s1.reg_domain_handlers })

abbrev pub binders : List (Bytes × Interface) → List ℕ
binders [] = []
binders ((name, i) ∷ rest) = i.binder ∷ binders rest

unfoldable pub get_client_interfaces : Server → List ℕ
get_client_interfaces s = binders s.client_interfaces

unfoldable pub get_ap_interfaces : Server → List ℕ
get_ap_interfaces s = binders s.ap_interfaces
