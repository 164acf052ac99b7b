-- ===== src/Netlink/Family.antt =====
-- net/netlink_manager.cpp: the start of the manager. It finds the netlink family of nl80211 with its
-- multicast groups, and joins three of them. What the sockets answer is an argument.
use platform_system_connecti.Base.{
  ℕ, Bool, true, false, not, Option, none, some, List, [], ◌∷◌, ◌++◌, ◌==◌, if◌then◌else◌, Outcome,
  ok, ◌>>=◌, ◌>>◌, guard, attempt, find, put, text_key,
}
use platform_system_connecti.Wire.{Bytes}
use platform_system_connecti.Attribute.{
  get_int, get_string, get_list_of_nested_attributes, string_attr,
}
use platform_system_connecti.Packet.{
  get_message_type, get_command, new_packet, packet_add_attribute, packet_get_int,
  packet_get_string, packet_get_attribute,
}
use platform_system_connecti.Netlink.Requests.{single_response}

-- linux/genetlink.h.
abbrev pub genl_id_ctrl : ℕ
genl_id_ctrl = 16

abbrev pub ctrl_cmd_newfamily : ℕ
ctrl_cmd_newfamily = 1

abbrev pub ctrl_cmd_getfamily : ℕ
ctrl_cmd_getfamily = 3

abbrev pub ctrl_attr_family_id : ℕ
ctrl_attr_family_id = 1

abbrev pub ctrl_attr_family_name : ℕ
ctrl_attr_family_name = 2

abbrev pub ctrl_attr_mcast_groups : ℕ
ctrl_attr_mcast_groups = 7

abbrev pub ctrl_attr_mcast_grp_name : ℕ
ctrl_attr_mcast_grp_name = 1

abbrev pub ctrl_attr_mcast_grp_id : ℕ
ctrl_attr_mcast_grp_id = 2

-- "nl80211", "regulatory", "scan" and "mlme".
abbrev pub genl_name : Bytes
genl_name = 110 ∷ 108 ∷ 56 ∷ 48 ∷ 50 ∷ 49 ∷ 49 ∷ []

abbrev pub multicast_group_reg : Bytes
multicast_group_reg = 114 ∷ 101 ∷ 103 ∷ 117 ∷ 108 ∷ 97 ∷ 116 ∷ 111 ∷ 114 ∷ 121 ∷ []

abbrev pub multicast_group_scan : Bytes
multicast_group_scan = 115 ∷ 99 ∷ 97 ∷ 110 ∷ []

abbrev pub multicast_group_mlme : Bytes
multicast_group_mlme = 109 ∷ 108 ∷ 109 ∷ 101 ∷ []

pub record MessageType : Type 0 where
  pub family_id : ℕ
  pub groups : List (Bytes × ℕ)

abbrev pub MessageTypes : Type 0
MessageTypes = List (Bytes × MessageType)

-- A group: its name and its id. One that lacks either is skipped.
unfoldable pub group_of : Bytes → Outcome (Bytes × ℕ)
group_of group = do
  group_name ← get_string group ctrl_attr_mcast_grp_name
  group_id ← get_int 4 group ctrl_attr_mcast_grp_id
  ok (group_name, group_id)

abbrev pub put_group : Option (Bytes × ℕ) → List (Bytes × ℕ) → List (Bytes × ℕ)
put_group none groups = groups
put_group (some (name, id)) groups = put name id groups

unfoldable pub add_groups : List Bytes → List (Bytes × ℕ) → Outcome (List (Bytes × ℕ))
unfolding group_of
add_groups [] groups = ok groups
add_groups (a ∷ attributes) groups = do
  group ← attempt (group_of a)
  add_groups attributes (put_group group groups)

-- The multicast groups of a packet. Without the attribute, or with a broken list, there are none.
abbrev pub groups_in : Option (List Bytes) → Outcome (List (Bytes × ℕ))
groups_in none = ok []
groups_in (some attributes) = add_groups attributes []

-- What `OnNewFamily` reads before it writes; any family is stored, whatever its name.
unfoldable pub family_of : Bytes → Outcome (Bytes × ℕ)
family_of packet = do
  guard (get_message_type packet == genl_id_ctrl)
  guard (get_command packet == ctrl_cmd_newfamily)
  family_id ← packet_get_int 2 packet ctrl_attr_family_id
  family_name ← packet_get_string packet ctrl_attr_family_name
  ok (family_name, family_id)

unfoldable pub store_family : Option (Bytes × ℕ) → Bytes → MessageTypes → Outcome MessageTypes
unfolding add_groups
store_family none packet types = ok types
store_family (some (name, id)) packet types = do
  listed ←
      attempt (packet_get_attribute packet ctrl_attr_mcast_groups >>= get_list_of_nested_attributes)
  groups ← groups_in listed
  ok (put name (record { family_id = id; groups = groups }) types)

unfoldable pub on_new_family : Bytes → MessageTypes → Outcome MessageTypes
unfolding family_of store_family
on_new_family packet types = do
  family ← attempt (family_of packet)
  store_family family packet types

unfoldable pub get_family_request : ℕ → ℕ → Bytes
get_family_request sequence pid =
    packet_add_attribute (new_packet genl_id_ctrl ctrl_cmd_getfamily sequence pid)
      (string_attr ctrl_attr_family_name genl_name)

abbrev pub is_known : Option MessageType → Bool
is_known none = false
is_known (some t) = true

-- On the response of the request: the types behind it, and whether the family is known then.
unfoldable pub discover_family_id :
    Option (List Bytes) → MessageTypes → Outcome (MessageTypes × Bool)
unfolding on_new_family
discover_family_id response types = do
  packet ← attempt (single_response response)
  elim packet [
    | none ↦ ok (types, false)
    | some p ↦ do types1 ← on_new_family p types; ok (types1, is_known (find genl_name types1))
  ]

-- The calls that the start makes of the system, and the rest of the manager's state.
pub data SystemCall : Type 0 where
  setup_sync_socket setup_async_socket watch_socket : SystemCall
  add_membership : ℕ → SystemCall

pub record Manager : Type 0 where
  pub started : Bool
  pub message_types : MessageTypes
  pub calls : List SystemCall

-- A call that is recorded, and ends the start where it fails.
abbrev pub make : (SystemCall → Bool) → SystemCall → Manager → Manager × Bool
make answer c m = (record m { calls = m.calls ++ (c ∷ []) }, answer c)

-- The next step, where the last one succeeded.
abbrev pub and_then : Manager × Bool → (Manager → Manager × Bool) → Manager × Bool
and_then (m, true) next = next m
and_then (m, false) next = (m, false)

abbrev pub group_id : Bytes → Option MessageType → Option ℕ
group_id group none = none
group_id group (some t) = find group t.groups

abbrev pub join : (SystemCall → Bool) → Option ℕ → Manager → Manager × Bool
join answer none m = (m, false)
join answer (some id) m = make answer (add_membership id) m

unfoldable pub subscribe_to_events : (SystemCall → Bool) → Bytes → Manager → Manager × Bool
subscribe_to_events answer group m = join answer (group_id group (find genl_name m.message_types)) m

-- The steps of `Start` behind the discovery.
unfoldable pub watch_and_join : (SystemCall → Bool) → Manager → Manager × Bool
unfolding subscribe_to_events
watch_and_join answer m =
    let watched = make answer watch_socket m in
    let reg = and_then watched (subscribe_to_events answer multicast_group_reg) in
    let scan = and_then reg (subscribe_to_events answer multicast_group_scan) in
    let mlme = and_then scan (subscribe_to_events answer multicast_group_mlme) in
    and_then mlme (λ m. (record m { started = true }, true))

unfoldable pub start :
    (SystemCall → Bool) → Option (List Bytes) → Manager → Outcome (Manager × Bool)
unfolding discover_family_id watch_and_join
start answer response m =
    let sockets = and_then (make answer setup_sync_socket m) (make answer setup_async_socket) in
    if m.started then ok (m, true) else if not sockets.1 then ok (sockets.0, false) else do
      (types, found) ← discover_family_id response sockets.0.message_types
      let m1 = record sockets.0 { message_types = types }
      ok (if found then watch_and_join answer m1 else (m1, false))
