-- ===== src/SplitDump.antt =====
-- net/netlink_utils.cpp: `MergePacketsForSplitWiphyDump`, and `GetWiphyInfo`, which calls it.
pub mod Joining
pub mod Merged
pub mod Output
pub mod Reading
use platform_system_connecti.Base.{
  ℕ, Bool, true, false, not, ◌&&◌, Option, none, some, List, [], ◌∷◌, ◌==◌, if◌then◌else◌, Outcome,
  ok, fail, ◌>>=◌, attempt, or_else, find, put, number_key,
}
use platform_system_connecti.Wire.{Bytes}
use platform_system_connecti.Nl80211.{cmd_new_wiphy, attr_wiphy, attr_ifindex, attr_wdev}
use platform_system_connecti.Nl80211.Replies.{cmd_get_wiphy, attr_split_wiphy_dump}
use platform_system_connecti.Attribute.{int_attr, get_attribute_id, merge}
use platform_system_connecti.Packet.{
  nlm_f_dump, new_packet, add_flag, packet_add_attribute, packet_add_flag_attribute, packet_get_int,
  get_all_attributes,
}
use platform_system_connecti.Wiphy.{WiphyInfo, find_wiphy_info}
use platform_system_connecti.NetlinkUtils.{Link, request}

-- `map<int, BaseNL80211Attr>`, and `attr_by_wiphy_and_id`.
abbrev pub AttributeMap : Type 0
AttributeMap = List (ℕ × Bytes)

abbrev pub WiphyMap : Type 0
WiphyMap = List (ℕ × AttributeMap)

-- `operator[]` makes an empty map where there is none.
abbrev pub or_empty {ℓ} : {A : Type ℓ} → Option (List A) → List A
or_empty none = []
or_empty (some m) = m

abbrev pub is_merged : ℕ → Bool
is_merged id = not (id == attr_wiphy) && not (id == attr_ifindex) && not (id == attr_wdev)

-- A first attribute is inserted; a later one is merged, and the result of `Merge` is not looked at.
unfoldable pub insert_or_merge : ℕ → Bytes → Option Bytes → AttributeMap → Outcome AttributeMap
insert_or_merge id attribute none m = ok (put id attribute m)
insert_or_merge id attribute (some old) m = do
  merged ← attempt (merge old attribute)
  ok (elim merged [ none ↦ m | some new ↦ put id new m ])

unfoldable pub add_to_wiphy : ℕ → ℕ → Bytes → WiphyMap → Outcome WiphyMap
unfolding insert_or_merge
add_to_wiphy wiphy_index id attribute s = do
  let m = or_empty (find wiphy_index s)
  m1 ← insert_or_merge id attribute (find id m) m
  ok (put wiphy_index m1 s)

-- The loop over the attributes of a packet.
unfoldable pub add_attributes : ℕ → List Bytes → WiphyMap → Outcome WiphyMap
unfolding add_to_wiphy
add_attributes wiphy_index [] s = ok s
add_attributes wiphy_index (attribute ∷ attributes) s = do
  let id = get_attribute_id attribute
  s1 ← if is_merged id then add_to_wiphy wiphy_index id attribute s else ok s
  add_attributes wiphy_index attributes s1

-- The loop over the packets.
unfoldable pub add_packets : List Bytes → WiphyMap → Outcome WiphyMap
unfolding add_attributes
add_packets [] s = ok s
add_packets (packet ∷ packets) s = do
  wiphy_index ← packet_get_int 4 packet attr_wiphy
  attributes ← get_all_attributes packet
  s1 ← add_attributes wiphy_index attributes s
  add_packets packets s1

unfoldable pub add_all : Bytes → AttributeMap → Bytes
add_all packet [] = packet
add_all packet ((id, attribute) ∷ m) = add_all (packet_add_attribute packet attribute) m

unfoldable pub new_wiphy : ℕ → AttributeMap → Bytes
unfolding add_all
new_wiphy wiphy_index m =
    add_all
      (packet_add_attribute (new_packet 0 cmd_new_wiphy 0 0) (int_attr 4 attr_wiphy wiphy_index)) m

unfoldable pub output_packets : WiphyMap → List Bytes
unfolding new_wiphy
output_packets [] = []
output_packets ((wiphy_index, m) ∷ s) = new_wiphy wiphy_index m ∷ output_packets s

unfoldable pub merge_packets_for_split_wiphy_dump : List Bytes → Outcome (List Bytes)
unfolding add_packets output_packets
merge_packets_for_split_wiphy_dump split_dump_info = do
  s ← add_packets split_dump_info []
  ok (output_packets s)

-- `GetWiphyInfo`, by `supports_split_wiphy_dump_`.
unfoldable pub get_wiphy_info_request : Bool → Link → ℕ → Bytes
get_wiphy_info_request split l wiphy_index =
    let get_wiphy =
      packet_add_attribute (request l cmd_get_wiphy) (int_attr 4 attr_wiphy wiphy_index) in
    if split
    then add_flag (packet_add_flag_attribute get_wiphy attr_split_wiphy_dump) nlm_f_dump
    else get_wiphy

-- Where merging fails there are no packets to look at.
unfoldable pub packet_per_wiphy : Bool → List Bytes → Outcome (List Bytes)
unfolding merge_packets_for_split_wiphy_dump
packet_per_wiphy true response = or_else (merge_packets_for_split_wiphy_dump response) (ok [])
packet_per_wiphy false response = ok response

unfoldable pub get_wiphy_info : Bool → Link → ℕ → Outcome WiphyInfo
unfolding get_wiphy_info_request packet_per_wiphy
get_wiphy_info split l wiphy_index =
    elim (l.responses (get_wiphy_info_request split l wiphy_index)) [
      | none ↦ fail
      | some response ↦ do
        packets ← packet_per_wiphy split response
        find_wiphy_info wiphy_index packets
    ]
