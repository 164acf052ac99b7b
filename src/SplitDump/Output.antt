-- ===== src/SplitDump/Output.antt =====
-- The packets that merging a split dump gives.
use platform_system_connecti.Base.{
  ℕ, ◌<◌, ◌≡◌, refl, ◌∙◌, ap, sym, Option, none, some, List, [], ◌∷◌, ◌^◌, map, find, number_key,
  length, ok,
}
use platform_system_connecti.Wire.{Bytes, le_bytes}
use platform_system_connecti.Nl80211.{attr_wiphy, cmd_new_wiphy}
use platform_system_connecti.Attribute.{base_attr}
use platform_system_connecti.Attribute.Layout.{base_attr_lem, int_attr_lem}
use platform_system_connecti.Attribute.Search.{Attrs, lookup, AllFit}
use platform_system_connecti.Packet.{headers, new_packet, packet_add_attribute}
use platform_system_connecti.Packet.Contents.{packet_build, packet_get_int-build, stored}
use platform_system_connecti.Packet.AllAttributes.{get_all_attributes-build}
use platform_system_connecti.SplitDump.{
  add_packets, add_all, new_wiphy, output_packets, merge_packets_for_split_wiphy_dump,
}
use platform_system_connecti.SplitDump.Joining.{
  Piece, Table, payload_at, add_pieces, collected, payload_at-add_pieces, behind,
}
use platform_system_connecti.SplitDump.Merged.{
  attributes_of, map_of, AllJoinsFit, pieces_of, add_attributes-map_of,
}

-- A packet of the dump: its two headers, the index of its wiphy, and its attributes.
pub record Part : Type 0 where
  pub header : Bytes
  pub wiphy : ℕ
  pub attributes : Attrs

unfoldable pub packet_of : Part → Bytes
packet_of p = packet_build p.header p.attributes

pub record IsPart (p : Part) : Type 0 where
  pub bare : length p.header ≡ headers
  pub fit : AllFit p.attributes
  pub indexed : lookup attr_wiphy p.attributes ≡ stored 4 (some p.wiphy)
  pub in_range : p.wiphy < 2 ^ 32

abbrev pub AllParts : List Part → Type 0
AllParts [] = Unit {0}
AllParts (p ∷ parts) = IsPart p × AllParts parts

unfoldable pub all_pieces : List Part → List Piece
all_pieces [] = []
all_pieces (p ∷ parts) = pieces_of p.wiphy p.attributes (all_pieces parts)

add_packets-map_of :
    (parts : List Part) (t : Table)
    → AllParts parts
    → AllJoinsFit (all_pieces parts) t
    → add_packets (map packet_of parts) (map_of t) ≡ ok (map_of (add_pieces (all_pieces parts) t))
unfolding add_packets packet_of all_pieces add_pieces
add_packets-map_of [] t all joins = refl
add_packets-map_of (p ∷ parts) t (h, all) joins =
    let (u, done, same, later) =
      add_attributes-map_of p.wiphy p.attributes (all_pieces parts) t h.fit joins in
    rw
      (
        packet_get_int-build p.header h.bare p.attributes h.fit 4 attr_wiphy (some p.wiphy)
            h.indexed h.in_range,
        get_all_attributes-build p.header p.attributes h.bare h.fit,
        done,
        same,
      )
      (add_packets-map_of parts u all later)

-- The packet of a wiphy: the index, and its payloads under their ids.
unfoldable pub merged_packet : ℕ × Attrs → Bytes
merged_packet (w, m) =
    packet_build (new_packet 0 cmd_new_wiphy 0 0) ((attr_wiphy, le_bytes 4 w) ∷ m)

add_all-build : (d : Bytes) (m : Attrs) → add_all d (attributes_of m) ≡ packet_build d m
unfolding add_all attributes_of packet_build
add_all-build d [] = refl
add_all-build d ((i, p) ∷ m) = add_all-build (packet_add_attribute d (base_attr i p)) m

new_wiphy-build : (w : ℕ) (m : Attrs) → new_wiphy w (attributes_of m) ≡ merged_packet (w, m)
unfolding new_wiphy merged_packet packet_build
new_wiphy-build w m =
    rw (int_attr_lem 4 attr_wiphy w ∙ sym (base_attr_lem attr_wiphy (le_bytes 4 w)))
      (add_all-build _ m)

output-map_of : (t : Table) → output_packets (map_of t) ≡ map merged_packet t
unfolding output_packets map_of
output-map_of [] = refl
output-map_of ((w, m) ∷ t) =
    rw (new_wiphy-build w m) (ap (◌∷◌ (merged_packet (w, m))) (output-map_of t))

behind-none : (o : Option Bytes) → behind none o ≡ o
behind-none none = refl
behind-none (some p) = refl

unfoldable pub merged : List Part → Table
merged parts = add_pieces (all_pieces parts) []

pub payload_at-merged :
    (parts : List Part) (w i : ℕ) → payload_at w i (merged parts) ≡ collected w i (all_pieces parts)
unfolding merged payload_at find
payload_at-merged parts w i =
    payload_at-add_pieces w i (all_pieces parts) [] ∙ behind-none (collected w i (all_pieces parts))

-- The parts of a split dump, packets of two headers filled with attributes that fit, each with the
-- index of its wiphy, where every payload that attributes are merged to on the way fits an attribute:
-- merging gives one packet for each wiphy that has an attribute to merge, built of its index and its
-- merged attributes. For every wiphy and id, the merged payload is the payloads that the dump has for
-- them, one after the other in the order of the dump, but for the wiphy index, the interface index
-- and the WDEV.
pub merge_packets-merged :
    (parts : List Part)
    → AllParts parts
    → AllJoinsFit (all_pieces parts) []
    → (merge_packets_for_split_wiphy_dump (map packet_of parts)
        ≡ ok (map merged_packet (merged parts)))
      × ((w i : ℕ) → payload_at w i (merged parts) ≡ collected w i (all_pieces parts))
unfolding merge_packets_for_split_wiphy_dump merged map_of
merge_packets-merged parts all joins =
    let done : add_packets (map packet_of parts) [] ≡ ok (map_of (merged parts)) =
      add_packets-map_of parts [] all joins in
    (rw done (ap ok (output-map_of (merged parts))), payload_at-merged parts)
