-- ===== src/SplitDump/Reading.antt =====
-- What is read from the packets that merging a split dump gives.
use platform_system_connecti.Base.{
  ℕ, ◌<◌, ◌≡◌, refl, ◌∙◌, ap, sym, true, false, some, List, [], ◌∷◌, ◌^◌, map, ◌==◌, if◌then◌else◌,
  arith, find, number_key, ok, ◌++◌, Bool-cases, inl, inr, ==_iff, some-injective,
}
use platform_system_connecti.Wire.{Bytes, le_bytes}
use platform_system_connecti.Nl80211.{attr_wiphy, cmd_new_wiphy}
use platform_system_connecti.Attribute.Search.{Attrs, lookup, AllFit}
use platform_system_connecti.Attribute.Reading.{payload_as}
use platform_system_connecti.Packet.{new_packet, packet_get_raw, packet_get_int}
use platform_system_connecti.Packet.Contents.{packet_get_int-build, packet_get_raw-build}
use platform_system_connecti.SplitDump.{is_merged, merge_packets_for_split_wiphy_dump}
use platform_system_connecti.SplitDump.Joining.{Table, payload_at, collected, ==_swap, behind}
use platform_system_connecti.SplitDump.Merged.{AllJoinsFit}
use platform_system_connecti.SplitDump.Output.{
  Part, AllParts, packet_of, all_pieces, merged, merged_packet, payload_at-merged,
  merge_packets-merged,
}

find-lookup : (i : ℕ) (m : Attrs) → find i m ≡ lookup i m
unfolding find
find-lookup i [] = refl
find-lookup i ((j, p) ∷ m) =
    rw (==_swap i j) (ap (λ r. if j == i then some p else r) (find-lookup i m))

not_index : (i : ℕ) → is_merged i ≡ true → (attr_wiphy == i) ≡ false
not_index i h = ground arith

find-payload_at :
    (w i : ℕ) (t : Table) (m : Attrs) → find w t ≡ some m → payload_at w i t ≡ find i m
unfolding payload_at
find-payload_at w i t m e = rw e

packet_get_raw-merged :
    (parts : List Part) (w i : ℕ) (m : Attrs)
    → find w (merged parts) ≡ some m
    → AllFit ((attr_wiphy, le_bytes 4 w) ∷ m)
    → is_merged i ≡ true
    → packet_get_raw (merged_packet (w, m)) i ≡ payload_as (collected w i (all_pieces parts))
unfolding merged_packet new_packet
packet_get_raw-merged parts w i m e fit h =
    let attrs : Attrs = (attr_wiphy, le_bytes 4 w) ∷ m in
    packet_get_raw-build (new_packet 0 cmd_new_wiphy 0 0) refl attrs fit i
    ∙ rw (not_index i h) (
        ap payload_as (
          sym (find-lookup i m)
          ∙ sym (find-payload_at w i (merged parts) m e)
          ∙ payload_at-merged parts w i))

index_read :
    (w : ℕ) (m : Attrs)
    → w < 2 ^ 32
    → AllFit ((attr_wiphy, le_bytes 4 w) ∷ m)
    → packet_get_int 4 (merged_packet (w, m)) attr_wiphy ≡ ok w
unfolding merged_packet new_packet
index_read w m small fit =
    packet_get_int-build (new_packet 0 cmd_new_wiphy 0 0) refl ((attr_wiphy, le_bytes 4 w) ∷ m) fit
      4 attr_wiphy (some w) refl small

-- A packet among packets, with those in front of it and behind it.
abbrev pub Among : Bytes → List Bytes → Type 0
Among q packets = (before : List Bytes) × (behind : List Bytes) × (packets ≡ before ++ (q ∷ behind))

Among-merged :
    (w : ℕ) (m : Attrs) (t : Table)
    → find w t ≡ some m
    → Among (merged_packet (w, m)) (map merged_packet t)
unfolding find
Among-merged w m [] e = absurd (cc)
Among-merged w m ((v, n) ∷ t) e = elim (Bool-cases (w == v)) [
  | inl same ↦
      let here : n ≡ m = some-injective n m (rw same at e) in
      let index : w ≡ v = (==_iff w v).0 same in ([], map merged_packet t, rw (here, index) refl)
  | inr other ↦
      let (before, behind, place) = Among-merged w m t (rw other at e) in
      (merged_packet (v, n) ∷ before, behind, ap (◌∷◌ (merged_packet (v, n))) place)
]

-- The parts of a split dump, as for the merging as a whole, and a wiphy whose merged attributes fit:
-- `MergePacketsForSplitWiphyDump` returns, and among the packets that it gives there is one in which a
-- reader finds the index of the wiphy, and under each id that is merged the payloads that the dump has
-- for the wiphy under that id, one after the other in the order of the dump, and nothing where it has
-- none.
pub merge_packets-read :
    (parts : List Part) (w : ℕ) (m : Attrs)
    → AllParts parts
    → AllJoinsFit (all_pieces parts) []
    → find w (merged parts) ≡ some m
    → w < 2 ^ 32
    → AllFit ((attr_wiphy, le_bytes 4 w) ∷ m)
    → (packets : List Bytes) × (q : Bytes) × (merge_packets_for_split_wiphy_dump
          (map packet_of parts)
        ≡ ok packets)
      × Among q packets
      × (packet_get_int 4 q attr_wiphy ≡ ok w)
      × ((i : ℕ)
          → is_merged i ≡ true
          → packet_get_raw q i ≡ payload_as (collected w i (all_pieces parts)))
merge_packets-read parts w m all joins e small fit = (
  map merged_packet (merged parts),
  merged_packet (w, m),
  (merge_packets-merged parts all joins).0,
  Among-merged w m (merged parts) e,
  index_read w m small fit,
  λ i h. packet_get_raw-merged parts w i m e fit h,
)
