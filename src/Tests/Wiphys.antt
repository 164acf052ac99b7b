-- ===== src/Tests/Wiphys.antt =====
-- The theorems on what a wiphy tells, at the replies of one device.
use platform_system_connecti.SplitDump.Reading.{merge_packets-read, Among}
use platform_system_connecti.Nl80211.{attr_wiphy}
use platform_system_connecti.Base.{
  ℕ, ◌≡◌, refl, none, some, List, [], ◌∷◌, map, length, ok, arith, digit, ◌==◌, find, put,
  number_key, true,
}
use platform_system_connecti.Wire.{Bytes, le_bytes, le_value, nla_align}
use platform_system_connecti.Attribute.{base_attr}
use platform_system_connecti.Attribute.Search.{Attrs, encode}
use platform_system_connecti.Attribute.Reading.{payload_as}
use platform_system_connecti.Packet.{headers, new_packet, packet_get_raw, packet_get_int}
use platform_system_connecti.Packet.Contents.{packet_build}
use platform_system_connecti.Wiphy.{parse_band_info, wiphy_features, parse_scan_capabilities}
use platform_system_connecti.Wiphy.Frequencies.{select, is_2g, is_5g, is_dfs}
use platform_system_connecti.Wiphy.Bands.{
  Band, nested, band_entries, all_frequencies, parse_band_info-build,
}
use platform_system_connecti.Wiphy.Features.{wiphy_features-digits}
use platform_system_connecti.Wiphy.Capabilities.{capabilities_of, parse_scan_capabilities-build}
use platform_system_connecti.SplitDump.{merge_packets_for_split_wiphy_dump, is_merged}
use platform_system_connecti.SplitDump.Joining.{collected, payload_at, add_pieces}
use platform_system_connecti.SplitDump.Merged.{AllJoinsFit, pieces_of}
use platform_system_connecti.SplitDump.Output.{
  Part, AllParts, packet_of, all_pieces, merged, merged_packet, merge_packets-merged,
}

-- A NEW_WIPHY reply before it is filled.
abbrev reply : Bytes
reply = new_packet 28 3 1 0

reply_bare : length reply ≡ headers
unfolding new_packet
reply_bare = refl

-- A band with 2412 MHz, and 5500 MHz with the DFS state that is usable.
abbrev freqs : List (ℕ × Attrs)
freqs = (0, (1, le_bytes 4 2412) ∷ []) ∷ (1, (1, le_bytes 4 5500) ∷ (7, le_bytes 4 0) ∷ []) ∷ []

abbrev bands : List Band
bands =
    record { number = 0; attributes = (1, encode (nested freqs)) ∷ []; frequencies = some freqs }
    ∷ []

abbrev wiphy_attrs : Attrs
wiphy_attrs = (22, encode (band_entries bands)) ∷ []

parse_band_info-build_example :
    parse_band_info (packet_build reply wiphy_attrs)
    ≡ ok (
        let all = all_frequencies bands in
        record {
          band_2g = select is_2g all;
          band_5g = select is_5g all;
          band_dfs = select is_dfs all;
        })
unfolding encode base_attr nla_align nested band_entries
parse_band_info-build_example =
    parse_band_info-build reply wiphy_attrs bands reply_bare (omega arith, omega arith, tt) refl
      (omega arith, omega arith, tt)
      (
        record {
          fit = (omega arith, omega arith, tt);
          listed = refl;
          frequencies_fit = (
            (omega arith, omega arith, (omega arith, omega arith, tt)),
            (
              (omega arith, omega arith, tt),
              ((omega arith, omega arith, (omega arith, omega arith, tt)), tt),
            ),
          );
        },
        tt,
      )

wiphy_features-digits_example : wiphy_features 536870912 (0 ∷ 0 ∷ 64 ∷ []) ≡ record {
  supports_random_mac_oneshot_scan = digit 29 536870912 == 1;
  supports_random_mac_sched_scan = digit 30 536870912 == 1;
  supports_low_span_oneshot_scan = digit 22 (le_value (0 ∷ 0 ∷ 64 ∷ [])) == 1;
  supports_low_power_oneshot_scan = digit 23 (le_value (0 ∷ 0 ∷ 64 ∷ [])) == 1;
  supports_high_accuracy_oneshot_scan = digit 24 (le_value (0 ∷ 0 ∷ 64 ∷ [])) == 1;
}
wiphy_features-digits_example =
    wiphy_features-digits 536870912 (0 ∷ 0 ∷ 64 ∷ [])
      (omega arith, (omega arith, (omega arith, tt)))

abbrev limits : Attrs
limits = (43, le_bytes 1 4) ∷ (123, le_bytes 1 10) ∷ (133, le_bytes 1 16) ∷ (222, le_bytes 4 2) ∷ []

parse_scan_capabilities-build_example :
    parse_scan_capabilities (packet_build reply limits)
    ≡ capabilities_of (some 4) (some 10) (some 16) (some 2) none none
parse_scan_capabilities-build_example =
    parse_scan_capabilities-build reply limits (some 4) (some 10) (some 16) (some 2) none none
      reply_bare
      (
        omega arith,
        omega arith,
        (omega arith, omega arith, (omega arith, omega arith, (omega arith, omega arith, tt))),
      )
      refl refl refl refl refl refl (omega arith, omega arith, omega arith) (omega arith, tt, tt)

-- A dump of wiphy 0 in two packets, whose attribute 9 comes in two pieces.
abbrev parts : List Part
parts =
    record { header = reply; wiphy = 0; attributes = (1, le_bytes 4 0) ∷ (9, 1 ∷ 2 ∷ []) ∷ [] }
    ∷ record { header = reply; wiphy = 0; attributes = (1, le_bytes 4 0) ∷ (9, 3 ∷ []) ∷ [] }
    ∷ []

parts_all : AllParts parts
parts_all = (
  record {
    bare = reply_bare;
    fit = (omega arith, omega arith, (omega arith, omega arith, tt));
    indexed = refl;
    in_range = omega arith;
  },
  (
    record {
      bare = reply_bare;
      fit = (omega arith, omega arith, (omega arith, omega arith, tt));
      indexed = refl;
      in_range = omega arith;
    },
    tt,
  ),
)

parts_fit : AllJoinsFit (all_pieces parts) []
unfolding AllJoinsFit all_pieces pieces_of add_pieces payload_at find put
parts_fit = (tt, (omega arith, tt))

merge_packets-merged_example :
    (merge_packets_for_split_wiphy_dump (map packet_of parts)
      ≡ ok (map merged_packet (merged parts)))
    × ((w i : ℕ) → payload_at w i (merged parts) ≡ collected w i (all_pieces parts))
merge_packets-merged_example = merge_packets-merged parts parts_all parts_fit

parts-merged : find 0 (merged parts) ≡ some ((9, 1 ∷ 2 ∷ 3 ∷ []) ∷ [])
unfolding merged all_pieces pieces_of add_pieces payload_at find put
parts-merged = refl

merge_packets-read_example :
    (packets : List Bytes) × (q : Bytes) × (merge_packets_for_split_wiphy_dump (map packet_of parts)
      ≡ ok packets)
    × Among q packets
    × (packet_get_int 4 q attr_wiphy ≡ ok 0)
    × ((i : ℕ)
        → is_merged i ≡ true
        → packet_get_raw q i ≡ payload_as (collected 0 i (all_pieces parts)))
merge_packets-read_example =
    merge_packets-read parts 0 ((9, 1 ∷ 2 ∷ 3 ∷ []) ∷ []) parts_all parts_fit parts-merged
      (omega arith) (omega arith, omega arith, (omega arith, omega arith, tt))
