-- ===== src/NetlinkUtils/Stations.antt =====
-- `GetStationInfo` on a reply that was filled, and what a client interface tells of it.
use platform_system_connecti.Base.{ℕ, ◌<◌, ◌≡◌, ◌^◌, some, length, ok, true, ◌==◌, arith, sym}
use platform_system_connecti.Wire.{Bytes}
use platform_system_connecti.Nl80211.{cmd_new_station}
use platform_system_connecti.Nl80211.Replies.{
  attr_sta_info, sta_info_tx_packets, sta_info_tx_failed, sta_info_signal, sta_info_tx_bitrate,
  rate_info_bitrate32,
}
use platform_system_connecti.Attribute.{base_attr, get_int}
use platform_system_connecti.Attribute.Nested.{build-nested}
use platform_system_connecti.Attribute.Search.{Attrs, encode, lookup, AllFit}
use platform_system_connecti.Attribute.Reading.{get_int-build}
use platform_system_connecti.Attribute.Fields.{get_attribute-stored}
use platform_system_connecti.Packet.{headers, get_command}
use platform_system_connecti.Packet.Contents.{packet_build, stored, get_command-build}
use platform_system_connecti.Packet.Fields.{packet_get_attribute-stored}
use platform_system_connecti.Client.{StationInfo}
use platform_system_connecti.NetlinkUtils.{parse_station_info}

get_int-nested :
    (w id i n : ℕ) (attrs : Attrs)
    → AllFit attrs
    → lookup i attrs ≡ stored w (some n)
    → n < 256 ^ w
    → get_int w (base_attr id (encode attrs)) i ≡ ok n
get_int-nested w id i n attrs fit e small =
    rw (sym (build-nested id attrs)) (get_int-build w id i n attrs fit small e)

-- A NEW_STATION packet of two headers, filled with attributes that fit, whose station attribute holds
-- the four numbers in their widths, the bit rate in an attribute of its own, gives these numbers.
pub parse_station_info-build :
    (d : Bytes) (attrs station rate : Attrs) (info : StationInfo)
    → length d ≡ headers
    → get_command d ≡ cmd_new_station
    → AllFit attrs
    → AllFit station
    → AllFit rate
    → lookup attr_sta_info attrs ≡ some (encode station)
    → lookup sta_info_tx_packets station ≡ stored 4 (some info.station_tx_packets)
    → lookup sta_info_tx_failed station ≡ stored 4 (some info.station_tx_failed)
    → lookup sta_info_signal station ≡ stored 1 (some info.current_rssi)
    → lookup sta_info_tx_bitrate station ≡ some (encode rate)
    → lookup rate_info_bitrate32 rate ≡ stored 4 (some info.station_tx_bitrate)
    → (info.station_tx_packets < 2 ^ 32)
      × (info.station_tx_failed < 2 ^ 32)
      × (info.current_rssi < 2 ^ 8)
      × (info.station_tx_bitrate < 2 ^ 32)
    → parse_station_info (packet_build d attrs) ≡ ok info
unfolding parse_station_info
parse_station_info-build d attrs station rate info bare c fit sfit rfit e a b f g h (i, j, k, m) =
    let same : (get_command (packet_build d attrs) == cmd_new_station) ≡ true =
      rw (get_command-build d attrs (omega arith), c) in
    rw (
      same,
      packet_get_attribute-stored d bare attrs fit attr_sta_info,
      e,
      get_int-nested 4 attr_sta_info sta_info_tx_packets info.station_tx_packets station sfit a i,
      get_int-nested 4 attr_sta_info sta_info_tx_failed info.station_tx_failed station sfit b j,
      get_int-nested 1 attr_sta_info sta_info_signal info.current_rssi station sfit f k,
      get_attribute-stored attr_sta_info station sfit sta_info_tx_bitrate,
      g,
      get_int-nested 4 sta_info_tx_bitrate rate_info_bitrate32 info.station_tx_bitrate rate rfit h
          m,
    )
