-- ===== src/Tests/Packets.antt =====
-- The theorems on packets and MLME events, at a CONNECT packet of interface 7.
use platform_system_connecti.Base.{◌≡◌, refl, false, none, [], ◌∷◌, length, ok, arith}
use platform_system_connecti.Wire.{Bytes, le_bytes}
use platform_system_connecti.Attribute.{base_attr}
use platform_system_connecti.Packet.{headers, new_packet, get_all_attributes, get_command}
use platform_system_connecti.Packet.Contents.{packet_build}
use platform_system_connecti.Packet.AllAttributes.{get_all_attributes-build}
use platform_system_connecti.Wire.{read_le}
use platform_system_connecti.Mlme.{CommonFields, connect_event}
use platform_system_connecti.Mlme.Decode.{connect_event-build}
use platform_system_connecti.Tests.Attributes.{mac, attrs, attrs_fit}

abbrev bare : Bytes
bare = new_packet 28 46 9 100

bare-length : length bare ≡ headers
unfolding new_packet
bare-length = refl

bare_command : get_command bare ≡ 46
unfolding new_packet get_command read_le
bare_command = refl

get_all_attributes-build_example :
    get_all_attributes (packet_build bare attrs)
    ≡ ok (base_attr 3 (le_bytes 4 7) ∷ base_attr 6 mac ∷ [])
get_all_attributes-build_example = get_all_attributes-build bare attrs bare-length attrs_fit

abbrev common : CommonFields
common = record { interface_index = 7; bssid = mac }

connect_event-build_example :
    connect_event (packet_build bare attrs)
    ≡ ok (record { common = common; status_code = 0; is_timeout = false })
connect_event-build_example =
    connect_event-build bare bare-length attrs attrs_fit 7 (omega arith) refl none bare_command refl
      tt
