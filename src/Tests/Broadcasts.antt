-- ===== src/Tests/Broadcasts.antt =====
-- The theorems on broadcasts, at packets of interface 7, which a station handler is subscribed to.
use platform_system_connecti.Base.{ℕ, ◌≡◌, refl, false, none, [], ◌∷◌, length, ok, arith}
use platform_system_connecti.Wire.{Bytes, read_le}
use platform_system_connecti.Packet.{headers, new_packet, get_command, get_message_type}
use platform_system_connecti.Packet.Contents.{packet_build}
use platform_system_connecti.Broadcast.{
  mlme_connect, reg_domain_changed, Subscriptions, broadcast_handler,
}
use platform_system_connecti.Broadcast.Delivery.{connect_broadcast-build, reg_change_missing}
use platform_system_connecti.Tests.Attributes.{mac, attrs, attrs_fit}

abbrev subscriptions : Subscriptions
subscriptions = record {
  on_scan_result_ready = [];
  on_sched_scan_result_ready = [];
  on_mlme_event = 7 ∷ [];
  on_reg_domain_changed = 0 ∷ [];
  on_station_event = 4 ∷ 7 ∷ [];
  on_channel_switch_event = [];
}

abbrev bare : ℕ → Bytes
bare command = new_packet 28 command 0 0

bare-length : (command : ℕ) → length (bare command) ≡ headers
unfolding new_packet
bare-length command = refl

typed : (command : ℕ) → get_message_type (bare command) ≡ 28
unfolding new_packet get_message_type read_le
typed command = refl

connect_broadcast-build_example :
    broadcast_handler 0 28 subscriptions (packet_build (bare 46) attrs)
    ≡ ok (
        mlme_connect 7 (record {
          common = record { interface_index = 7; bssid = mac };
          status_code = 0;
          is_timeout = false;
        })
        ∷ [])
unfolding new_packet get_command read_le
connect_broadcast-build_example =
    connect_broadcast-build (bare 46) (bare-length 46) attrs attrs_fit 7 (omega arith) refl 0 28
      subscriptions none (typed 46) refl refl tt

reg_change_missing_example :
    (broadcast_handler 1 28 subscriptions (packet_build (bare 36) attrs)
      ≡ ok (reg_domain_changed 0 [] ∷ []))
    × (broadcast_handler 255 28 subscriptions (packet_build (bare 36) attrs) ≡ ok [])
unfolding new_packet get_command read_le
reg_change_missing_example =
    reg_change_missing (bare 36) attrs 28 subscriptions (bare-length 36) attrs_fit (typed 36) refl
      refl
