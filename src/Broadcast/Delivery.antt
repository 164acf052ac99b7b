-- ===== src/Broadcast/Delivery.antt =====
-- What broadcasts that are laid out as the kernel sends them come to.
use platform_system_connecti.Base.{
  ℕ, ◌<◌, ◌^◌, ◌≡◌, refl, Bool, true, false, [], ◌∷◌, if◌then◌else◌, ok, Option, some, length, ◌>>◌,
  guard, or_else, ==_refl, arith, map, none,
}
use platform_system_connecti.Wire.{Bytes}
use platform_system_connecti.Nl80211.{
  cmd_new_station, cmd_del_station, cmd_connect, attr_ifindex, attr_mac, attr_status_code,
  attr_timed_out, cmd_reg_change, attr_reg_type, regdom_type_world,
}
use platform_system_connecti.Attribute.{is_found}
use platform_system_connecti.Attribute.Search.{Attrs, lookup, AllFit}
use platform_system_connecti.Packet.{headers, get_command, get_message_type}
use platform_system_connecti.Packet.Contents.{
  packet_build, packet_get_int-build, packet_get_raw-build, get_command-build, stored, InRange,
  get_message_type-build,
}
use platform_system_connecti.Mlme.Decode.{common_fields, connect_event-build, number_or}
use platform_system_connecti.Netlink.{has_handler}
use platform_system_connecti.Ap.{StationEvent, new_station, del_station}
use platform_system_connecti.Broadcast.{
  Call, station, mlme_connect, Subscriptions, station_calls, mlme_calls, calls_for,
  broadcast_handler, reg_domain_changed, reg_change_calls,
}

abbrev pub command_of : StationEvent → ℕ
command_of new_station = cmd_new_station
command_of del_station = cmd_del_station

module _ (d : Bytes) (bare : length d ≡ headers) (attrs : Attrs) (fit : AllFit attrs) (if_index : ℕ)
    (small : if_index < 2 ^ 32)
    (indexed : lookup attr_ifindex attrs ≡ stored 4 (some if_index)) where
  abbrev pub broadcast : Bytes
  broadcast = packet_build d attrs

  station_calls-build :
      (e : StationEvent) (s : Subscriptions) (mac : Bytes)
      → get_command d ≡ command_of e
      → lookup attr_mac attrs ≡ some mac
      → station_calls s broadcast
        ≡ (guard (has_handler if_index s.on_station_event) >> ok (station if_index e mac ∷ []))
  unfolding station_calls
  station_calls-build new_station s mac c a = rw (
    packet_get_int-build d bare attrs fit 4 attr_ifindex (some if_index) indexed small,
    packet_get_raw-build d bare attrs fit attr_mac,
    a,
    get_command-build d attrs (omega arith),
    c,
  )
  station_calls-build del_station s mac c a = rw (
    packet_get_int-build d bare attrs fit 4 attr_ifindex (some if_index) indexed small,
    packet_get_raw-build d bare attrs fit attr_mac,
    a,
    get_command-build d attrs (omega arith),
    c,
  )

  to_subscriber :
      (b : Bool) (c : Call)
      → or_else (guard b >> ok (c ∷ [])) (ok []) ≡ ok (if b then c ∷ [] else [])
  to_subscriber true c = refl
  to_subscriber false c = refl

  -- A station event of the nl80211 family, in a packet of two headers filled with attributes that
  -- fit, that names an interface and an address is told to the handler of that interface with the
  -- address, and to nobody if it has none.
  pub station_event-build :
      (e : StationEvent) (unset family_id : ℕ) (s : Subscriptions) (mac : Bytes)
      → get_message_type d ≡ family_id
      → get_command d ≡ command_of e
      → lookup attr_mac attrs ≡ some mac
      → broadcast_handler unset family_id s broadcast
        ≡ ok (if has_handler if_index s.on_station_event then station if_index e mac ∷ [] else [])
  unfolding broadcast_handler calls_for
  station_event-build new_station unset family_id s mac t c a =
      rw
        (
          get_message_type-build d attrs (omega arith),
          t,
          ==_refl family_id,
          get_command-build d attrs (omega arith),
          c,
          station_calls-build new_station s mac c a,
        )
        (to_subscriber (has_handler if_index s.on_station_event) (station if_index new_station mac))
  station_event-build del_station unset family_id s mac t c a =
      rw
        (
          get_message_type-build d attrs (omega arith),
          t,
          ==_refl family_id,
          get_command-build d attrs (omega arith),
          c,
          station_calls-build del_station s mac c a,
        )
        (to_subscriber (has_handler if_index s.on_station_event) (station if_index del_station mac))

  -- A CONNECT broadcast of the nl80211 family, in a packet of two headers filled with attributes
  -- that fit, an interface among them and a status code that fits if there is one, is told to the
  -- handler of that interface as the event it holds, and to nobody if it has none.
  pub connect_broadcast-build :
      (unset family_id : ℕ) (s : Subscriptions) (status : Option ℕ)
      → get_message_type d ≡ family_id
      → get_command d ≡ cmd_connect
      → lookup attr_status_code attrs ≡ stored 2 status
      → InRange 2 status
      → broadcast_handler unset family_id s broadcast
        ≡ ok (
            if has_handler if_index s.on_mlme_event
            then mlme_connect if_index (record {
              common = common_fields d bare attrs fit if_index small indexed;
              status_code = number_or status 0;
              is_timeout = is_found (lookup attr_timed_out attrs);
            })
              ∷ []
            else [])
  unfolding broadcast_handler calls_for mlme_calls
  connect_broadcast-build unset family_id s status t c e h =
      rw
        (
          get_message_type-build d attrs (omega arith),
          t,
          ==_refl family_id,
          get_command-build d attrs (omega arith),
          c,
          packet_get_int-build d bare attrs fit 4 attr_ifindex (some if_index) indexed small,
          connect_event-build d bare attrs fit if_index small indexed status c e h,
        )
        (to_subscriber (has_handler if_index s.on_mlme_event) _)

-- A REG_CHANGE broadcast of the nl80211 family, in a packet of two headers filled with attributes
-- that fit but no type, is told or not by what the memory of `reg_type` holds: to all
-- subscribers, with no country, if that is the world's domain, and to nobody if it is 255.
pub reg_change_missing :
    (d : Bytes) (attrs : Attrs) (family_id : ℕ) (s : Subscriptions)
    → length d ≡ headers
    → AllFit attrs
    → get_message_type d ≡ family_id
    → get_command d ≡ cmd_reg_change
    → lookup attr_reg_type attrs ≡ none
    → (broadcast_handler regdom_type_world family_id s (packet_build d attrs)
        ≡ ok (map (λ key. reg_domain_changed key []) s.on_reg_domain_changed))
      × (broadcast_handler 255 family_id s (packet_build d attrs) ≡ ok [])
unfolding broadcast_handler calls_for reg_change_calls
reg_change_missing d attrs family_id s bare fit t c e =
    rw
      (
        get_message_type-build d attrs (omega arith),
        t,
        ==_refl family_id,
        get_command-build d attrs (omega arith),
        c,
        packet_get_int-build d bare attrs fit 1 attr_reg_type none e tt,
      )
      (refl, refl)
