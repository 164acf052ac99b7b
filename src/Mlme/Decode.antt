-- ===== src/Mlme/Decode.antt =====
-- MLME events in packets that are laid out as the kernel sends them.
use platform_system_connecti.Base.{
  ℕ, ◌^◌, ◌<◌, ◌∙◌, ◌≡◌, refl, Bool, true, false, not, Option, none, some, [], ◌==◌, if◌then◌else◌,
  length, ok, fail, or_else, arith,
}
use platform_system_connecti.Wire.{Bytes}
use platform_system_connecti.Attribute.{is_found}
use platform_system_connecti.Attribute.Search.{Attrs, lookup, AllFit}
use platform_system_connecti.Attribute.Reading.{payload_as}
use platform_system_connecti.Packet.{headers, get_command}
use platform_system_connecti.Packet.Contents.{
  packet_build, packet_get_int-build, packet_get_raw-build, packet_has_attribute-build,
  get_command-build, stored, InRange, number_as,
}
use platform_system_connecti.Nl80211.{
  cmd_connect, cmd_associate, cmd_roam, cmd_disconnect, cmd_disassociate, attr_ifindex, attr_mac,
  attr_status_code, attr_timed_out,
}
use platform_system_connecti.Mlme.{
  CommonFields, get_common_fields, connect_event, associate_event, roam_event, disconnect_event,
  disassociate_event,
}

abbrev pub bytes_or_empty : Option Bytes → Bytes
bytes_or_empty none = []
bytes_or_empty (some b) = b

abbrev pub number_or : Option ℕ → ℕ → ℕ
number_or none d = d
number_or (some n) d = n

or_empty : (o : Option Bytes) → or_else (payload_as o) (ok []) ≡ ok (bytes_or_empty o)
or_empty none = refl
or_empty (some b) = refl

or_zero : (o : Option ℕ) → or_else (number_as o) (ok 0) ≡ ok (number_or o 0)
or_zero none = refl
or_zero (some n) = refl

swap_branches {ℓ} :
    {A : Type ℓ} (b : Bool) (x y : A) → (if not b then y else x) ≡ (if b then x else y)
swap_branches true x y = refl
swap_branches false x y = refl

module _ (d : Bytes) (bare : length d ≡ headers) (attrs : Attrs) (fit : AllFit attrs) (if_index : ℕ)
    (small : if_index < 2 ^ 32)
    (indexed : lookup attr_ifindex attrs ≡ stored 4 (some if_index)) where
  abbrev event_packet : Bytes
  event_packet = packet_build d attrs

  abbrev pub common_fields : CommonFields
  common_fields = record {
    interface_index = if_index;
    bssid = bytes_or_empty (lookup attr_mac attrs);
  }

  common_lem : get_common_fields event_packet ≡ ok common_fields
  unfolding get_common_fields
  common_lem = rw (
    packet_get_int-build d bare attrs fit 4 attr_ifindex (some if_index) indexed small,
    packet_get_raw-build d bare attrs fit attr_mac,
    or_empty (lookup attr_mac attrs),
  )

  command_lem : get_command event_packet ≡ get_command d
  command_lem = get_command-build d attrs (omega arith)

  -- A CONNECT packet of two headers filled with attributes that fit, an interface among them and a
  -- status code that fits if there is one, gives the event with the interface, the address or none,
  -- the status code or 0, and whether the kernel flagged a time-out.
  pub connect_event-build :
      (status : Option ℕ)
      → get_command d ≡ cmd_connect
      → lookup attr_status_code attrs ≡ stored 2 status
      → InRange 2 status
      → connect_event event_packet
        ≡ ok (record {
          common = common_fields;
          status_code = number_or status 0;
          is_timeout = is_found (lookup attr_timed_out attrs);
        })
  unfolding connect_event
  connect_event-build status c e h = rw (
    command_lem ∙ c,
    common_lem,
    packet_get_int-build d bare attrs fit 2 attr_status_code status e h,
    or_zero status,
    packet_has_attribute-build d bare attrs fit attr_timed_out,
  )

  -- An ASSOCIATE packet has no status code of its own: the event says success unless it timed out.
  pub associate_event-build :
      get_command d ≡ cmd_associate
      → associate_event event_packet
        ≡ ok (record {
          common = common_fields;
          status_code = 0;
          is_timeout = is_found (lookup attr_timed_out attrs);
        })
  unfolding associate_event
  associate_event-build c =
      rw (command_lem ∙ c, common_lem, packet_has_attribute-build d bare attrs fit attr_timed_out)

  -- The three events that hold an interface and an address, each under its own command.
  pub plain_events-build :
      (roam_event event_packet ≡ (if get_command d == cmd_roam then ok common_fields else fail))
      × (disconnect_event event_packet
          ≡ (if get_command d == cmd_disconnect then ok common_fields else fail))
      × (disassociate_event event_packet
          ≡ (if get_command d == cmd_disassociate then ok common_fields else fail))
  unfolding roam_event disconnect_event disassociate_event
  plain_events-build =
      rw (command_lem, common_lem)
        (
          swap_branches _ (ok common_fields) fail,
          swap_branches _ (ok common_fields) fail,
          swap_branches _ (ok common_fields) fail,
        )
