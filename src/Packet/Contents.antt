-- ===== src/Packet/Contents.antt =====
-- The attributes of a packet that was filled with `AddAttribute`.
use platform_system_connecti.Base.{
  none, fail, some, Outcome, Option, ◌^◌, ℕ, suc, ◌+◌, ◌^◌, ◌≤◌, ◌<◌, ◌≡◌, refl, sym, ap, ◌∙◌, [],
  ◌∷◌, ◌++◌, append_assoc, append-nil, length, drop, drop_all, length-drop, length-write_at,
  length-append, drop-write_at, drop-append_le, arith, ok, le→ltb-false, Option-cases, inl, inr,
}
use platform_system_connecti.Wire.{length-le_bytes, read_le_appended, Bytes, le_bytes}
use platform_system_connecti.Attribute.{is_found, base_attr, search_behind, find_valid}
use platform_system_connecti.Attribute.Layout.{int_attr_lem, base_attr_lem}
use platform_system_connecti.Attribute.Values.{int_round_trip, raw_round_trip}
use platform_system_connecti.Attribute.Search.{Attrs, encode, lookup, AllFit, found_as, impl-encode}
use platform_system_connecti.Attribute.Reading.{payload_as, lookup-Fits}
use platform_system_connecti.Packet.{
  packet_get_int, packet_has_attribute, get_command, headers, get_message_length,
  set_message_length, packet_add_attribute, packet_get_raw, get_message_type,
}
use platform_system_connecti.Packet.Headers.{Header, set_message_length_lem}
use platform_system_connecti.Packet.Validity.{IsWhole, add_attribute-IsWhole}

unfoldable pub packet_build : Bytes → Attrs → Bytes
packet_build d [] = d
packet_build d ((i, p) ∷ attrs) = packet_build (packet_add_attribute d (base_attr i p)) attrs

drop-add_attribute :
    (d a : Bytes)
    → headers ≤ length d
    → drop headers (packet_add_attribute d a) ≡ drop headers d ++ a
unfolding packet_add_attribute set_message_length
drop-add_attribute d a h =
    drop-write_at headers 0 (le_bytes 4 (get_message_length (d ++ a) + length a)) (d ++ a)
      (omega arith)
    ∙ drop-append_le headers d a h

length-add_attribute : (d a : Bytes) → length (packet_add_attribute d a) ≡ length d + length a
unfolding packet_add_attribute set_message_length
length-add_attribute d a =
    length-write_at 0 (le_bytes 4 (get_message_length (d ++ a) + length a)) (d ++ a)
    ∙ length-append d a

drop-build :
    (d : Bytes) (attrs : Attrs)
    → headers ≤ length d
    → (drop headers (packet_build d attrs) ≡ drop headers d ++ encode attrs)
      × (headers ≤ length (packet_build d attrs))
unfolding packet_build encode
drop-build d [] h = (sym (append-nil (drop headers d)), h)
drop-build d ((i, p) ∷ attrs) h =
    let long : headers ≤ length (packet_add_attribute d (base_attr i p)) =
      omega (arith, length-add_attribute d (base_attr i p)) in
    let (rest, longer) = drop-build (packet_add_attribute d (base_attr i p)) attrs long in
    (
      rest
          ∙ ap (λ t. t ++ encode attrs) (drop-add_attribute d (base_attr i p) h)
          ∙ append_assoc (drop headers d) (base_attr i p) (encode attrs),
      longer,
    )

-- A packet that says its own length still does so when attributes are added, while the sum fits 32
-- bits.
pub packet_build-IsWhole :
    (d : Bytes) (attrs : Attrs)
    → IsWhole d
    → length d + length (encode attrs) < 2 ^ 32
    → IsWhole (packet_build d attrs)
unfolding packet_build encode
packet_build-IsWhole d [] w h = w
packet_build-IsWhole d ((i, p) ∷ attrs) w h =
    let both = length-append (base_attr i p) (encode attrs) in
    packet_build-IsWhole (packet_add_attribute d (base_attr i p)) attrs
      (add_attribute-IsWhole d (base_attr i p) w (omega (arith, both)))
      (omega (arith, both, length-add_attribute d (base_attr i p)))

-- A number as it is stored, or not stored, and as it is read back.
abbrev pub stored : ℕ → Option ℕ → Option Bytes
stored w none = none
stored w (some v) = some (le_bytes w v)

abbrev pub InRange : ℕ → Option ℕ → Type 0
InRange w none = Unit {0}
InRange w (some v) = v < 256 ^ w

abbrev pub number_as : Option ℕ → Outcome ℕ
number_as none = fail
number_as (some v) = ok v

-- A packet of two headers alone, filled.
module _ (d : Bytes) (bare : length d ≡ headers) (attrs : Attrs) (fit : AllFit attrs) where
  pub body : drop headers (packet_build d attrs) ≡ encode attrs
  body =
      (drop-build d attrs (omega arith)).0
      ∙ ap (λ t. t ++ encode attrs) (drop_all headers d (omega arith))

  pub enough : length (encode attrs) < suc (length (packet_build d attrs))
  enough = omega (arith, ap length body, length-drop headers (packet_build d attrs))

  pub search-packet :
      (i : ℕ) → search_behind headers (packet_build d attrs) i ≡ found_as i (lookup i attrs)
  unfolding search_behind
  search-packet i =
      rw
        (
          le→ltb-false (length (packet_build d attrs)) headers (drop-build d attrs (omega arith)).1,
          body,
        )
        (impl-encode attrs (suc (length (packet_build d attrs))) i fit enough)

  -- The value found in the packet is the first payload that was added under the id.
  pub packet_get_raw-build :
      (i : ℕ) → packet_get_raw (packet_build d attrs) i ≡ payload_as (lookup i attrs)
  unfolding packet_get_raw find_valid
  packet_get_raw-build i = elim (Option-cases (lookup i attrs)) [
    | inl e ↦ rw (search-packet i, e)
    | inr (p, e) ↦
        let (valid, value) = raw_round_trip i p (lookup-Fits i attrs fit e) in
        rw (search-packet i, e) (rw (valid, value))
  ]

  -- An integer that was added under the id comes back, and nothing if nothing was.
  pub packet_get_int-build :
      (w i : ℕ) (v : Option ℕ)
      → lookup i attrs ≡ stored w v
      → InRange w v
      → packet_get_int w (packet_build d attrs) i ≡ number_as v
  unfolding packet_get_int find_valid
  packet_get_int-build w i none e small = rw (search-packet i, e)
  packet_get_int-build w i (some v) e small =
      let (valid, value) =
        int_round_trip w i v (omega (arith, lookup-Fits i attrs fit e, length-le_bytes w v))
          small in
      rw (search-packet i, e)
        (rw (base_attr_lem i (le_bytes w v) ∙ sym (int_attr_lem w i v)) (rw (valid, value)))

  -- `HasAttribute` tells whether something was added under the id.
  pub packet_has_attribute-build :
      (i : ℕ) → packet_has_attribute (packet_build d attrs) i ≡ ok (is_found (lookup i attrs))
  unfolding packet_has_attribute
  packet_has_attribute-build i = elim (Option-cases (lookup i attrs)) [
    | inl e ↦ rw (search-packet i, e)
    | inr (p, e) ↦ rw (search-packet i, e)
  ]

-- Adding attributes does not touch the command.
pub get_command-build :
    (d : Bytes) (attrs : Attrs)
    → headers ≤ length d
    → get_command (packet_build d attrs) ≡ get_command d
unfolding packet_build
get_command-build d [] h = refl
get_command-build d ((i, p) ∷ attrs) h =
    let a = base_attr i p in
    let longer : headers ≤ length (d ++ a) = omega (arith, length-append d a) in
    get_command-build (packet_add_attribute d a) attrs (omega (arith, length-add_attribute d a))
    ∙ unfold packet_add_attribute in
      ap (λ (h : Header). h.command)
        (set_message_length_lem (d ++ a) longer (get_message_length (d ++ a) + length a))
      ∙ unfold get_command in read_le_appended 1 16 d a (omega arith)

-- Nor does it touch the message type.
pub get_message_type-build :
    (d : Bytes) (attrs : Attrs)
    → headers ≤ length d
    → get_message_type (packet_build d attrs) ≡ get_message_type d
unfolding packet_build
get_message_type-build d [] h = refl
get_message_type-build d ((i, p) ∷ attrs) h =
    let a = base_attr i p in
    let longer : headers ≤ length (d ++ a) = omega (arith, length-append d a) in
    get_message_type-build (packet_add_attribute d a) attrs
      (omega (arith, length-add_attribute d a))
    ∙ unfold packet_add_attribute in
      ap (λ (h : Header). h.message_type)
        (set_message_length_lem (d ++ a) longer (get_message_length (d ++ a) + length a))
      ∙ unfold get_message_type in read_le_appended 2 4 d a (omega arith)
