-- ===== src/Packet/AllAttributes.antt =====
-- `GetAllAttributes` on a packet that was filled with `AddAttribute`.
use platform_system_connecti.Base.{
  ℕ, zero, suc, ◌+◌, ◌<◌, ◌≡◌, refl, false, [], ◌∷◌, ◌++◌, map, length, take, drop, length-append,
  arith, ◌==◌, ok, ◌>>=◌, le→ltb-false,
}
use platform_system_connecti.Wire.{Bytes, nla_hdrlen, nla_len}
use platform_system_connecti.Attribute.{base_attr}
use platform_system_connecti.Attribute.Layout.{nla_len-laid_out, Fits, base_attr_lem}
use platform_system_connecti.Attribute.Values.{payload_in_front}
use platform_system_connecti.Attribute.Search.{
  Attrs, encode, AllFit, front_size, front_drop, front_header, front_room, front_type,
}
use platform_system_connecti.Packet.{headers, all_attributes, get_all_attributes}
use platform_system_connecti.Packet.Contents.{packet_build, body, enough}

-- One round of `GetAllAttributes` on an entry that `AddAttribute` wrote.
all_step :
    (i : ℕ) (p rest : Bytes) (f : ℕ)
    → i < 65536
    → Fits p
    → all_attributes (suc f) (base_attr i p ++ rest)
      ≡ (all_attributes f rest >>= λ vs. ok (base_attr i p ∷ vs))
unfolding all_attributes
all_step i p rest f small fits =
    rw
      (
        front_drop i p rest small fits,
        front_size i p rest small fits,
        front_type i p rest small fits,
        front_length,
        front_payload,
        le→ltb-false (length (base_attr i p ++ rest)) nla_hdrlen
            (omega (arith, front_header i p rest small fits, front_room i p rest small fits)),
        le→ltb-false (length (base_attr i p ++ rest)) (length (base_attr i p))
            (front_room i p rest small fits),
        le→ltb-false (nla_hdrlen + length p) nla_hdrlen (omega arith),
      )
      (rw nonzero)
  where
    front_length : nla_len (base_attr i p ++ rest) ≡ nla_hdrlen + length p
    front_length = rw (base_attr_lem i p) (omega (arith, nla_len-laid_out i p rest))

    front_payload : drop nla_hdrlen (take (nla_hdrlen + length p) (base_attr i p ++ rest)) ≡ p
    front_payload = rw (base_attr_lem i p) (payload_in_front i p rest)

    nonzero : (nla_hdrlen + length p == 0) ≡ false
    nonzero = ground arith

all-encode :
    (attrs : Attrs) (f : ℕ)
    → AllFit attrs
    → length (encode attrs) < f
    → all_attributes f (encode attrs) ≡ ok (map (λ a. base_attr a.0 a.1) attrs)
unfolding encode
all-encode attrs zero h e = absurd (omega arith)
all-encode [] (suc f) h e = unfold all_attributes in refl
all-encode ((i, p) ∷ attrs) (suc f) (small, fits, all) e = rw (
  all_step i p (encode attrs) f small fits,
  all-encode attrs f all (
      omega (
        arith,
        front_header i p (encode attrs) small fits,
        length-append (base_attr i p) (encode attrs),
      )),
)

-- `GetAllAttributes` on a packet of two headers that was filled with attributes whose ids and
-- lengths fit returns what was added, all of it and in order.
pub get_all_attributes-build :
    (d : Bytes) (attrs : Attrs)
    → length d ≡ headers
    → AllFit attrs
    → get_all_attributes (packet_build d attrs) ≡ ok (map (λ a. base_attr a.0 a.1) attrs)
unfolding get_all_attributes
get_all_attributes-build d attrs bare h =
    rw (body d bare attrs h)
      (all-encode attrs (suc (length (packet_build d attrs))) h (enough d bare attrs h))
