-- ===== src/Packet/Fields.antt =====
-- The typed members of a packet, on payloads of any width.
use platform_system_connecti.Base.{ℕ, ◌≡◌, Option-cases, inl, inr, length}
use platform_system_connecti.Wire.{Bytes}
use platform_system_connecti.Attribute.{find_valid}
use platform_system_connecti.Attribute.Values.{raw_round_trip}
use platform_system_connecti.Attribute.Search.{Attrs, lookup, AllFit, found_as}
use platform_system_connecti.Attribute.Reading.{lookup-Fits}
use platform_system_connecti.Attribute.Fields.{number_in, found_number}
use platform_system_connecti.Packet.{headers, packet_get_int, packet_get_attribute}
use platform_system_connecti.Packet.Contents.{packet_build, search-packet}

-- A packet of two headers alone, filled.
module _ (d : Bytes) (bare : length d ≡ headers) (attrs : Attrs) (fit : AllFit attrs) where
  -- An integer is read from the first payload under the id, and only if that has the width.
  pub packet_get_int-stored :
      (w i : ℕ) → packet_get_int w (packet_build d attrs) i ≡ number_in w (lookup i attrs)
  unfolding packet_get_int find_valid
  packet_get_int-stored w i =
      rw (search-packet d bare attrs fit i)
        (found_number w i (lookup i attrs) (λ p e. lookup-Fits i attrs fit e))

  pub packet_get_attribute-stored :
      (i : ℕ) → packet_get_attribute (packet_build d attrs) i ≡ found_as i (lookup i attrs)
  unfolding packet_get_attribute find_valid
  packet_get_attribute-stored i = elim (Option-cases (lookup i attrs)) [
    | inl e ↦ rw (search-packet d bare attrs fit i, e)
    | inr (p, e) ↦
        rw (search-packet d bare attrs fit i, e)
          (rw (raw_round_trip i p (lookup-Fits i attrs fit e)).0)
  ]
