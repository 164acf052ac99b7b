-- ===== src/Attribute/Search.antt =====
-- Looking an attribute up in the bytes of a list of attributes.
use platform_system_connecti.Base.{
  ℕ, zero, suc, ◌+◌, ◌≤◌, ◌<◌, ◌≡◌, refl, sym, ap, Option, none, some, List, [], ◌∷◌, ◌++◌, length,
  take, drop, length-append, take-append, drop-append, arith, ◌==◌, if◌then◌else◌, Outcome, ok,
  fail, ==_iff,
}
use platform_system_connecti.Wire.{Bytes, nla_hdrlen, nla_align, nla_len, nla_type, nla_align-le}
use platform_system_connecti.Attribute.{base_attr, get_attribute_impl}
use platform_system_connecti.Attribute.Layout.{
  Fits, base_attr_lem, nla_len-laid_out, nla_type-laid_out, length-laid_out,
}

-- The abstract view of a buffer: ids with their payloads.
abbrev pub Attrs : Type 0
Attrs = List (ℕ × Bytes)

unfoldable pub encode : Attrs → Bytes
encode [] = []
encode ((id, payload) ∷ attrs) = base_attr id payload ++ encode attrs

abbrev pub lookup : ℕ → Attrs → Option Bytes
lookup id [] = none
lookup id ((i, payload) ∷ attrs) = if i == id then some payload else lookup id attrs

-- Ids and lengths that their 16-bit fields can hold.
abbrev pub AllFit : Attrs → Type 0
AllFit [] = Unit {0}
AllFit ((id, payload) ∷ attrs) = (id < 65536) × Fits payload × AllFit attrs

abbrev pub found_as : ℕ → Option Bytes → Outcome Bytes
found_as id none = fail
found_as id (some payload) = ok (base_attr id payload)

-- The buffer that starts with one attribute, as the loop looks at it.
module _ (i : ℕ) (payload rest : Bytes) (small : i < 65536) (fits : Fits payload) where
  pub front_type : nla_type (base_attr i payload ++ rest) ≡ i
  front_type = rw (base_attr_lem i payload) (omega (arith, nla_type-laid_out i payload rest))

  pub front_size : nla_align (nla_len (base_attr i payload ++ rest)) ≡ length (base_attr i payload)
  front_size =
      rw (base_attr_lem i payload, length-laid_out i payload)
        (ap nla_align (omega (arith, nla_len-laid_out i payload rest)))

  pub front_header : nla_hdrlen ≤ length (base_attr i payload)
  front_header =
      rw (base_attr_lem i payload, length-laid_out i payload)
        (omega (arith, nla_align-le (nla_hdrlen + length payload)))

  pub front_take :
      take (nla_align (nla_len (base_attr i payload ++ rest))) (base_attr i payload ++ rest)
      ≡ base_attr i payload
  front_take = take-append _ (base_attr i payload) rest (sym front_size)

  pub front_drop :
      drop (nla_align (nla_len (base_attr i payload ++ rest))) (base_attr i payload ++ rest) ≡ rest
  front_drop = drop-append _ (base_attr i payload) rest (sym front_size)

  pub front_room : length (base_attr i payload) ≤ length (base_attr i payload ++ rest)
  front_room = omega (arith, length-append (base_attr i payload) rest)

  -- One round of the loop.
  pub impl_step :
      (f id : ℕ)
      → get_attribute_impl (suc f) (base_attr i payload ++ rest) id
        ≡ (if i == id then ok (base_attr i payload) else get_attribute_impl f rest id)
  unfolding get_attribute_impl
  impl_step f id =
      ground (arith, front_type, front_size, front_take, front_drop, front_header, front_room)

-- In attributes laid out one after the other, with ids and lengths that fit their fields, and on
-- more fuel than bytes, the search returns the first attribute with the id, and fails if there is
-- none.
pub impl-encode :
    (attrs : Attrs) (f id : ℕ)
    → AllFit attrs
    → length (encode attrs) < f
    → get_attribute_impl f (encode attrs) id ≡ found_as id (lookup id attrs)
unfolding encode
impl-encode attrs zero id h e = absurd (omega arith)
impl-encode [] (suc f) id h e = unfold get_attribute_impl in refl
impl-encode ((i, payload) ∷ attrs) (suc f) id (small, fits, all) e =
    rw (impl_step i payload (encode attrs) small fits f id) (
      ground (
        arith,
        ==_iff i id,
        impl-encode attrs f id all (
            omega (
              arith,
              front_header i payload (encode attrs) small fits,
              length-append (base_attr i payload) (encode attrs),
            )),
      ))
