-- ===== src/Attribute/Reading.antt =====
-- What the members of a nested attribute return on one that was filled with `AddAttribute`.
use platform_system_connecti.Base.{
  ℕ, suc, ◌+◌, ◌^◌, ◌<◌, ◌≡◌, ◌↔◌, refl, sym, ◌∙◌, Bool, true, Option, none, some, some-injective,
  subst, [], ◌∷◌, ◌++◌, map, length, arith, ◌==◌, Outcome, ok, fail, le→ltb-false, Option-cases,
  Bool-cases, inl, inr,
}
use platform_system_connecti.Wire.{Bytes, le_bytes, nla_hdrlen, length-le_bytes}
use platform_system_connecti.Attribute.{
  base_attr, nested_attr, is_valid, raw_get_value, search_behind, find_valid, get_int, get_raw,
  has_attribute, list_behind_header, get_list_of_raw_values, get_list_of_nested_attributes,
}
use platform_system_connecti.Attribute.Layout.{Fits, base_attr_lem, int_attr_lem}
use platform_system_connecti.Attribute.Values.{raw_round_trip, int_round_trip}
use platform_system_connecti.Attribute.Search.{Attrs, encode, lookup, AllFit, found_as, impl-encode}
use platform_system_connecti.Attribute.Nested.{
  build, build-nested, encode-IsAligned, laid_out_aligned, attribute_list-encode, ReadsAll,
}

pub lookup-Fits :
    (i : ℕ) (attrs : Attrs) {p : Bytes} → AllFit attrs → lookup i attrs ≡ some p → Fits p
lookup-Fits i [] h e = absurd (cc)
lookup-Fits i ((j, q) ∷ attrs) (small, fits, all) e = elim (Bool-cases (j == i)) [
  | inl same ↦ subst Fits (some-injective _ _ (rw same at e)) fits
  | inr other ↦ lookup-Fits i attrs all (rw other at e)
]

base_nested :
    (id : ℕ) (attrs : Attrs)
    → base_attr id (encode attrs)
      ≡ le_bytes 2 (nla_hdrlen + length (encode attrs)) ++ (le_bytes 2 id ++ encode attrs)
base_nested id attrs =
    base_attr_lem id (encode attrs) ∙ laid_out_aligned id (encode attrs) (encode-IsAligned attrs)

pub search-nested :
    (id i : ℕ) (attrs : Attrs)
    → AllFit attrs
    → search_behind nla_hdrlen (base_attr id (encode attrs)) i ≡ found_as i (lookup i attrs)
unfolding search_behind
search-nested id i attrs h = rw (base_nested id attrs) (
    rw
      (le→ltb-false
        (length
          (le_bytes 2 (nla_hdrlen + length (encode attrs)) ++ (le_bytes 2 id ++ encode attrs)))
        nla_hdrlen (omega arith))
      (impl-encode attrs _ i h (omega arith)))

abbrev pub payload_as : Option Bytes → Outcome Bytes
payload_as none = fail
payload_as (some p) = ok p

-- `GetAttributeValue` for bytes, on a nested attribute filled with attributes that fit, gives the
-- first payload stored under the id, and fails if there is none.
pub get_raw-build :
    (id i : ℕ) (attrs : Attrs)
    → AllFit attrs
    → get_raw (build (nested_attr id) attrs) i ≡ payload_as (lookup i attrs)
unfolding get_raw find_valid
get_raw-build id i attrs h = elim (Option-cases (lookup i attrs)) [
  | inl e ↦ rw (build-nested id attrs, search-nested id i attrs h, e)
  | inr (p, e) ↦
      let (valid, value) = raw_round_trip i p (lookup-Fits i attrs h e) in
      rw (build-nested id attrs, search-nested id i attrs h, e) (rw (valid, value))
]

-- An integer stored under the id comes back as it was.
pub get_int-build :
    (w id i value : ℕ) (attrs : Attrs)
    → AllFit attrs
    → value < 256 ^ w
    → lookup i attrs ≡ some (le_bytes w value)
    → get_int w (build (nested_attr id) attrs) i ≡ ok value
unfolding get_int find_valid
get_int-build w id i value attrs h small e =
    let stored = base_attr_lem i (le_bytes w value) ∙ sym (int_attr_lem w i value) in
    let (valid, same) =
      int_round_trip w i value (omega (arith, lookup-Fits i attrs h e, length-le_bytes w value))
        small in
    rw (build-nested id attrs, search-nested id i attrs h, e) (rw stored (rw (valid, same)))

-- `HasAttribute` tells whether something is stored under the id.
pub has_attribute-build :
    (id i : ℕ) (attrs : Attrs)
    → AllFit attrs
    → (has_attribute (build (nested_attr id) attrs) i ≡ ok true)
      ↔ ((p : Bytes) × (lookup i attrs ≡ some p))
unfolding has_attribute
has_attribute-build id i attrs h = elim (Option-cases (lookup i attrs)) [
  | inl e ↦ rw (build-nested id attrs, search-nested id i attrs h, e) (λ c. cc, λ (p, c). cc)
  | inr (p, e) ↦
      rw (build-nested id attrs, search-nested id i attrs h, e) (λ c. (p, refl), λ c. refl)
]

pub list_of_nested {ℓ} :
    {A : Type ℓ} (valid : Bytes → Bool) (value : Bytes → Outcome A) (g : ℕ × Bytes → A) (id : ℕ)
    (attrs : Attrs)
    → AllFit attrs
    → ReadsAll valid value g attrs
    → list_behind_header valid value (build (nested_attr id) attrs) ≡ ok (map g attrs)
unfolding list_behind_header
list_of_nested valid value g id attrs h r =
    let front =
      le_bytes 2 (nla_hdrlen + length (encode attrs)) ++ (le_bytes 2 id ++ encode attrs) in
    rw (build-nested id attrs ∙ base_nested id attrs) (
      rw (le→ltb-false (length front) nla_hdrlen (omega arith))
        (attribute_list-encode valid value g attrs (suc (length front)) h r (omega arith)))

raw_reads : (attrs : Attrs) → AllFit attrs → ReadsAll is_valid raw_get_value (λ a. a.1) attrs
raw_reads [] h = tt
raw_reads ((i, p) ∷ attrs) (small, fits, all) =
    let (valid, value) = raw_round_trip i p fits in (valid, value, raw_reads attrs all)

nested_reads : (attrs : Attrs) → AllFit attrs → ReadsAll is_valid ok (λ a. base_attr a.0 a.1) attrs
nested_reads [] h = tt
nested_reads ((i, p) ∷ attrs) (small, fits, all) =
    ((raw_round_trip i p fits).0, refl, nested_reads attrs all)

-- The list functions for bytes and for nested attributes, on a nested attribute filled with
-- attributes that fit, return the entries, all of them and in order.
pub get_list-build :
    (id : ℕ) (attrs : Attrs)
    → AllFit attrs
    → (get_list_of_raw_values (build (nested_attr id) attrs) ≡ ok (map (λ a. a.1) attrs))
      × (get_list_of_nested_attributes (build (nested_attr id) attrs)
          ≡ ok (map (λ a. base_attr a.0 a.1) attrs))
unfolding get_list_of_raw_values get_list_of_nested_attributes
get_list-build id attrs h = (
  list_of_nested is_valid raw_get_value (λ a. a.1) id attrs h (raw_reads attrs h),
  list_of_nested is_valid ok (λ a. base_attr a.0 a.1) id attrs h (nested_reads attrs h),
)
