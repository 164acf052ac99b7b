-- ===== src/Attribute/Fields.antt =====
-- The typed members of a nested attribute, on payloads of any width.
use platform_system_connecti.Base.{
  ℕ, ◌+◌, ◌≡◌, refl, ◌∙◌, ap, Option, none, some, ◌++◌, length, arith, ◌==◌, if◌then◌else◌, Outcome,
  ok, fail, ==_iff, Bool-cases, inl, inr, ◌>>=◌, guard, sym, Option-cases, map, [], ◌∷◌, append-nil,
  ◌<◌,
}
use platform_system_connecti.Wire.{
  Bytes, le_bytes, le_value, nla_hdrlen, read_le-append, nla_align_add, read_le,
}
use platform_system_connecti.Attribute.{
  base_attr, int_is_valid, int_get_value, find_valid, get_int, get_attribute, has_attribute,
  is_found, get_list_of_nested_attributes, get_list_of_int_values, get_attribute_id,
}
use platform_system_connecti.Attribute.Layout.{
  padding, laid_out, Fits, base_attr_lem, length-laid_out,
}
use platform_system_connecti.Attribute.Values.{nla_len_lem, is_valid-laid_out, raw_round_trip}
use platform_system_connecti.Attribute.Search.{Attrs, found_as, encode, lookup, AllFit, front_type}
use platform_system_connecti.Attribute.Reading.{
  lookup-Fits, search-nested, get_list-build, list_of_nested,
}
use platform_system_connecti.Attribute.Nested.{build-nested, ReadsAll}

-- What a read of a `w`-byte integer gives for a payload: nothing, where the width is another.
abbrev pub number_in : ℕ → Option Bytes → Outcome ℕ
number_in w none = fail
number_in w (some p) = if length p == w then ok (le_value p) else fail

pub valid_width :
    (w id : ℕ) (p : Bytes) → Fits p → int_is_valid w (base_attr id p) ≡ (length p == w)
unfolding int_is_valid
valid_width w id p h =
    rw (base_attr_lem id p, is_valid-laid_out id p h, length-laid_out id p, nla_len_lem id p h)
      (elim (Bool-cases (length p == w)) [
        | inl same ↦
            let e : length p ≡ w = (==_iff (length p) w).0 same in
            rw (e, nla_align_add w) (ground arith)
        | inr other ↦ rw other (ground (arith, other))
      ])

pub value_read :
    (w id : ℕ) (p : Bytes) → length p ≡ w → int_get_value w (base_attr id p) ≡ le_value p
unfolding int_get_value laid_out
value_read w id p e =
    ap (read_le w nla_hdrlen) (base_attr_lem id p)
    ∙ read_le-append w nla_hdrlen (le_bytes 2 (nla_hdrlen + length p) ++ le_bytes 2 id) p
        (padding (length p)) refl e

pub get_attribute_id-base_attr :
    (i : ℕ) (p : Bytes) → i < 65536 → Fits p → get_attribute_id (base_attr i p) ≡ i
get_attribute_id-base_attr i p small fits =
    ap get_attribute_id (sym (append-nil (base_attr i p))) ∙ front_type i p [] small fits

-- The search, the validity test and the read, as `GetAttributeValue` makes them.
pub found_number :
    (w i : ℕ) (o : Option Bytes)
    → ((p : Bytes) → o ≡ some p → Fits p)
    → ((found_as i o >>= λ a. guard (int_is_valid w a) >>= λ done. ok a) >>= λ a.
        ok (int_get_value w a))
      ≡ number_in w o
found_number w i none fit = refl
found_number w i (some p) fit = elim (Bool-cases (length p == w)) [
  | inl same ↦
      rw (valid_width w i p (fit p refl), same, value_read w i p ((==_iff (length p) w).0 same))
  | inr other ↦ rw (valid_width w i p (fit p refl), other)
]

-- The members of the nested attribute that holds `attrs`.
module _ (id : ℕ) (attrs : Attrs) (fit : AllFit attrs) where
  -- An integer is read from the first payload under the id, and only if that has the width.
  pub get_int-stored :
      (w i : ℕ) → get_int w (base_attr id (encode attrs)) i ≡ number_in w (lookup i attrs)
  unfolding get_int find_valid
  get_int-stored w i =
      rw (search-nested id i attrs fit)
        (found_number w i (lookup i attrs) (λ p e. lookup-Fits i attrs fit e))

  pub has_attribute-stored :
      (i : ℕ) → has_attribute (base_attr id (encode attrs)) i ≡ ok (is_found (lookup i attrs))
  unfolding has_attribute
  has_attribute-stored i = elim (Option-cases (lookup i attrs)) [
    | inl e ↦ rw (search-nested id i attrs fit, e)
    | inr (p, e) ↦ rw (search-nested id i attrs fit, e)
  ]

  pub get_attribute-stored :
      (i : ℕ) → get_attribute (base_attr id (encode attrs)) i ≡ found_as i (lookup i attrs)
  unfolding get_attribute find_valid
  get_attribute-stored i = elim (Option-cases (lookup i attrs)) [
    | inl e ↦ rw (search-nested id i attrs fit, e)
    | inr (p, e) ↦
        rw (search-nested id i attrs fit, e) (rw (raw_round_trip i p (lookup-Fits i attrs fit e)).0)
  ]

  pub get_list-stored :
      get_list_of_nested_attributes (base_attr id (encode attrs))
      ≡ ok (map (λ a. base_attr a.0 a.1) attrs)
  get_list-stored = rw (sym (build-nested id attrs)) (get_list-build id attrs fit).1

-- Payloads of one width.
abbrev pub AllOfWidth : ℕ → Attrs → Type 0
AllOfWidth w [] = Unit {0}
AllOfWidth w ((i, p) ∷ attrs) = (length p ≡ w) × AllOfWidth w attrs

int_reads :
    (w : ℕ) (attrs : Attrs)
    → AllFit attrs
    → AllOfWidth w attrs
    → ReadsAll (int_is_valid w) (λ a. ok (int_get_value w a)) (λ a. le_value a.1) attrs
int_reads w [] h k = tt
int_reads w ((i, p) ∷ attrs) (small, fits, all) (e, k) = (
  valid_width w i p fits ∙ (==_iff (length p) w).1 e,
  ap ok (value_read w i p e),
  int_reads w attrs all k,
)

-- The list function for integers returns the numbers of all entries, in order.
pub get_list_of_int_values-stored :
    (w id : ℕ) (attrs : Attrs)
    → AllFit attrs
    → AllOfWidth w attrs
    → get_list_of_int_values w (base_attr id (encode attrs)) ≡ ok (map (λ a. le_value a.1) attrs)
unfolding get_list_of_int_values
get_list_of_int_values-stored w id attrs fit width = rw (sym (build-nested id attrs)) (
    list_of_nested (int_is_valid w) (λ a. ok (int_get_value w a)) (λ a. le_value a.1) id attrs fit
      (int_reads w attrs fit width))
