-- ===== src/Tests/Attributes.antt =====
-- Runs of the model and the theorems at concrete inputs: a packet of interface 7 with an address
-- of six bytes, filled as `NetlinkUtils` and the kernel fill theirs.
use platform_system_connecti.Base.{◌≡◌, ◌↔◌, refl, [], ◌∷◌, ◌++◌, ok, hang, arith}
use platform_system_connecti.Wire.{Bytes, le_bytes, nla_type, nla_len, nla_align}
use platform_system_connecti.Attribute.{base_attr, get_attribute_impl, merge}
use platform_system_connecti.Attribute.Search.{Attrs, encode, lookup, AllFit, found_as, impl-encode}
use platform_system_connecti.Attribute.Loops.{Stuck, impl-hangs_iff}
use platform_system_connecti.Attribute.Merging.{merge-base_attr}

abbrev pub mac : Bytes
mac = 2 ∷ 0 ∷ 0 ∷ 10 ∷ 11 ∷ 12 ∷ []

abbrev pub attrs : Attrs
attrs = (3, le_bytes 4 7) ∷ (6, mac) ∷ []

pub attrs_fit : AllFit attrs
attrs_fit = (omega arith, omega arith, (omega arith, omega arith, tt))

impl-encode_example : get_attribute_impl 100 (encode attrs) 6 ≡ found_as 6 (lookup 6 attrs)
unfolding encode base_attr nla_align
impl-encode_example = impl-encode attrs 100 6 attrs_fit (omega arith)

-- Eight zero bytes: a header of length 0 and id 0.
abbrev zeros : Bytes
zeros = 0 ∷ 0 ∷ 0 ∷ 0 ∷ 0 ∷ 0 ∷ 0 ∷ 0 ∷ []

impl-hangs_iff_example : (get_attribute_impl 9 zeros 3 ≡ hang) ↔ Stuck 3 zeros
impl-hangs_iff_example = impl-hangs_iff 9 3 zeros (omega arith)

zeros_hang : get_attribute_impl 9 zeros 3 ≡ hang
unfolding get_attribute_impl nla_type nla_align nla_len
zeros_hang = refl

merge-base_attr_example :
    merge (base_attr 5 mac) (base_attr 5 (1 ∷ [])) ≡ ok (base_attr 5 (mac ++ (1 ∷ [])))
merge-base_attr_example = merge-base_attr 5 mac (1 ∷ []) (omega arith) (omega arith) (omega arith)
