-- ===== src/Attribute.antt =====
-- net/nl80211_attribute.h and net/nl80211_attribute.cpp. An attribute object is its `data_`.
-- Members that look into `data_` are called on buffers that hold a header; where the source does
-- not make sure of a read, the model gives `fault`.
pub mod Layout
pub mod Values
pub mod Search
pub mod Loops
pub mod Nested
pub mod Reading
pub mod Fields
pub mod Merging
use platform_system_connecti.X.{}
use platform_system_connecti.Base.{
  ℕ, zero, suc, ◌+◌, ◌-◌, ◌<◌, Bool, true, false, not, ◌||◌, Option, none, some, List, [], ◌∷◌,
  ◌++◌, ltb, ◌==◌, if◌then◌else◌, length, take, drop, resize, write_at, Outcome, ok, fail, hang,
  fault, ◌>>=◌, ◌>>◌, guard, attempt,
}
use platform_system_connecti.Wire.{
  Bytes, le_bytes, read_le, nla_hdrlen, nla_align, nla_len, nla_type,
}

-- The constructors.
unfoldable pub init_header_and_resize : Bytes → ℕ → ℕ → Bytes
init_header_and_resize d attribute_id payload_length =
    let d1 = resize (nla_hdrlen + nla_align payload_length) 0 d in
    let d2 = write_at 2 (le_bytes 2 attribute_id) d1 in
    write_at 0 (le_bytes 2 (nla_hdrlen + payload_length)) d2

unfoldable pub base_attr : ℕ → Bytes → Bytes
unfolding init_header_and_resize
base_attr id raw_buffer =
    write_at nla_hdrlen raw_buffer (init_header_and_resize [] id (length raw_buffer))

-- `NL80211Attr<T>` for an integral `T` of `w` bytes.
unfoldable pub int_attr : ℕ → ℕ → ℕ → Bytes
unfolding init_header_and_resize
int_attr w id value = write_at nla_hdrlen (le_bytes w value) (init_header_and_resize [] id w)

unfoldable pub string_attr : ℕ → Bytes → Bytes
unfolding init_header_and_resize
string_attr id str = write_at nla_hdrlen str (init_header_and_resize [] id (length str + 1))

unfoldable pub nested_attr : ℕ → Bytes
unfolding init_header_and_resize
nested_attr id = init_header_and_resize [] id 0

-- Inspection.
abbrev pub get_attribute_id : Bytes → ℕ
get_attribute_id d = nla_type d

unfoldable pub is_valid : Bytes → Bool
is_valid d = if ltb (length d) nla_hdrlen then false else nla_align (nla_len d) == length d

unfoldable pub int_is_valid : ℕ → Bytes → Bool
int_is_valid w d =
    if not (is_valid d)
    then false
    else if not (nla_align w + nla_hdrlen == length d) || not (w + nla_hdrlen == nla_len d)
    then false
    else true

-- The typed `GetAttribute` calls this behind `int_is_valid`.
unfoldable pub int_get_value : ℕ → Bytes → ℕ
int_get_value w d = read_le w nla_hdrlen d

-- Whether the bytes from the header's end up to `nla_len` are all there.
unfoldable pub payload_in_range : Bytes → Bool
payload_in_range d =
    not (ltb (length d) nla_hdrlen || ltb (nla_len d) nla_hdrlen || ltb (length d) (nla_len d))

unfoldable pub raw_get_value : Bytes → Outcome Bytes
raw_get_value d = if payload_in_range d then ok (drop nla_hdrlen (take (nla_len d) d)) else fault

-- `while (str_length > 0 && … == 0) str_length--;`
unfoldable pub trimmed_length : ℕ → Bytes → ℕ
unfolding read_le
trimmed_length zero storage = 0
trimmed_length (suc n) storage =
    if read_le 1 n storage == 0 then trimmed_length n storage else suc n

unfoldable pub string_get_value : Bytes → Outcome Bytes
string_get_value d =
    if payload_in_range d
    then (let storage = drop nla_hdrlen d in
        ok (take (trimmed_length (nla_len d - nla_hdrlen) storage) storage))
    else fault

-- `GetAttributeImpl` over the bytes from `ptr` up to `end_ptr`; the result is the range from
-- `*attr_start` to `*attr_end`. A `ptr` behind `end_ptr` is the empty rest.
unfoldable pub get_attribute_impl : ℕ → Bytes → ℕ → Outcome Bytes
get_attribute_impl zero buf attr_id = hang
get_attribute_impl (suc fuel) buf attr_id =
    let next = get_attribute_impl fuel (drop (nla_align (nla_len buf)) buf) attr_id in
    if ltb (length buf) nla_hdrlen
    then fail
    else if nla_type buf == attr_id
    then (if ltb (length buf) (nla_align (nla_len buf))
        then fail
        else ok (take (nla_align (nla_len buf)) buf))
    else next

-- The search in what follows `skip` header bytes. In a shorter buffer `size() - skip` wraps.
unfoldable pub search_behind : ℕ → Bytes → ℕ → Outcome Bytes
search_behind skip d id =
    if ltb (length d) skip then fault else get_attribute_impl (suc (length d)) (drop skip d) id

-- `GetAttribute`, with the `IsValid` of the attribute's type.
unfoldable pub find_valid : ℕ → (Bytes → Bool) → Bytes → ℕ → Outcome Bytes
find_valid skip valid d id = do
  attribute ← search_behind skip d id
  guard (valid attribute)
  ok attribute

-- Nested attributes.
unfoldable pub add_attribute : Bytes → Bytes → Bytes
add_attribute d attribute =
    let d1 = d ++ attribute in write_at 0 (le_bytes 2 (nla_len d1 + length attribute)) d1

unfoldable pub add_flag_attribute : Bytes → ℕ → Bytes
add_flag_attribute d attribute_id =
    let d1 = resize (length d + nla_hdrlen) 0 d in
    let d2 = write_at (length d1 - nla_hdrlen + 2) (le_bytes 2 attribute_id) d1 in
    let d3 = write_at (length d1 - nla_hdrlen) (le_bytes 2 nla_hdrlen) d2 in
    write_at 0 (le_bytes 2 (nla_len d3 + nla_hdrlen)) d3

abbrev pub is_found : Option Bytes → Bool
is_found none = false
is_found (some _) = true

unfoldable pub has_attribute : Bytes → ℕ → Outcome Bool
has_attribute d id = do found ← attempt (search_behind nla_hdrlen d id); ok (is_found found)

unfoldable pub get_attribute : Bytes → ℕ → Outcome Bytes
get_attribute d id = find_valid nla_hdrlen is_valid d id

unfoldable pub get_int : ℕ → Bytes → ℕ → Outcome ℕ
get_int w d id = do
  attribute ← find_valid nla_hdrlen (int_is_valid w) d id
  ok (int_get_value w attribute)

unfoldable pub get_raw : Bytes → ℕ → Outcome Bytes
get_raw d id = find_valid nla_hdrlen is_valid d id >>= raw_get_value

unfoldable pub get_string : Bytes → ℕ → Outcome Bytes
get_string d id = find_valid nla_hdrlen is_valid d id >>= string_get_value

-- The loop that the three list functions share: check, take the entry's value, go on.
unfoldable pub attribute_list {ℓ} :
    {A : Type ℓ} → (Bytes → Bool) → (Bytes → Outcome A) → ℕ → Bytes → Outcome (List A)
attribute_list valid value zero buf = hang
attribute_list valid value (suc fuel) buf =
    let n = nla_align (nla_len buf) in
    let rest = attribute_list valid value fuel (drop n buf) in
    let entries = (do guard (valid (take n buf)); v ← value (take n buf); vs ← rest; ok (v ∷ vs)) in
    if ltb (length buf) nla_hdrlen then ok [] else if ltb (length buf) n then fail else entries

unfoldable pub list_behind_header {ℓ} :
    {A : Type ℓ} → (Bytes → Bool) → (Bytes → Outcome A) → Bytes → Outcome (List A)
list_behind_header valid value d =
    if ltb (length d) nla_hdrlen
    then fault
    else attribute_list valid value (suc (length d)) (drop nla_hdrlen d)

unfoldable pub get_list_of_int_values : ℕ → Bytes → Outcome (List ℕ)
get_list_of_int_values w = list_behind_header (int_is_valid w) (λ a. ok (int_get_value w a))

unfoldable pub get_list_of_raw_values : Bytes → Outcome (List Bytes)
get_list_of_raw_values = list_behind_header is_valid raw_get_value

unfoldable pub get_list_of_int_attributes : ℕ → Bytes → Outcome (List Bytes)
get_list_of_int_attributes w = list_behind_header (int_is_valid w) ok

unfoldable pub get_list_of_nested_attributes : Bytes → Outcome (List Bytes)
get_list_of_nested_attributes = list_behind_header is_valid ok

-- Merging the payload of another attribute. The caller keeps the old object on `fail`.
unfoldable pub merge : Bytes → Bytes → Outcome Bytes
merge d other =
    let our_len = nla_len d in
    let other_len = nla_len other in
    let total = our_len + other_len - nla_hdrlen in
    let d1 = write_at 0 (le_bytes 2 total) d in
    let d2 = resize our_len 0 d1 in
    let d3 = d2 ++ drop nla_hdrlen (take other_len other) in
    if not (is_valid other)
    then fail
    else if not (nla_type d == nla_type other)
    then fail
    else if ltb other_len nla_hdrlen
    then fault
    else ok (resize (nla_align total) 0 d3)
