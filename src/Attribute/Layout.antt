-- ===== src/Attribute/Layout.antt =====
-- How the bytes of a built attribute lie: header, payload, padding.
use platform_system_connecti.Base.{
  ℕ, suc, ◌+◌, ◌-◌, ◌%◌, ◌≤◌, ◌<◌, ◌≡◌, refl, sym, ap, ◌∙◌, [], ◌∷◌, ◌++◌, append_assoc, length,
  replicate, write_at, resize-nil, length-append, length-replicate, replicate-add, write_at-block,
  arith,
}
use platform_system_connecti.Wire.{
  Bytes, le_bytes, nla_hdrlen, nla_align, nla_len, nla_type, length-le_bytes, nla_align-le,
  nla_align_add,
}
use platform_system_connecti.Attribute.{
  init_header_and_resize, base_attr, int_attr, string_attr, nested_attr,
}

-- The padding behind a payload of `n` bytes.
abbrev pub padding : ℕ → Bytes
padding n = replicate (nla_align n - n) 0

-- An attribute with the id and the payload, laid out as nl80211 wants it.
unfoldable pub laid_out : ℕ → Bytes → Bytes
laid_out id payload =
    le_bytes 2 (nla_hdrlen + length payload)
    ++ (le_bytes 2 id ++ (payload ++ padding (length payload)))

init_lem :
    (id n : ℕ)
    → init_header_and_resize [] id n
      ≡ le_bytes 2 (nla_hdrlen + n) ++ (le_bytes 2 id ++ replicate (nla_align n) 0)
unfolding init_header_and_resize
init_lem id n =
    let four : nla_hdrlen + nla_align n ≡ suc (suc (suc (suc (nla_align n)))) = omega arith in
    rw (resize-nil {A = ℕ} (nla_hdrlen + nla_align n) 0, four)

-- Overwriting the front of the zeros leaves the padding.
write_payload :
    (n : ℕ) (front payload : Bytes)
    → length front ≡ nla_hdrlen
    → length payload ≤ n
    → write_at nla_hdrlen payload (front ++ replicate n 0)
      ≡ front ++ (payload ++ replicate (n - length payload) 0)
write_payload n front payload h k =
    let split : n ≡ length payload + (n - length payload) = omega arith in
    ap (λ t. write_at nla_hdrlen payload (front ++ t))
      (ap (λ t. replicate t 0) split ∙ replicate-add (length payload) (n - length payload) 0)
    ∙ write_at-block nla_hdrlen front payload (replicate (length payload) 0) _ h
        (sym (length-replicate (length payload) 0))

pub base_attr_lem : (id : ℕ) (raw : Bytes) → base_attr id raw ≡ laid_out id raw
unfolding laid_out base_attr
base_attr_lem id raw =
    ap (write_at nla_hdrlen raw) (init_lem id (length raw))
    ∙ write_payload (nla_align (length raw)) (le_bytes 2 (nla_hdrlen + length raw) ++ le_bytes 2 id)
        raw refl (nla_align-le (length raw))

-- An integer attribute is the raw attribute of its bytes.
pub int_attr_lem : (w id value : ℕ) → int_attr w id value ≡ laid_out id (le_bytes w value)
unfolding laid_out int_attr
int_attr_lem w id value =
    let width = length-le_bytes w value in
    let fits : length (le_bytes w value) ≤ nla_align w = omega (arith, nla_align-le w) in
    ap (write_at nla_hdrlen (le_bytes w value)) (init_lem id w)
    ∙ write_payload (nla_align w) (le_bytes 2 (nla_hdrlen + w) ++ le_bytes 2 id) (le_bytes w value)
        refl fits
    ∙ rw width

-- A string attribute is the raw attribute of the string with its terminator.
pub string_attr_lem : (id : ℕ) (str : Bytes) → string_attr id str ≡ laid_out id (str ++ 0 ∷ [])
unfolding laid_out string_attr
string_attr_lem id str =
    let n = length str in
    let longer : length (str ++ 0 ∷ []) ≡ n + 1 = omega (arith, length-append str (0 ∷ [])) in
    let fits : n ≤ nla_align (n + 1) = omega (arith, nla_align-le (n + 1)) in
    let zeros : nla_align (n + 1) - n ≡ suc (nla_align (n + 1) - (n + 1)) =
      omega (arith, nla_align-le (n + 1)) in
    ap (write_at nla_hdrlen str) (init_lem id (n + 1))
    ∙ write_payload (nla_align (n + 1)) (le_bytes 2 (nla_hdrlen + (n + 1)) ++ le_bytes 2 id) str
        refl fits
    ∙ rw (longer, zeros, append_assoc str)

pub nested_attr_lem : (id : ℕ) → nested_attr id ≡ laid_out id []
unfolding laid_out nested_attr nla_align
nested_attr_lem id = init_lem id 0

-- A payload that the 16-bit length field can count.
abbrev pub Fits : Bytes → Type 0
Fits payload = nla_hdrlen + length payload < 65536

-- The header fields and the length of such an attribute, with whatever stands behind it.
module _ (id : ℕ) (payload rest : Bytes) where
  pub nla_len-laid_out :
      nla_len (laid_out id payload ++ rest) ≡ (nla_hdrlen + length payload) % 65536
  unfolding laid_out nla_len
  nla_len-laid_out = omega arith

  pub nla_type-laid_out : nla_type (laid_out id payload ++ rest) ≡ id % 65536
  unfolding laid_out nla_type
  nla_type-laid_out = omega arith

pub length-laid_out :
    (id : ℕ) (payload : Bytes)
    → length (laid_out id payload) ≡ nla_align (nla_hdrlen + length payload)
unfolding laid_out
length-laid_out id payload = omega (
  arith,
  length-append payload (padding (length payload)),
  length-replicate {A = ℕ} (nla_align (length payload) - length payload) 0,
  nla_align-le (length payload),
  nla_align_add (length payload),
)
