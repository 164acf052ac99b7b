-- ===== src/Attribute/Values.antt =====
-- What is stored in an attribute is read back from it.
use platform_system_connecti.Base.{
  ℕ, zero, suc, ◌+◌, ◌-◌, ◌^◌, ◌≤◌, ◌<◌, ◌≡◌, refl, ap, ◌∙◌, true, [], ◌∷◌, ◌++◌, append_assoc,
  length, take, drop, length-append, take-append, arith, ◌==◌, if◌then◌else◌, ok, ==_refl,
  le→ltb-false,
}
use platform_system_connecti.Wire.{
  Bytes, le_bytes, nla_hdrlen, nla_align, nla_len, length-le_bytes, nla_align-le, nla_align_add,
  le_value-le_bytes, read_le-append,
}
use platform_system_connecti.Attribute.{
  base_attr, int_attr, string_attr, is_valid, int_is_valid, int_get_value, payload_in_range,
  raw_get_value, string_get_value, trimmed_length,
}
use platform_system_connecti.Attribute.Layout.{
  padding, laid_out, Fits, base_attr_lem, int_attr_lem, string_attr_lem, length-laid_out,
}

pub nla_len_lem :
    (id : ℕ) (payload : Bytes)
    → Fits payload
    → nla_len (laid_out id payload) ≡ nla_hdrlen + length payload
unfolding laid_out nla_len
nla_len_lem id payload h = omega arith

length-ge_four : (id : ℕ) (payload : Bytes) → nla_hdrlen ≤ length (laid_out id payload)
unfolding laid_out
length-ge_four id payload = omega arith

-- An attribute whose payload fits is accepted by `IsValid`.
pub is_valid-laid_out :
    (id : ℕ) (payload : Bytes) → Fits payload → is_valid (laid_out id payload) ≡ true
unfolding is_valid
is_valid-laid_out id payload h =
    rw
      (
        le→ltb-false (length (laid_out id payload)) nla_hdrlen (length-ge_four id payload),
        nla_len_lem id payload h,
        length-laid_out id payload,
      )
      (==_refl (nla_align (nla_hdrlen + length payload)))

pub payload-laid_out :
    (id : ℕ) (payload : Bytes)
    → drop nla_hdrlen (take (nla_hdrlen + length payload) (laid_out id payload)) ≡ payload
unfolding laid_out
payload-laid_out id payload =
    let four : nla_hdrlen + length payload ≡ suc (suc (suc (suc (length payload)))) = omega arith in
    rw four (take-append (length payload) payload (padding (length payload)) refl)

pub payload_in_front :
    (id : ℕ) (payload rest : Bytes)
    → drop nla_hdrlen (take (nla_hdrlen + length payload) (laid_out id payload ++ rest)) ≡ payload
unfolding laid_out
payload_in_front id payload rest =
    let four : nla_hdrlen + length payload ≡ suc (suc (suc (suc (length payload)))) = omega arith in
    rw (four, append_assoc payload (padding (length payload)) rest)
      (take-append (length payload) payload (padding (length payload) ++ rest) refl)

payload_in_range-laid_out :
    (id : ℕ) (payload : Bytes) → Fits payload → payload_in_range (laid_out id payload) ≡ true
unfolding payload_in_range
payload_in_range-laid_out id payload h =
    let n = nla_hdrlen + length payload in
    let longer : n ≤ length (laid_out id payload) =
      omega (arith, length-laid_out id payload, nla_align-le n) in
    rw
      (
        nla_len_lem id payload h,
        le→ltb-false (length (laid_out id payload)) nla_hdrlen (length-ge_four id payload),
        le→ltb-false (length (laid_out id payload)) n longer,
      )
      (rw (le→ltb-false n nla_hdrlen (omega arith)))

raw_get_value-laid_out :
    (id : ℕ) (payload : Bytes) → Fits payload → raw_get_value (laid_out id payload) ≡ ok payload
unfolding raw_get_value
raw_get_value-laid_out id payload h =
    rw (payload_in_range-laid_out id payload h, nla_len_lem id payload h)
      (ap ok (payload-laid_out id payload))

-- Bytes that fit an attribute are stored in a valid attribute, and come back as they were.
pub raw_round_trip :
    (id : ℕ) (raw : Bytes)
    → Fits raw
    → (is_valid (base_attr id raw) ≡ true) × (raw_get_value (base_attr id raw) ≡ ok raw)
raw_round_trip id raw h =
    rw (base_attr_lem id raw) (is_valid-laid_out id raw h, raw_get_value-laid_out id raw h)

int_is_valid-laid_out :
    (w id : ℕ) (payload : Bytes)
    → Fits payload
    → length payload ≡ w
    → int_is_valid w (laid_out id payload) ≡ true
unfolding int_is_valid
int_is_valid-laid_out w id payload h e =
    rw
      (
        is_valid-laid_out id payload h,
        length-laid_out id payload,
        nla_len_lem id payload h,
        e,
        nla_align_add w,
      )
      (ground arith)

int_get_value-laid_out :
    (w id value : ℕ) → value < 256 ^ w → int_get_value w (laid_out id (le_bytes w value)) ≡ value
unfolding int_get_value laid_out
int_get_value-laid_out w id value h =
    read_le-append w nla_hdrlen
      (le_bytes 2 (nla_hdrlen + length (le_bytes w value)) ++ le_bytes 2 id) (le_bytes w value)
      (padding (length (le_bytes w value))) refl (length-le_bytes w value)
    ∙ le_value-le_bytes w value h

-- A number that fits its width of `w` bytes is stored in a valid attribute, and comes back.
pub int_round_trip :
    (w id value : ℕ)
    → nla_hdrlen + w < 65536
    → value < 256 ^ w
    → (int_is_valid w (int_attr w id value) ≡ true)
      × (int_get_value w (int_attr w id value) ≡ value)
int_round_trip w id value small h =
    let e = length-le_bytes w value in
    rw (int_attr_lem w id value) (
      int_is_valid-laid_out w id (le_bytes w value) (omega (arith, e)) e,
      int_get_value-laid_out w id value h,
    )

trim_cons : ℕ → Bytes → Bytes
trim_cons b [] = if b == 0 then [] else b ∷ []
trim_cons b (x ∷ xs) = b ∷ x ∷ xs

-- A text without its trailing zeros.
pub trim : Bytes → Bytes
unfolding trim_cons
trim [] = []
trim (b ∷ bs) = trim_cons b (trim bs)

trimmed_length-cons :
    (n b : ℕ) (p : Bytes)
    → trimmed_length (suc n) (b ∷ p)
      ≡ (if trimmed_length n p == 0 then (if b == 0 then 0 else 1) else suc (trimmed_length n p))
unfolding trimmed_length
trimmed_length-cons zero b p = ground arith
trimmed_length-cons (suc n) b p = ground (arith, trimmed_length-cons n b p)

trimmed_length-le : (n : ℕ) (p : Bytes) → trimmed_length n p ≤ n
unfolding trimmed_length
trimmed_length-le zero p = omega arith
trimmed_length-le (suc n) p = ground (arith, trimmed_length-le n p)

take-trim_cons :
    (m b : ℕ) (s rest : Bytes)
    → m ≤ length s
    → take (if m == 0 then (if b == 0 then 0 else 1) else suc m) (b ∷ (s ++ rest))
      ≡ trim_cons b (take m (s ++ rest))
unfolding trim_cons
take-trim_cons zero b s rest h = ground arith
take-trim_cons (suc m) b [] rest h = absurd (omega arith)
take-trim_cons (suc m) b (x ∷ s) rest h = ground arith

trimmed_take : (s rest : Bytes) → take (trimmed_length (length s) (s ++ rest)) (s ++ rest) ≡ trim s
unfolding trim trimmed_length
trimmed_take [] rest = refl
trimmed_take (b ∷ s) rest = rw (trimmed_length-cons (length s) b (s ++ rest)) (
    take-trim_cons (trimmed_length (length s) (s ++ rest)) b s rest
      (trimmed_length-le (length s) (s ++ rest))
    ∙ ap (trim_cons b) (trimmed_take s rest))

trim-snoc_zero : (s : Bytes) → trim (s ++ 0 ∷ []) ≡ trim s
unfolding trim
trim-snoc_zero [] = refl
trim-snoc_zero (b ∷ s) = rw (trim-snoc_zero s)

string_get_value-laid_out :
    (id : ℕ) (payload : Bytes)
    → Fits payload
    → string_get_value (laid_out id payload) ≡ ok (trim payload)
unfolding string_get_value laid_out
string_get_value-laid_out id payload h =
    let n : nla_hdrlen + length payload - nla_hdrlen ≡ length payload = omega arith in
    rw (payload_in_range-laid_out id payload h, nla_len_lem id payload h, n)
      (ap ok (trimmed_take payload (padding (length payload))))

-- A string that fits an attribute is stored in a valid one, and comes back without its trailing
-- zeros.
pub string_round_trip :
    (id : ℕ) (str : Bytes)
    → nla_hdrlen + length str + 1 < 65536
    → (is_valid (string_attr id str) ≡ true)
      × (string_get_value (string_attr id str) ≡ ok (trim str))
string_round_trip id str h =
    let fits : Fits (str ++ 0 ∷ []) = omega (arith, length-append str (0 ∷ [])) in
    rw (string_attr_lem id str) (
      is_valid-laid_out id (str ++ 0 ∷ []) fits,
      string_get_value-laid_out id (str ++ 0 ∷ []) fits ∙ ap ok (trim-snoc_zero str),
    )
