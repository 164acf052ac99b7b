-- ===== src/Attribute/Nested.antt =====
-- A nested attribute that is filled one attribute after the other, and what is found in it.
use platform_system_connecti.Base.{
  ℕ, zero, suc, ◌+◌, ◌-◌, ◌/◌, ◌%◌, ◌<◌, ◌≡◌, refl, ap, ◌∙◌, Bool, true, [], ◌∷◌, ◌++◌, map,
  append_assoc, append-nil, length, length-append, arith, Outcome, ok, ◌>>=◌, le→ltb-false,
}
use platform_system_connecti.Wire.{Bytes, le_bytes, nla_hdrlen, nla_align, nla_len, nla_align_idem}
use platform_system_connecti.Attribute.{base_attr, nested_attr, add_attribute, attribute_list}
use platform_system_connecti.Attribute.Layout.{
  laid_out, Fits, base_attr_lem, nested_attr_lem, length-laid_out,
}
use platform_system_connecti.Attribute.Search.{
  Attrs, encode, AllFit, front_size, front_take, front_drop, front_header, front_room,
}

-- A byte count that needs no padding.
abbrev pub IsAligned : Bytes → Type 0
IsAligned d = nla_align (length d) ≡ length d

pub base_attr-IsAligned : (id : ℕ) (raw : Bytes) → IsAligned (base_attr id raw)
base_attr-IsAligned id raw =
    rw (base_attr_lem id raw, length-laid_out id raw) (nla_align_idem (nla_hdrlen + length raw))

aligned_sum : (a b : ℕ) → nla_align a ≡ a → nla_align b ≡ b → nla_align (a + b) ≡ a + b
unfolding nla_align
aligned_sum a b h k = omega arith

pub append-IsAligned : (a b : Bytes) → IsAligned a → IsAligned b → IsAligned (a ++ b)
append-IsAligned a b h k = rw (length-append a b) (aligned_sum (length a) (length b) h k)

pub encode-IsAligned : (attrs : Attrs) → IsAligned (encode attrs)
unfolding encode nla_align
encode-IsAligned [] = refl
encode-IsAligned ((i, p) ∷ attrs) =
    append-IsAligned (base_attr i p) (encode attrs) (base_attr-IsAligned i p)
      (encode-IsAligned attrs)

pub laid_out_aligned :
    (id : ℕ) (p : Bytes)
    → IsAligned p
    → laid_out id p ≡ le_bytes 2 (nla_hdrlen + length p) ++ (le_bytes 2 id ++ p)
unfolding laid_out
laid_out_aligned id p h =
    let none_left : nla_align (length p) - length p ≡ 0 = omega arith in
    rw (none_left, append-nil p)

le_bytes_two : (m n : ℕ) → m % 65536 ≡ n % 65536 → le_bytes 2 m ≡ le_bytes 2 n
le_bytes_two m n h =
    let low : m % 256 ≡ n % 256 = omega arith in
    let high : m / 256 % 256 ≡ n / 256 % 256 = omega arith in rw (low, high)

nla_len-le_bytes : (n : ℕ) (rest : Bytes) → nla_len (le_bytes 2 n ++ rest) ≡ n % 65536
unfolding nla_len
nla_len-le_bytes n rest = omega arith

-- Appending to an aligned nested attribute extends its payload; the length field wraps at 2^16.
pub add_attribute-laid_out :
    (id : ℕ) (p a : Bytes)
    → IsAligned p
    → IsAligned a
    → add_attribute (laid_out id p) a ≡ laid_out id (p ++ a)
unfolding add_attribute
add_attribute-laid_out id p a h k = rw (laid_out_aligned id (p ++ a) (append-IsAligned p a h k)) (
    rw (laid_out_aligned id p h) (
      ap (λ t. t ++ (le_bytes 2 id ++ (p ++ a)))
        (le_bytes_two (nla_len (le_bytes 2 (nla_hdrlen + length p) ++ rest) + length a)
          (nla_hdrlen + length (p ++ a))
          (omega (arith, nla_len-le_bytes (nla_hdrlen + length p) rest, length-append p a)))))
  where
    rest : Bytes
    rest = le_bytes 2 id ++ (p ++ a)

unfoldable pub build : Bytes → Attrs → Bytes
build d [] = d
build d ((i, p) ∷ attrs) = build (add_attribute d (base_attr i p)) attrs

build-laid_out :
    (id : ℕ) (p : Bytes) (attrs : Attrs)
    → IsAligned p
    → build (laid_out id p) attrs ≡ laid_out id (p ++ encode attrs)
unfolding build encode
build-laid_out id p [] h = rw (append-nil p)
build-laid_out id p ((i, q) ∷ attrs) h =
    rw (add_attribute-laid_out id p (base_attr i q) h (base_attr-IsAligned i q)) (
      build-laid_out id (p ++ base_attr i q) attrs
        (append-IsAligned p (base_attr i q) h (base_attr-IsAligned i q))
      ∙ ap (laid_out id) (append_assoc p (base_attr i q) (encode attrs)))

-- Filling an empty nested attribute gives the attribute whose payload is the entries' bytes.
pub build-nested :
    (id : ℕ) (attrs : Attrs) → build (nested_attr id) attrs ≡ base_attr id (encode attrs)
build-nested id attrs =
    rw (nested_attr_lem id, base_attr_lem id (encode attrs))
      (build-laid_out id [] attrs (unfold nla_align in refl))

-- The loop over the entries of a list, for a value that each entry has.
module _ {ℓ} {A : Type ℓ} (valid : Bytes → Bool) (value : Bytes → Outcome A)
    (g : ℕ × Bytes → A) where
  abbrev pub ReadsAll : Attrs → Type ℓ
  ReadsAll [] = Unit {ℓ}
  ReadsAll ((i, p) ∷ attrs) =
      (valid (base_attr i p) ≡ true) × (value (base_attr i p) ≡ ok (g (i, p))) × ReadsAll attrs

  list_step :
      (i : ℕ) (p rest : Bytes) (f : ℕ)
      → i < 65536
      → Fits p
      → valid (base_attr i p) ≡ true
      → value (base_attr i p) ≡ ok (g (i, p))
      → attribute_list valid value (suc f) (base_attr i p ++ rest)
        ≡ (attribute_list valid value f rest >>= λ vs. ok (g (i, p) ∷ vs))
  unfolding attribute_list
  list_step i p rest f small fits ok_valid ok_value = rw (
    front_take i p rest small fits,
    front_drop i p rest small fits,
    front_size i p rest small fits,
    le→ltb-false (length (base_attr i p ++ rest)) nla_hdrlen
        (omega (arith, front_header i p rest small fits, front_room i p rest small fits)),
    le→ltb-false (length (base_attr i p ++ rest)) (length (base_attr i p))
        (front_room i p rest small fits),
    ok_valid,
    ok_value,
  )

  pub attribute_list-encode :
      (attrs : Attrs) (f : ℕ)
      → AllFit attrs
      → ReadsAll attrs
      → length (encode attrs) < f
      → attribute_list valid value f (encode attrs) ≡ ok (map g attrs)
  unfolding encode
  attribute_list-encode attrs zero h r e = absurd (omega arith)
  attribute_list-encode [] (suc f) h r e = unfold attribute_list in refl
  attribute_list-encode ((i, p) ∷ attrs) (suc f) (small, fits, all) (v, w, r) e = rw (
    list_step i p (encode attrs) f small fits v w,
    attribute_list-encode attrs f all r (
        omega (
          arith,
          front_header i p (encode attrs) small fits,
          length-append (base_attr i p) (encode attrs),
        )),
  )
