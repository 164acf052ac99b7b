-- ===== src/Attribute/Loops.antt =====
-- Which searches end, and what a search that ends may return, in a buffer of any bytes.
use platform_system_connecti.Base.{
  ℕ, zero, suc, ◌≤◌, ◌<◌, ◌≡◌, ◌≢◌, ◌↔◌, refl, sym, ap, ◌∙◌, [], ◌++◌, length, take, drop,
  length-drop, length-take, take-append-drop, append_assoc, arith, ok, hang, inl, inr, ◌⊎◌,
}
use platform_system_connecti.Wire.{Bytes, nla_hdrlen, nla_align, nla_len, nla_type, nla_align-pos}
use platform_system_connecti.Attribute.{get_attribute_impl}

-- The loop comes to a header of length 0 with another id, from which `ptr` does not move on.
pub data Stuck (id : ℕ) : Bytes → Type 0 where
  here :
      {buf : Bytes} → nla_hdrlen ≤ length buf → nla_type buf ≢ id → nla_len buf ≡ 0 → Stuck id buf
  later :
      {buf : Bytes}
      → nla_hdrlen ≤ length buf
      → nla_type buf ≢ id
      → Stuck id (drop (nla_align (nla_len buf)) buf)
      → Stuck id buf

zero_or_pos : (n : ℕ) → (n ≡ 0) ⊎ (0 < n)
zero_or_pos zero = inl refl
zero_or_pos (suc n) = inr (omega arith)

stays : (buf : Bytes) → nla_len buf ≡ 0 → drop (nla_align (nla_len buf)) buf ≡ buf
unfolding nla_align
stays buf l = rw l

pub Stuck-hang : {id : ℕ} (f : ℕ) {buf : Bytes} → Stuck id buf → get_attribute_impl f buf id ≡ hang
unfolding get_attribute_impl
Stuck-hang zero s = refl
Stuck-hang {id} (suc f) {buf} (here h t l) =
    ground (arith, stays buf l, Stuck-hang f {buf = buf} (here h t l))
Stuck-hang {id} (suc f) {buf} (later h t s) =
    ground (arith, Stuck-hang f {buf = drop (nla_align (nla_len buf)) buf} s)

-- One round that does not end the loop.
round :
    (f id : ℕ) (buf : Bytes)
    → get_attribute_impl (suc f) buf id ≡ hang
    → (nla_hdrlen ≤ length buf)
      × (nla_type buf ≢ id)
      × (get_attribute_impl f (drop (nla_align (nla_len buf)) buf) id ≡ hang)
unfolding get_attribute_impl
round f id buf e = (ground arith, ground arith, ground arith)

hang-Stuck :
    (f id : ℕ) (buf : Bytes) → length buf < f → get_attribute_impl f buf id ≡ hang → Stuck id buf
hang-Stuck zero id buf h e = absurd (omega arith)
hang-Stuck (suc f) id buf h e =
    let (room, other, next) = round f id buf e in
    elim (zero_or_pos (nla_len buf)) [
      | inl z ↦ here room other z
      | inr p ↦ later room other (
          hang-Stuck f id (drop (nla_align (nla_len buf)) buf)
            (omega
              (arith, nla_align-pos (nla_len buf) p, length-drop (nla_align (nla_len buf)) buf))
            next)
    ]

-- On more fuel than bytes, the search runs for ever exactly on the buffers in which its loop comes
-- to a header of length 0 with another id, before any header with the id.
pub impl-hangs_iff :
    (f id : ℕ) (buf : Bytes) → length buf < f → (get_attribute_impl f buf id ≡ hang) ↔ Stuck id buf
impl-hangs_iff f id buf h = (hang-Stuck f id buf h, Stuck-hang f)

-- The range `a` lies in the buffer, starts with a header of type `id`, and is as long as that
-- header says, rounded up.
pub record FoundIn (id : ℕ) (buf a : Bytes) : Type 0 where
  pub before : Bytes
  pub after : Bytes
  pub splits : buf ≡ before ++ (a ++ after)
  pub of_type : nla_type (a ++ after) ≡ id
  pub size : length a ≡ nla_align (nla_len (a ++ after))

found_here :
    (id n : ℕ) (buf : Bytes)
    → nla_type buf ≡ id
    → n ≡ nla_align (nla_len buf)
    → n ≤ length buf
    → FoundIn id buf (take n buf)
found_here id n buf t e h = record {
  before = [];
  after = drop n buf;
  splits = sym (take-append-drop n buf);
  of_type = rw (take-append-drop n buf) t;
  size = rw (take-append-drop n buf) (omega (arith, length-take n buf));
}

found_later : (id n : ℕ) (buf a : Bytes) → FoundIn id (drop n buf) a → FoundIn id buf a
found_later id n buf a found = record {
  before = take n buf ++ found.before;
  after = found.after;
  splits =
      sym (take-append-drop n buf)
      ∙ ap (◌++◌ (take n buf)) found.splits
      ∙ sym (append_assoc (take n buf) found.before (a ++ found.after));
  of_type = found.of_type;
  size = found.size;
}

-- One round that finds the attribute, or goes on.
round_ok :
    (f id : ℕ) (buf a : Bytes)
    → get_attribute_impl (suc f) buf id ≡ ok a
    → ((nla_type buf ≡ id)
        × (nla_align (nla_len buf) ≤ length buf)
        × (a ≡ take (nla_align (nla_len buf)) buf))
      ⊎ (get_attribute_impl f (drop (nla_align (nla_len buf)) buf) id ≡ ok a)
unfolding get_attribute_impl
round_ok f id buf a e = ground arith

-- What a search on any bytes returns lies in the buffer, under a header with the id, and is as long
-- as that header says with its padding.
pub impl-FoundIn :
    (f id : ℕ) (buf a : Bytes) → get_attribute_impl f buf id ≡ ok a → FoundIn id buf a
impl-FoundIn zero id buf a e = absurd (unfold get_attribute_impl in cc)
impl-FoundIn (suc f) id buf a e = elim (round_ok f id buf a e) [
  | inl (t, h, eq) ↦ rw eq (found_here id (nla_align (nla_len buf)) buf t refl h)
  | inr next ↦
      found_later id (nla_align (nla_len buf)) buf a
        (impl-FoundIn f id (drop (nla_align (nla_len buf)) buf) a next)
]
