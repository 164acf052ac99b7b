-- ===== src/Parcel/Laws.antt =====
-- What `Parcel` promises: values are read in the order in which they were written.
use platform_system_connecti.Base.{
  ℕ, ◌<◌, ◌^◌, ◌%◌, ◌≡◌, refl, List, [], ◌∷◌, ◌++◌, length, Outcome, ok, arith, ltb, true,
  append_assoc,
}
use platform_system_connecti.Wire.{Bytes}
use platform_system_connecti.Parcel.{
  Kind, int32, uint32, uint64, Calls, write_list, write_typed_list, read_list, read_typed_list,
}

pub data Item : Type 0 where
  number : Kind → ℕ → Item
  byte_vector : Bytes → Item

abbrev pub width : Kind → ℕ
width int32 = 4
width uint32 = 4
width uint64 = 8

-- Numbers and sizes in their ranges.
abbrev pub FitsIn : Item → Type 0
FitsIn (number k n) = n < 256 ^ width k
FitsIn (byte_vector bytes) = length bytes < 2 ^ 31

abbrev pub AllFitIn : List Item → Type 0
AllFitIn [] = Unit {0}
AllFitIn (i ∷ items) = FitsIn i × AllFitIn items

-- `at done rest` is a parcel that holds items, with its position behind those of `done`, which are
-- listed from the last one on. A write at the end adds an item, and a read of an item moves on.
pub record IsParcel {P : Type 0} (c : Calls P) (at : List Item → List Item → P) : Type 0 where
  pub writes_number :
      (k : Kind) (n : ℕ) (done : List Item)
      → FitsIn (number k n)
      → c.write_number k n (at done []) ≡ ok (at (number k n ∷ done) [])
  pub writes_bytes :
      (bytes : Bytes) (done : List Item)
      → FitsIn (byte_vector bytes)
      → c.write_byte_vector bytes (at done []) ≡ ok (at (byte_vector bytes ∷ done) [])
  pub reads_number :
      (k : Kind) (n : ℕ) (done rest : List Item)
      → FitsIn (number k n)
      → c.read_number k (at done (number k n ∷ rest)) ≡ ok (n, at (number k n ∷ done) rest)
  pub reads_bytes :
      (bytes : Bytes) (done rest : List Item)
      → FitsIn (byte_vector bytes)
      → c.read_byte_vector (at done (byte_vector bytes ∷ rest))
        ≡ ok (bytes, at (byte_vector bytes ∷ done) rest)

-- The items behind the position once they are passed.
abbrev pub passed : List Item → List Item → List Item
passed [] done = done
passed (i ∷ items) done = passed items (i ∷ done)

pub passed-append : (xs ys done : List Item) → passed (xs ++ ys) done ≡ passed ys (passed xs done)
passed-append [] ys done = refl
passed-append (x ∷ xs) ys done = passed-append xs ys (x ∷ done)

pub all_append : (xs ys : List Item) → AllFitIn (xs ++ ys) → AllFitIn xs × AllFitIn ys
all_append [] ys h = (tt, h)
all_append (x ∷ xs) ys (h, all) = let (a, b) = all_append xs ys all in ((h, a), b)

-- Objects of a type are written as items, and read back from them.
pub record RoundTrip {P : Type 0} (at : List Item → List Item → P) {A : Type 0}
    (write : A → P → Outcome P) (read : P → Outcome (A × P)) (items : A → List Item)
    (IsSound : A → Type 0) : Type 0 where
  pub written :
      (x : A) (done : List Item)
      → IsSound x
      → AllFitIn (items x)
      → write x (at done []) ≡ ok (at (passed (items x) done) [])
  pub read_back :
      (x : A) (done rest : List Item)
      → IsSound x
      → AllFitIn (items x)
      → read (at done (items x ++ rest)) ≡ ok (x, at (passed (items x) done) rest)

abbrev pub AllSound : {A : Type 0} → (A → Type 0) → List A → Type 0
AllSound IsSound [] = Unit {0}
AllSound IsSound (x ∷ xs) = IsSound x × AllSound IsSound xs

abbrev pub list_items : {A : Type 0} → (A → List Item) → List A → List Item
list_items items [] = []
list_items items (x ∷ xs) = number int32 1 ∷ (items x ++ list_items items xs)

abbrev pub typed_items : {A : Type 0} → (A → List Item) → List A → List Item
typed_items items xs = number int32 (length xs) ∷ list_items items xs

-- Lists whose length an `int32_t` holds.
abbrev pub SoundList : {A : Type 0} → (A → Type 0) → List A → Type 0
SoundList IsSound xs = (length xs < 2 ^ 31) × AllSound IsSound xs

module _ {P : Type 0} {c : Calls P} {at : List Item → List Item → P} (p : IsParcel c at)
    {A : Type 0} {write : A → P → Outcome P} {read : P → Outcome (A × P)} {items : A → List Item}
    {IsSound : A → Type 0} (r : RoundTrip at write read items IsSound) where
  list-written :
      (xs : List A) (done : List Item)
      → AllSound IsSound xs
      → AllFitIn (list_items items xs)
      → write_list c write xs (at done []) ≡ ok (at (passed (list_items items xs) done) [])
  unfolding write_list
  list-written [] done s h = refl
  list-written (x ∷ xs) done (s, sound) (one, h) =
      let (a, b) = all_append (items x) (list_items items xs) h in
      rw
        (
          p.writes_number int32 1 done one,
          r.written x (number int32 1 ∷ done) s a,
          passed-append (items x) (list_items items xs) (number int32 1 ∷ done),
        )
        (list-written xs (passed (items x) (number int32 1 ∷ done)) sound b)

  list-read_back :
      (xs : List A) (done rest : List Item)
      → AllSound IsSound xs
      → AllFitIn (list_items items xs)
      → read_list c read (length xs) (at done (list_items items xs ++ rest))
        ≡ ok (xs, at (passed (list_items items xs) done) rest)
  unfolding read_list
  list-read_back [] done rest s h = refl
  list-read_back (x ∷ xs) done rest (s, sound) (one, h) =
      let (a, b) = all_append (items x) (list_items items xs) h in
      rw
        (
          p.reads_number int32 1 done ((items x ++ list_items items xs) ++ rest) one,
          append_assoc (items x) (list_items items xs) rest,
          r.read_back x (number int32 1 ∷ done) (list_items items xs ++ rest) s a,
          list-read_back xs (passed (items x) (number int32 1 ∷ done)) rest sound b,
          passed-append (items x) (list_items items xs) (number int32 1 ∷ done),
        )
        refl

  -- A list whose objects make round trips makes one itself.
  pub typed_list-RoundTrip :
      RoundTrip at
        (write_typed_list c write)
        (read_typed_list c read)
        (typed_items items)
        (SoundList IsSound)
  unfolding write_typed_list read_typed_list
  typed_list-RoundTrip = record {
    written = λ xs done (short, sound) (n, h).
        let whole : length xs % 2 ^ 32 ≡ length xs = omega (arith, short) in
        rw (whole, p.writes_number int32 (length xs) done n)
          (list-written xs (number int32 (length xs) ∷ done) sound h);
    read_back = λ xs done rest (short, sound) (n, h).
        let inside : ltb (length xs) (2 ^ 31) ≡ true = ground (arith, short) in
        rw (p.reads_number int32 (length xs) done (list_items items xs ++ rest) n, inside)
          (list-read_back xs (number int32 (length xs) ∷ done) rest sound h);
  }
