-- ===== src/Base/Lists.antt =====
-- Lists measured and cut by native numbers.
use Prim.Native.Nat.{ℕ, zero, suc, ◌+◌, ◌-◌, ◌≤◌, min}
use mathlib.Core.Path.{◌≡◌, refl, ap}
use mathlib.Core.List.{List, [], ◌∷◌, ◌++◌, append-nil}
use native.Mathlib.Omega.{arith}

module _ {ℓ} {A : Type ℓ} where
  abbrev pub length : List A → ℕ
  length [] = 0
  length (x ∷ xs) = suc (length xs)

  abbrev pub take : ℕ → List A → List A
  take zero xs = []
  take (suc n) [] = []
  take (suc n) (x ∷ xs) = x ∷ take n xs

  abbrev pub drop : ℕ → List A → List A
  drop zero xs = xs
  drop (suc n) [] = []
  drop (suc n) (x ∷ xs) = drop n xs

  abbrev pub replicate : ℕ → A → List A
  replicate zero a = []
  replicate (suc n) a = a ∷ replicate n a

  -- `vector::resize`: cut to `n` elements, or filled up to `n` with copies of `a`.
  abbrev pub resize : ℕ → A → List A → List A
  resize n a xs = take n xs ++ replicate (n - length xs) a

  -- Overwrites the elements from `n` on; what would fall behind the end is not written.
  abbrev pub write_at : ℕ → List A → List A → List A
  write_at zero [] xs = xs
  write_at zero (v ∷ vs) [] = []
  write_at zero (v ∷ vs) (x ∷ xs) = v ∷ write_at zero vs xs
  write_at (suc n) vs [] = []
  write_at (suc n) vs (x ∷ xs) = x ∷ write_at n vs xs

module _ {ℓ} {A : Type ℓ} where
  pub length-append : (xs ys : List A) → length (xs ++ ys) ≡ length xs + length ys
  length-append [] ys = omega arith
  length-append (x ∷ xs) ys = omega (arith, length-append xs ys)

  pub length-take : (n : ℕ) (xs : List A) → length (take n xs) ≡ min n (length xs)
  length-take zero xs = omega arith
  length-take (suc n) [] = omega arith
  length-take (suc n) (x ∷ xs) = omega (arith, length-take n xs)

  pub length-drop : (n : ℕ) (xs : List A) → length (drop n xs) ≡ length xs - n
  length-drop zero xs = omega arith
  length-drop (suc n) [] = omega arith
  length-drop (suc n) (x ∷ xs) = omega (arith, length-drop n xs)

  pub length-replicate : (n : ℕ) (a : A) → length (replicate n a) ≡ n
  length-replicate zero a = refl
  length-replicate (suc n) a = ap suc (length-replicate n a)

  pub length-write_at : (n : ℕ) (vs xs : List A) → length (write_at n vs xs) ≡ length xs
  length-write_at zero [] xs = refl
  length-write_at zero (v ∷ vs) [] = refl
  length-write_at zero (v ∷ vs) (x ∷ xs) = ap suc (length-write_at zero vs xs)
  length-write_at (suc n) vs [] = refl
  length-write_at (suc n) vs (x ∷ xs) = ap suc (length-write_at n vs xs)

  -- At the length of the first part the second is cut off, or left.
  pub take-append : (n : ℕ) (xs ys : List A) → length xs ≡ n → take n (xs ++ ys) ≡ xs
  take-append zero [] ys h = refl
  take-append zero (x ∷ xs) ys h = absurd (omega arith)
  take-append (suc n) [] ys h = absurd (omega arith)
  take-append (suc n) (x ∷ xs) ys h = ap (◌∷◌ x) (take-append n xs ys (omega arith))

  pub drop-append : (n : ℕ) (xs ys : List A) → length xs ≡ n → drop n (xs ++ ys) ≡ ys
  drop-append zero [] ys h = refl
  drop-append zero (x ∷ xs) ys h = absurd (omega arith)
  drop-append (suc n) [] ys h = absurd (omega arith)
  drop-append (suc n) (x ∷ xs) ys h = drop-append n xs ys (omega arith)

  pub take_all : (n : ℕ) (xs : List A) → length xs ≤ n → take n xs ≡ xs
  take_all zero [] h = refl
  take_all zero (x ∷ xs) h = absurd (omega arith)
  take_all (suc n) [] h = refl
  take_all (suc n) (x ∷ xs) h = ap (◌∷◌ x) (take_all n xs (omega arith))

  pub drop_all : (n : ℕ) (xs : List A) → length xs ≤ n → drop n xs ≡ []
  drop_all zero [] h = refl
  drop_all zero (x ∷ xs) h = absurd (omega arith)
  drop_all (suc n) [] h = refl
  drop_all (suc n) (x ∷ xs) h = drop_all n xs (omega arith)

  -- A write that fills a block exactly replaces it.
  pub write_at-block :
      (n : ℕ) (pre vs old post : List A)
      → length pre ≡ n
      → length vs ≡ length old
      → write_at n vs (pre ++ (old ++ post)) ≡ pre ++ (vs ++ post)
  write_at-block zero [] [] [] post h k = refl
  write_at-block zero [] [] (o ∷ old) post h k = absurd (omega arith)
  write_at-block zero [] (v ∷ vs) [] post h k = absurd (omega arith)
  write_at-block zero [] (v ∷ vs) (o ∷ old) post h k =
      ap (◌∷◌ v) (write_at-block zero [] vs old post refl (omega arith))
  write_at-block zero (x ∷ pre) vs old post h k = absurd (omega arith)
  write_at-block (suc n) [] vs old post h k = absurd (omega arith)
  write_at-block (suc n) (x ∷ pre) vs old post h k =
      ap (◌∷◌ x) (write_at-block n pre vs old post (omega arith) k)

  pub replicate-add : (m n : ℕ) (a : A) → replicate (m + n) a ≡ replicate m a ++ replicate n a
  replicate-add zero n a = let e : 0 + n ≡ n = omega arith in rw e
  replicate-add (suc m) n a =
      let e : suc m + n ≡ suc (m + n) = omega arith in rw e (ap (◌∷◌ a) (replicate-add m n a))

  pub resize-nil : (n : ℕ) (a : A) → resize n a [] ≡ replicate n a
  resize-nil zero a = refl
  resize-nil (suc n) a = let e : suc n - 0 ≡ suc n = omega arith in rw e

  pub take-append-drop : (n : ℕ) (xs : List A) → take n xs ++ drop n xs ≡ xs
  take-append-drop zero xs = refl
  take-append-drop (suc n) [] = refl
  take-append-drop (suc n) (x ∷ xs) = ap (◌∷◌ x) (take-append-drop n xs)

  pub resize_cut : (n : ℕ) (a : A) (xs ys : List A) → length xs ≡ n → resize n a (xs ++ ys) ≡ xs
  resize_cut n a xs ys h =
      let full : n - length (xs ++ ys) ≡ 0 = omega (arith, length-append xs ys) in
      rw (full, take-append n xs ys h) (append-nil xs)

  pub resize_pad :
      (n : ℕ) (a : A) (xs : List A)
      → length xs ≤ n
      → resize n a xs ≡ xs ++ replicate (n - length xs) a
  resize_pad n a xs h = rw (take_all n xs h)

  -- A write is seen by no read in front of it or behind it, and by the read of its place.
  pub take-drop-write_at :
      (w off o : ℕ) (vs xs : List A)
      → off + w ≤ o
      → take w (drop off (write_at o vs xs)) ≡ take w (drop off xs)
  take-drop-write_at zero off o vs xs h = refl
  take-drop-write_at (suc w) zero zero vs xs h = absurd (omega arith)
  take-drop-write_at (suc w) zero (suc o) vs [] h = refl
  take-drop-write_at (suc w) zero (suc o) vs (x ∷ xs) h =
      ap (◌∷◌ x) (take-drop-write_at w zero o vs xs (omega arith))
  take-drop-write_at (suc w) (suc off) zero vs xs h = absurd (omega arith)
  take-drop-write_at (suc w) (suc off) (suc o) vs [] h = refl
  take-drop-write_at (suc w) (suc off) (suc o) vs (x ∷ xs) h =
      take-drop-write_at (suc w) off o vs xs (omega arith)

  pub drop-write_at :
      (off o : ℕ) (vs xs : List A) → o + length vs ≤ off → drop off (write_at o vs xs) ≡ drop off xs
  drop-write_at zero zero [] xs h = refl
  drop-write_at zero zero (v ∷ vs) xs h = absurd (omega arith)
  drop-write_at zero (suc o) vs xs h = absurd (omega arith)
  drop-write_at (suc off) zero [] xs h = refl
  drop-write_at (suc off) zero (v ∷ vs) [] h = refl
  drop-write_at (suc off) zero (v ∷ vs) (x ∷ xs) h = drop-write_at off zero vs xs (omega arith)
  drop-write_at (suc off) (suc o) vs [] h = refl
  drop-write_at (suc off) (suc o) vs (x ∷ xs) h = drop-write_at off o vs xs (omega arith)

  pub write_at_self :
      (o : ℕ) (vs xs : List A)
      → o + length vs ≤ length xs
      → take (length vs) (drop o (write_at o vs xs)) ≡ vs
  write_at_self zero [] xs h = refl
  write_at_self zero (v ∷ vs) [] h = absurd (omega arith)
  write_at_self zero (v ∷ vs) (x ∷ xs) h = ap (◌∷◌ v) (write_at_self zero vs xs (omega arith))
  write_at_self (suc o) vs [] h = absurd (omega arith)
  write_at_self (suc o) vs (x ∷ xs) h = write_at_self o vs xs (omega arith)

  pub drop-append_le :
      (n : ℕ) (xs ys : List A) → n ≤ length xs → drop n (xs ++ ys) ≡ drop n xs ++ ys
  drop-append_le zero xs ys h = refl
  drop-append_le (suc n) [] ys h = absurd (omega arith)
  drop-append_le (suc n) (x ∷ xs) ys h = drop-append_le n xs ys (omega arith)

  pub take-drop-append :
      (w off : ℕ) (xs ys : List A)
      → off + w ≤ length xs
      → take w (drop off (xs ++ ys)) ≡ take w (drop off xs)
  take-drop-append zero off xs ys h = refl
  take-drop-append (suc w) zero [] ys h = absurd (omega arith)
  take-drop-append (suc w) zero (x ∷ xs) ys h =
      ap (◌∷◌ x) (take-drop-append w zero xs ys (omega arith))
  take-drop-append (suc w) (suc off) [] ys h = absurd (omega arith)
  take-drop-append (suc w) (suc off) (x ∷ xs) ys h =
      take-drop-append (suc w) off xs ys (omega arith)
