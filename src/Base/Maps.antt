-- ===== src/Base/Maps.antt =====
-- `std::map` as a list of entries in the order of their keys.
use Prim.Native.Nat.{ℕ}
use mathlib.Core.Path.{◌≡◌, refl}
use mathlib.Core.Logic.{◌↔◌, inl, inr}
use mathlib.Core.Bool.{Bool, true, false, ◌&&◌}
use mathlib.Core.Option.{Option, none, some}
use mathlib.Core.List.{List, [], ◌∷◌}
use native.Mathlib.Omega.{arith}
use platform_system_connecti.Base.Tests.{ltb, ◌==◌, ==_iff, if◌then◌else◌, Bool-cases}

-- `operator==` and `operator<` of the keys.
pub record Key {ℓ} (K : Type ℓ) : Type ℓ where
  pub same : K → K → Bool
  pub same_iff : (a b : K) → (same a b ≡ true) ↔ (a ≡ b)
  pub before : K → K → Bool

instance abbrev pub number_key : Key ℕ
number_key = record { same = ◌==◌; same_iff = ==_iff; before = ltb }

-- Texts, by their bytes.
unfoldable pub same_text : List ℕ → List ℕ → Bool
same_text [] [] = true
same_text [] (c ∷ cs) = false
same_text (b ∷ bs) [] = false
same_text (b ∷ bs) (c ∷ cs) = (b == c) && same_text bs cs

unfoldable pub before_text : List ℕ → List ℕ → Bool
before_text [] [] = false
before_text [] (c ∷ cs) = true
before_text (b ∷ bs) [] = false
before_text (b ∷ bs) (c ∷ cs) = let rest = before_text bs cs in if b == c then rest else ltb b c

pub same_text_iff : (a b : List ℕ) → (same_text a b ≡ true) ↔ (a ≡ b)
unfolding same_text
same_text_iff [] [] = (λ h. refl, λ h. refl)
same_text_iff [] (c ∷ cs) = (λ h. cc, λ h. cc)
same_text_iff (b ∷ bs) [] = (λ h. cc, λ h. cc)
same_text_iff (b ∷ bs) (c ∷ cs) = ground (arith, same_text_iff bs cs)

instance abbrev pub text_key : Key (List ℕ)
text_key = record { same = same_text; same_iff = same_text_iff; before = before_text }

module _ {ℓ κ} {K : Type ℓ} {V : Type κ} ⦃key : Key K⦄ where
  unfoldable pub find : K → List (K × V) → Option V
  find k [] = none
  find k ((j, v) ∷ entries) = if key.same k j then some v else find k entries

  -- `entries[k] = v`: in place of the entry of the key, or in front of the first larger one.
  unfoldable pub put : K → V → List (K × V) → List (K × V)
  put k v [] = (k, v) ∷ []
  put k v ((j, w) ∷ entries) =
      let rest = put k v entries in
      if key.same k j
      then (k, v) ∷ entries
      else if key.before k j
      then (k, v) ∷ (j, w) ∷ entries
      else (j, w) ∷ rest

  unfoldable pub remove : K → List (K × V) → List (K × V)
  remove k [] = []
  remove k ((j, w) ∷ entries) =
      let rest = remove k entries in if key.same k j then rest else (j, w) ∷ rest

  pub find-put :
      (j k : K) (v : V) (m : List (K × V))
      → find j (put k v m) ≡ (if key.same j k then some v else find j m)
  unfolding find put
  find-put j k v [] = refl
  find-put j k v ((i, w) ∷ m) =
      ground (arith, find-put j k v m, key.same_iff j k, key.same_iff k i, key.same_iff j i)

  pub find-remove :
      (j k : K) (m : List (K × V)) → find j (remove k m) ≡ (if key.same j k then none else find j m)
  unfolding find remove
  find-remove j k [] = ground arith
  find-remove j k ((i, w) ∷ m) =
      ground (arith, find-remove j k m, key.same_iff j k, key.same_iff k i, key.same_iff j i)

-- Entries whose values are changed one by one.
module _ {ℓ κ μ} {K : Type ℓ} {V : Type κ} {W : Type μ} ⦃key : Key K⦄ (f : K → V → W) where
  abbrev pub each : List (K × V) → List (K × W)
  each [] = []
  each ((k, v) ∷ entries) = (k, f k v) ∷ each entries

  pub find-each :
      (k : K) (m : List (K × V))
      → find k (each m) ≡ elim (find k m) [ none ↦ none | some v ↦ some (f k v) ]
  unfolding find
  find-each k [] = refl
  find-each k ((j, v) ∷ m) = elim (Bool-cases (key.same k j)) [
    | inl e ↦ rw (e, (key.same_iff k j).0 e)
    | inr e ↦ rw e (find-each k m)
  ]

  pub put-each : (k : K) (v : V) (m : List (K × V)) → put k (f k v) (each m) ≡ each (put k v m)
  unfolding put
  put-each k v [] = refl
  put-each k v ((j, w) ∷ m) = ground (arith, put-each k v m)
