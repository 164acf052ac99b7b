-- ===== src/Base/Endings.antt =====
-- Postconditions of calls that may fail or not return.
use mathlib.Core.Bool.{Bool, true, false}
use mathlib.Core.Option.{Option, none, some}
use mathlib.Core.Path.{◌≡◌, refl, subst}
use Prim.Native.Nat.{ℕ}
use platform_system_connecti.Base.Tests.{if◌then◌else◌}
use platform_system_connecti.Base.Results.{Outcome, ok, fail, hang, fault, ◌>>=◌}

-- A call that returns leaves a result of which `P` holds.
abbrev pub Ends : {A : Type 0} → (A → Type 0) → Outcome A → Type 0
Ends P (ok a) = P a
Ends P fail = Unit {0}
Ends P hang = Unit {0}
Ends P fault = Unit {0}

pub any : {A : Type 0} (m : Outcome A) → Ends (λ a. Unit {0}) m
any (ok a) = tt
any fail = tt
any hang = tt
any fault = tt

pub Ends-bind :
    {A B : Type 0} (P : A → Type 0) (Q : B → Type 0) (m : Outcome A) (f : A → Outcome B)
    → Ends P m
    → ((a : A) → P a → Ends Q (f a))
    → Ends Q (m >>= f)
Ends-bind P Q (ok a) f p q = q a p
Ends-bind P Q fail f p q = tt
Ends-bind P Q hang f p q = tt
Ends-bind P Q fault f p q = tt

pub Ends-if :
    {A : Type 0} (P : A → Type 0) (b : Bool) (x y : Outcome A)
    → Ends P x
    → Ends P y
    → Ends P (if b then x else y)
Ends-if P true x y p q = p
Ends-if P false x y p q = q

pub Ends-option :
    {A : Type 0} (P : A → Type 0) (o : Option ℕ) (x : Outcome A) (f : ℕ → Outcome A)
    → Ends P x
    → ((n : ℕ) → Ends P (f n))
    → Ends P (elim o [ none ↦ x | some n ↦ f n ])
Ends-option P none x f p q = p
Ends-option P (some n) x f p q = q n

-- The branch taken is known.
pub Ends-test :
    {A : Type 0} (P : A → Type 0) (b : Bool) (x y : Outcome A)
    → Ends P x
    → (b ≡ false → Ends P y)
    → Ends P (if b then x else y)
Ends-test P true x y p q = p
Ends-test P false x y p q = q refl

pub Ends-ok : {A : Type 0} (P : A → Type 0) (m : Outcome A) (a : A) → Ends P m → m ≡ ok a → P a
Ends-ok P m a h e = subst (Ends P) e h

pub Ends-cases :
    {A : Type 0} (P : A → Type 0) (b : Bool) (x y : Outcome A)
    → (b ≡ true → Ends P x)
    → (b ≡ false → Ends P y)
    → Ends P (if b then x else y)
Ends-cases P true x y p q = p refl
Ends-cases P false x y p q = q refl

-- A call that returns leaves its result.
pub Ends-self : {A : Type 0} (m : Outcome A) → Ends (λ a. m ≡ ok a) m
Ends-self (ok a) = refl
Ends-self fail = tt
Ends-self hang = tt
Ends-self fault = tt
