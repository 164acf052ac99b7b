-- ===== src/Base/Results.antt =====
-- What a call comes to. The functions modelled here report failure by `false` and write their
-- result through a pointer: `ok` carries that result. A call may also loop for ever or end the
-- process.
use mathlib.Core.Path.{◌≡◌}
use mathlib.Core.Bool.{Bool, true, false}
use mathlib.Core.Option.{Option, none, some}

pub data Outcome {ℓ} (A : Type ℓ) : Type ℓ where
  ok : A → Outcome A
  fail : Outcome A
  -- The loop makes no progress, or the model's fuel is used up.
  hang : Outcome A
  -- A read outside the buffer or a call through a null pointer, which C++ leaves undefined, or a
  -- failed CHECK, which ends the process.
  fault : Outcome A

-- A test that answers `false` where it does not hold.
abbrev pub guard : Bool → Outcome (Unit {0})
guard false = fail
guard true = ok tt

infixl 5 ◌>>=◌ ◌>>◌
abbrev pub ◌>>=◌ {ℓ m} : {X : Type ℓ} {Y : Type m} → Outcome X → (X → Outcome Y) → Outcome Y
fault >>= next = fault
hang >>= next = hang
fail >>= next = fail
ok x >>= next = next x

-- A step without a result.
abbrev pub ◌>>◌ {m} : {Y : Type m} → Outcome (Unit {0}) → Outcome Y → Outcome Y
first >> next = first >>= λ done. next

-- `if (!call(&x)) { … }` where the caller goes on with a default.
abbrev pub or_else {ℓ} : {A : Type ℓ} → Outcome A → Outcome A → Outcome A
or_else (ok a) d = ok a
or_else fail d = d
or_else hang d = hang
or_else fault d = fault

-- The result as a caller keeps it that goes on after a failure: none if the call failed.
abbrev pub attempt {ℓ} : {A : Type ℓ} → Outcome A → Outcome (Option A)
attempt (ok a) = ok (some a)
attempt fail = ok none
attempt hang = hang
attempt fault = fault

pub ok-injective : {A : Type 0} {a b : A} → ok a ≡ ok b → a ≡ b
ok-injective e = cc
