-- ===== src/Prelude/Panic.antt =====
-- What kernel code comes to: a value, or `panic`, which halts the machine with its message.
use Prim.Native.String.{String}
use mathlib.Core.Path.{◌≡◌, refl}

pub data Outcome {ℓ} (A : Type ℓ) : Type ℓ where
  ok : A → Outcome A
  panic : String → Outcome A

infixl 5 ◌>>=◌
abbrev pub ◌>>=◌ {ℓ κ} : {A : Type ℓ} {B : Type κ} → Outcome A → (A → Outcome B) → Outcome B
ok a >>= f = f a
panic s >>= f = panic s

-- A C string literal is a `String`; its bytes are given where they are read.
pub ok_injective {ℓ} : {A : Type ℓ} {a b : A} → ok a ≡ ok b → a ≡ b
ok_injective h = cc

-- A chain that comes to a value has come through its first step, here `step`.
pub chain_ok {ℓ κ} :
    {A : Type ℓ} {B : Type κ} {y : B} (step : Outcome A) (next : A → Outcome B)
    → (step >>= next) ≡ ok y
    → (x : A) × (step ≡ ok x) × (next x ≡ ok y)
chain_ok (panic message) next halted = cc
chain_ok (ok x) next same = (x, refl, same)
