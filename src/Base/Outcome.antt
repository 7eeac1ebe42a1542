-- ===== src/Base/Outcome.antt =====
-- What a kernel routine comes to: a value, a stopped machine, an access that C leaves undefined, or
-- a model loop whose fuel is spent.
use mathlib.Core.Path.{◌≡◌, refl, ap}
use mathlib.Core.Bool.{Bool, true, false}
use mathlib.Core.Option.{Option, none, some}

-- `panic` is a call of `panic`, or an `assert` of klib/lib.h that fails: both halt the machine.
pub data Run {ℓ} (A : Type ℓ) : Type ℓ where
  ok : A → Run A
  panic : Run A
  fault : Run A
  out_of_fuel : Run A

infixl 5 ◌>>=◌ ◌>>◌
abbrev pub ◌>>=◌ {ℓ κ} : {A : Type ℓ} {B : Type κ} → Run A → (A → Run B) → Run B
ok a >>= k = k a
panic >>= k = panic
fault >>= k = fault
out_of_fuel >>= k = out_of_fuel

abbrev pub ◌>>◌ {ℓ} : {B : Type ℓ} → Run (Unit {0}) → Run B → Run B
m >> n = m >>= λ _. n

-- `assert(b)`
abbrev pub check : Bool → Run (Unit {0})
check true = ok tt
check false = panic

-- A read through a pointer: no object there is undefined behaviour.
abbrev pub deref {ℓ} : {A : Type ℓ} → Option A → Run A
deref none = fault
deref (some a) = ok a

-- Total correctness: the routine ends with a value, and the value satisfies `P`.
pub data Returns {ℓ κ} {A : Type ℓ} (P : A → Type κ) : Run A → Type (ℓ ⊔ κ) where
  returns : {a : A} → P a → Returns P (ok a)

pub Returns-eq {ℓ κ} :
    {A : Type ℓ} {P : A → Type κ} {run : Run A} → Returns P run → (a : A) × (run ≡ ok a) × P a
Returns-eq (returns {a} p) = (a, refl, p)

pub ok_injective {ℓ} : {A : Type ℓ} {a b : A} → ok a ≡ ok b → a ≡ b
ok_injective {A} {a} e = ap (λ (r : Run A). elim r [ ok x ↦ x | _ ↦ a ]) e

-- A weaker predicate.
pub Returns-mono {ℓ κ κ'} :
    {A : Type ℓ} {P : A → Type κ} {Q : A → Type κ'} {run : Run A}
    → Returns P run
    → ((a : A) → P a → Q a)
    → Returns Q run
Returns-mono (returns p) weaken = returns (weaken _ p)

-- A step, then what follows it.
pub Returns-bind {ℓ κ ℓ' κ'} :
    {A : Type ℓ} {B : Type ℓ'} {P : A → Type κ} {Q : B → Type κ'} {run : Run A} {next : A → Run B}
    → Returns P run
    → ((a : A) → P a → Returns Q (next a))
    → Returns Q (run >>= next)
Returns-bind (returns p) rest = rest _ p
