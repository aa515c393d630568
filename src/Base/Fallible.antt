-- ===== src/Base/Fallible.antt =====
-- Code that may stop: `none` is a failed assertion, which ends the process.
use mathlib.Core.Path.{◌≡◌, refl, ap, ◌∙◌}
use mathlib.Core.Bool.{Bool, true, false}
use wee.Base.Tests.{if◌then◌else◌}
use mathlib.Core.Option.{Option, none, some}

infixl 5 ◌>>=◌ ◌>>◌
abbrev pub ◌>>=◌ {ℓ κ} : {A : Type ℓ} {B : Type κ} → Option A → (A → Option B) → Option B
none >>= f = none
some a >>= f = f a

abbrev pub ◌>>◌ {ℓ} : {B : Type ℓ} → Option (Unit {0}) → Option B → Option B
m >> k = m >>= λ _. k

-- `assert(b)`
abbrev pub guard : Bool → Option (Unit {0})
guard true = some tt
guard false = none

-- `p != NULL`
abbrev pub is_some {ℓ} : {A : Type ℓ} → Option A → Bool
is_some none = false
is_some (some a) = true

-- Inversion of a successful bind.
pub >>=-eq-some {ℓ κ} :
    {A : Type ℓ} {B : Type κ} (m : Option A) (f : A → Option B) {b : B}
    → (m >>= f) ≡ some b
    → (a : A) × (m ≡ some a) × (f a ≡ some b)
>>=-eq-some none f h = absurd (cc)
>>=-eq-some (some a) f h = (a, refl, h)

-- No assertion fails, and the result has the property.
pub record Returns {ℓ κ} {A : Type ℓ} (m : Option A) (P : A → Type κ) : Type (ℓ ⊔ κ) where
  pub value : A
  pub is_value : m ≡ some value
  pub holds : P value

-- A chain of calls: the rest is shown to return for whatever its first call hands over.
pub Returns-bind {ℓ κ ι} :
    {A : Type ℓ} {B : Type κ} {m : Option A} {a : A} (f : A → Option B) {P : B → Type ι}
    → m ≡ some a
    → Returns (f a) P
    → Returns (m >>= f) P
Returns-bind f e r = record {
  value = r.value;
  is_value = ap (λ o. o >>= f) e ∙ r.is_value;
  holds = r.holds;
}

-- The rest of a chain behind a test whose outcome is known.
module _ {ℓ κ} {A : Type ℓ} {P : A → Type κ} (t : Bool) (x y : Option A) where
  pub Returns-then : t ≡ true → Returns x P → Returns (if t then x else y) P
  Returns-then e r = rw e r

  pub Returns-else : t ≡ false → Returns y P → Returns (if t then x else y) P
  Returns-else e r = rw e r
