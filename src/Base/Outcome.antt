-- ===== src/Base/Outcome.antt =====
-- Total correctness of a partial computation: it returns a result, and the result is as promised.
use mathlib.Core.Option.{Option, none, some}

-- `none` is a failed assertion or a loop that ran out of fuel.
infixl 5 ◌>>=◌
abbrev pub ◌>>=◌ {ℓ κ} : {A : Type ℓ} {B : Type κ} → Option A → (A → Option B) → Option B
none >>= f = none
some a >>= f = f a

pub data Returns {ℓ κ} {A : Type ℓ} (P : A → Type κ) : Option A → Type (ℓ ⊔ κ) where
  returns : {a : A} → P a → Returns P (some a)

module _ {ℓ κ κ'} {A : Type ℓ} {P : A → Type κ} where
  pub Returns-bind :
      {B : Type ℓ} {Q : B → Type κ'} {r : Option A} {k : A → Option B}
      → Returns P r
      → ((a : A) → P a → Returns Q (k a))
      → Returns Q (r >>= k)
  Returns-bind (returns p) next = next _ p

module _ {ℓ κ κ'} {A : Type ℓ} {P : A → Type κ} {Q : A → Type κ'} where
  pub Returns-mono : {r : Option A} → Returns P r → ((a : A) → P a → Q a) → Returns Q r
  Returns-mono (returns p) weaken = returns (weaken _ p)
