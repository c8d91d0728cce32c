-- ===== src/Prelude/Results.antt =====
-- The result of code that may stop at a `qcore_assert`.
use mathlib.Core.Path.{◌≡◌, refl}
use mathlib.Core.Logic.{◌⊎◌, inl, inr}
use mathlib.Core.Option.{Option, none, some}
use mathlib.Core.List.{List, [], ◌∷◌}

pub data Checked {ℓ} (A : Type ℓ) : Type ℓ where
  value : A → Checked A
  assert_failed : Checked A

-- A chain of steps that may throw, for `do` blocks.
infixl 5 ◌>>=◌
abbrev pub ◌>>=◌ {ℓ κ} : {A : Type ℓ} {B : Type κ} → Option A → (A → Option B) → Option B
none >>= f = none
some a >>= f = f a

-- The results of a step on every element, in order, where none throws.
unfoldable pub each {ℓ κ} : {A : Type ℓ} {B : Type κ} → (A → Option B) → List A → Option (List B)
each f [] = some []
each f (x ∷ xs) = do y ← f x; ys ← each f xs; some (y ∷ ys)

-- An exception that nothing catches stops the program as a failed assertion does.
abbrev pub or_stop {ℓ} : {A : Type ℓ} → Option A → Checked A
or_stop none = assert_failed
or_stop (some a) = value a

pub Checked-cases {ℓ} :
    {A : Type ℓ} (r : Checked A) → (r ≡ assert_failed) ⊎ ((a : A) × (r ≡ value a))
Checked-cases (value a) = inr (a, refl)
Checked-cases assert_failed = inl refl
