-- ===== src/Prelude/Decimal.antt =====
-- Numbers in decimal digits, as `operator<<` writes them and the scanning functions read them.
use Prim.Native.Nat.{ℕ, zero, suc, ◌+◌, ◌-◌, ◌*◌, ◌/◌, ◌%◌, ◌≤◌, ◌<◌}
use mathlib.Core.Path.{◌≡◌, refl, ◌∙◌}
use mathlib.Core.Logic.{inl, inr}
use mathlib.Core.Bool.{Bool, false, ◌&&◌}
use mathlib.Core.List.{[], ◌∷◌, ◌++◌}
use native.Mathlib.Omega.{arith}
use no.Prelude.Tests.{ltb, leb, if◌then◌else◌, Bool-cases}
use no.Prelude.Lists.{Bytes, All, length, length-append}

abbrev pub is_digit : ℕ → Bool
is_digit c = leb b'0' c && leb c b'9'

-- The number that the leading digits spell behind `n`, and whether any byte was read.
unfoldable pub leading_digits : ℕ → Bytes → ℕ
leading_digits n [] = n
leading_digits n (c ∷ cs) =
    let further = leading_digits (n * 10 + (c - b'0')) cs in if is_digit c then further else n

abbrev pub starts_digit : Bytes → Bool
starts_digit [] = false
starts_digit (c ∷ _) = is_digit c

-- `os << n` for a size.
unfoldable pub decimal_digits : ℕ → ℕ → Bytes
decimal_digits zero n = []
decimal_digits (suc fuel) n =
    let higher = decimal_digits fuel (n / 10) in
    if ltb n 10 then (b'0' + n) ∷ [] else higher ++ (b'0' + n % 10) ∷ []

unfoldable pub decimal : ℕ → Bytes
decimal n = decimal_digits (suc n) n

abbrev pub IsDigit : ℕ → Type 0
IsDigit c = (b'0' ≤ c) × (c ≤ b'9')

-- The number that some digits spell behind `n`.
abbrev pub spelled : ℕ → Bytes → ℕ
spelled n [] = n
spelled n (c ∷ cs) = spelled (n * 10 + (c - b'0')) cs

pub spelled-append : (xs ys : Bytes) (n : ℕ) → spelled n (xs ++ ys) ≡ spelled (spelled n xs) ys
spelled-append [] ys n = refl
spelled-append (x ∷ xs) ys n = spelled-append xs ys (n * 10 + (x - b'0'))

pub leading_digits-spelled :
    (ds : Bytes) (n : ℕ) → All IsDigit ds → leading_digits n ds ≡ spelled n ds
unfolding leading_digits
leading_digits-spelled [] n h = refl
leading_digits-spelled (d ∷ ds) n h =
    ground (arith, leading_digits-spelled ds (n * 10 + (d - b'0')) h.1)

All-append_one : (xs : Bytes) (c : ℕ) → All IsDigit xs → IsDigit c → All IsDigit (xs ++ c ∷ [])
All-append_one [] c h d = (d, tt)
All-append_one (x ∷ xs) c h d = (h.0, All-append_one xs c h.1 d)

-- The digits, and the number that they spell.
pub decimal_digits_lem :
    (fuel n : ℕ)
    → n < fuel
    → All IsDigit (decimal_digits fuel n) × (spelled 0 (decimal_digits fuel n) ≡ n)
unfolding decimal_digits
decimal_digits_lem zero n h = absurd (omega arith)
decimal_digits_lem (suc fuel) n h = elim (Bool-cases (ltb n 10)) [
  | inl small ↦ rw small (ground arith)
  | inr large ↦ rw large (
      let ih = decimal_digits_lem fuel (n / 10) (ground arith) in
      (
        All-append_one (decimal_digits fuel (n / 10)) (b'0' + n % 10) ih.0 (ground arith),
        spelled-append (decimal_digits fuel (n / 10)) ((b'0' + n % 10) ∷ []) 0
            ∙ omega (arith, ih.1),
      ))
]

-- There is a digit.
pub decimal_nonempty : (n : ℕ) → 0 < length (decimal n)
unfolding decimal decimal_digits
decimal_nonempty n = elim (Bool-cases (ltb n 10)) [
  | inl small ↦ rw small (omega arith)
  | inr large ↦
      rw large (omega (arith, length-append (decimal_digits n (n / 10)) ((b'0' + n % 10) ∷ [])))
]

pub decimal-IsDigit : (n : ℕ) → All IsDigit (decimal n)
unfolding decimal
decimal-IsDigit n = (decimal_digits_lem (suc n) n (omega arith)).0

pub decimal-spelled : (n : ℕ) → spelled 0 (decimal n) ≡ n
unfolding decimal
decimal-spelled n = (decimal_digits_lem (suc n) n (omega arith)).1
