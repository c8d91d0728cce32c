-- ===== src/Prelude/Bits.antt =====
-- Masks and joins of bit fields, as arithmetic. The libraries have no law of `bit_and` or `bit_or`
-- at a variable; these come from the digit recursion that the native operations stand for.
use Prim.Native.Nat.{
  ℕ, zero, suc, ◌+◌, ◌*◌, ◌/◌, ◌%◌, ◌^◌, ◌≤◌, ◌<◌, max, bit_and, bit_or, digits, bit_or-bitwise,
}
use mathlib.Core.Path.{◌≡◌, refl, ap, ◌∙◌}
use native.Mathlib.Nat.{pow-suc}
use mathlib.Core.Bool.{Bool, true, ◌&&◌}
use native.Mathlib.Omega.{arith}
use no.Prelude.Tests.{◌==◌, ==_iff}

-- Two functions on the numbers below a bound are compared by running them.
same_below : (f g : ℕ → ℕ) → ℕ → Bool
same_below f g zero = true
same_below f g (suc bound) = same_below f g bound && f bound == g bound

same_below_lem : (f g : ℕ → ℕ) (bound x : ℕ) → x < bound → same_below f g bound ≡ true → f x ≡ g x
unfolding same_below
same_below_lem f g zero x lt ran = absurd (omega arith)
same_below_lem f g (suc bound) x lt ran =
    ground (arith, ran, same_below_lem f g bound x, ==_iff (f bound) (g bound), last)
  where
    last : x ≡ bound → (f bound ≡ g bound) → f x ≡ g x
    last e same = rw e same

module _ (b : ℕ) (is_byte : b < 256) where
  pub mask_80 : bit_and b 0x80 ≡ b / 128 * 128
  unfolding same_below
  mask_80 = same_below_lem (λ x. bit_and x 0x80) (λ x. x / 128 * 128) 256 b is_byte refl

  pub mask_e0 : bit_and b 0xE0 ≡ b / 32 * 32
  unfolding same_below
  mask_e0 = same_below_lem (λ x. bit_and x 0xE0) (λ x. x / 32 * 32) 256 b is_byte refl

  pub mask_f0 : bit_and b 0xF0 ≡ b / 16 * 16
  unfolding same_below
  mask_f0 = same_below_lem (λ x. bit_and x 0xF0) (λ x. x / 16 * 16) 256 b is_byte refl

  pub mask_f8 : bit_and b 0xF8 ≡ b / 8 * 8
  unfolding same_below
  mask_f8 = same_below_lem (λ x. bit_and x 0xF8) (λ x. x / 8 * 8) 256 b is_byte refl

  pub low_3 : bit_and b 0x07 ≡ b % 8
  unfolding same_below
  low_3 = same_below_lem (λ x. bit_and x 0x07) (λ x. x % 8) 256 b is_byte refl

  pub low_4 : bit_and b 0x0F ≡ b % 16
  unfolding same_below
  low_4 = same_below_lem (λ x. bit_and x 0x0F) (λ x. x % 16) 256 b is_byte refl

  pub low_5 : bit_and b 0x1F ≡ b % 32
  unfolding same_below
  low_5 = same_below_lem (λ x. bit_and x 0x1F) (λ x. x % 32) 256 b is_byte refl

  pub low_6 : bit_and b 0x3F ≡ b % 64
  unfolding same_below
  low_6 = same_below_lem (λ x. bit_and x 0x3F) (λ x. x % 64) 256 b is_byte refl

-- The digit recursion of `bit_or`, on `n` digits at most.
abbrev or_digits : ℕ → ℕ → ℕ → ℕ
or_digits n a b = digits (λ b. b) max n a b

-- No bit is joined.
or_nothing : (n a : ℕ) → a ≤ n → or_digits n a 0 ≡ a
or_nothing zero zero le = refl
or_nothing zero (suc a) le = absurd (omega arith)
or_nothing (suc n) zero le = refl
or_nothing (suc n) (suc a) le = omega (arith, or_nothing n (suc a / 2) (omega arith))

-- The lowest `k` bits of one number are clear, and the other has no bits above them.
or_disjoint : (k n a x b : ℕ) → a ≡ x * 2 ^ k → a ≤ n → b < 2 ^ k → or_digits n a b ≡ a + b
or_disjoint zero n a x zero e le low = omega (arith, or_nothing n a le)
or_disjoint zero n a x (suc b) e le low = absurd (omega arith)
or_disjoint (suc k) zero zero x b e le low = omega arith
or_disjoint (suc k) zero (suc a) x b e le low = absurd (omega arith)
or_disjoint (suc k) (suc n) zero x b e le low = omega arith
or_disjoint (suc k) (suc n) (suc a) x b e le low =
    let power : 2 ^ suc k ≡ 2 * 2 ^ k = omega (arith, pow-suc 2 k) in
    let twice : suc a ≡ x * (2 * 2 ^ k) = e ∙ ap (λ w. x * w) power in
    let further =
      or_disjoint k n (suc a / 2) x (b / 2) (omega (arith, twice)) (omega arith)
        (omega (arith, power)) in
    omega (arith, further, twice)

-- A field of `k` bits joined under a value shifted by `k` is their sum.
pub or_field : (k x y : ℕ) → y < 2 ^ k → bit_or (x * 2 ^ k) y ≡ x * 2 ^ k + y
or_field k x y low = omega (
  arith,
  bit_or-bitwise (x * 2 ^ k) y,
  or_disjoint k (x * 2 ^ k) (x * 2 ^ k) x y refl (omega arith) low,
)
