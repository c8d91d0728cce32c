-- ===== src/Lsp/Http/Decimal.antt =====
-- A size that was printed is read back.
use no.Prelude.{
  ℕ, ◌^◌, ◌<◌, ◌≡◌, ap, ◌∙◌, some, [], ◌∷◌, Bytes, arith, All, pos, length, decimal, spelled,
  IsDigit, leading_digits-spelled, decimal-spelled, decimal-IsDigit, decimal_nonempty,
}
use no.Lsp.Http.{from_chars}

-- A digit is no minus sign, so the text is read from its first byte.
from_chars-digits :
    (ds : Bytes)
    → All IsDigit ds
    → 0 < length ds
    → spelled 0 ds < 2 ^ 63
    → from_chars ds ≡ some (pos (spelled 0 ds))
unfolding from_chars
from_chars-digits [] h some_digit small = absurd (omega arith)
from_chars-digits (d ∷ ds) h some_digit small =
    rw (leading_digits-spelled (d ∷ ds) 0 h) (ground arith)

pub from_chars-decimal : (n : ℕ) → n < 2 ^ 63 → from_chars (decimal n) ≡ some (pos n)
from_chars-decimal n small =
    from_chars-digits (decimal n) (decimal-IsDigit n) (decimal_nonempty n)
      (omega (arith, decimal-spelled n))
    ∙ ap (λ k. some (pos k)) (decimal-spelled n)
