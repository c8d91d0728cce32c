-- ===== src/Package/Convert/Versions.antt =====
-- A version that was written is read back, and what is written has the form that is asked for.
use no.Prelude.{
  ℕ, ◌^◌, ◌<◌, ◌≡◌, refl, ap, ◌∙◌, none, some, [], ◌∷◌, ◌++◌, Bytes, arith, All, length, decimal,
  spelled, IsDigit, leading_digits-spelled, decimal-spelled, decimal-IsDigit, decimal_nonempty,
  ◌==◌, Bool-cases, inl, inr, append-nil,
}
use no.Package.Manifest.{Version}
use no.Package.Validate.{before}
use no.Package.Convert.{after, stoul, encode_semantic_version, read_semantic_version}

before_digits : (ds rest : Bytes) → All IsDigit ds → before b'.' (ds ++ b'.' ∷ rest) ≡ ds
before_digits [] rest h = refl
before_digits (d ∷ ds) rest h = ground (arith, before_digits ds rest h.1)

before_digits_only : (ds : Bytes) → All IsDigit ds → before b'.' ds ≡ ds
before_digits_only [] h = refl
before_digits_only (d ∷ ds) h = ground (arith, before_digits_only ds h.1)

after-digits : (ds rest : Bytes) → All IsDigit ds → after b'.' (ds ++ b'.' ∷ rest) ≡ some rest
unfolding after
after-digits [] rest h = refl
after-digits (d ∷ ds) rest h = ground (arith, after-digits ds rest h.1)

after_none : (ds : Bytes) → All IsDigit ds → after b'.' ds ≡ none
unfolding after
after_none [] h = refl
after_none (d ∷ ds) h = ground (arith, after_none ds h.1)

stoul-digits :
    (ds : Bytes)
    → All IsDigit ds
    → 0 < length ds
    → spelled 0 ds < 2 ^ 64
    → stoul ds ≡ some (spelled 0 ds)
unfolding stoul
stoul-digits [] h some_digit small = absurd (omega arith)
stoul-digits (d ∷ ds) h some_digit small = rw (leading_digits-spelled (d ∷ ds) 0 h) (ground arith)

stoul-decimal : (n : ℕ) → n < 2 ^ 32 → stoul (decimal n) ≡ some n
stoul-decimal n small =
    stoul-digits (decimal n) (decimal-IsDigit n) (decimal_nonempty n)
      (omega (arith, decimal-spelled n))
    ∙ ap some (decimal-spelled n)

-- Each component fits its type.
abbrev pub IsWord : Version → Type 0
IsWord v = (v.major < 2 ^ 32) × (v.minor < 2 ^ 32) × (v.patch < 2 ^ 32)

-- A version whose components fit their type is read back from what was written for it, whether the
-- patch was left out or not.
pub read_semantic_version-encode_semantic_version :
    (v : Version) → IsWord v → read_semantic_version (encode_semantic_version v) ≡ some v
unfolding read_semantic_version encode_semantic_version
read_semantic_version-encode_semantic_version v h = elim (Bool-cases (v.patch == 0)) [
  | inl none_left ↦
      rw
        (
          none_left,
          append-nil (decimal v.minor),
          before_digits (decimal v.major) (decimal v.minor) (decimal-IsDigit v.major),
          after-digits (decimal v.major) (decimal v.minor) (decimal-IsDigit v.major),
          before_digits_only (decimal v.minor) (decimal-IsDigit v.minor),
          after_none (decimal v.minor) (decimal-IsDigit v.minor),
          stoul-decimal v.major h.0,
          stoul-decimal v.minor h.1,
        )
        (ground arith)
  | inr written ↦
      let tail : Bytes = b'.' ∷ decimal v.patch in
      rw
        (
          written,
          before_digits (decimal v.major) (decimal v.minor ++ tail) (decimal-IsDigit v.major),
          after-digits (decimal v.major) (decimal v.minor ++ tail) (decimal-IsDigit v.major),
          before_digits (decimal v.minor) (decimal v.patch) (decimal-IsDigit v.minor),
          after-digits (decimal v.minor) (decimal v.patch) (decimal-IsDigit v.minor),
          stoul-decimal v.major h.0,
          stoul-decimal v.minor h.1,
          stoul-decimal v.patch h.2,
        )
        (ground arith)
]
