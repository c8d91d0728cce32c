-- ===== src/Lsp/Text/Unicode.antt =====
-- The UTF-16 size of one UTF-8 character (`UTF8ToUTF16CharacterCount`), against an encoder.
use Prim.Native.Nat.{bit_or}
use no.Prelude.{
  ℕ, ◌+◌, ◌*◌, ◌/◌, ◌%◌, ◌^◌, ◌≤◌, ◌<◌, ◌≡◌, ◌∙◌, ◌⊎◌, some, [], ◌∷◌, ◌++◌, Bytes, arith, ltb,
  if◌then◌else◌, length, get_or, lt→ltb, le→ltb,
}
use native.Mathlib.Decide.{dec_lt}
use no.Prelude.Bits.{mask_80, mask_e0, mask_f0, mask_f8, low_3, low_4, low_5, low_6, or_field}
use no.Lsp.Text.{decode, utf16_units, utf16_character_count}

-- A Unicode scalar value: a code point that is no surrogate.
abbrev pub IsScalar : ℕ → Type 0
IsScalar cp = (cp < 0xD800) ⊎ ((0xE000 ≤ cp) × (cp < 0x11_0000))

-- The UTF-8 encoding (RFC 3629).
abbrev pub utf8 : ℕ → Bytes
utf8 cp =
    if ltb cp 0x80
    then cp ∷ []
    else if ltb cp 0x800
    then (0xC0 + cp / 64) ∷ (0x80 + cp % 64) ∷ []
    else if ltb cp 0x1_0000
    then (0xE0 + cp / 4096) ∷ (0x80 + cp / 64 % 64) ∷ (0x80 + cp % 64) ∷ []
    else (0xF0 + cp / 262144)
      ∷ (0x80 + cp / 4096 % 64)
      ∷ (0x80 + cp / 64 % 64)
      ∷ (0x80 + cp % 64)
      ∷ []

abbrev pub utf16_length : ℕ → ℕ
utf16_length cp = if ltb cp 0x1_0000 then 1 else 2

fields_two : (x y : ℕ) → y < 64 → bit_or (x * 2 ^ 6) y ≡ x * 64 + y
fields_two x y h = or_field 6 x y h

fields_three :
    (x y z : ℕ)
    → y < 64
    → z < 64
    → bit_or (bit_or (x * 2 ^ 12) (y * 2 ^ 6)) z ≡ x * 4096 + y * 64 + z
fields_three x y z hy hz =
    let inner : bit_or (x * 2 ^ 12) (y * 2 ^ 6) ≡ (x * 64 + y) * 2 ^ 6 =
      or_field 12 x (y * 2 ^ 6) (omega arith) ∙ omega arith in
    rw inner (fields_two (x * 64 + y) z hz ∙ omega arith)

fields_four :
    (w x y z : ℕ)
    → x < 64
    → y < 64
    → z < 64
    → bit_or (bit_or (bit_or (w * 2 ^ 18) (x * 2 ^ 12)) (y * 2 ^ 6)) z
      ≡ w * 262144 + x * 4096 + y * 64 + z
fields_four w x y z hx hy hz =
    let inner : bit_or (w * 2 ^ 18) (x * 2 ^ 12) ≡ (w * 64 + x) * 2 ^ 12 =
      or_field 18 w (x * 2 ^ 12) (omega arith) ∙ omega arith in
    rw inner (fields_three (w * 64 + x) y z hy hz ∙ omega arith)

-- The decoder undoes the encoder, size by size.
decode_one : (cp b1 b2 b3 : ℕ) → cp < 0x80 → decode cp b1 b2 b3 ≡ some (cp, 1)
unfolding decode
decode_one cp b1 b2 b3 h = ground (arith, mask_80 cp (omega arith))

decode_two :
    (cp b2 b3 : ℕ)
    → 0x80 ≤ cp
    → cp < 0x800
    → decode (0xC0 + cp / 64) (0x80 + cp % 64) b2 b3 ≡ some (cp, 2)
unfolding decode
decode_two cp b2 b3 lo hi =
    let b0 = 0xC0 + cp / 64 in
    let b1 = 0x80 + cp % 64 in
    rw
      (
        mask_80 b0 (omega arith),
        mask_e0 b0 (omega arith),
        low_5 b0 (omega arith),
        low_6 b1 (omega arith),
        fields_two (b0 % 32) (b1 % 64) (omega arith),
      )
      (ground arith)

decode_three :
    (cp b3 : ℕ)
    → 0x800 ≤ cp
    → cp < 0x1_0000
    → decode (0xE0 + cp / 4096) (0x80 + cp / 64 % 64) (0x80 + cp % 64) b3 ≡ some (cp, 3)
unfolding decode
decode_three cp b3 lo hi =
    let b0 = 0xE0 + cp / 4096 in
    let b1 = 0x80 + cp / 64 % 64 in
    let b2 = 0x80 + cp % 64 in
    rw
      (
        mask_80 b0 (omega arith),
        mask_e0 b0 (omega arith),
        mask_f0 b0 (omega arith),
        low_4 b0 (omega arith),
        low_6 b1 (omega arith),
        low_6 b2 (omega arith),
        fields_three (b0 % 16) (b1 % 64) (b2 % 64) (omega arith) (omega arith),
      )
      (ground arith)

decode_four :
    (cp : ℕ)
    → 0x1_0000 ≤ cp
    → cp < 0x11_0000
    → decode (0xF0 + cp / 262144) (0x80 + cp / 4096 % 64) (0x80 + cp / 64 % 64) (0x80 + cp % 64)
      ≡ some (cp, 4)
unfolding decode
decode_four cp lo hi =
    let b0 = 0xF0 + cp / 262144 in
    let b1 = 0x80 + cp / 4096 % 64 in
    let b2 = 0x80 + cp / 64 % 64 in
    let b3 = 0x80 + cp % 64 in
    rw
      (
        mask_80 b0 (omega arith),
        mask_e0 b0 (omega arith),
        mask_f0 b0 (omega arith),
        mask_f8 b0 (omega arith),
        low_3 b0 (omega arith),
        low_6 b1 (omega arith),
        low_6 b2 (omega arith),
        low_6 b3 (omega arith),
        fields_four (b0 % 8) (b1 % 64) (b2 % 64) (b3 % 64) (omega arith) (omega arith)
            (omega arith),
      )
      (ground arith)

utf16_units_lem :
    (cp size : ℕ)
    → IsScalar cp
    → utf16_units cp size ≡ some (record { count = utf16_length cp; size = size })
unfolding utf16_units
utf16_units_lem cp size h = ground arith

-- A decoded lead gives the units of its code point.
count-decode :
    (text : Bytes) (cp size : ℕ)
    → decode (get_or text 0 0) (get_or text 1 0) (get_or text 2 0) (get_or text 3 0)
      ≡ some (cp, size)
    → IsScalar cp
    → utf16_character_count text ≡ some (record { count = utf16_length cp; size = size })
unfolding utf16_character_count
count-decode text cp size e h = rw (e, utf16_character_count) (utf16_units_lem cp size h)

module _ (cp : ℕ) where
  pub utf8_one : cp < 0x80 → utf8 cp ≡ cp ∷ []
  utf8_one h = rw (lt→ltb cp 0x80 h)

  pub utf8_two : 0x80 ≤ cp → cp < 0x800 → utf8 cp ≡ (0xC0 + cp / 64) ∷ (0x80 + cp % 64) ∷ []
  utf8_two lo hi = rw (le→ltb cp 0x80 lo, lt→ltb cp 0x800 hi)

  pub utf8_three :
      0x800 ≤ cp
      → cp < 0x1_0000
      → utf8 cp ≡ (0xE0 + cp / 4096) ∷ (0x80 + cp / 64 % 64) ∷ (0x80 + cp % 64) ∷ []
  utf8_three lo hi = rw (le→ltb cp 0x80 (omega arith), le→ltb cp 0x800 lo, lt→ltb cp 0x1_0000 hi)

  pub utf8_four :
      0x1_0000 ≤ cp
      → utf8 cp
        ≡ (0xF0 + cp / 262144)
          ∷ (0x80 + cp / 4096 % 64)
          ∷ (0x80 + cp / 64 % 64)
          ∷ (0x80 + cp % 64)
          ∷ []
  utf8_four lo =
      rw (le→ltb cp 0x80 (omega arith), le→ltb cp 0x800 (omega arith), le→ltb cp 0x1_0000 lo)

-- At the first byte of the UTF-8 encoding of a scalar value, whatever bytes follow the encoding, the
-- count is the number of UTF-16 code units of that value and the size is the length of its encoding.
pub utf16_character_count-utf8 :
    (cp : ℕ) (rest : Bytes)
    → IsScalar cp
    → utf16_character_count (utf8 cp ++ rest)
      ≡ some (record { count = utf16_length cp; size = length (utf8 cp) })
utf16_character_count-utf8 cp rest h = elim (dec_lt cp 0x80) [
  | yes one ↦ rw (utf8_one cp one) (count-decode (cp ∷ rest) cp 1 (decode_one cp _ _ _ one) h)
  | no one ↦ elim (dec_lt cp 0x800) [
    | yes two ↦
        rw (utf8_two cp (omega arith) two)
          (count-decode _ cp 2 (decode_two cp _ _ (omega arith) two) h)
    | no two ↦ elim (dec_lt cp 0x1_0000) [
      | yes three ↦
          rw (utf8_three cp (omega arith) three)
            (count-decode _ cp 3 (decode_three cp _ (omega arith) three) h)
      | no three ↦
          rw (utf8_four cp (omega arith))
            (count-decode _ cp 4 (decode_four cp (omega arith) (omega arith)) h)
    ]
  ]
]
