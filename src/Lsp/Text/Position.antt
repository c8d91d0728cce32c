-- ===== src/Lsp/Text/Position.antt =====
-- `GetOffset` on well-formed UTF-8, against positions counted over code points.
use native.Mathlib.Decide.{dec_lt}
use no.Prelude.{
  ℕ, zero, suc, ◌+◌, ◌-◌, ◌/◌, ◌%◌, ◌≤◌, ◌<◌, ◌≡◌, ◌≢◌, ap, ◌∙◌, ◌⊎◌, inl, inr, Bool, true, false,
  ◌&&◌, ◌||◌, Option, none, some, List, [], ◌∷◌, ◌++◌, Bytes, arith, ◌==◌, if◌then◌else◌, length,
  All,
}
use no.Lsp.Text.{skip_lines, is_line_end}
use no.Lsp.Text.Unicode.{utf8, utf16_length, utf8_one, utf8_two, utf8_three, utf8_four}

abbrev pub utf8_all : List ℕ → Bytes
utf8_all [] = []
utf8_all (c ∷ cs) = utf8 c ++ utf8_all cs

-- The code points from the start of a line on; "\r\n" is one line break.
unfoldable pub line_start : ℕ → List ℕ → Option (List ℕ)
line_start zero cps = some cps
line_start (suc n) [] = none
line_start (suc n) (c ∷ []) = if is_line_end c then line_start n [] else none
line_start (suc n) (c ∷ d ∷ cs) =
    let pair = line_start n cs in
    let break = line_start n (d ∷ cs) in
    let plain = line_start (suc n) (d ∷ cs) in
    if c == b'\r' && d == b'\n' then pair else if is_line_end c then break else plain

-- The code points of a line that stand before a UTF-16 column, `pos` units being counted already.
unfoldable pub before_column : (column pos : ℕ) → List ℕ → List ℕ
before_column column pos [] = []
before_column column pos (c ∷ cs) =
    if is_line_end c || column == pos
    then []
    else c ∷ before_column column (pos + utf16_length c) cs

-- The byte offset of a position, if there is such a line. A column beyond the line stands for its end.
unfoldable pub position : (line column : ℕ) → List ℕ → Option ℕ
unfolding line_start before_column
position line column cps = elim (line_start line cps) [
  | none ↦ none
  | some tail ↦ some (
      length (utf8_all cps)
      - length (utf8_all tail)
      + length (utf8_all (before_column column 0 tail)))
]

-- A code point beyond ASCII is encoded by bytes beyond ASCII.
pub record HighBytes (c : ℕ) : Type 0 where
  pub lead : ℕ
  pub tail : Bytes
  pub beyond : 128 ≤ c
  pub spelled : utf8 c ≡ lead ∷ tail
  pub lead_high : 128 ≤ lead
  pub tail_high : All (λ x. 128 ≤ x) tail

pub utf8-cases : (c : ℕ) → ((c < 128) × (utf8 c ≡ c ∷ [])) ⊎ HighBytes c
utf8-cases c = elim (dec_lt c 0x80) [
  | yes one ↦ inl (one, utf8_one c one)
  | no one ↦ inr (elim (dec_lt c 0x800) [
    | yes two ↦ record {
      lead = 0xC0 + c / 64;
      tail = (0x80 + c % 64) ∷ [];
      beyond = omega arith;
      spelled = utf8_two c (omega arith) two;
      lead_high = omega arith;
      tail_high = omega arith;
    }
    | no two ↦ elim (dec_lt c 0x1_0000) [
      | yes three ↦ record {
        lead = 0xE0 + c / 4096;
        tail = (0x80 + c / 64 % 64) ∷ (0x80 + c % 64) ∷ [];
        beyond = omega arith;
        spelled = utf8_three c (omega arith) three;
        lead_high = omega arith;
        tail_high = omega arith;
      }
      | no three ↦ record {
        lead = 0xF0 + c / 262144;
        tail = (0x80 + c / 4096 % 64) ∷ (0x80 + c / 64 % 64) ∷ (0x80 + c % 64) ∷ [];
        beyond = omega arith;
        spelled = utf8_four c (omega arith);
        lead_high = omega arith;
        tail_high = omega arith;
      }
    ]
  ])
]

module _ (line current : ℕ) where
  pub skip-plain :
      (b off : ℕ) (rest : Bytes)
      → current ≢ line
      → is_line_end b ≡ false
      → skip_lines line current off (b ∷ rest) ≡ skip_lines line current (off + 1) rest
  unfolding skip_lines
  skip-plain b off [] ne h = ground arith
  skip-plain b off (next ∷ rest) ne h = ground arith

  skip-high :
      (bs rest : Bytes) (off : ℕ)
      → current ≢ line
      → All (λ x. 128 ≤ x) bs
      → skip_lines line current off (bs ++ rest) ≡ skip_lines line current (off + length bs) rest
  skip-high [] rest off ne h = ap (λ o. skip_lines line current o rest) (omega arith)
  skip-high (b ∷ bs) rest off ne h =
      skip-plain b off (bs ++ rest) ne (ground arith)
      ∙ skip-high bs rest (off + 1) ne h.1
      ∙ ap (λ o. skip_lines line current o rest) (omega arith)

  pub skip-utf8 :
      (c off : ℕ) (rest : Bytes)
      → current ≢ line
      → is_line_end c ≡ false
      → skip_lines line current off (utf8 c ++ rest)
        ≡ skip_lines line current (off + length (utf8 c)) rest
  skip-utf8 c off rest ne h = elim (utf8-cases c) [
    | inl (_, one) ↦ rw one (skip-plain c off rest ne h)
    | inr high ↦
        rw high.spelled
          (skip-high (high.lead ∷ high.tail) rest off ne (high.lead_high, high.tail_high))
  ]

  pub skip_here :
      (off : ℕ) (text : Bytes)
      → current ≡ line
      → skip_lines line current off text ≡ some (off, text)
  unfolding skip_lines
  skip_here off [] e = ground arith
  skip_here off (b ∷ []) e = ground arith
  skip_here off (b ∷ next ∷ rest) e = ground arith

abbrev pub starts_line_feed : Bytes → Bool
starts_line_feed [] = false
starts_line_feed (b ∷ bs) = b == b'\n'

pub starts_line_feed-utf8 :
    (c : ℕ) (rest : Bytes) → starts_line_feed (utf8 c ++ rest) ≡ (c == b'\n')
starts_line_feed-utf8 c rest = elim (utf8-cases c) [
  | inl (_, one) ↦ rw one
  | inr high ↦ rw high.spelled (ground (arith, high.lead_high, high.beyond))
]

module _ (line current : ℕ) (ne : current ≢ line) where
  pub skip_break :
      (b off : ℕ) (rest : Bytes)
      → is_line_end b ≡ true
      → (b == b'\r' && starts_line_feed rest) ≡ false
      → skip_lines line current off (b ∷ rest) ≡ skip_lines line (current + 1) (off + 1) rest
  unfolding skip_lines
  skip_break b off [] h k = ground arith
  skip_break b off (next ∷ rest) h k = ground arith

  pub skip_pair :
      (b next off : ℕ) (rest : Bytes)
      → (b == b'\r' && next == b'\n') ≡ true
      → skip_lines line current off (b ∷ next ∷ rest) ≡ skip_lines line (current + 1) (off + 2) rest
  unfolding skip_lines
  skip_pair b next off rest h = ground arith

-- The result of the byte loop stands for the code points left.
abbrev pub Agrees : (off total : ℕ) → Option (List ℕ) → Option (ℕ × Bytes) → Type 0
Agrees off total none r = r ≡ none
Agrees off total (some tail) r =
    (o : ℕ) × (r ≡ some (o, utf8_all tail)) × (o + length (utf8_all tail) ≡ off + total)

pub Agrees-shift :
    (off k total all : ℕ) (t : Option (List ℕ)) {r s : Option (ℕ × Bytes)}
    → all ≡ k + total
    → s ≡ r
    → Agrees (off + k) total t r
    → Agrees off all t s
Agrees-shift off k total all none sum e h = e ∙ h
Agrees-shift off k total all (some tail) sum e (o, found, size) = (o, e ∙ found, omega arith)
