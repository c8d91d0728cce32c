-- ===== src/Lsp/Text/Refinement.antt =====
-- `GetOffset` finds the position counted over code points.
use no.Prelude.{
  ℕ, zero, suc, ◌+◌, ◌-◌, ◌≤◌, ◌≡◌, ◌≢◌, refl, ap, ◌∙◌, inl, inr, true, ◌&&◌, ◌||◌, Option, none,
  some, List, [], ◌∷◌, ◌++◌, Bytes, arith, ◌==◌, if◌then◌else◌, length, length-append, All,
  Bool-cases, Option-cases, value,
}
use no.Lsp.Text.{
  utf16_character_count, skip_lines, units, extra_bytes, is_line_end, find_column, get_offset,
}
use no.Lsp.Text.Unicode.{IsScalar, utf8, utf16_length, utf16_character_count-utf8, utf8_one}
use no.Lsp.Text.Position.{
  utf8_all, line_start, before_column, position, utf8-cases, skip-utf8, skip_here,
  starts_line_feed-utf8, skip_break, skip_pair, Agrees, Agrees-shift,
}

utf8_line_end : (c : ℕ) → is_line_end c ≡ true → utf8 c ≡ c ∷ []
utf8_line_end c h = utf8_one c (ground arith)

pub skip_lines-Agrees :
    (cps : List ℕ) (n line current off : ℕ)
    → current + n ≡ line
    → Agrees off
        (length (utf8_all cps))
        (line_start n cps)
        (skip_lines line current off (utf8_all cps))
unfolding line_start
skip_lines-Agrees cps zero line current off e =
    (off, skip_here line current off (utf8_all cps) (omega arith), refl)
skip_lines-Agrees [] (suc n) line current off e = unfold skip_lines in ground arith
skip_lines-Agrees (c ∷ []) (suc n) line current off e =
    let ne : current ≢ line = omega arith in
    elim (Bool-cases (is_line_end c)) [
      | inl break ↦
          rw (break, utf8_line_end c break)
            (Agrees-shift off 1 0 1 (line_start n []) (omega arith)
              (skip_break line current ne c off [] break (ground arith))
              (skip_lines-Agrees [] n line (current + 1) (off + 1) (omega arith)))
      | inr plain ↦
          rw plain (skip-utf8 line current c off [] ne plain ∙ (unfold skip_lines in ground arith))
    ]
skip_lines-Agrees (c ∷ d ∷ cs) (suc n) line current off e =
    let ne : current ≢ line = omega arith in
    let rest = utf8_all (d ∷ cs) in
    elim (Bool-cases (c == b'\r' && d == b'\n')) [
      | inl pair ↦
          rw (pair, utf8_one c (ground arith), utf8_one d (ground arith))
            (Agrees-shift off 2 (length (utf8_all cs)) _ (line_start n cs) (omega arith)
              (skip_pair line current ne c d off (utf8_all cs) pair)
              (skip_lines-Agrees cs n line (current + 1) (off + 2) (omega arith)))
      | inr single ↦ elim (Bool-cases (is_line_end c)) [
        | inl break ↦
            rw (single, break, utf8_line_end c break)
              (Agrees-shift off 1 (length rest) _ (line_start n (d ∷ cs)) (omega arith)
                (skip_break line current ne c off rest break
                  (rw (starts_line_feed-utf8 d (utf8_all cs)) single))
                (skip_lines-Agrees (d ∷ cs) n line (current + 1) (off + 1) (omega arith)))
        | inr plain ↦
            rw (single, plain, length-append (utf8 c) rest)
              (Agrees-shift off (length (utf8 c)) (length rest) _ (line_start (suc n) (d ∷ cs)) refl
                (skip-utf8 line current c off rest ne plain)
                (skip_lines-Agrees (d ∷ cs) (suc n) line current (off + length (utf8 c)) e))
      ]
    ]

skip_extra :
    (bs rest : Bytes) (column pos i : ℕ)
    → find_column (length bs) column pos i (bs ++ rest)
      ≡ find_column 0 column pos (i + length bs) rest
unfolding find_column
skip_extra [] rest column pos i = ap (λ j. find_column 0 column pos j rest) (omega arith)
skip_extra (b ∷ bs) rest column pos i =
    skip_extra bs rest column pos (i + 1) ∙ ap (λ j. find_column 0 column pos j rest) (omega arith)

find_column_round :
    (c b : ℕ) (bs rest : Bytes) (column pos i : ℕ)
    → utf8 c ≡ b ∷ bs
    → is_line_end b ≡ is_line_end c
    → IsScalar c
    → find_column 0 column pos i (b ∷ (bs ++ rest)) ≡ (
        if is_line_end c || column == pos
        then i
        else find_column 0 column (pos + utf16_length c) (i + length (utf8 c)) rest)
unfolding find_column
find_column_round c b bs rest column pos i spelled same scalar =
    let counted = rw spelled at (utf16_character_count-utf8 c rest scalar) in
    let one_less : suc (length bs) - 1 ≡ length bs = omega arith in
    let further : find_column (extra_bytes (utf16_character_count (b ∷ (bs ++ rest)))) column
          (pos + units (utf16_character_count (b ∷ (bs ++ rest)))) (i + 1) (bs ++ rest)
        ≡ find_column 0 column (pos + utf16_length c) (i + length (utf8 c)) rest =
      rw (counted, spelled, one_less)
        (skip_extra bs rest column (pos + utf16_length c) (i + 1)
          ∙ ap (λ j. find_column 0 column (pos + utf16_length c) j rest) (omega arith)) in
    rw (further, same) (ground arith)

-- One round of the column loop, at the first byte of an encoded code point.
find_column-utf8 :
    (c : ℕ) (rest : Bytes) (column pos i : ℕ)
    → IsScalar c
    → find_column 0 column pos i (utf8 c ++ rest) ≡ (
        if is_line_end c || column == pos
        then i
        else find_column 0 column (pos + utf16_length c) (i + length (utf8 c)) rest)
find_column-utf8 c rest column pos i scalar = elim (utf8-cases c) [
  | inl (_, one) ↦
      ap (λ t. find_column 0 column pos i (t ++ rest)) one
      ∙ find_column_round c c [] rest column pos i one refl scalar
  | inr high ↦
      ap (λ t. find_column 0 column pos i (t ++ rest)) high.spelled
      ∙ find_column_round c high.lead high.tail rest column pos i high.spelled
          (ground (arith, high.lead_high, high.beyond)) scalar
]

length-before_column :
    (cps : List ℕ) (column pos : ℕ)
    → length (utf8_all (before_column column pos cps)) ≤ length (utf8_all cps)
unfolding before_column
length-before_column [] column pos = omega arith
length-before_column (c ∷ cs) column pos = elim (Bool-cases (is_line_end c || column == pos)) [
  | inl stop ↦ rw stop (omega arith)
  | inr go ↦
      let rest = before_column column (pos + utf16_length c) cs in
      rw go (
        omega (
          arith,
          length-append (utf8 c) (utf8_all cs),
          length-append (utf8 c) (utf8_all rest),
          length-before_column cs column (pos + utf16_length c),
        ))
]

find_column-before :
    (cps : List ℕ) (column pos i : ℕ)
    → All IsScalar cps
    → find_column 0 column pos i (utf8_all cps)
      ≡ i + length (utf8_all (before_column column pos cps))
unfolding before_column
find_column-before [] column pos i h = unfold find_column in omega arith
find_column-before (c ∷ cs) column pos i h =
    let rest = before_column column (pos + utf16_length c) cs in
    find_column-utf8 c (utf8_all cs) column pos i h.0
    ∙ elim (Bool-cases (is_line_end c || column == pos)) [
      | inl stop ↦ rw stop (omega arith)
      | inr go ↦ rw go (
          find_column-before cs column (pos + utf16_length c) (i + length (utf8 c)) h.1
          ∙ omega (arith, length-append (utf8 c) (utf8_all rest)))
    ]

abbrev ScalarTail : Option (List ℕ) → Type 0
ScalarTail none = Unit {0}
ScalarTail (some tail) = All IsScalar tail

line_start-ScalarTail : (n : ℕ) (cps : List ℕ) → All IsScalar cps → ScalarTail (line_start n cps)
unfolding line_start
line_start-ScalarTail zero cps h = h
line_start-ScalarTail (suc n) [] h = tt
line_start-ScalarTail (suc n) (c ∷ []) h = elim (Bool-cases (is_line_end c)) [
  | inl break ↦ rw break (line_start-ScalarTail n [] tt)
  | inr plain ↦ rw plain tt
]
line_start-ScalarTail (suc n) (c ∷ d ∷ cs) h = elim (Bool-cases (c == b'\r' && d == b'\n')) [
  | inl pair ↦ rw pair (line_start-ScalarTail n cs h.1.1)
  | inr single ↦ elim (Bool-cases (is_line_end c)) [
    | inl break ↦ rw (single, break) (line_start-ScalarTail n (d ∷ cs) h.1)
    | inr plain ↦ rw (single, plain) (line_start-ScalarTail (suc n) (d ∷ cs) h.1)
  ]
]

-- On the UTF-8 encoding of any list of scalar values, for every line and column, `get_offset` meets
-- no failed assertion and returns the byte offset that `position` counts over the code points: none
-- exactly when the line is missing, and the end of the line for a column that is beyond the line or
-- inside a surrogate pair.
pub get_offset-position :
    (cps : List ℕ) (line column : ℕ)
    → All IsScalar cps
    → get_offset (utf8_all cps) line column ≡ value (position line column cps)
unfolding get_offset position
get_offset-position cps line column h = elim (Option-cases (line_start line cps)) [
  | inl missing ↦
      let skipped = rw missing at (skip_lines-Agrees cps line line 0 0 (omega arith)) in
      rw (missing, skipped, position, get_offset) refl
  | inr (tail, found) ↦
      let (start, skipped, size) =
        rw found at (skip_lines-Agrees cps line line 0 0 (omega arith)) in
      let scalars = rw found at (line_start-ScalarTail line cps h) in
      let column_found = find_column-before tail column 0 start scalars in
      let within = length-before_column tail column 0 in
      let start_is : start ≡ length (utf8_all cps) - length (utf8_all tail) = omega arith in
      rw (skipped, get_offset, column_found, found, position) (ground arith)
]
