-- ===== src/Lsp/Text/RoundTrip.antt =====
-- `GetLC` and `GetOffset` on ASCII text, where a byte is a UTF-16 unit.
use native.Mathlib.Decide.{dec_lt}
use no.Prelude.{
  ℕ, ◌+◌, ◌≤◌, ◌<◌, ◌≡◌, ◌≢◌, refl, sym, ◌∙◌, inl, inr, true, false, ◌&&◌, Option, none, some, [],
  ◌∷◌, Bytes, arith, ◌==◌, if◌then◌else◌, length, lt→ltb, ne→==, All, Bool-cases, value,
}
use no.Lsp.Text.{
  utf16_character_count, skip_lines, is_line_end, find_column, count_lines, get_offset, get_lc,
}
use no.Lsp.Text.Unicode.{utf8_one, utf16_character_count-utf8}
use no.Lsp.Text.Position.{skip-plain, skip_here, starts_line_feed, skip_break, skip_pair}

abbrev pub IsAscii : Bytes → Type 0
IsAscii = All (λ b. b < 128)

ascii_count :
    (b : ℕ) (rest : Bytes)
    → b < 128
    → utf16_character_count (b ∷ rest) ≡ some (record { count = 1; size = 1 })
ascii_count b rest h =
    let counted = rw (utf8_one b h) at (utf16_character_count-utf8 b rest (inl (omega arith))) in
    counted ∙ rw (lt→ltb b 0x1_0000 (omega arith))

module _ (offset i line column : ℕ) where
  count_stop :
      (text : Bytes)
      → offset ≤ i
      → count_lines offset i line column text ≡ (if i == offset then some (line, column) else none)
  unfolding count_lines
  count_stop [] h = refl
  count_stop (ch ∷ []) h = ground arith
  count_stop (ch ∷ next ∷ rest) h = ground arith

  count-plain :
      (ch : ℕ) (rest : Bytes)
      → i < offset
      → is_line_end ch ≡ false
      → count_lines offset i line column (ch ∷ rest)
        ≡ count_lines offset (i + 1) line (column + 1) rest
  unfolding count_lines
  count-plain ch [] h k = ground arith
  count-plain ch (next ∷ rest) h k = ground arith

  count_break :
      (ch : ℕ) (rest : Bytes)
      → i < offset
      → is_line_end ch ≡ true
      → (ch == b'\r' && starts_line_feed rest) ≡ false
      → count_lines offset i line column (ch ∷ rest) ≡ count_lines offset (i + 1) (line + 1) 0 rest
  unfolding count_lines
  count_break ch [] h k s = ground arith
  count_break ch (next ∷ rest) h k s = ground arith

  count_pair :
      (ch next : ℕ) (rest : Bytes)
      → i < offset
      → (ch == b'\r' && next == b'\n') ≡ true
      → count_lines offset i line column (ch ∷ next ∷ rest)
        ≡ count_lines offset (i + 2) (line + 1) 0 rest
  unfolding count_lines
  count_pair ch next rest h k = ground arith

-- From this place the two loops of `GetOffset` come to `offset`.
data Reaches (L C offset line column i : ℕ) (text : Bytes) : Type 0 where
  same :
      L ≡ line
      → column ≤ C
      → find_column 0 C column i text ≡ offset
      → Reaches L C offset line column i text
  later :
      line < L
      → (o : ℕ) (t : Bytes) → skip_lines L line i text ≡ some (o, t)
      → find_column 0 C 0 o t ≡ offset
      → Reaches L C offset line column i text

find_column_here : (column i : ℕ) (text : Bytes) → find_column 0 column column i text ≡ i
unfolding find_column
find_column_here column i [] = omega arith
find_column_here column i (ch ∷ rest) = ground arith

module _ (L C offset line column i : ℕ) where
  Reaches-plain :
      (ch : ℕ) (rest : Bytes)
      → ch < 128
      → is_line_end ch ≡ false
      → Reaches L C offset line (column + 1) (i + 1) rest
      → Reaches L C offset line column i (ch ∷ rest)
  unfolding find_column
  Reaches-plain ch rest h k (same e le found) =
      same e (omega arith) (rw (k, ne→== C column (omega arith), ascii_count ch rest h) found)
  Reaches-plain ch rest h k (later lt o t skipped found) =
      later lt o t (skip-plain L line ch i rest (omega arith) k ∙ skipped) found

  Reaches-skipped :
      (k : ℕ) (text rest : Bytes)
      → (line ≢ L → skip_lines L line i text ≡ skip_lines L (line + 1) k rest)
      → Reaches L C offset (line + 1) 0 k rest
      → Reaches L C offset line column i text
  Reaches-skipped k text rest skip (same e le found) =
      later (omega arith) k rest (skip (omega arith) ∙ skip_here L (line + 1) k rest (omega arith))
        found
  Reaches-skipped k text rest skip (later lt o t skipped found) =
      later (omega arith) o t (skip (omega arith) ∙ skipped) found

stopped_at :
    (L C offset line column i : ℕ)
    → if◌then◌else◌ {A = Option (ℕ × ℕ)} (i == offset) (some (line, column)) none ≡ some (L, C)
    → (i ≡ offset) × (L ≡ line) × (C ≡ column)
stopped_at L C offset line column i e = ground arith

Reaches-stop :
    (L C offset line column i : ℕ) (text : Bytes)
    → ¬ (i < offset)
    → count_lines offset i line column text ≡ some (L, C)
    → Reaches L C offset line column i text
Reaches-stop L C offset line column i text stop e =
    let (at_end, line_is, column_is) =
      stopped_at L C offset line column i
        (sym (count_stop offset i line column text (omega arith)) ∙ e) in
    same line_is (omega arith) (rw column_is (find_column_here column i text ∙ at_end))

count_lines-Reaches :
    (text : Bytes) (L C offset line column i : ℕ)
    → IsAscii text
    → count_lines offset i line column text ≡ some (L, C)
    → Reaches L C offset line column i text
count_lines-Reaches [] L C offset line column i h e = elim (dec_lt i offset) [
  | no stop ↦ Reaches-stop L C offset line column i [] stop e
  | yes go ↦ absurd (unfold count_lines in ground arith)
]
count_lines-Reaches (ch ∷ []) L C offset line column i h e = elim (dec_lt i offset) [
  | no stop ↦ Reaches-stop L C offset line column i (ch ∷ []) stop e
  | yes go ↦ elim (Bool-cases (is_line_end ch)) [
    | inl break ↦
        Reaches-skipped L C offset line column i (i + 1) (ch ∷ []) []
          (λ ne. skip_break L line (λ x. ne x) ch i [] break (ground arith))
          (count_lines-Reaches [] L C offset (line + 1) 0 (i + 1) tt
            (sym (count_break offset i line column ch [] go break (ground arith)) ∙ e))
    | inr plain ↦ Reaches-plain L C offset line column i ch [] h.0 plain (
        count_lines-Reaches [] L C offset line (column + 1) (i + 1) tt
          (sym (count-plain offset i line column ch [] go plain) ∙ e))
  ]
]
count_lines-Reaches (ch ∷ next ∷ rest) L C offset line column i h e = elim (dec_lt i offset) [
  | no stop ↦ Reaches-stop L C offset line column i (ch ∷ next ∷ rest) stop e
  | yes go ↦ elim (Bool-cases (ch == b'\r' && next == b'\n')) [
    | inl pair ↦
        Reaches-skipped L C offset line column i (i + 2) (ch ∷ next ∷ rest) rest
          (λ ne. skip_pair L line ne ch next i rest pair)
          (count_lines-Reaches rest L C offset (line + 1) 0 (i + 2) h.1.1
            (sym (count_pair offset i line column ch next rest go pair) ∙ e))
    | inr single ↦ elim (Bool-cases (is_line_end ch)) [
      | inl break ↦
          Reaches-skipped L C offset line column i (i + 1) (ch ∷ next ∷ rest) (next ∷ rest)
            (λ ne. skip_break L line ne ch i (next ∷ rest) break single)
            (count_lines-Reaches (next ∷ rest) L C offset (line + 1) 0 (i + 1) h.1
              (sym (count_break offset i line column ch (next ∷ rest) go break single) ∙ e))
      | inr plain ↦ Reaches-plain L C offset line column i ch (next ∷ rest) h.0 plain (
          count_lines-Reaches (next ∷ rest) L C offset line (column + 1) (i + 1) h.1
            (sym (count-plain offset i line column ch (next ∷ rest) go plain) ∙ e))
    ]
  ]
]

count_lines-le :
    (text : Bytes) (L C offset line column i : ℕ)
    → count_lines offset i line column text ≡ some (L, C)
    → offset ≤ i + length text
unfolding count_lines
count_lines-le [] L C offset line column i e = ground arith
count_lines-le (ch ∷ []) L C offset line column i e = ground (
  arith,
  count_lines-le [] L C offset (line + 1) 0 (i + 1),
  count_lines-le [] L C offset line (column + 1) (i + 1),
)
count_lines-le (ch ∷ next ∷ rest) L C offset line column i e = ground (
  arith,
  count_lines-le rest L C offset (line + 1) 0 (i + 2),
  count_lines-le (next ∷ rest) L C offset (line + 1) 0 (i + 1),
  count_lines-le (next ∷ rest) L C offset line (column + 1) (i + 1),
)

get_offset_found :
    (raw t : Bytes) (line column offset o : ℕ)
    → skip_lines line 0 0 raw ≡ some (o, t)
    → find_column 0 column 0 o t ≡ offset
    → offset ≤ length raw
    → get_offset raw line column ≡ value (some offset)
unfolding get_offset
get_offset_found raw t line column offset o skipped found le =
    rw (skipped, get_offset, found) (ground arith)

-- On ASCII text, wherever `get_lc` finds a line and a column for an offset, `get_offset` meets no
-- failed assertion and finds that offset again.
pub get_offset-get_lc :
    (raw : Bytes) (offset line column : ℕ)
    → IsAscii raw
    → get_lc raw offset ≡ some (line, column)
    → get_offset raw line column ≡ value (some offset)
unfolding get_lc
get_offset-get_lc raw offset line column h e =
    let le : offset ≤ length raw = omega (arith, count_lines-le raw line column offset 0 0 0 e) in
    elim (count_lines-Reaches raw line column offset 0 0 0 h e) [
      | same first _ found ↦
          get_offset_found raw raw line column offset 0 (skip_here line 0 0 raw (sym first)) found
            le
      | later _ o t skipped found ↦ get_offset_found raw t line column offset o skipped found le
    ]
