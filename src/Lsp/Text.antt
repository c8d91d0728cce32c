-- ===== src/Lsp/Text.antt =====
-- Text positions: lib/src/lsp/resource/File.cc. A text is its bytes; an index into it is the pair of
-- the offset reached and the bytes from there on, so that `raw[i]` is the head of the second part.
-- `uint64_t` counters do not wrap, since each is bounded by the size of the text.
pub mod Tests
pub mod Unicode
pub mod Position
pub mod Refinement
pub mod RoundTrip
use Prim.Native.Nat.{bit_and, bit_or}
use no.Prelude.{
  ℕ, zero, suc, ◌+◌, ◌-◌, ◌*◌, ◌/◌, ◌^◌, Bool, true, false, ◌&&◌, ◌||◌, Option, none, some, List,
  [], ◌∷◌, Bytes, ltb, leb, ◌==◌, if◌then◌else◌, length, get_or, Checked, value, assert_failed, ℤ,
}

-- `UnicodeResult`: UTF-16 code units, and bytes of UTF-8.
pub record UnicodeResult : Type 0 where
  pub count : ℕ
  pub size : ℕ

-- The code point and the size that the lead byte of the buffer announces.
pub decode : (b0 b1 b2 b3 : ℕ) → Option (ℕ × ℕ)
decode b0 b1 b2 b3 =
    if bit_and b0 0x80 == 0
    then some (b0, 1)
    else if bit_and b0 0xE0 == 0xC0
    then some (bit_or (bit_and b0 0x1F * 2 ^ 6) (bit_and b1 0x3F), 2)
    else if bit_and b0 0xF0 == 0xE0
    then some
        (bit_or (bit_or (bit_and b0 0x0F * 2 ^ 12) (bit_and b1 0x3F * 2 ^ 6)) (bit_and b2 0x3F), 3)
    else if bit_and b0 0xF8 == 0xF0
    then some (
      bit_or
          (bit_or (bit_or (bit_and b0 0x07 * 2 ^ 18) (bit_and b1 0x3F * 2 ^ 12))
            (bit_and b2 0x3F * 2 ^ 6))
          (bit_and b3 0x3F),
      4,
    )
    else none

-- The UTF-16 units that a code point takes; none for a surrogate or beyond the last plane.
pub utf16_units : (codepoint size : ℕ) → Option UnicodeResult
utf16_units codepoint size =
    if ltb codepoint 0xD800 || (ltb 0xDFFF codepoint && ltb codepoint 0x10000)
    then some (record { count = 1; size = size })
    else if leb 0x10000 codepoint && leb codepoint 0x10FFFF
    then some (record { count = 2; size = size })
    else none

-- `UTF8ToUTF16CharacterCount`: the buffer of four bytes is filled with zeros first.
pub utf16_character_count : Bytes → Option UnicodeResult
utf16_character_count utf8_bytes =
    elim (decode (get_or utf8_bytes 0 0) (get_or utf8_bytes 1 0) (get_or utf8_bytes 2 0)
      (get_or utf8_bytes 3 0)) [ none ↦ none | some (codepoint, size) ↦ utf16_units codepoint size ]

-- The first loop of `GetOffset`, up to the first byte of line `line`; none at the end of the text.
pub skip_lines : (line current_line raw_offset : ℕ) → Bytes → Option (ℕ × Bytes)
skip_lines line current_line raw_offset [] =
    if current_line == line then some (raw_offset, []) else none
skip_lines line current_line raw_offset (ch ∷ []) = elim (current_line == line) [
  | true ↦ some (raw_offset, ch ∷ [])
  | false ↦ elim (ch == b'\r' || ch == b'\n') [
    | true ↦ skip_lines line (current_line + 1) (raw_offset + 1) []
    | false ↦ skip_lines line current_line (raw_offset + 1) []
  ]
]
skip_lines line current_line raw_offset (ch ∷ next ∷ rest) = elim (current_line == line) [
  | true ↦ some (raw_offset, ch ∷ next ∷ rest)
  | false ↦ elim (ch == b'\r') [
    | true ↦ elim (next == b'\n') [
      | true ↦ skip_lines line (current_line + 1) (raw_offset + 2) rest
      | false ↦ skip_lines line (current_line + 1) (raw_offset + 1) (next ∷ rest)
    ]
    | false ↦ elim (ch == b'\n') [
      | true ↦ skip_lines line (current_line + 1) (raw_offset + 1) (next ∷ rest)
      | false ↦ skip_lines line current_line (raw_offset + 1) (next ∷ rest)
    ]
  ]
]

-- What a character adds to the UTF-16 position, and to the index beyond `++i`.
abbrev pub units : Option UnicodeResult → ℕ
units none = 0
units (some res) = res.count

abbrev pub extra_bytes : Option UnicodeResult → ℕ
extra_bytes none = 0
extra_bytes (some res) = res.size - 1

abbrev pub is_line_end : ℕ → Bool
is_line_end ch = ch == b'\n' || ch == b'\r'

-- The second loop of `GetOffset`. `extra` is how far `i` is to move before the next test: the rest of
-- the character last seen. It may take `i` beyond the end of the text.
pub find_column : (extra column utf16_line_pos i : ℕ) → Bytes → ℕ
find_column extra column utf16_line_pos i [] = i + extra
find_column (suc extra) column utf16_line_pos i (ch ∷ rest) =
    find_column extra column utf16_line_pos (i + 1) rest
find_column zero column utf16_line_pos i (ch ∷ rest) =
    let res = utf16_character_count (ch ∷ rest) in
    let further = find_column (extra_bytes res) column (utf16_line_pos + units res) (i + 1) rest in
    if is_line_end ch then i else if column == utf16_line_pos then i else further

-- `ConstFile::GetOffset`, with `qcore_assert(raw_offset <= raw.size())`.
unfoldable pub get_offset : Bytes → (line column : ℕ) → Checked (Option ℕ)
unfolding skip_lines find_column
get_offset raw line column = elim (skip_lines line 0 0 raw) [
  | none ↦ value none
  | some (raw_offset, text) ↦
      let i = find_column 0 column 0 raw_offset text in
      if leb i (length raw) then value (some i) else assert_failed
]

-- The loop of `ConstFile::GetLC` and the test behind it.
pub count_lines : (offset i line column : ℕ) → Bytes → Option (ℕ × ℕ)
count_lines offset i line column [] = if i == offset then some (line, column) else none
count_lines offset i line column (ch ∷ []) =
    let break = count_lines offset (i + 1) (line + 1) 0 [] in
    let plain = count_lines offset (i + 1) line (column + 1) [] in
    if ltb i offset
    then (if is_line_end ch then break else plain)
    else if i == offset
    then some (line, column)
    else none
count_lines offset i line column (ch ∷ next ∷ rest) =
    let pair = count_lines offset (i + 2) (line + 1) 0 rest in
    let break = count_lines offset (i + 1) (line + 1) 0 (next ∷ rest) in
    let plain = count_lines offset (i + 1) line (column + 1) (next ∷ rest) in
    if ltb i offset
    then (if ch == b'\r'
        then (if next == b'\n' then pair else break)
        else if ch == b'\n'
        then break
        else plain)
    else if i == offset
    then some (line, column)
    else none

unfoldable pub get_lc : Bytes → (offset : ℕ) → Option (ℕ × ℕ)
unfolding count_lines
get_lc raw offset = count_lines offset 0 0 0 raw

-- `ConstFile`: immutable once made.
pub record ConstFile : Type 0 where
  pub file_uri : Bytes
  pub version : ℤ
  pub raw : Bytes

pub get_file_size_in_bytes : ConstFile → ℕ
get_file_size_in_bytes f = length f.raw

pub get_file_size_in_kilo_bytes : ConstFile → ℕ
unfolding get_file_size_in_bytes
get_file_size_in_kilo_bytes f = get_file_size_in_bytes f / 1000

pub get_file_size_in_mega_bytes : ConstFile → ℕ
unfolding get_file_size_in_kilo_bytes
get_file_size_in_mega_bytes f = get_file_size_in_kilo_bytes f / 1000

unfoldable pub get_file_size_in_giga_bytes : ConstFile → ℕ
unfolding get_file_size_in_mega_bytes
get_file_size_in_giga_bytes f = get_file_size_in_mega_bytes f / 1000
