-- ===== src/Lsp/Text/Tests.antt =====
-- Runs of the text positions on small inputs.
use no.Prelude.{
  ℕ, List, ◌++◌, length, arith, ◌≡◌, refl, [], ◌∷◌, codes, none, some, value, assert_failed,
}
use no.Lsp.Text.Unicode.{utf8, utf16_length, utf16_character_count-utf8}
use no.Lsp.Text.Position.{utf8_all, position}
use no.Lsp.Text.Refinement.{get_offset-position}
use no.Lsp.Text.RoundTrip.{get_offset-get_lc}
use no.Lsp.Text.{decode, utf16_units, utf16_character_count, get_offset, get_lc}

offset_second_line : get_offset (codes "ab\r\ncde\nf") 1 2 ≡ value (some 6)
unfolding get_offset utf16_character_count decode utf16_units
offset_second_line = refl

offset_astral : get_offset (0xF0 ∷ 0x9F ∷ 0x98 ∷ 0x80 ∷ b'x' ∷ []) 0 2 ≡ value (some 4)
unfolding get_offset utf16_character_count decode utf16_units
offset_astral = refl

offset_clipped : get_offset (codes "ab\ncd") 0 9 ≡ value (some 2)
unfolding get_offset utf16_character_count decode utf16_units
offset_clipped = refl

offset_no_line : get_offset (codes "ab\ncd") 2 0 ≡ value none
unfolding get_offset
offset_no_line = refl

offset_truncated : get_offset (0xC3 ∷ []) 0 1 ≡ assert_failed
unfolding get_offset utf16_character_count decode utf16_units
offset_truncated = refl

lc_second_line : get_lc (codes "ab\r\ncde\nf") 6 ≡ some (1, 2)
unfolding get_lc
lc_second_line = refl

lc_inside_pair : get_lc (codes "ab\r\ncde\nf") 3 ≡ none
unfolding get_lc
lc_inside_pair = refl

-- One byte, four bytes, and a line feed.
abbrev sample : List ℕ
sample = b'a' ∷ 0x1F600 ∷ b'b' ∷ b'\n' ∷ b'c' ∷ []

get_offset-position_example : get_offset (utf8_all sample) 0 3 ≡ value (position 0 3 sample)
get_offset-position_example = get_offset-position sample 0 3 (ground arith)

get_offset-get_lc_example : get_offset (codes "ab\r\ncde\nf") 1 2 ≡ value (some 6)
get_offset-get_lc_example =
    get_offset-get_lc (codes "ab\r\ncde\nf") 6 1 2 (ground arith) lc_second_line

utf16_character_count-utf8_example :
    utf16_character_count (utf8 0x1F600 ++ b'x' ∷ [])
    ≡ some (record { count = utf16_length 0x1F600; size = length (utf8 0x1F600) })
utf16_character_count-utf8_example = utf16_character_count-utf8 0x1F600 (b'x' ∷ []) (ground arith)
