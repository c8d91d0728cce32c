-- ===== src/Lsp/Browser/LineFeeds.antt =====
-- `TransformUTF8ToLF` keeps the lines of a text and leaves one kind of line break.
use no.Prelude.{
  ℕ, ◌≡◌, ◌≢◌, refl, ap, inl, inr, false, ◌&&◌, List, [], ◌∷◌, Bytes, arith, ◌==◌, if◌then◌else◌,
  All, Bool-cases, ne→==,
}
use no.Lsp.Text.{is_line_end}
use no.Lsp.Browser.{transform_to_lf}

-- A byte in front of the first of some lines.
abbrev pub extend_first : ℕ → List Bytes → List Bytes
extend_first ch [] = (ch ∷ []) ∷ []
extend_first ch (l ∷ ls) = (ch ∷ l) ∷ ls

-- The lines of a text: "\n", "\r\n" and "\r" end one.
unfoldable pub lines : Bytes → List Bytes
lines [] = [] ∷ []
lines (ch ∷ []) = if is_line_end ch then [] ∷ [] ∷ [] else (ch ∷ []) ∷ []
lines (ch ∷ next ∷ rest) =
    let pair = [] ∷ lines rest in
    let break = [] ∷ lines (next ∷ rest) in
    let plain = extend_first ch (lines (next ∷ rest)) in
    if ch == b'\r' && next == b'\n' then pair else if is_line_end ch then break else plain

transform_to_lf_no_return : (raw : Bytes) → All (λ b. b ≢ b'\r') (transform_to_lf raw)
unfolding transform_to_lf
transform_to_lf_no_return [] = tt
transform_to_lf_no_return (ch ∷ []) = ground arith
transform_to_lf_no_return (ch ∷ next ∷ rest) =
    ground (arith, transform_to_lf_no_return rest, transform_to_lf_no_return (next ∷ rest))

lines_feed : (text : Bytes) → lines (b'\n' ∷ text) ≡ [] ∷ lines text
unfolding lines
lines_feed [] = refl
lines_feed (ch ∷ text) = refl

lines-plain :
    (ch : ℕ) (text : Bytes)
    → is_line_end ch ≡ false
    → lines (ch ∷ text) ≡ extend_first ch (lines text)
unfolding lines
lines-plain ch [] h = ground arith
lines-plain ch (next ∷ text) h = ground arith

lines_kept : (raw : Bytes) → lines (transform_to_lf raw) ≡ lines raw
unfolding transform_to_lf lines
lines_kept [] = refl
lines_kept (ch ∷ []) = ground arith
lines_kept (ch ∷ next ∷ rest) = elim (Bool-cases (is_line_end ch)) [
  | inl break ↦ ground (
    arith,
    lines_feed (transform_to_lf rest),
    lines_feed (transform_to_lf (next ∷ rest)),
    lines_kept rest,
    lines_kept (next ∷ rest),
  )
  | inr plain ↦
      ground (arith, lines-plain ch (transform_to_lf (next ∷ rest)) plain, lines_kept (next ∷ rest))
]

-- The transformed text has the lines of the text, and no carriage return.
pub lines-transform_to_lf :
    (raw : Bytes)
    → (lines (transform_to_lf raw) ≡ lines raw) × All (λ b. b ≢ b'\r') (transform_to_lf raw)
lines-transform_to_lf raw = (lines_kept raw, transform_to_lf_no_return raw)

-- A text with no carriage return is left as it is.
pub transform_to_lf_id : (raw : Bytes) → All (λ b. b ≢ b'\r') raw → transform_to_lf raw ≡ raw
unfolding transform_to_lf
transform_to_lf_id [] h = refl
transform_to_lf_id (ch ∷ []) h = ground arith
transform_to_lf_id (ch ∷ next ∷ rest) h =
    rw (ne→== ch b'\r' h.0, transform_to_lf) (ap (◌∷◌ ch) (transform_to_lf_id (next ∷ rest) h.1))
