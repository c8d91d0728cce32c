-- ===== src/Lsp/Browser/Edits.antt =====
-- Incremental edits of well-formed UTF-8 text.
use native.Mathlib.Decide.{dec_lt}
use mathlib.Core.List.{append_assoc}
use no.Prelude.{
  ℕ, zero, suc, ◌+◌, ◌-◌, ◌%◌, ◌^◌, ◌≤◌, ◌<◌, ◌≡◌, refl, sym, ap, ◌∙◌, inl, inr, ◌&&◌, ◌||◌, Option,
  none, some, List, [], ◌∷◌, ◌++◌, Bytes, arith, ◌==◌, if◌then◌else◌, length, length-append, ltb,
  lt→ltb, le→ltb, take, drop, All, Bool-cases, Option-cases, value,
}
use no.Lsp.Text.{is_line_end}
use no.Lsp.Text.Unicode.{IsScalar, utf8, utf16_length}
use no.Lsp.Text.Position.{utf8_all, line_start, before_column, position}
use no.Lsp.Text.Refinement.{get_offset-position}
use no.Lsp.Browser.{ContentChange, splice, apply_change}

-- Bounds of `splice`: in order it replaces the bytes between the offsets, and an end before the
-- start is refused, the difference having wrapped to a number beyond any size below 2 ^ 63.
pub splice_ordered :
    (state text : Bytes) (start end_ex : ℕ)
    → start ≤ end_ex
    → end_ex ≤ length state
    → length state < 2 ^ 64
    → splice state start end_ex text ≡ some (take start state ++ (text ++ drop end_ex state))
unfolding splice
splice_ordered state text start end_ex le within fits =
    let size : (end_ex + 2 ^ 64 - start) % 2 ^ 64 ≡ end_ex - start = omega arith in
    let stop : start + (end_ex - start) ≡ end_ex = omega arith in
    rw (
      size,
      le→ltb (length state) start (omega arith),
      le→ltb (length state) (end_ex - start) (omega arith),
      stop,
    )

pub splice_inverted :
    (state text : Bytes) (start end_ex : ℕ)
    → end_ex < start
    → start ≤ length state
    → length state < 2 ^ 63
    → splice state start end_ex text ≡ none
unfolding splice
splice_inverted state text start end_ex lt within fits = ground arith

pub take-append_self : (xs ys : Bytes) → take (length xs) (xs ++ ys) ≡ xs
take-append_self [] ys = refl
take-append_self (x ∷ xs) ys = ap (◌∷◌ x) (take-append_self xs ys)

pub drop-append_self : (xs ys : Bytes) → drop (length xs) (xs ++ ys) ≡ ys
drop-append_self [] ys = refl
drop-append_self (x ∷ xs) ys = drop-append_self xs ys

pub utf8_all-append : (xs ys : List ℕ) → utf8_all (xs ++ ys) ≡ utf8_all xs ++ utf8_all ys
utf8_all-append [] ys = refl
utf8_all-append (x ∷ xs) ys =
    ap (◌++◌ (utf8 x)) (utf8_all-append xs ys)
    ∙ sym (append_assoc (utf8 x) (utf8_all xs) (utf8_all ys))

pub length-utf8_all-append :
    (xs ys : List ℕ) → length (utf8_all (xs ++ ys)) ≡ length (utf8_all xs) + length (utf8_all ys)
length-utf8_all-append xs ys =
    ap length (utf8_all-append xs ys) ∙ length-append (utf8_all xs) (utf8_all ys)

-- A byte offset that lies between two code points.
pub record Boundary (cps : List ℕ) (offset : ℕ) : Type 0 where
  pub before : List ℕ
  pub after : List ℕ
  pub splits : cps ≡ before ++ after
  pub size : offset ≡ length (utf8_all before)

pub Boundary-le : (cps : List ℕ) (offset : ℕ) → Boundary cps offset → offset ≤ length (utf8_all cps)
Boundary-le cps offset b =
    omega (
      arith,
      b.size,
      ap (λ l. length (utf8_all l)) b.splits,
      length-utf8_all-append b.before b.after,
    )

abbrev LineTail : List ℕ → Option (List ℕ) → Type 0
LineTail cps none = Unit {0}
LineTail cps (some tail) = (before : List ℕ) × (cps ≡ before ++ tail)

LineTail-extend : (xs cps : List ℕ) (t : Option (List ℕ)) → LineTail cps t → LineTail (xs ++ cps) t
LineTail-extend xs cps none h = tt
LineTail-extend xs cps (some tail) (before, e) =
    (xs ++ before, ap (◌++◌ xs) e ∙ sym (append_assoc xs before tail))

line_start-LineTail : (n : ℕ) (cps : List ℕ) → LineTail cps (line_start n cps)
unfolding line_start
line_start-LineTail zero cps = ([], refl)
line_start-LineTail (suc n) [] = tt
line_start-LineTail (suc n) (c ∷ []) = elim (Bool-cases (is_line_end c)) [
  | inl break ↦ rw break (LineTail-extend (c ∷ []) [] (line_start n []) (line_start-LineTail n []))
  | inr plain ↦ rw plain tt
]
line_start-LineTail (suc n) (c ∷ d ∷ cs) = elim (Bool-cases (c == b'\r' && d == b'\n')) [
  | inl pair ↦
      rw pair (LineTail-extend (c ∷ d ∷ []) cs (line_start n cs) (line_start-LineTail n cs))
  | inr single ↦ elim (Bool-cases (is_line_end c)) [
    | inl break ↦
        rw (single, break)
          (LineTail-extend (c ∷ []) (d ∷ cs) (line_start n (d ∷ cs))
            (line_start-LineTail n (d ∷ cs)))
    | inr plain ↦
        rw (single, plain)
          (LineTail-extend (c ∷ []) (d ∷ cs) (line_start (suc n) (d ∷ cs))
            (line_start-LineTail (suc n) (d ∷ cs)))
  ]
]

before_column_prefix :
    (column pos : ℕ) (cps : List ℕ)
    → (after : List ℕ) × (cps ≡ before_column column pos cps ++ after)
unfolding before_column
before_column_prefix column pos [] = ([], refl)
before_column_prefix column pos (c ∷ cs) = elim (Bool-cases (is_line_end c || column == pos)) [
  | inl stop ↦ rw stop (c ∷ cs, refl)
  | inr go ↦
      let (after, e) = before_column_prefix column (pos + utf16_length c) cs in
      rw go (after, ap (◌∷◌ c) e)
]

pub position-Boundary :
    (line column offset : ℕ) (cps : List ℕ)
    → position line column cps ≡ some offset
    → Boundary cps offset
unfolding position
position-Boundary line column offset cps e = elim (Option-cases (line_start line cps)) [
  | inl missing ↦
      let e' : ◌≡◌ {A = Option ℕ} none (some offset) = rw (missing, position) at e in absurd (cc)
  | inr (tail, found) ↦
      let (before, e1) = rw found at (line_start-LineTail line cps) in
      let (after, e2) = before_column_prefix column 0 tail in
      let reached = before_column column 0 tail in
      let e' = rw (found, position) at e in
      let offset_is : length (utf8_all cps) - length (utf8_all tail) + length (utf8_all reached)
          ≡ offset =
        cc in
      let whole : length (utf8_all cps) ≡ length (utf8_all before) + length (utf8_all tail) =
        ap (λ l. length (utf8_all l)) e1 ∙ length-utf8_all-append before tail in
      record {
        before = before ++ reached;
        after = after;
        splits = e1 ∙ ap (◌++◌ before) e2 ∙ sym (append_assoc before reached after);
        size = omega (arith, length-utf8_all-append before reached);
      }
]

-- The edit of a well-formed text, by positions counted over code points.
abbrev pub edit : List ℕ → ContentChange → Option Bytes
edit cps change =
    let raw = utf8_all cps in
    elim (position change.range.start.line change.range.start.character cps) [
      | none ↦ none
      | some start ↦ elim (position change.range.end_ex.line change.range.end_ex.character cps) [
        | none ↦ none
        | some end_ex ↦
            if ltb end_ex start
            then none
            else some (take start raw ++ (change.text ++ drop end_ex raw))
      ]
    ]

splice-edit :
    (cps : List ℕ) (text : Bytes) (start end_ex : ℕ)
    → Boundary cps start
    → Boundary cps end_ex
    → length (utf8_all cps) < 2 ^ 63
    → splice (utf8_all cps) start end_ex text ≡ (
        if ltb end_ex start
        then none
        else some (take start (utf8_all cps) ++ (text ++ drop end_ex (utf8_all cps))))
splice-edit cps text start end_ex b1 b2 fits =
    let le1 = Boundary-le cps start b1 in
    let le2 = Boundary-le cps end_ex b2 in
    elim (dec_lt end_ex start) [
      | yes inverted ↦
          rw (lt→ltb end_ex start inverted)
            (splice_inverted (utf8_all cps) text start end_ex inverted le1 fits)
      | no ordered ↦
          rw (le→ltb end_ex start (omega arith))
            (splice_ordered (utf8_all cps) text start end_ex (omega arith) le2 (omega arith))
    ]

-- On well-formed text of less than 2 ^ 63 bytes a change meets no failed assertion. It replaces the
-- bytes between the two positions by its text, and is refused if the line of one of them is missing
-- or if the end lies before the start.
pub apply_change-edit :
    (cps : List ℕ) (change : ContentChange)
    → All IsScalar cps
    → length (utf8_all cps) < 2 ^ 63
    → apply_change (utf8_all cps) change ≡ value (edit cps change)
unfolding apply_change
apply_change-edit cps change h fits =
    let from = change.range.start in
    let to = change.range.end_ex in
    rw (get_offset-position cps from.line from.character h, apply_change)
      (elim (Option-cases (position from.line from.character cps)) [
        | inl missing ↦ rw (missing, edit)
        | inr (start, found) ↦
            rw (found, edit, get_offset-position cps to.line to.character h)
              (elim (Option-cases (position to.line to.character cps)) [
                | inl missing ↦ rw (missing, edit)
                | inr (end_ex, found') ↦
                    rw (found', edit)
                      (ap value (
                        splice-edit cps change.text start end_ex
                          (position-Boundary from.line from.character start cps found)
                          (position-Boundary to.line to.character end_ex cps found') fits))
              ])
      ])
