-- ===== src/Lsp/Browser/WellFormed.antt =====
-- Incremental edits keep a document well-formed UTF-8.
use no.Prelude.{
  ℕ, ◌+◌, ◌^◌, ◌≤◌, ◌<◌, ◌≡◌, refl, ap, ◌∙◌, inl, inr, Option, none, some, List, [], ◌∷◌, ◌++◌,
  Bytes, arith, ltb, if◌then◌else◌, length, length-append, length-take, length-drop, take, drop,
  All, Bool-cases, Option-cases, Checked, value, assert_failed,
}
use no.Lsp.Text.Unicode.{IsScalar}
use no.Lsp.Text.Position.{utf8_all, position}
use no.Lsp.Browser.{ContentChange, apply_change, apply_changes}
use no.Lsp.Browser.Edits.{
  take-append_self, drop-append_self, utf8_all-append, Boundary, Boundary-le, position-Boundary,
  edit, apply_change-edit,
}

-- Bytes that encode some scalar values.
pub record IsText (raw : Bytes) : Type 0 where
  pub cps : List ℕ
  pub spelled : raw ≡ utf8_all cps
  pub scalars : All IsScalar cps

-- No failed assertion, and a new text, if there is one, that is well-formed and within a size.
abbrev pub GoodText : ℕ → Checked (Option Bytes) → Type 0
GoodText bound assert_failed = ⊥
GoodText bound (value none) = Unit {0}
GoodText bound (value (some raw)) = IsText raw × (length raw ≤ bound)

All-append : (P : ℕ → Type 0) (xs ys : List ℕ) → All P xs → All P ys → All P (xs ++ ys)
All-append P [] ys hx hy = hy
All-append P (x ∷ xs) ys hx hy = (hx.0, All-append P xs ys hx.1 hy)

All-append_left : (P : ℕ → Type 0) (xs ys : List ℕ) → All P (xs ++ ys) → All P xs
All-append_left P [] ys h = tt
All-append_left P (x ∷ xs) ys h = (h.0, All-append_left P xs ys h.1)

All-append_right : (P : ℕ → Type 0) (xs ys : List ℕ) → All P (xs ++ ys) → All P ys
All-append_right P [] ys h = h
All-append_right P (x ∷ xs) ys h = All-append_right P xs ys h.1

module _ (cps : List ℕ) (offset : ℕ) (b : Boundary cps offset) where
  spelled_out : utf8_all cps ≡ utf8_all b.before ++ utf8_all b.after
  spelled_out = ap utf8_all b.splits ∙ utf8_all-append b.before b.after

  take-Boundary : take offset (utf8_all cps) ≡ utf8_all b.before
  take-Boundary =
      ap (λ o. take o (utf8_all cps)) b.size
      ∙ ap (take (length (utf8_all b.before))) spelled_out
      ∙ take-append_self (utf8_all b.before) (utf8_all b.after)

  drop-Boundary : drop offset (utf8_all cps) ≡ utf8_all b.after
  drop-Boundary =
      ap (λ o. drop o (utf8_all cps)) b.size
      ∙ ap (drop (length (utf8_all b.before))) spelled_out
      ∙ drop-append_self (utf8_all b.before) (utf8_all b.after)

module _ (cps : List ℕ) (text : Bytes) (start end_ex : ℕ) (b1 : Boundary cps start)
    (b2 : Boundary cps end_ex) where
  edited : Bytes
  edited = take start (utf8_all cps) ++ (text ++ drop end_ex (utf8_all cps))

  length-edited : start ≤ end_ex → length edited ≤ length (utf8_all cps) + length text
  unfolding edited
  length-edited ordered = omega (
    arith,
    length-append (take start (utf8_all cps)) (text ++ drop end_ex (utf8_all cps)),
    length-append text (drop end_ex (utf8_all cps)),
    length-take start (utf8_all cps),
    length-drop end_ex (utf8_all cps),
    Boundary-le cps start b1,
    Boundary-le cps end_ex b2,
  )

  edited-IsText : All IsScalar cps → IsText text → IsText edited
  unfolding edited
  edited-IsText h u = record {
    cps = b1.before ++ (u.cps ++ b2.after);
    spelled =
        ap (λ t. take start (utf8_all cps) ++ (t ++ drop end_ex (utf8_all cps))) u.spelled
        ∙ rw
            (
              take-Boundary cps start b1,
              drop-Boundary cps end_ex b2,
              utf8_all-append b1.before (u.cps ++ b2.after),
              utf8_all-append u.cps b2.after,
            )
            refl;
    scalars =
        All-append IsScalar b1.before (u.cps ++ b2.after)
          (All-append_left IsScalar b1.before b1.after (rw b1.splits at h))
          (All-append IsScalar u.cps b2.after u.scalars
            (All-append_right IsScalar b2.before b2.after (rw b2.splits at h)));
  }

  edited-GoodText :
      All IsScalar cps
      → IsText text
      → GoodText
          (length (utf8_all cps) + length text)
          (value (if ltb end_ex start then none else some edited))
  edited-GoodText h u = elim (Bool-cases (ltb end_ex start)) [
    | inl inverted ↦ rw inverted tt
    | inr ordered ↦ rw ordered (edited-IsText h u, length-edited (ground arith))
  ]

edit-GoodText :
    (cps : List ℕ) (change : ContentChange)
    → All IsScalar cps
    → IsText change.text
    → GoodText (length (utf8_all cps) + length change.text) (value (edit cps change))
unfolding edited
edit-GoodText cps change h u =
    let from = change.range.start in
    let to = change.range.end_ex in
    elim (Option-cases (position from.line from.character cps)) [
      | inl missing ↦ rw (missing, edit) tt
      | inr (start, found) ↦
          rw (found, edit)
            (elim (Option-cases (position to.line to.character cps)) [
              | inl missing ↦ rw (missing, edit) tt
              | inr (end_ex, found') ↦
                  rw (found', edit)
                    (edited-GoodText cps change.text start end_ex
                      (position-Boundary from.line from.character start cps found)
                      (position-Boundary to.line to.character end_ex cps found') h u)
            ])
    ]

apply_change-GoodText :
    (raw : Bytes) (change : ContentChange)
    → IsText raw
    → IsText change.text
    → length raw < 2 ^ 63
    → GoodText (length raw + length change.text) (apply_change raw change)
apply_change-GoodText raw change t u fits = rw t.spelled (
    rw (apply_change-edit t.cps change t.scalars (rw t.spelled at fits))
      (edit-GoodText t.cps change t.scalars u))

abbrev pub total : List ContentChange → ℕ
total [] = 0
total (c ∷ cs) = length c.text + total cs

GoodText-mono : (m n : ℕ) (r : Checked (Option Bytes)) → m ≤ n → GoodText m r → GoodText n r
GoodText-mono m n assert_failed h g = g
GoodText-mono m n (value none) h g = g
GoodText-mono m n (value (some raw)) h g = (g.0, omega arith)

-- A batch of changes whose texts are well-formed, applied to a well-formed document, meets no failed
-- assertion, and if it is accepted the new document is well-formed and no longer than the document
-- and the texts together. The sizes together are below 2 ^ 63.
pub apply_changes-GoodText :
    (changes : List ContentChange) (raw : Bytes)
    → IsText raw
    → All (λ c. IsText c.text) changes
    → length raw + total changes < 2 ^ 63
    → GoodText (length raw + total changes) (apply_changes raw changes)
unfolding apply_changes
apply_changes-GoodText [] raw t us fits = (t, omega arith)
apply_changes-GoodText (c ∷ cs) raw t us fits =
    after (apply_change raw c) (apply_change-GoodText raw c t us.0 (omega arith))
      (λ state. apply_changes-GoodText cs state)
  where
    after :
        (r : Checked (Option Bytes))
        → GoodText (length raw + length c.text) r
        → ((state : Bytes)
            → IsText state
            → All (λ d. IsText d.text) cs
            → length state + total cs < 2 ^ 63
            → GoodText (length state + total cs) (apply_changes state cs))
        → GoodText (length raw + (length c.text + total cs)) (elim r [
          | assert_failed ↦ assert_failed
          | value none ↦ value none
          | value (some state) ↦ apply_changes state cs
        ])
    after assert_failed g rest = g
    after (value none) g rest = tt
    after (value (some state)) (st, le) rest =
        GoodText-mono (length state + total cs) _ (apply_changes state cs) (omega arith)
          (rest state st us.1 (omega arith))
