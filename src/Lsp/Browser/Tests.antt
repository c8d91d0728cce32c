-- ===== src/Lsp/Browser/Tests.antt =====
-- Runs of the file browser, and its theorems at concrete documents.
use no.Prelude.{All, ◌≢◌, ℕ, List, ◌∷◌, [], ◌≡◌, refl, codes, length, arith, some, value, ◌+◌, pos}
use no.Prelude.Dict.{lookup, insert, erase}
use no.Lsp.Text.Position.{utf8_all}
use no.Lsp.Browser.{
  Files, ContentChange, transform_to_lf, apply_change, apply_changes, did_open, did_change,
  did_changes, did_save, did_close, get_file,
}
use no.Lsp.Browser.Edits.{edit, apply_change-edit}
use no.Lsp.Browser.WellFormed.{IsText, GoodText, total, apply_changes-GoodText}
use no.Lsp.Browser.Files.{
  Call, opens, changes_whole, saves, closes, call, specified, Refines, call-Refines,
}
use no.Lsp.Browser.Invariant.{IsValid, history, history-IsValid}
use no.Lsp.Browser.LineFeeds.{lines, lines-transform_to_lf}

-- Two lines, the first with a character of four bytes.
abbrev sample : List ℕ
sample = b'a' ∷ 0x1F600 ∷ b'b' ∷ b'\n' ∷ b'c' ∷ []

-- From behind the first character to the start of the second line.
abbrev joined : ContentChange
joined = record {
  range = record {
    start = record { line = 0; character = 1 };
    end_ex = record { line = 1; character = 0 };
  };
  text = codes "-";
}

apply_change-edit_example : apply_change (utf8_all sample) joined ≡ value (edit sample joined)
apply_change-edit_example = apply_change-edit sample joined (ground arith) (ground arith)

sample-IsText : IsText (utf8_all sample)
sample-IsText = record { cps = sample; spelled = refl; scalars = ground arith }

dash-IsText : IsText (codes "-")
dash-IsText = record { cps = codes "-"; spelled = refl; scalars = ground arith }

apply_changes-GoodText_example :
    GoodText
      (length (utf8_all sample) + total (joined ∷ []))
      (apply_changes (utf8_all sample) (joined ∷ []))
apply_changes-GoodText_example =
    apply_changes-GoodText (joined ∷ []) (utf8_all sample) sample-IsText (dash-IsText, tt)
      (ground arith)

abbrev one_file : Files
one_file =
    (codes "a.n", record { file_uri = codes "a.n"; version = pos 1; raw = codes "x\ny" }) ∷ []

call-Refines_example :
    Refines
      (codes "a.n")
      one_file
      (call (closes (codes "a.n")) one_file)
      (specified (closes (codes "a.n")) (get_file (codes "a.n") one_file))
call-Refines_example = call-Refines (closes (codes "a.n")) one_file (tt, tt)

-- A file is opened, opened again, changed as a whole and saved.
abbrev calls : List Call
calls =
    opens (codes "a.n") (pos 1) (codes "x\r\ny")
    ∷ opens (codes "a.n") (pos 2) (codes "z")
    ∷ changes_whole (codes "a.n") (pos 3) (codes "w")
    ∷ saves (codes "a.n") (some (codes "v"))
    ∷ []

abbrev after_calls : Files
after_calls =
    (codes "a.n", record { file_uri = codes "a.n"; version = pos 3; raw = codes "v" }) ∷ []

calls_run : history calls [] ≡ value after_calls
unfolding history call did_open did_change did_changes did_save did_close lookup insert erase
    transform_to_lf
calls_run = refl

history-IsValid_example : IsValid after_calls
history-IsValid_example = history-IsValid calls calls_run

lines-transform_to_lf_example :
    (lines (transform_to_lf (codes "a\r\nb\rc")) ≡ lines (codes "a\r\nb\rc"))
    × All (λ b. b ≢ b'\r') (transform_to_lf (codes "a\r\nb\rc"))
lines-transform_to_lf_example = lines-transform_to_lf (codes "a\r\nb\rc")
