-- ===== src/Lsp/Context/Documents.antt =====
-- The handlers that work on documents: lib/src/lsp/support/route/textDocument_*.cc. `assert_failed`
-- stands for any end of the program, an exception included.
use no.Prelude.{
  ℕ, ◌-◌, ◌+◌, ◌%◌, ◌^◌, Bool, true, false, ◌&&◌, Option, none, some, List, [], ◌∷◌, Bytes, codes,
  ℤ, pos, negsuc, if◌then◌else◌, all, ◌>>=◌, Checked, value, assert_failed,
}
use no.Json.{Json}
use no.Lsp.Text.{get_offset}
use no.Lsp.Browser.{
  Files, Position, ContentChange, did_open, did_change, did_changes, did_save, did_close, get_file,
}
use no.Lsp.Protocol.{ResponseMessage}
use no.Lsp.Context.{Context, compiled_out, file_opens, file_refused}

-- An `int64_t` that becomes an `uint64_t`.
abbrev pub to_uint64 : ℤ → ℕ
to_uint64 (pos n) = n % 2 ^ 64
to_uint64 (negsuc n) = 2 ^ 64 - (n % 2 ^ 64 + 1)

abbrev pub keep_files : Context → Files → Context
keep_files c files = record c { fs = files }

-- The block under `#ifndef NDEBUG` that ends two handlers. It takes the file without a test.
unfoldable pub write_debug_output : Bytes → Context → Checked Context
write_debug_output file_uri c = elim c.debug_output [
  | compiled_out ↦ value c
  | file_opens ↦ elim (get_file file_uri c.fs) [ none ↦ assert_failed | some _ ↦ value c ]
  | file_refused ↦ assert_failed
]

module _ {V : Type 0} ⦃json : Json V⦄ where
  open json use {
    is_object, is_array, is_string, is_number_integer, is_number_unsigned, find, elements,
    get_string, get_int64, get_uint64,
  }

  -- `j.contains(key)` with a test of `j[key]`.
  abbrev pub has : Bytes → (V → Bool) → V → Bool
  has key ok j = elim (find key j) [ none ↦ false | some v ↦ ok v ]

  abbrev pub string_at : Bytes → V → Option Bytes
  string_at key j = do v ← find key j; get_string v

  abbrev pub int64_at : Bytes → V → Option ℤ
  int64_at key j = do v ← find key j; get_int64 v

  abbrev pub uint64_at : Bytes → V → Option ℕ
  uint64_at key j = do v ← find key j; get_uint64 v

  unfoldable pub verify_text_document_did_open : V → Bool
  verify_text_document_did_open j =
      is_object j
      && has (codes "textDocument")
          (λ d.
            is_object d
            && (has (codes "uri") is_string d
                && (has (codes "version") is_number_integer d && has (codes "text") is_string d)))
          j

  unfoldable pub notify_text_document_did_open : V → Context → Checked Context
  notify_text_document_did_open j c =
      let arguments : Option (Bytes × ℤ × Bytes) = (do
        d ← find (codes "textDocument") j
        uri ← string_at (codes "uri") d
        version ← int64_at (codes "version") d
        text ← string_at (codes "text") d
        some (uri, version, text)) in
      if verify_text_document_did_open j
      then elim arguments [
        | none ↦ assert_failed
        | some (uri, version, text) ↦ value (keep_files c (did_open uri version text c.fs).0)
      ]
      else value c

  unfoldable pub verify_text_document_did_close : V → Bool
  verify_text_document_did_close j =
      is_object j
      && has (codes "textDocument") (λ d. is_object d && has (codes "uri") is_string d) j

  unfoldable pub notify_text_document_did_close : V → Context → Checked Context
  notify_text_document_did_close j c =
      let arguments : Option Bytes = (do
        d ← find (codes "textDocument") j
        string_at (codes "uri") d) in
      if verify_text_document_did_close j
      then elim arguments [
        | none ↦ assert_failed
        | some uri ↦ value (keep_files c (did_close uri c.fs).0)
      ]
      else value c

  unfoldable pub verify_text_document_did_save : V → Bool
  verify_text_document_did_save j =
      is_object j
      && (has (codes "textDocument") (λ d. is_object d && has (codes "uri") is_string d) j
          && has (codes "text") is_string j)

  -- The name of the file and its text.
  unfoldable pub saved : V → Option (Bytes × Bytes)
  saved j = do
    d ← find (codes "textDocument") j
    uri ← string_at (codes "uri") d
    text ← string_at (codes "text") j
    some (uri, text)

  unfoldable pub notify_text_document_did_save : V → Context → Checked Context
  notify_text_document_did_save j c =
      if verify_text_document_did_save j
      then elim (saved j) [
        | none ↦ assert_failed
        | some (file_uri, full_content) ↦
            let (files, taken) = did_save file_uri (some full_content) c.fs in
            if taken
            then write_debug_output file_uri (keep_files c files)
            else value (keep_files c files)
      ]
      else value c

  abbrev pub is_position : V → Bool
  is_position p =
      is_object p
      && (has (codes "line") is_number_integer p && has (codes "character") is_number_integer p)

  abbrev pub is_content_change : V → Bool
  is_content_change change =
      is_object change
      && (has (codes "text") is_string change && elim (find (codes "range") change) [
        | none ↦ true
        | some range ↦
            is_object range
            && (has (codes "start") is_position range && has (codes "end") is_position range)
      ])

  unfoldable pub verify_text_document_did_change : V → Bool
  verify_text_document_did_change j =
      is_object j
      && (has (codes "textDocument")
            (λ d.
              is_object d
              && (has (codes "uri") is_string d && has (codes "version") is_number_integer d))
            j
          && has (codes "contentChanges") (λ cs. is_array cs && all is_content_change (elements cs))
              j)

  unfoldable pub position_of : V → Option Position
  position_of p = do
    line ← int64_at (codes "line") p
    character ← int64_at (codes "character") p
    some (record { line = to_uint64 line; character = to_uint64 character })

  -- One change of the list; the Boolean says whether the browser took it.
  unfoldable pub take_change : Bytes → ℤ → V → Files → Checked (Files × Bool)
  take_change file_uri version change files = elim (find (codes "range") change) [
    | none ↦ elim (string_at (codes "text") change) [
      | none ↦ assert_failed
      | some text ↦ value (did_change file_uri version text files)
    ]
    | some range ↦
        let parts : Option ContentChange = (do
          start_json ← find (codes "start") range
          start ← position_of start_json
          end_json ← find (codes "end") range
          end ← position_of end_json
          text ← string_at (codes "text") change
          some (record { range = record { start = start; end_ex = end }; text = text })) in
        elim parts [
          | none ↦ assert_failed
          | some part ↦ did_changes file_uri version (part ∷ []) files
        ]
  ]

  -- The loop over the changes, which ends at one that is not taken; the Boolean says whether all were.
  unfoldable pub take_changes : Bytes → ℤ → List V → Files → Checked (Files × Bool)
  take_changes file_uri version [] files = value (files, true)
  take_changes file_uri version (change ∷ changes) files =
      elim (take_change file_uri version change files) [
        | assert_failed ↦ assert_failed
        | value (files', false) ↦ value (files', false)
        | value (files', true) ↦ take_changes file_uri version changes files'
      ]

  unfoldable pub notify_text_document_did_change : V → Context → Checked Context
  notify_text_document_did_change j c =
      let arguments : Option (Bytes × ℤ × List V) = (do
        d ← find (codes "textDocument") j
        uri ← string_at (codes "uri") d
        version ← int64_at (codes "version") d
        content_changes ← find (codes "contentChanges") j
        some (uri, version, elements content_changes)) in
      if verify_text_document_did_change j
      then elim arguments [
        | none ↦ assert_failed
        | some (uri, version, changes) ↦ elim (take_changes uri version changes c.fs) [
          | assert_failed ↦ assert_failed
          | value (files, false) ↦ value (keep_files c files)
          | value (files, true) ↦ write_debug_output uri (keep_files c files)
        ]
      ]
      else value c

  unfoldable pub verify_text_document_completion : V → Bool
  verify_text_document_completion j =
      is_object j
      && (has (codes "textDocument") (λ d. is_object d && has (codes "uri") is_string d) j
          && has (codes "position")
              (λ p.
                is_object p
                && (has (codes "line") is_number_unsigned p
                    && has (codes "character") is_number_unsigned p))
              j)

  -- The offset is looked up, and nothing is made of it.
  unfoldable pub request_completion :
      V → ResponseMessage V → Context → Checked (ResponseMessage V × Context)
  request_completion j response c =
      let arguments : Option (Bytes × ℕ × ℕ) = (do
        d ← find (codes "textDocument") j
        uri ← string_at (codes "uri") d
        p ← find (codes "position") j
        line ← uint64_at (codes "line") p
        character ← uint64_at (codes "character") p
        some (uri, line, character)) in
      if verify_text_document_completion j
      then elim arguments [
        | none ↦ assert_failed
        | some (uri, line, character) ↦ elim (get_file uri c.fs) [
          | none ↦ value (response, c)
          | some file ↦ elim (get_offset file.raw line character) [
            | assert_failed ↦ assert_failed
            | value _ ↦ value (response, c)
          ]
        ]
      ]
      else value (response, c)
