-- ===== src/Lsp/Context/Verified.antt =====
-- What the tests of a notification let through is read without an exception.
use no.Prelude.{
  ◌∙◌, none, refl, ◌⊎◌, ◌↔◌, Bool-cases, Bool, true, some, Bytes, codes, ℤ, ◌≡◌, ◌≢◌, arith,
  Option-cases, inl, inr, assert_failed,
}
use no.Json.{Json, JsonLaws}
use no.Prelude.Dict.{bytes_key, bytes_eq_iff, lookup, lookup-insert}
use no.Lsp.Browser.{Files, get_file, did_save}
use no.Lsp.Context.{Context, DebugOutput, compiled_out, file_opens, file_refused}
use no.Lsp.Context.Documents.{
  has, string_at, int64_at, verify_text_document_did_open, verify_text_document_did_close,
  verify_text_document_did_save, notify_text_document_did_open, notify_text_document_did_close,
  notify_text_document_did_save, saved, write_debug_output, keep_files,
}

DebugOutput-cases : (d : DebugOutput) → (d ≡ compiled_out) ⊎ ((d ≡ file_opens) ⊎ (d ≡ file_refused))
DebugOutput-cases compiled_out = inl refl
DebugOutput-cases file_opens = inr (inl refl)
DebugOutput-cases file_refused = inr (inr refl)

did_save_taken : (uri text : Bytes) (files : Files) → (did_save uri (some text) files).1 ≡ true
unfolding did_save
did_save_taken uri text files = ground (arith, Option-cases (lookup uri files))

-- Saving opens no file and closes none.
get_file-did_save :
    (uri text : Bytes) (files : Files)
    → (get_file uri (did_save uri (some text) files).0 ≡ none) ↔ (get_file uri files ≡ none)
unfolding get_file did_save
get_file-did_save uri text files = elim (Option-cases (lookup uri files)) [
  | inl missing ↦ rw (missing, get_file, did_save) ((λ h. refl), λ h. missing)
  | inr (file, there) ↦ (
    λ h. absurd (
        ground (
          arith,
          there,
          lookup-insert uri uri (record { file_uri = uri; version = file.version; raw = text })
              files,
          bytes_eq_iff uri uri,
          h,
        )),
    λ h. absurd (cc),
  )
]

module _ {V : Type 0} ⦃json : Json V⦄ (laws : JsonLaws json) where
  open json use {is_object, is_string, is_number_integer, find, get_string, get_int64}

  has-some :
      (key : Bytes) (ok : V → Bool) (j : V)
      → has key ok j ≡ true
      → (v : V) × (find key j ≡ some v) × (ok v ≡ true)
  has-some key ok j h = elim (Option-cases (find key j)) [
    | inl missing ↦ absurd (ground (arith, h, missing))
    | inr (v, found) ↦ (v, found, ground (arith, h, found))
  ]

  string_at-some :
      (key : Bytes) (j : V) → has key is_string j ≡ true → (s : Bytes) × (string_at key j ≡ some s)
  string_at-some key j h =
      let (v, found, ok) = has-some key is_string j h in
      let (s, e) = laws.string_get v ok in (s, ground (arith, found, e))

  int64_at-some :
      (key : Bytes) (j : V)
      → has key is_number_integer j ≡ true
      → (n : ℤ) × (int64_at key j ≡ some n)
  int64_at-some key j h =
      let (v, found, ok) = has-some key is_number_integer j h in
      let (n, e) = laws.integer_get v ok in (n, ground (arith, found, e))

  did_open_total : (j : V) (c : Context) → notify_text_document_did_open j c ≢ assert_failed
  unfolding notify_text_document_did_open verify_text_document_did_open
  did_open_total j c = elim (Option-cases (find (codes "textDocument") j)) [
    | inl missing ↦ ground (arith, missing)
    | inr (d, found) ↦ ground (
      arith,
      found,
      string_at-some (codes "uri") d,
      int64_at-some (codes "version") d,
      string_at-some (codes "text") d,
    )
  ]

  did_close_total : (j : V) (c : Context) → notify_text_document_did_close j c ≢ assert_failed
  unfolding notify_text_document_did_close verify_text_document_did_close
  did_close_total j c = elim (Option-cases (find (codes "textDocument") j)) [
    | inl missing ↦ ground (arith, missing)
    | inr (d, found) ↦ ground (arith, found, string_at-some (codes "uri") d)
  ]

  saved-some :
      (j : V)
      → verify_text_document_did_save j ≡ true
      → (uri : Bytes) × (text : Bytes) × (saved j ≡ some (uri, text))
  unfolding verify_text_document_did_save saved
  saved-some j h = elim (Option-cases (find (codes "textDocument") j)) [
    | inl missing ↦ absurd (ground (arith, missing, h))
    | inr (d, found) ↦
        let (uri, e) = string_at-some (codes "uri") d (ground (arith, found, h)) in
        let (text, e') = string_at-some (codes "text") j (ground (arith, found, h)) in
        (uri, text, rw (found, e, e') refl)
  ]

  -- When the debug output throws behind a notification of a saved file: its file does not open, or the
  -- saved file is not open.
  abbrev pub SaveThrows : V → Context → Type 0
  SaveThrows j c =
      (verify_text_document_did_save j ≡ true)
      × ((c.debug_output ≡ file_refused)
          ⊎ ((c.debug_output ≡ file_opens)
              × ((uri : Bytes) × (text : Bytes) × (saved j ≡ some (uri, text))
                  × (get_file uri c.fs ≡ none))))

  did_save_lem :
      (j : V) (c : Context) → (notify_text_document_did_save j c ≡ assert_failed) ↔ SaveThrows j c
  unfolding notify_text_document_did_save write_debug_output
  did_save_lem j c = elim (Bool-cases (verify_text_document_did_save j)) [
    | inr refuted ↦ (λ h. absurd (ground (arith, refuted, h)), λ h. absurd (cc))
    | inl valid ↦
        let (uri, text, e) = saved-some j valid in
        let files = (did_save uri (some text) c.fs).0 in
        let same = get_file-did_save uri text c.fs in
        let reaches : notify_text_document_did_save j c
            ≡ write_debug_output uri (keep_files c files) =
          rw (valid, e, did_save_taken uri text c.fs, notify_text_document_did_save) refl in
        elim (DebugOutput-cases c.debug_output) [
          | inl out ↦ (
            λ h. absurd (ground (arith, reaches, out, h)),
            λ h. elim h.1 [ inl r ↦ absurd (cc) | inr (r, _) ↦ absurd (cc) ],
          )
          | inr (inr refused) ↦
              (λ h. (valid, inl refused), λ h. reaches ∙ rw (write_debug_output, refused) refl)
          | inr (inl opens) ↦ (
            λ h. elim (Option-cases (get_file uri files)) [
              | inl gone ↦ (valid, inr (opens, (uri, text, e, same.0 gone)))
              | inr (file, there) ↦ absurd (ground (arith, reaches, opens, there, h))
            ],
            λ h. elim h.1 [
              | inl r ↦ absurd (cc)
              | inr (r, (uri', text', e', gone)) ↦
                  let gone' : get_file uri files ≡ none = same.1 (cc) in
                  reaches ∙ rw (write_debug_output, opens, gone') refl
            ],
          )
        ]
  ]

  -- Opening and closing a document never end the program, whatever parameters a client sends. Saving
  -- one does exactly where the debug output is compiled in, the parameters pass their test, and the
  -- file of the debug output does not open or the saved document is not open.
  pub document_handlers_throw :
      (j : V) (c : Context)
      → (notify_text_document_did_open j c ≢ assert_failed)
        × (notify_text_document_did_close j c ≢ assert_failed)
        × ((notify_text_document_did_save j c ≡ assert_failed) ↔ SaveThrows j c)
  document_handlers_throw j c = (did_open_total j c, did_close_total j c, did_save_lem j c)
