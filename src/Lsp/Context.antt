-- ===== src/Lsp/Context.antt =====
-- The state of a session, and what each message does to it: lib/src/lsp/server/Context.cc with the
-- handlers of lib/src/lsp/support/route. The output stream is the bytes written.
pub mod Documents
pub mod Dispatch
pub mod Session
pub mod Verified
pub mod Gate
pub mod Traces
pub mod Tests
use no.Prelude.{
  Bool, true, false, ◌&&◌, ◌||◌, Option, none, some, List, [], ◌∷◌, Bytes, codes, pos,
  if◌then◌else◌,
}
use no.Prelude.Dict.{bytes_eq}
use no.Json.{Json}
use no.Lsp.Browser.{Files}
use no.Lsp.Protocol.{ResponseMessage, StatusCode, invalid_request}

pub data TraceValue : Type 0 where
  off : TraceValue
  messages : TraceValue
  verbose : TraceValue

-- The debug output of two handlers: left out where `NDEBUG` is defined; otherwise whether its file opens.
pub data DebugOutput : Type 0 where
  compiled_out : DebugOutput
  file_opens : DebugOutput
  file_refused : DebugOutput

pub record Context : Type 0 where
  pub fs : Files
  pub is_lsp_initialized : Bool
  pub can_send_trace : Bool
  pub exit_requested : Bool
  pub trace : TraceValue
  pub written : Bytes
  pub debug_output : DebugOutput

abbrev pub new_context : DebugOutput → Context
new_context debug_output = record {
  fs = [];
  is_lsp_initialized = false;
  can_send_trace = false;
  exit_requested = false;
  trace = messages;
  written = [];
  debug_output = debug_output;
}

module _ {V : Type 0} ⦃json : Json V⦄ where
  open json use {is_object, is_string, find, get_string, object, array, string, unsigned, boolean}

  unfoldable pub verify_initialize_request : V → Bool
  verify_initialize_request j = elim (find (codes "trace") j) [ none ↦ true | some v ↦ is_string v ]

  abbrev pub is_text : Bytes → V → Bool
  is_text t v = is_string v && elim (get_string v) [ none ↦ false | some s ↦ bytes_eq s t ]

  -- What the server tells of itself.
  unfoldable pub initialize_result : V
  initialize_result = object (
      (
        codes "serverInfo",
        object (
            (codes "name", string (codes "nitrateLanguageServer"))
            ∷ (codes "version", string (codes "0.0.1"))
            ∷ []),
      )
      ∷ (
        codes "capabilities",
        object (
            (codes "positionEncoding", string (codes "utf-16"))
            ∷ (
              codes "textDocumentSync",
              object (
                  (codes "openClose", boolean true)
                  ∷ (codes "change", unsigned 2)
                  ∷ (codes "save", object ((codes "includeText", boolean true) ∷ []))
                  ∷ []),
            )
            ∷ (
              codes "completionProvider",
              object (
                  (codes "triggerCharacters", array (string (codes ".") ∷ string (codes "::") ∷ []))
                  ∷ []),
            )
            ∷ []),
      )
      ∷ [])

  unfoldable pub request_initialize : V → ResponseMessage V → Context → ResponseMessage V × Context
  request_initialize req response c =
      let trace : TraceValue = elim (find (codes "trace") req) [
        | none ↦ c.trace
        | some v ↦
            if is_text (codes "messages") v
            then messages
            else if is_text (codes "verbose") v
            then verbose
            else off
      ] in
      if verify_initialize_request req
      then (
        record response { body = initialize_result },
        record c { trace = trace; is_lsp_initialized = true },
      )
      else (record response { status_code = some invalid_request }, c)

  unfoldable pub request_shutdown : V → ResponseMessage V → Context → ResponseMessage V × Context
  request_shutdown req response c = (response, c)

  unfoldable pub notify_initialized : V → Context → Context
  notify_initialized notice c = record c { can_send_trace = true }

  unfoldable pub notify_exit : V → Context → Context
  notify_exit notice c = record c { exit_requested = true }

  unfoldable pub verify_set_trace : V → Bool
  verify_set_trace j = is_object j && elim (find (codes "value") j) [
    | none ↦ false
    | some v ↦
        is_text (codes "off") v || (is_text (codes "messages") v || is_text (codes "verbose") v)
  ]

  unfoldable pub notify_set_trace : V → Context → Context
  notify_set_trace j c = elim (find (codes "value") j) [
    | none ↦ c
    | some v ↦
        if verify_set_trace j
        then (if is_text (codes "off") v
            then record c { trace = off }
            else if is_text (codes "messages") v
            then record c { trace = messages }
            else if is_text (codes "verbose") v
            then record c { trace = verbose }
            else c)
        else c
  ]
