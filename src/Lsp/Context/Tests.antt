-- ===== src/Lsp/Context/Tests.antt =====
-- Runs of a session, and its theorems at concrete messages.
use no.Prelude.{
  ◌∷◌, [], List, Bytes, ◌≢◌, ◌↔◌, assert_failed, ◌++◌, ◌≡◌, refl, codes, some, true, false, pos,
  value,
}
use no.Prelude.Dict.{lookup}
use no.Json.Sample.{
  Value, nothing, text, number, entry, empty_object, sample_json, sample_json-JsonLaws,
}
use no.Lsp.Context.Documents.{
  notify_text_document_did_open, notify_text_document_did_close, notify_text_document_did_save,
  verify_text_document_did_save, saved, write_debug_output,
}
use no.Lsp.Context.Gate.{session, session-new_context}
use no.Lsp.Context.Verified.{document_handlers_throw, SaveThrows}
use no.Lsp.Http.{frame}
use no.Lsp.Browser.{did_save, get_file}
use no.Lsp.Protocol.{
  Message, request, notification, number_id, ResponseMessage, finalize, method_not_found,
  response_object,
}
use no.Lsp.Context.{
  notify_exit, Context, compiled_out, file_opens, new_context, notify_set_trace, verify_set_trace,
  off,
}
use no.Lsp.Context.Dispatch.{
  Lines, execute_rpc, execute_lsp_request, execute_lsp_notification, run_notification, send_message,
}
use no.Lsp.Context.Traces.{
  strip_ansi, strip_from, sequence_length, LogMessage, passes, send_trace, send_traces, log_frames,
  texts, selected, log_trace_notification,
}
use no.Lsp.Context.Session.{Follows, execute_rpc-request, execute_rpc-notification}

-- A log with one line above the level `Trace` for each message.
abbrev lines : Lines Value
lines = record {
  before = λ m c. record { formatted = codes "executing"; above_trace = true } ∷ [];
  after = λ m c. [];
  wrote = λ text. record { formatted = codes "wrote"; above_trace = false } ∷ [];
}

-- A session that was initialized.
abbrev ready : Context
ready = record (new_context compiled_out) { is_lsp_initialized = true }

abbrev unknown_response : ResponseMessage Value
unknown_response = record (response_object (number_id (pos 7))) {
  status_code = some method_not_found;
}

abbrev answered : Context
answered = send_message lines unknown_response ready

unknown_answered :
    execute_rpc lines (request (codes "foo") (number_id (pos 7)) nothing) ready
    ≡ value (answered, false)
unfolding execute_rpc execute_lsp_request send_message lookup send_traces send_trace passes
unknown_answered = refl

execute_rpc-request_example :
    (response : ResponseMessage Value) × (earlier : List Bytes) × (later : List Bytes)
    × (response.request_id ≡ number_id (pos 7))
    × (answered.written
        ≡ (ready.written ++ log_frames sample_json earlier)
          ++ (frame (sample_json.to_string (finalize response)) ++ log_frames sample_json later))
    × (answered.fs ≡ ready.fs)
    × (false ≡ answered.exit_requested)
    × Follows ready answered
execute_rpc-request_example =
    execute_rpc-request lines (codes "foo") (number_id (pos 7)) nothing ready answered false
      unknown_answered

abbrev trace_off : Value
trace_off = entry (codes "value") (text (codes "off")) empty_object

-- A session that sends traces, and the frame of the line that is logged before they are turned off.
abbrev traced : Context
traced = record ready { can_send_trace = true }

abbrev silent : Context
silent = record traced {
  trace = off;
  written = frame (sample_json.to_string (log_trace_notification sample_json (codes "executing")));
}

trace_set :
    execute_rpc lines (notification (codes "$/setTrace") trace_off) traced ≡ value (silent, false)
unfolding execute_rpc execute_lsp_notification run_notification notify_set_trace verify_set_trace
    lookup send_traces send_trace passes strip_from sequence_length
trace_set = refl

execute_rpc-notification_example :
    (traces : List Bytes) × (silent.written ≡ traced.written ++ log_frames sample_json traces)
    × (false ≡ silent.exit_requested)
    × Follows traced silent
execute_rpc-notification_example =
    execute_rpc-notification lines (codes "$/setTrace") trace_off traced silent false trace_set

abbrev opened : Value
opened =
    entry (codes "textDocument")
      (entry (codes "uri") (text (codes "a.n")) (
        entry (codes "version") (number (pos 1))
          (entry (codes "text") (text (codes "x")) empty_object)))
      empty_object

document_handlers_throw_example :
    (notify_text_document_did_open opened ready ≢ assert_failed)
    × (notify_text_document_did_close opened ready ≢ assert_failed)
    × ((notify_text_document_did_save opened ready ≡ assert_failed)
        ↔ SaveThrows sample_json-JsonLaws opened ready)
document_handlers_throw_example = document_handlers_throw sample_json-JsonLaws opened ready

-- With the debug output compiled in, saving a document that is not open throws.
abbrev saved_text : Value
saved_text = entry (codes "text") (text (codes "y")) opened

debugged_save : notify_text_document_did_save saved_text (new_context file_opens) ≡ assert_failed
unfolding notify_text_document_did_save verify_text_document_did_save saved did_save
    write_debug_output get_file lookup
debugged_save = refl

-- A file that is opened too early, and `exit`.
abbrev early : List (Message Value)
early =
    notification (codes "textDocument/didOpen") opened ∷ notification (codes "exit") nothing ∷ []

abbrev left : Context
left = record (new_context compiled_out) { exit_requested = true }

early_run : session lines early (new_context compiled_out) ≡ value left
unfolding session execute_rpc execute_lsp_notification run_notification notify_exit lookup
    send_traces send_trace passes
early_run = refl

session-new_context_example : (left.is_lsp_initialized ≡ false) × (left.fs ≡ [])
session-new_context_example =
    session-new_context lines compiled_out early left (refl, (refl, tt)) early_run

abbrev red : Bytes
red = 27 ∷ (codes "[31mhi" ++ (27 ∷ codes "[0m!"))

colours_stripped : strip_ansi red ≡ codes "hi!"
unfolding strip_from sequence_length
colours_stripped = refl

-- The second message is one of the level `Trace`.
abbrev logs : List LogMessage
logs =
    record { formatted = red; above_trace = true }
    ∷ record { formatted = codes "noise"; above_trace = false }
    ∷ []

one_passes : texts (selected true traced.trace logs) ≡ codes "hi!" ∷ []
unfolding selected strip_from sequence_length
one_passes = refl
