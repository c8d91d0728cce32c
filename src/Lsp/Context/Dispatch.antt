-- ===== src/Lsp/Context/Dispatch.antt =====
-- `ExecuteLSPRequest`, `ExecuteLSPNotification`, `ExecuteRPC` and `SendMessage` of
-- lib/src/lsp/server/Context.cc, with the two tables of routes of Context.hh.
use no.Prelude.{
  Bool, ◌||◌, none, some, List, [], ◌∷◌, ◌++◌, Bytes, codes, if◌then◌else◌, Checked, value,
  assert_failed,
}
use no.Prelude.Dict.{bytes_key, bytes_eq, lookup}
use no.Json.{Json}
use no.Lsp.Http.{frame}
use no.Lsp.Protocol.{
  Message, request, notification, MessageSequenceId, ResponseMessage, method_not_found,
  server_not_initialized, response_object, finalize,
}
use no.Lsp.Context.{
  Context, request_initialize, request_shutdown, notify_initialized, notify_exit, notify_set_trace,
}
use no.Lsp.Context.Traces.{LogMessage, send_traces}
use no.Lsp.Context.Documents.{
  notify_text_document_did_open, notify_text_document_did_change, notify_text_document_did_close,
  notify_text_document_did_save, request_completion,
}

-- What the log hands to its subscribers for each message: at the lines up to the point where a handler
-- changes the session, at those behind it, and at the one that shows a text that was written.
pub record Lines (V : Type 0) : Type 0 where
  pub before : Message V → Context → List LogMessage
  pub after : Message V → Context → List LogMessage
  pub wrote : Bytes → List LogMessage

pub data RequestRoute : Type 0 where
  initialize : RequestRoute
  shutdown : RequestRoute
  completion : RequestRoute

-- `LSP_REQUEST_MAP`
abbrev pub request_map : List (Bytes × RequestRoute)
request_map =
    (codes "initialize", initialize)
    ∷ (codes "shutdown", shutdown)
    ∷ (codes "textDocument/completion", completion)
    ∷ []

pub data NotificationRoute : Type 0 where
  initialized : NotificationRoute
  set_trace : NotificationRoute
  exit : NotificationRoute
  did_open : NotificationRoute
  did_change : NotificationRoute
  did_close : NotificationRoute
  did_save : NotificationRoute

-- `LSP_NOTIFICATION_MAP`
abbrev pub notification_map : List (Bytes × NotificationRoute)
notification_map =
    (codes "initialized", initialized)
    ∷ (codes "$/setTrace", set_trace)
    ∷ (codes "exit", exit)
    ∷ (codes "textDocument/didOpen", did_open)
    ∷ (codes "textDocument/didChange", did_change)
    ∷ (codes "textDocument/didClose", did_close)
    ∷ (codes "textDocument/didSave", did_save)
    ∷ []

module _ {V : Type 0} ⦃json : Json V⦄ where
  open json use {to_string}

  unfoldable pub run_request :
      RequestRoute → V → ResponseMessage V → Context → Checked (ResponseMessage V × Context)
  run_request initialize params response c = value (request_initialize params response c)
  run_request shutdown params response c = value (request_shutdown params response c)
  run_request completion params response c = request_completion params response c

  unfoldable pub run_notification : NotificationRoute → V → Context → Checked Context
  run_notification initialized params c = value (notify_initialized params c)
  run_notification set_trace params c = value (notify_set_trace params c)
  run_notification exit params c = value (notify_exit params c)
  run_notification did_open params c = notify_text_document_did_open params c
  run_notification did_change params c = notify_text_document_did_change params c
  run_notification did_close params c = notify_text_document_did_close params c
  run_notification did_save params c = notify_text_document_did_save params c

  unfoldable pub execute_lsp_request :
      Bytes → MessageSequenceId → V → Context → Checked (ResponseMessage V × Context)
  execute_lsp_request method request_id params c =
      let response : ResponseMessage V = response_object request_id in
      if c.is_lsp_initialized || bytes_eq method (codes "initialize")
      then elim (lookup method request_map) [
        | none ↦ value (record response { status_code = some method_not_found }, c)
        | some route ↦ run_request route params response c
      ]
      else value (record response { status_code = some server_not_initialized }, c)

  unfoldable pub execute_lsp_notification : Bytes → V → Context → Checked Context
  execute_lsp_notification method params c = elim (lookup method notification_map) [
    | none ↦ value c
    | some route ↦
        if c.is_lsp_initialized
          || (bytes_eq method (codes "initialized") || bytes_eq method (codes "exit"))
        then run_notification route params c
        else value c
  ]

  module _ (lines : Lines V) where
    open lines use {before, after, wrote}

    -- `SendMessage` of a response, and the log line behind it.
    unfoldable pub send_message : ResponseMessage V → Context → Context
    send_message response c =
        let json_response = to_string (finalize response) in
        send_traces json (wrote json_response)
          (record c { written = c.written ++ frame json_response })

    -- The new state, and what is stored in `exit_requested`. The subscriber of the session takes the lines
    -- that are logged on the way.
    unfoldable pub execute_rpc : Message V → Context → Checked (Context × Bool)
    execute_rpc (notification method params) c =
        let m : Message V = notification method params in
        elim (execute_lsp_notification method params (send_traces json (before m c) c)) [
          | assert_failed ↦ assert_failed
          | value c' ↦ value (send_traces json (after m c) c', c'.exit_requested)
        ]
    execute_rpc (request method request_id params) c =
        let m : Message V = request method request_id params in
        elim (execute_lsp_request method request_id params (send_traces json (before m c) c)) [
          | assert_failed ↦ assert_failed
          | value (response, c') ↦
              value (send_message response (send_traces json (after m c) c'), c'.exit_requested)
        ]
