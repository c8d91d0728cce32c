-- ===== src/Lsp/Context/Session.antt =====
-- What holds of a session, whatever messages come.
use no.Prelude.{
  refl, sym, ◌∙◌, List, Bool, true, ◌++◌, Bytes, value, arith, ◌≡◌, Option-cases, Checked-cases,
  inl, inr,
}
use no.Prelude.Dict.{bytes_key, lookup}
use no.Json.{Json}
use no.Lsp.Http.{frame}
use no.Lsp.Protocol.{
  Message, request, notification, MessageSequenceId, ResponseMessage, response_object, finalize,
}
use no.Lsp.Context.{
  Context, request_initialize, request_shutdown, notify_initialized, notify_exit, notify_set_trace,
}
use no.Lsp.Context.Traces.{log_frames, send_traces, behind, around, send_traces_texts}
use no.Lsp.Context.Documents.{
  notify_text_document_did_open, notify_text_document_did_change, notify_text_document_did_close,
  notify_text_document_did_save, request_completion, write_debug_output,
}
use no.Lsp.Context.Dispatch.{
  RequestRoute, initialize, shutdown, completion, NotificationRoute, initialized, set_trace, exit,
  did_open, did_change, did_close, did_save, request_map, notification_map, run_request, Lines,
  run_notification, execute_lsp_request, execute_lsp_notification, send_message, execute_rpc,
}

-- Neither flag is taken back, and no byte that was written is.
abbrev pub Follows : Context → Context → Type 0
Follows c c' =
    (c.is_lsp_initialized ≡ true → c'.is_lsp_initialized ≡ true)
    × (c.can_send_trace ≡ true → c'.can_send_trace ≡ true)
    × (c.exit_requested ≡ true → c'.exit_requested ≡ true)

module _ {V : Type 0} ⦃json : Json V⦄ where
  open json use {to_string}

  run_request_lem :
      (route : RequestRoute) (params : V) (response : ResponseMessage V) (c : Context)
      {response' : ResponseMessage V} {c' : Context}
      → run_request route params response c ≡ value (response', c')
      → (response'.request_id ≡ response.request_id)
        × (c'.written ≡ c.written)
        × (c'.fs ≡ c.fs)
        × Follows c c'
  unfolding run_request request_initialize request_shutdown request_completion
  run_request_lem initialize params response c h = ground (arith, h)
  run_request_lem shutdown params response c h = ground (arith, h)
  run_request_lem completion params response c h = ground (arith, h)

  run_notification_lem :
      (route : NotificationRoute) (params : V) (c : Context) {c' : Context}
      → run_notification route params c ≡ value c'
      → (c'.written ≡ c.written) × Follows c c'
  unfolding run_notification notify_initialized notify_set_trace notify_exit
      notify_text_document_did_open notify_text_document_did_change notify_text_document_did_close
      notify_text_document_did_save write_debug_output
  run_notification_lem initialized params c h = ground (arith, h)
  run_notification_lem set_trace params c h = ground (arith, h)
  run_notification_lem exit params c h = ground (arith, h)
  run_notification_lem did_open params c h = ground (arith, h)
  run_notification_lem did_change params c h = ground (arith, h)
  run_notification_lem did_close params c h = ground (arith, h)
  run_notification_lem did_save params c h = ground (arith, h)

  execute_lsp_request_lem :
      (method : Bytes) (request_id : MessageSequenceId) (params : V) (c : Context)
      {response : ResponseMessage V} {c' : Context}
      → execute_lsp_request method request_id params c ≡ value (response, c')
      → (response.request_id ≡ request_id)
        × (c'.written ≡ c.written)
        × (c'.fs ≡ c.fs)
        × Follows c c'
  unfolding execute_lsp_request
  execute_lsp_request_lem method request_id params c {response = response} {c' = c'} h =
      elim (Option-cases (lookup method request_map)) [
        | inl unknown ↦ ground (arith, h, unknown)
        | inr (route, known) ↦ ground (
          arith,
          h,
          known,
          run_request_lem route params (response_object request_id) c {response' = response}
              {c' = c'},
        )
      ]

  execute_lsp_notification_lem :
      (method : Bytes) (params : V) (c : Context) {c' : Context}
      → execute_lsp_notification method params c ≡ value c'
      → (c'.written ≡ c.written) × Follows c c'
  unfolding execute_lsp_notification
  execute_lsp_notification_lem method params c {c' = c'} h =
      elim (Option-cases (lookup method notification_map)) [
        | inl unknown ↦ ground (arith, h, unknown)
        | inr (route, known) ↦
            ground (arith, h, known, run_notification_lem route params c {c' = c'})
      ]

  module _ (lines : Lines V) where
    open lines use {before, after, wrote}

    -- What a request leads to, once its handler has answered.
    pub request_ran :
        (method : Bytes) (request_id : MessageSequenceId) (params : V) (c : Context)
        (first : List Bytes) (reply : ResponseMessage V) (handled : Context)
        → send_traces json (before (request method request_id params) c) c
          ≡ record c { written = c.written ++ log_frames json first }
        → execute_lsp_request method request_id params
            (record c { written = c.written ++ log_frames json first })
          ≡ value (reply, handled)
        → (second : List Bytes) × (third : List Bytes) × (execute_rpc lines
              (request method request_id params)
              c
            ≡ value (
              record handled {
                written =
                    ((handled.written ++ log_frames json second)
                      ++ frame (to_string (finalize reply)))
                    ++ log_frames json third;
              },
              handled.exit_requested,
            ))
    unfolding execute_rpc send_message
    request_ran method request_id params c first reply handled e1 runs =
        let m : Message V = request method request_id params in
        let (second, e2) = send_traces_texts json (after m c) handled in
        let text = to_string (finalize reply) in
        let (third, e3) = send_traces_texts json (wrote text) (record handled {
          written = (handled.written ++ log_frames json second) ++ frame text;
        }) in
        (second, third, rw (execute_rpc, e1, runs, send_message, e2, e3) refl)

    pub notification_ran :
        (method : Bytes) (params : V) (c : Context) (first : List Bytes) (handled : Context)
        → send_traces json (before (notification method params) c) c
          ≡ record c { written = c.written ++ log_frames json first }
        → execute_lsp_notification method params
            (record c { written = c.written ++ log_frames json first })
          ≡ value handled
        → (second : List Bytes) × (execute_rpc lines (notification method params) c
            ≡ value (
              record handled { written = handled.written ++ log_frames json second },
              handled.exit_requested,
            ))
    unfolding execute_rpc
    notification_ran method params c first handled e1 runs =
        let (second, e2) = send_traces_texts json (after (notification method params) c) handled in
        (second, rw (execute_rpc, e1, runs, e2) refl)

    -- A request that is executed is answered by one response with its identifier. Around its frame come
    -- only frames of traces, behind what was written before; no file is opened, changed or closed by
    -- the request, and no flag is taken back.
    pub execute_rpc-request :
        (method : Bytes) (request_id : MessageSequenceId) (params : V) (c c' : Context)
        (exits : Bool)
        → execute_rpc lines (request method request_id params) c ≡ value (c', exits)
        → (response : ResponseMessage V) × (earlier : List Bytes) × (later : List Bytes)
          × (response.request_id ≡ request_id)
          × (c'.written
              ≡ (c.written ++ log_frames json earlier)
                ++ (frame (to_string (finalize response)) ++ log_frames json later))
          × (c'.fs ≡ c.fs)
          × (exits ≡ c'.exit_requested)
          × Follows c c'
    unfolding execute_rpc send_message
    execute_rpc-request method request_id params c c' exits h =
        let m : Message V = request method request_id params in
        let (first, e1) = send_traces_texts json (before m c) c in
        let started = record c { written = c.written ++ log_frames json first } in
        elim (Checked-cases (execute_lsp_request method request_id params started)) [
          | inl fails ↦ ground (arith, h, e1, fails)
          | inr ((reply, handled), runs) ↦
              let answer =
                execute_lsp_request_lem method request_id params started {response = reply}
                  {c' = handled} runs in
              let (second, third, ran) =
                request_ran method request_id params c first reply handled e1 runs in
              let same = sym h ∙ ran in
              let written =
                around json c.written first second third (frame (to_string (finalize reply))) in
              (
                reply,
                first ++ second,
                third,
                answer.0,
                ground (arith, same, answer, written),
                ground (arith, same, answer),
                ground (arith, same),
                ground (arith, same, answer),
              )
        ]

    -- A notification is never answered: only frames of traces are written, and no flag is taken back.
    pub execute_rpc-notification :
        (method : Bytes) (params : V) (c c' : Context) (exits : Bool)
        → execute_rpc lines (notification method params) c ≡ value (c', exits)
        → (traces : List Bytes) × (c'.written ≡ c.written ++ log_frames json traces)
          × (exits ≡ c'.exit_requested)
          × Follows c c'
    unfolding execute_rpc
    execute_rpc-notification method params c c' exits h =
        let m : Message V = notification method params in
        let (first, e1) = send_traces_texts json (before m c) c in
        let started = record c { written = c.written ++ log_frames json first } in
        elim (Checked-cases (execute_lsp_notification method params started)) [
          | inl fails ↦ ground (arith, h, e1, fails)
          | inr (handled, runs) ↦
              let (second, ran) = notification_ran method params c first handled e1 runs in
              let step = execute_lsp_notification_lem method params started {c' = handled} runs in
              let same = sym h ∙ ran in
              let written = behind json c.written first second in
              (
                first ++ second,
                ground (arith, same, step, written),
                ground (arith, same),
                ground (arith, same, step),
              )
        ]
