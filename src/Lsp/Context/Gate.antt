-- ===== src/Lsp/Context/Gate.antt =====
-- What a client can do before it has asked for `initialize`.
use no.Prelude.{
  ◌∙◌, ◌++◌, Bool, false, List, [], ◌∷◌, Bytes, codes, Checked, value, assert_failed, arith, All,
  ◌≡◌, refl, sym, subst, Option-cases, Checked-cases, Bool-cases, inl, inr,
}
use no.Prelude.Dict.{bytes_key, bytes_eq, bytes_eq_iff, lookup}
use no.Json.{Json}
use no.Lsp.Protocol.{Message, request, notification, get_method}
use no.Lsp.Context.{Context, DebugOutput, new_context, notify_initialized, notify_exit}
use no.Lsp.Context.Traces.{log_frames, send_traces_texts}
use no.Lsp.Context.Session.{request_ran, notification_ran}
use no.Lsp.Context.Dispatch.{
  notification_map, run_notification, execute_lsp_request, execute_lsp_notification, send_message,
  execute_rpc, Lines,
}

-- The messages of a session, one behind the other.
unfoldable pub session :
    {V : Type 0} ⦃json : Json V⦄ → Lines V → List (Message V) → Context → Checked Context
session lines [] c = value c
session lines (m ∷ ms) c = elim (execute_rpc lines m c) [
  | assert_failed ↦ assert_failed
  | value (c', exits) ↦ session lines ms c'
]

-- The files of a session that was not initialized stay the same, and it stays so.
abbrev Closed : Context → Context → Type 0
Closed c c' = (c'.is_lsp_initialized ≡ false) × (c'.fs ≡ c.fs)

module _ {V : Type 0} ⦃json : Json V⦄ where
  -- A notification of another kind is dropped.
  notification_dropped :
      (method : Bytes) (params : V) (c c' : Context)
      → c.is_lsp_initialized ≡ false
      → bytes_eq method (codes "initialized") ≡ false
      → bytes_eq method (codes "exit") ≡ false
      → execute_lsp_notification method params c ≡ value c'
      → Closed c c'
  unfolding execute_lsp_notification
  notification_dropped method params c c' closed n k h =
      elim (Option-cases (lookup method notification_map)) [
        | inl unknown ↦ ground (arith, closed, h, unknown)
        | inr (route, known) ↦ ground (arith, closed, n, k, h, known)
      ]

  execute_lsp_notification-Closed :
      (method : Bytes) (params : V) (c c' : Context)
      → c.is_lsp_initialized ≡ false
      → execute_lsp_notification method params c ≡ value c'
      → Closed c c'
  unfolding execute_lsp_notification run_notification notify_initialized notify_exit lookup
  execute_lsp_notification-Closed method params c c' closed =
      elim (Bool-cases (bytes_eq method (codes "initialized")))
        as (λ _. execute_lsp_notification method params c ≡ value c' → Closed c c') [
          | inl e ↦
              subst (λ m. execute_lsp_notification m params c ≡ value c' → Closed c c')
                (sym ((bytes_eq_iff method (codes "initialized")).0 e))
                (λ h. ground (arith, h, closed))
          | inr n ↦
              elim (Bool-cases (bytes_eq method (codes "exit")))
                as (λ _. execute_lsp_notification method params c ≡ value c' → Closed c c') [
                  | inl e ↦
                      subst (λ m. execute_lsp_notification m params c ≡ value c' → Closed c c')
                        (sym ((bytes_eq_iff method (codes "exit")).0 e))
                        (λ h. ground (arith, h, closed))
                  | inr k ↦ λ h. notification_dropped method params c c' closed n k h
                ]
        ]

  module _ (lines : Lines V) where
    open lines use {before, after, wrote}

    execute_rpc-Closed :
        (m : Message V) (c c' : Context) (exits : Bool)
        → c.is_lsp_initialized ≡ false
        → bytes_eq (get_method m) (codes "initialize") ≡ false
        → execute_rpc lines m c ≡ value (c', exits)
        → Closed c c'
    unfolding execute_rpc execute_lsp_request send_message
    execute_rpc-Closed (request method request_id params) c c' exits closed other h =
        let m : Message V = request method request_id params in
        let (first, e1) = send_traces_texts json (before m c) c in
        let started = record c { written = c.written ++ log_frames json first } in
        elim (Checked-cases (execute_lsp_request method request_id params started)) [
          | inl fails ↦ absurd (ground (arith, closed, other, fails))
          | inr ((reply, handled), runs) ↦
              let (second, third, ran) =
                request_ran lines method request_id params c first reply handled e1 runs in
              let same = sym h ∙ ran in ground (arith, same, runs, closed, other)
        ]
    execute_rpc-Closed (notification method params) c c' exits closed other h =
        let m : Message V = notification method params in
        let (first, e1) = send_traces_texts json (before m c) c in
        let started = record c { written = c.written ++ log_frames json first } in
        elim (Checked-cases (execute_lsp_notification method params started)) [
          | inl fails ↦ ground (arith, h, e1, fails)
          | inr (handled, runs) ↦
              let (second, ran) = notification_ran lines method params c first handled e1 runs in
              let step =
                execute_lsp_notification-Closed method params started handled closed runs in
              let same = sym h ∙ ran in ground (arith, same, step)
        ]

    session-Closed :
        (ms : List (Message V)) (c c' : Context)
        → c.is_lsp_initialized ≡ false
        → All (λ m. bytes_eq (get_method m) (codes "initialize") ≡ false) ms
        → session lines ms c ≡ value c'
        → Closed c c'
    unfolding session
    session-Closed [] c c' closed others h = ground (arith, closed, h)
    session-Closed (m ∷ ms) c c' closed others h = elim (Checked-cases (execute_rpc lines m c)) [
      | inl fails ↦ ground (arith, h, fails)
      | inr ((next, exits), runs) ↦
          let first = execute_rpc-Closed m c next exits closed others.0 runs in
          let further = session-Closed ms next c' first.0 others.1 in
          ground (arith, h, runs, first, further)
    ]

    -- As long as no message asks for `initialize`, whatever else a client sends, no file is open and the
    -- session is not initialized.
    pub session-new_context :
        (debug : DebugOutput) (ms : List (Message V)) (c : Context)
        → All (λ m. bytes_eq (get_method m) (codes "initialize") ≡ false) ms
        → session lines ms (new_context debug) ≡ value c
        → (c.is_lsp_initialized ≡ false) × (c.fs ≡ [])
    session-new_context debug ms c others h = session-Closed ms (new_context debug) c refl others h
