-- ===== src/Lsp/Run/Subscribers.antt =====
-- What a run of the server leaves of the subscribers of the log: lib/src/lsp/Run.cc.
use no.Prelude.{Bool, Option, Bytes, ◌≡◌, ◌∙◌, refl, not, Option-cases, Bool-cases, ◌⊎◌, inl, inr}
use no.Prelude.Dict.{HasDistinctKeys}
use no.Cli.Log.{id_key, Logger, LoggerLaws}
use no.Cli.Log.Restored.{restored, untouched, outcome-not}
use no.Lsp.Run.{ConnectionType, stdio, port, Parser, run_quietly, run_loudly, start_server}

mode-cases : (mode : ConnectionType) → (mode ≡ stdio) ⊎ (mode ≡ port)
mode-cases stdio = inl refl
mode-cases port = inr refl

-- Whether the connection and the log file can be opened or not and whatever the server answers, the
-- command leaves every subscriber of the log as it was, active or suspended, where their
-- identifiers are distinct and the server leaves them alone.
pub start_server-subscribers :
    {S C : Type 0} (log : Logger S)
    → LoggerLaws log
    → (open_connection : ConnectionType → Bytes → Option C) (open_log_file : Bytes → Bool)
      (server : C → S → Bool × S) (p : Parser) (s : S)
    → HasDistinctKeys (log.subscribers s)
    → ((c : C) (t : S) → log.subscribers (server c t).1 ≡ log.subscribers t)
    → log.subscribers (start_server log open_connection open_log_file server p s).1
      ≡ log.subscribers s
unfolding start_server run_quietly run_loudly
start_server-subscribers log laws open_connection open_log_file server p s distinct leaves =
    elim (Option-cases (open_connection p.connection_mode p.connect_arg)) [
      | inl none_open ↦ rw (none_open, start_server) refl
      | inr (lsp_io, connected) ↦
          rw (connected, start_server)
            (elim (Bool-cases (open_log_file p.log_file)) [
              | inr closed ↦ rw closed refl
              | inl opened ↦ rw opened (elim (mode-cases p.connection_mode) [
                | inl quiet ↦
                    rw (quiet, run_quietly)
                      (let us = log.subscribers s in
                        let start = (log.subscribe (log.suspend_all s)).1 in
                        let later = (server lsp_io start).1 in
                        restored log laws not s later distinct (leaves lsp_io start)
                        ∙ outcome-not us)
                | inr loud ↦
                    rw (loud, run_loudly)
                      (let start = (log.subscribe s).1 in
                        let later = (server lsp_io start).1 in
                        untouched log laws s later (leaves lsp_io start))
              ])
            ])
    ]
