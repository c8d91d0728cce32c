-- ===== src/Lsp/Scheduler.antt =====
-- Which messages run at once, and which wait: lib/src/lsp/server/Scheduler.cc with the queue of
-- ThreadPool.cc. `Schedule` runs on one thread; a worker takes the first job of the queue and runs
-- it later, any number of them at a time. A job is one step on the context, at the moment it ends.
pub mod Tests
use no.Prelude.{
  Bool, true, false, ◌||◌, List, [], ◌∷◌, ◌++◌, Bytes, codes, ◌≡◌, ◌∙◌, refl, sym, subst, arith,
  value, All, none, some, Bool-cases, Checked-cases, inl, inr,
}
use no.Prelude.Dict.{bytes_key, bytes_eq, bytes_eq_iff, lookup}
use no.Json.{Json}
use no.Lsp.Browser.{Files}
use no.Lsp.Protocol.{Message, request, notification, get_method}
use no.Lsp.Context.{Context, DebugOutput, new_context, notify_set_trace}
use no.Lsp.Context.Dispatch.{
  Lines, execute_rpc, execute_lsp_notification, notification_map, run_notification, set_trace,
}
use no.Lsp.Context.Traces.{log_frames, send_traces_texts}
use no.Lsp.Context.Session.{execute_rpc-request, notification_ran}

pub record Scheduler (V : Type 0) : Type 0 where
  pub context : Context
  pub jobs : List (Message V)
  -- The jobs that a worker has taken and not yet ended.
  pub running : List (Message V)
  pub exit_requested : Bool

-- `IsConcurrentRequest`
abbrev pub is_concurrent_request : {V : Type 0} → Message V → Bool
is_concurrent_request m =
    bytes_eq (get_method m) (codes "$/setTrace")
    || bytes_eq (get_method m) (codes "textDocument/completion")

module _ {V : Type 0} ⦃json : Json V⦄ (lines : Lines V) where
  -- One step of the scheduler or of a worker.
  pub data Step : Scheduler V → Scheduler V → Type 0 where
    -- After a wish to exit, `Schedule` drops what comes.
    ignored : (s : Scheduler V) → s.exit_requested ≡ true → Message V → Step s s
    queued :
        (s : Scheduler V) (m : Message V)
        → s.exit_requested ≡ false
        → is_concurrent_request m ≡ true
        → Step s (record s { jobs = s.jobs ++ m ∷ [] })
    -- The others run on the thread of `Schedule`, once the queue is empty.
    executed :
        (s : Scheduler V) (m : Message V) (c : Context) (exits : Bool)
        → s.exit_requested ≡ false
        → is_concurrent_request m ≡ false
        → s.jobs ≡ []
        → execute_rpc lines m s.context ≡ value (c, exits)
        → Step s (record s { context = c; exit_requested = exits || s.exit_requested })
    taken :
        (s : Scheduler V) (m : Message V) (jobs : List (Message V))
        → s.jobs ≡ m ∷ jobs
        → Step s (record s { jobs = jobs; running = m ∷ s.running })
    ended :
        (s : Scheduler V) (before after : List (Message V)) (m : Message V) (c : Context)
        (exits : Bool)
        → s.running ≡ before ++ m ∷ after
        → execute_rpc lines m s.context ≡ value (c, exits)
        → Step s (record s {
          context = c;
          running = before ++ after;
          exit_requested = exits || s.exit_requested;
        })

  pub data Reachable : Scheduler V → Type 0 where
    started :
        (debug : DebugOutput)
        → Reachable (record {
          context = new_context debug;
          jobs = [];
          running = [];
          exit_requested = false;
        })
    stepped : (s t : Scheduler V) → Reachable s → Step s t → Reachable t

  abbrev AllConcurrent : List (Message V) → Type 0
  AllConcurrent ms = All (λ m. is_concurrent_request m ≡ true) ms

  All-append :
      (xs ys : List (Message V)) → AllConcurrent xs → AllConcurrent ys → AllConcurrent (xs ++ ys)
  All-append [] ys h k = k
  All-append (x ∷ xs) ys h k = (h.0, All-append xs ys h.1 k)

  All-split :
      (xs : List (Message V)) (m : Message V) (ys : List (Message V))
      → AllConcurrent (xs ++ m ∷ ys)
      → AllConcurrent (xs ++ ys) × (is_concurrent_request m ≡ true)
  All-split [] m ys h = (h.1, h.0)
  All-split (x ∷ xs) m ys h = let rest = All-split xs m ys h.1 in ((h.0, rest.0), rest.1)

  pub Step-AllConcurrent :
      (s t : Scheduler V)
      → Step s t
      → AllConcurrent s.jobs × AllConcurrent s.running
      → AllConcurrent t.jobs × AllConcurrent t.running
  Step-AllConcurrent s t (ignored _ e m) h = h
  Step-AllConcurrent s t (queued _ m e k) h = (All-append s.jobs (m ∷ []) h.0 (k, tt), h.1)
  Step-AllConcurrent s t (executed _ m c exits e k empty runs) h = h
  Step-AllConcurrent s t (taken _ m jobs e) h =
      let moved = subst AllConcurrent e h.0 in (moved.1, (moved.0, h.1))
  Step-AllConcurrent s t (ended _ before after m c exits e runs) h =
      (h.0, (All-split before m after (subst AllConcurrent e h.1)).0)

  Reachable-AllConcurrent :
      (s : Scheduler V) → Reachable s → AllConcurrent s.jobs × AllConcurrent s.running
  Reachable-AllConcurrent s (started debug) = (tt, tt)
  Reachable-AllConcurrent s (stepped r _ before step) =
      Step-AllConcurrent r s step (Reachable-AllConcurrent r before)

  set_trace_fs :
      (params : V) (c c' : Context)
      → execute_lsp_notification (codes "$/setTrace") params c ≡ value c'
      → c'.fs ≡ c.fs
  unfolding execute_lsp_notification lookup run_notification notify_set_trace
  set_trace_fs params c c' h = ground (arith, h)

  completion_fs :
      (params : V) (c c' : Context)
      → execute_lsp_notification (codes "textDocument/completion") params c ≡ value c'
      → c'.fs ≡ c.fs
  unfolding execute_lsp_notification lookup
  completion_fs params c c' h = ground (arith, h)

  notification_fs :
      (method : Bytes) (params : V) (c c' : Context)
      → is_concurrent_request (notification method params) ≡ true
      → execute_lsp_notification method params c ≡ value c'
      → c'.fs ≡ c.fs
  notification_fs method params c c' k =
      elim (Bool-cases (bytes_eq method (codes "$/setTrace")))
        as (λ _. execute_lsp_notification method params c ≡ value c' → c'.fs ≡ c.fs) [
          | inl e ↦
              subst (λ m. execute_lsp_notification m params c ≡ value c' → c'.fs ≡ c.fs)
                (sym ((bytes_eq_iff method (codes "$/setTrace")).0 e)) (set_trace_fs params c c')
          | inr e ↦
              subst (λ m. execute_lsp_notification m params c ≡ value c' → c'.fs ≡ c.fs)
                (sym (
                  (bytes_eq_iff method (codes "textDocument/completion")).0 (ground (arith, e, k))))
                (completion_fs params c c')
        ]

  -- A message that may run beside others does not touch the files.
  concurrent_fs :
      (m : Message V) (c c' : Context) (exits : Bool)
      → is_concurrent_request m ≡ true
      → execute_rpc lines m c ≡ value (c', exits)
      → c'.fs ≡ c.fs
  unfolding execute_rpc
  concurrent_fs (request method request_id params) c c' exits k h =
      let (response, earlier, later, _, _, same_files, _, _) =
        execute_rpc-request lines method request_id params c c' exits h in
      same_files
  concurrent_fs (notification method params) c c' exits k h =
      let (first, e1) = send_traces_texts json (lines.before (notification method params) c) c in
      let started = record c { written = c.written ++ log_frames json first } in
      elim (Checked-cases (execute_lsp_notification method params started)) [
        | inl fails ↦ ground (arith, h, e1, fails)
        | inr (handled, runs) ↦
            let (second, ran) = notification_ran lines method params c first handled e1 runs in
            let same = sym h ∙ ran in
            ground (arith, same, notification_fs method params started handled k runs)
      ]

  -- However the workers are scheduled, a job that one of them ends leaves the open files as it found
  -- them: in a state that is reached from the start, only `Schedule` itself changes files.
  pub Reachable-ended_fs :
      (s : Scheduler V) (before after : List (Message V)) (m : Message V) (c : Context)
      (exits : Bool)
      → Reachable s
      → s.running ≡ before ++ m ∷ after
      → execute_rpc lines m s.context ≡ value (c, exits)
      → c.fs ≡ s.context.fs
  Reachable-ended_fs s before after m c exits reached e runs =
      let all_concurrent = subst AllConcurrent e (Reachable-AllConcurrent s reached).1 in
      concurrent_fs m s.context c exits (All-split before m after all_concurrent).1 runs
