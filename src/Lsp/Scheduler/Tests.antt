-- ===== src/Lsp/Scheduler/Tests.antt =====
-- A job that a worker ends in a session in which it was queued and taken.
use no.Prelude.{◌∷◌, [], ◌≡◌, refl, codes, false, value}
use no.Prelude.Dict.{lookup}
use no.Json.Sample.{Value, text, entry, empty_object, sample_json}
use no.Lsp.Protocol.{Message, notification}
use no.Lsp.Context.{new_context, compiled_out}
use no.Lsp.Context.Dispatch.{Lines, execute_rpc, execute_lsp_notification}
use no.Lsp.Context.Traces.{send_traces}
use no.Lsp.Scheduler.{Scheduler, queued, taken, Reachable, started, stepped, Reachable-ended_fs}

abbrev job : Message Value
job = notification (codes "$/setTrace") (entry (codes "value") (text (codes "off")) empty_object)

abbrev no_lines : Lines Value
no_lines = record { before = λ m c. []; after = λ m c. []; wrote = λ text. [] }

abbrev at_start : Scheduler Value
at_start = record {
  context = new_context compiled_out;
  jobs = [];
  running = [];
  exit_requested = false;
}

abbrev with_job : Scheduler Value
with_job = record at_start { jobs = job ∷ [] }

abbrev with_runner : Scheduler Value
with_runner = record at_start { running = job ∷ [] }

with_runner_reached : Reachable no_lines with_runner
with_runner_reached =
    stepped with_job with_runner
      (stepped at_start with_job (started compiled_out) (queued at_start job refl refl))
      (taken with_job job [] refl)

-- Before `initialize` the job does nothing.
job_runs :
    execute_rpc no_lines job (new_context compiled_out) ≡ value (new_context compiled_out, false)
unfolding execute_rpc execute_lsp_notification lookup send_traces
job_runs = refl

Reachable-ended_fs_example : (new_context compiled_out).fs ≡ with_runner.context.fs
Reachable-ended_fs_example =
    Reachable-ended_fs no_lines with_runner [] [] job (new_context compiled_out) false
      with_runner_reached refl job_runs
