-- ===== src/Lsp/Server/Tests.antt =====
-- The loop at concrete turns.
use no.Prelude.{List, [], ◌∷◌, ◌≡◌, false, ◌||◌, refl}
use no.Lsp.Server.{
  exited, suspended, running, Server, Turn, read_failed, scheduled, start, suspend, resume, stop,
}
use no.Lsp.Server.Failures.{
  is_exited, exit_wanted, four_failures, start-is_exited, Event, suspends, resumes, turns_once,
  begins, happen, happen_all, happen_all-stop,
}

abbrev idle : Server
idle = record { state = suspended; sucessive_failed_request_count = 0 }

-- Three failures, a success, and four failures.
abbrev some_turns : List Turn
some_turns =
    read_failed
    ∷ read_failed
    ∷ read_failed
    ∷ scheduled false
    ∷ read_failed
    ∷ read_failed
    ∷ read_failed
    ∷ read_failed
    ∷ []

start-is_exited_example :
    is_exited (start some_turns idle) ≡ (exit_wanted some_turns || four_failures some_turns)
start-is_exited_example = start-is_exited some_turns idle

abbrev some_events : List Event
some_events = resumes ∷ turns_once read_failed ∷ suspends ∷ []

happen_all-stop_example :
    ((happen_all some_events (stop idle).0).state ≡ exited)
    × ((suspend (happen_all some_events (stop idle).0)).1 ≡ false)
    × ((resume (happen_all some_events (stop idle).0)).1 ≡ false)
    × ((happen begins (happen_all some_events (stop idle).0)).state ≡ running)
happen_all-stop_example = happen_all-stop some_events idle (refl, (refl, (refl, tt)))
