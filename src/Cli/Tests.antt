-- ===== src/Cli/Tests.antt =====
-- Handles, interpreters and commands at concrete states.
use no.Prelude.{true, false, not, none, some, [], ◌∷◌, codes, ◌≡◌, ◌↔◌, ◌<◌, refl, map}
use no.Prelude.Dict.{bytes_key, lookup, insert}
use no.Cli.Library.{Library, alive, destroyed, get_initialization_context, copy, assign, destroy}
use no.Cli.Library.Counted.{
  History, start, opened, copied, dropped, active_handles, History-counter,
}
use no.Cli.Log.{Subscribers, sample_log, sample_log-LoggerLaws}
use no.Cli.Interpreter.{new_interpreter, delete_interpreter, setup_commands, format}
use no.Cli.Interpreter.Subscribers.{delete_interpreter-new_interpreter}
use no.Cli.LogLevel.{get_minimum_log_level, debug}

-- Two handles of which the first is gone.
abbrev one_left : Library
one_left = record { counter = 1; handles = destroyed ∷ alive true ∷ []; is_initialized = true }

one_left-History : History one_left
unfolding get_initialization_context copy destroy
one_left-History = dropped 0 (copied 0 (opened true start) refl) refl

History-counter_example :
    (one_left.counter ≡ active_handles one_left.handles)
    × ((one_left.is_initialized ≡ true) ↔ (0 < one_left.counter))
History-counter_example = History-counter one_left-History

-- An assignment to an active handle counts one handle too many.
counted_twice :
    assign 0 1 (record one_left { counter = 2; handles = alive true ∷ alive true ∷ [] })
    ≡ some (record one_left { counter = 3; handles = alive true ∷ alive true ∷ [] })
unfolding assign
counted_twice = refl

abbrev subscribers : Subscribers
subscribers = (1, false) ∷ (2, true) ∷ []

delete_interpreter-new_interpreter_example :
    sample_log.subscribers (
      delete_interpreter sample_log
        (new_interpreter sample_log subscribers).0
        (new_interpreter sample_log subscribers).1)
    ≡ map (λ u. (u.0, not u.1)) subscribers
unfolding new_interpreter
delete_interpreter-new_interpreter_example =
    delete_interpreter-new_interpreter sample_log sample_log-LoggerLaws subscribers
      (new_interpreter sample_log subscribers).1 ((refl, tt), (tt, tt)) refl

short_name : lookup (codes "fmt") setup_commands ≡ some format
unfolding setup_commands lookup insert
short_name = refl

no_command : lookup (codes "shell") setup_commands ≡ none
unfolding setup_commands lookup insert
no_command = refl

level : get_minimum_log_level (some (codes "Debug")) ≡ debug
unfolding get_minimum_log_level lookup
level = refl
