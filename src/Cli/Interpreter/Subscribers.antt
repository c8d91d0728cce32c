-- ===== src/Cli/Interpreter/Subscribers.antt =====
-- What an interpreter leaves of the subscribers of the log: lib/src/core/cli/Interpreter.cc.
use no.Prelude.{not, ◌≡◌, map}
use no.Prelude.Dict.{HasDistinctKeys}
use no.Cli.Log.{id_key, Logger, LoggerLaws}
use no.Cli.Log.Restored.{restored}
use no.Cli.Interpreter.{new_interpreter, delete_interpreter}

-- An interpreter that comes and goes turns every subscriber of the log over, where identifiers are
-- distinct and nothing else touches them in between: those that were active are left suspended, and those that were suspended are resumed.
pub delete_interpreter-new_interpreter :
    {S : Type 0} (log : Logger S)
    → LoggerLaws log
    → (s later : S) → HasDistinctKeys (log.subscribers s)
    → log.subscribers later ≡ log.subscribers (new_interpreter log s).1
    → log.subscribers (delete_interpreter log (new_interpreter log s).0 later)
      ≡ map (λ u. (u.0, not u.1)) (log.subscribers s)
unfolding new_interpreter delete_interpreter
delete_interpreter-new_interpreter log laws s later distinct same =
    restored log laws (λ suspended. suspended) s later distinct same
