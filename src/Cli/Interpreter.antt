-- ===== src/Cli/Interpreter.antt =====
-- The interpreter of commands: lib/src/core/cli/Interpreter.cc, and its class in
-- lib/src/core/cli/Interpreter.hh. The subcommands are an argument of the dispatch.
pub mod Subscribers
use no.Prelude.{ℕ, Bool, true, false, Option, none, some, List, [], ◌∷◌, Bytes, codes, map}
use no.Prelude.Dict.{bytes_key, lookup, insert}
use no.Cli.Log.{Logger, ids_where, resume_all}

pub data Command : Type 0 where
  build clean doc find format help impl init install lsp license remove test version update :
      Command

-- `m_commands[first] = m_commands[second] = … = command`, where the last name is assigned first.
abbrev set_names : List Bytes → Command → List (Bytes × Command) → List (Bytes × Command)
set_names [] command m = m
set_names (name ∷ names) command m = insert name command (set_names names command m)

unfoldable pub setup_commands : List (Bytes × Command)
setup_commands = set_names (codes "update" ∷ codes "u" ∷ []) update (
    set_names (codes "version" ∷ codes "--version" ∷ []) version (
      set_names (codes "test" ∷ codes "t" ∷ []) test (
        set_names (codes "remove" ∷ codes "r" ∷ []) remove (
          set_names (codes "license" ∷ []) license (
            set_names (codes "lsp" ∷ codes "x" ∷ []) lsp (
              set_names (codes "install" ∷ codes "i" ∷ []) install (
                set_names (codes "init" ∷ codes "n" ∷ []) init (
                  set_names (codes "impl" ∷ codes "w" ∷ []) impl (
                    set_names (codes "help" ∷ codes "-h" ∷ codes "h" ∷ codes "--help" ∷ []) help (
                      set_names (codes "format" ∷ codes "m" ∷ codes "fmt" ∷ []) format (
                        set_names (codes "find" ∷ codes "f" ∷ []) find (
                          set_names (codes "doc" ∷ codes "d" ∷ []) doc (
                            set_names (codes "clean" ∷ codes "c" ∷ []) clean
                              (set_names (codes "build" ∷ codes "b" ∷ []) build []))))))))))))))

-- What a subcommand does with its arguments is `run`.
unfoldable pub perform :
    {S : Type 0} → (Command → List Bytes → S → Bool × S) → List Bytes → S → Bool × S
perform run [] s = (false, s)
perform run (program ∷ []) s = (false, s)
perform run (program ∷ name ∷ args) s = elim (lookup name setup_commands) [
  | none ↦ (false, s)
  | some command ↦ run command (name ∷ args) s
]

pub record Interpreter : Type 0 where
  pub log_sub_id : ℕ
  pub log_suspend_ids : List ℕ

module _ {S : Type 0} (log : Logger S) where
  open log use {subscribers, suspend_all, subscribe, unsubscribe}

  -- `Interpreter(output_handler)`
  unfoldable pub new_interpreter : S → Interpreter × S
  new_interpreter s =
      let subscribed = subscribe (suspend_all s) in
      (
        record {
          log_sub_id = subscribed.0;
          log_suspend_ids = ids_where (λ suspended. suspended) (subscribers s);
        },
        subscribed.1,
      )

  -- `~Interpreter`
  unfoldable pub delete_interpreter : Interpreter → S → S
  delete_interpreter interpreter s =
      resume_all log interpreter.log_suspend_ids (unsubscribe interpreter.log_sub_id s)
