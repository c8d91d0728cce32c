-- ===== src/Lsp/Run.antt =====
-- The command `lsp`: lib/src/lsp/Run.cc. What `getopt_long` reads from the arguments, the connection,
-- the log file and the server's run are arguments.
pub mod Valid
pub mod Subscribers
pub mod Tests
use no.Prelude.{
  ℕ, ◌+◌, Bool, true, false, not, Option, none, some, List, [], ◌∷◌, Bytes, codes, ltb,
  if◌then◌else◌,
}
use no.Cli.Log.{Logger, ids_where, resume_all}

pub data ConnectionType : Type 0 where
  stdio port : ConnectionType

-- What `getopt_long` gives; `unknown` is its question mark.
pub data Parsed : Type 0 where
  option_help : Parsed
  option_stdio : Parsed
  option_port : Bytes → Parsed
  option_log : Bytes → Parsed
  unknown : Parsed

pub record Parser : Type 0 where
  pub help : Bool
  pub stdio_count : ℕ
  pub port_count : ℕ
  pub connect_arg : Bytes
  pub connection_mode : ConnectionType
  pub log_file : Bytes
  pub too_many_args : Bool

abbrev pub new_parser : Parser
new_parser = record {
  help = false;
  stdio_count = 0;
  port_count = 0;
  connect_arg = [];
  connection_mode = stdio;
  log_file = [];
  too_many_args = false;
}

abbrev pub is_empty : Bytes → Bool
is_empty [] = true
is_empty (_ ∷ _) = false

unfoldable pub parse_option : Parsed → Parser → Parser
parse_option option_help p = record p { help = true }
parse_option option_stdio p = record p {
  connection_mode = stdio;
  stdio_count = p.stdio_count + 1;
  too_many_args = if ltb 0 p.stdio_count then true else p.too_many_args;
}
parse_option (option_port optarg) p = record p {
  connection_mode = port;
  connect_arg = optarg;
  port_count = p.port_count + 1;
  too_many_args = if ltb 0 p.port_count then true else p.too_many_args;
}
parse_option (option_log optarg) p =
    if not (is_empty p.log_file)
    then record p { too_many_args = true }
    else record p { log_file = optarg }
parse_option unknown p = record p { too_many_args = true }

unfoldable pub parse_options : List Parsed → Parser → Parser
parse_options [] p = p
parse_options (o ∷ os) p = parse_options os (parse_option o p)

abbrev default_log_file : Bytes → Bytes
default_log_file [] = codes "nitrate-lsp.log"
default_log_file (c ∷ cs) = c ∷ cs

-- `DoParse`, where `arguments_left` says whether there are arguments behind the options.
unfoldable pub do_parse : List Parsed → (arguments_left : Bool) → Parser
do_parse options arguments_left =
    let p = parse_options options new_parser in
    record p {
      too_many_args = if arguments_left then true else p.too_many_args;
      log_file = default_log_file p.log_file;
    }

unfoldable pub check : Parser → Bool
check p =
    if p.too_many_args then false else if ltb 1 (p.stdio_count + p.port_count) then false else true

-- `is_valid` and `performed_action` of the constructor.
unfoldable pub parse_arguments : List Parsed → Bool → (Bool × Bool) × Parser
parse_arguments options arguments_left =
    let p = do_parse options arguments_left in
    if p.help then ((true, true), p) else ((check p, false), p)

module _ {S : Type 0} (log : Logger S) where
  open log use {subscribers, suspend_all, subscribe, unsubscribe}

  -- The server over standard streams, behind the suspended subscribers.
  unfoldable pub run_quietly : (S → Bool × S) → S → Bool × S
  run_quietly server s =
      let old_active_subscribers = ids_where not (subscribers s) in
      let subscribed = subscribe (suspend_all s) in
      let lsp_status = server subscribed.1 in
      (lsp_status.0, resume_all log old_active_subscribers (unsubscribe subscribed.0 lsp_status.1))

  unfoldable pub run_loudly : (S → Bool × S) → S → Bool × S
  run_loudly server s =
      let subscribed = subscribe s in
      let lsp_status = server subscribed.1 in (lsp_status.0, unsubscribe subscribed.0 lsp_status.1)

  unfoldable pub start_server :
      {C : Type 0} (open_connection : ConnectionType → Bytes → Option C)
      (open_log_file : Bytes → Bool) (server : C → S → Bool × S)
      → Parser
      → S
      → Bool × S
  start_server open_connection open_log_file server p s =
      elim (open_connection p.connection_mode p.connect_arg) [
        | none ↦ (false, s)
        | some lsp_io ↦
            if open_log_file p.log_file
            then (elim (p.connection_mode) [
              | stdio ↦ run_quietly (server lsp_io) s
              | port ↦ run_loudly (server lsp_io) s
            ])
            else (false, s)
      ]
