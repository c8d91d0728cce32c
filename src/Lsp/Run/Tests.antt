-- ===== src/Lsp/Run/Tests.antt =====
-- The command `lsp` at concrete arguments.
use no.Prelude.{ℕ, true, false, some, List, [], ◌∷◌, ◌≡◌, ◌↔◌, ◌≤◌, ◌+◌, refl, codes, Bytes, Option}
use no.Cli.Log.{sample_log, sample_log-LoggerLaws}
use no.Lsp.Run.{
  ConnectionType, port, Parsed, option_port, option_log, Parser, new_parser, parse_arguments,
  parse_options, parse_option, do_parse, check, start_server,
}
use no.Lsp.Run.Valid.{unknown_options, stdio_options, port_options, parse_arguments-valid}
use no.Lsp.Run.Subscribers.{start_server-subscribers}

abbrev options : List Parsed
options = option_port (codes "80") ∷ option_log (codes "log") ∷ []

abbrev port_parser : Parser
port_parser = record {
  help = false;
  stdio_count = 0;
  port_count = 1;
  connect_arg = codes "80";
  connection_mode = port;
  log_file = codes "log";
  too_many_args = false;
}

parse_arguments-valid_example :
    (false ≡ false)
    × (unknown_options options ≡ 0)
    × (stdio_options options + port_options options ≤ 1)
    × ((port_parser.connection_mode ≡ port) ↔ (port_options options ≡ 1))
unfolding parse_arguments do_parse parse_options parse_option check
parse_arguments-valid_example = parse_arguments-valid options false {p = port_parser} refl

abbrev connect : ConnectionType → Bytes → Option ℕ
connect mode arg = some 0

start_server-subscribers_example :
    sample_log.subscribers
      (start_server sample_log connect
        (λ path. true)
        (λ io us. (true, us))
        new_parser
        ((1, false) ∷ (2, true) ∷ [])).1
    ≡ (1, false) ∷ (2, true) ∷ []
start_server-subscribers_example =
    start_server-subscribers sample_log sample_log-LoggerLaws connect (λ path. true)
      (λ io us. (true, us)) new_parser ((1, false) ∷ (2, true) ∷ []) ((refl, tt), (tt, tt))
      (λ io us. refl)
