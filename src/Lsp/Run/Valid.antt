-- ===== src/Lsp/Run/Valid.antt =====
-- Which arguments the command `lsp` takes: lib/src/lsp/Run.cc.
use no.Prelude.{ℕ, suc, ◌+◌, ◌≤◌, ◌<◌, Bool, true, false, List, [], ◌∷◌, ◌≡◌, ◌↔◌, arith}
use no.Lsp.Run.{
  stdio, port, Parsed, option_help, option_stdio, option_port, option_log, unknown, Parser,
  new_parser, parse_option, parse_options, do_parse, check, parse_arguments,
}

-- How often an option that is not known, the standard streams, and a port stand in the arguments.
abbrev pub unknown_options : List Parsed → ℕ
unknown_options [] = 0
unknown_options (unknown ∷ os) = suc (unknown_options os)
unknown_options (_ ∷ os) = unknown_options os

abbrev pub stdio_options : List Parsed → ℕ
stdio_options [] = 0
stdio_options (option_stdio ∷ os) = suc (stdio_options os)
stdio_options (_ ∷ os) = stdio_options os

abbrev pub port_options : List Parsed → ℕ
port_options [] = 0
port_options (option_port _ ∷ os) = suc (port_options os)
port_options (_ ∷ os) = port_options os

parse_options_lem :
    (os : List Parsed) (p : Parser)
    → let q = parse_options os p in
      (q.stdio_count ≡ p.stdio_count + stdio_options os)
      × (q.port_count ≡ p.port_count + port_options os)
      × (q.too_many_args ≡ false → (p.too_many_args ≡ false) × (unknown_options os ≡ 0))
unfolding parse_options parse_option
parse_options_lem [] p = ground arith
parse_options_lem (option_help ∷ os) p = parse_options_lem os (parse_option option_help p)
parse_options_lem (option_stdio ∷ os) p =
    ground (arith, parse_options_lem os (parse_option option_stdio p))
parse_options_lem (option_port arg ∷ os) p =
    ground (arith, parse_options_lem os (parse_option (option_port arg) p))
parse_options_lem (option_log arg ∷ os) p =
    ground (arith, parse_options_lem os (parse_option (option_log arg) p))
parse_options_lem (unknown ∷ os) p = ground (arith, parse_options_lem os (parse_option unknown p))

-- The mode behind options with one connection at most.
mode_lem :
    (os : List Parsed) (p : Parser)
    → stdio_options os + port_options os ≤ 1
    → let q = parse_options os p in
      (port_options os ≡ 0 → stdio_options os ≡ 0 → q.connection_mode ≡ p.connection_mode)
      × (0 < stdio_options os → q.connection_mode ≡ stdio)
      × (0 < port_options os → q.connection_mode ≡ port)
unfolding parse_options parse_option
mode_lem [] p h = ground arith
mode_lem (option_help ∷ os) p h = mode_lem os (parse_option option_help p) h
mode_lem (option_stdio ∷ os) p h =
    ground (arith, h, mode_lem os (parse_option option_stdio p) (omega (arith, h)))
mode_lem (option_port arg ∷ os) p h =
    ground (arith, h, mode_lem os (parse_option (option_port arg) p) (omega (arith, h)))
mode_lem (option_log arg ∷ os) p h =
    ground (arith, h, mode_lem os (parse_option (option_log arg) p) h)
mode_lem (unknown ∷ os) p h = mode_lem os (parse_option unknown p) h

-- Where the command goes on with its arguments, none was unknown or left over, at most one
-- connection was asked for, and the server listens on a port exactly if one was given.
pub parse_arguments-valid :
    (options : List Parsed) (arguments_left : Bool) {p : Parser}
    → parse_arguments options arguments_left ≡ ((true, false), p)
    → (arguments_left ≡ false)
      × (unknown_options options ≡ 0)
      × (stdio_options options + port_options options ≤ 1)
      × ((p.connection_mode ≡ port) ↔ (port_options options ≡ 1))
unfolding parse_arguments do_parse check
parse_arguments-valid options arguments_left {p = p} h =
    let counts = parse_options_lem options new_parser in
    let few : stdio_options options + port_options options ≤ 1 = ground (arith, h, counts) in
    ground (arith, h, counts, few, mode_lem options new_parser few)
