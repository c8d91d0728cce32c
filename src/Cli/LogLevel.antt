-- ===== src/Cli/LogLevel.antt =====
-- The level from which messages are shown: `GetMinimumLogLevel` of lib/src/core/cli/Start.cc. The
-- setting is what the environment holds for `NCC_LOG_LEVEL`.
use no.Prelude.{
  Option, none, some, List, [], ◌∷◌, Bytes, codes, map, if◌then◌else◌, leb, ◌&&◌, ◌-◌, ℕ,
}
use no.Prelude.Dict.{bytes_key, lookup}

pub data Severity : Type 0 where
  trace debug info notice warning error critical alert emergency raw : Severity

abbrev levels : List (Bytes × Severity)
levels =
    (codes "TRACE", trace)
    ∷ (codes "DEBUG", debug)
    ∷ (codes "INFO", info)
    ∷ (codes "NOTICE", notice)
    ∷ (codes "WARNING", warning)
    ∷ (codes "ERROR", error)
    ∷ (codes "CRITICAL", critical)
    ∷ (codes "ALERT", alert)
    ∷ (codes "EMERGENCY", emergency)
    ∷ (codes "RAW", raw)
    ∷ []

abbrev to_upper : ℕ → ℕ
to_upper c = if leb b'a' c && leb c b'z' then c - 32 else c

unfoldable pub get_minimum_log_level : Option Bytes → Severity
get_minimum_log_level none = info
get_minimum_log_level (some setting) = elim (lookup (map to_upper setting) levels) [
  | none ↦ info
  | some severity ↦ severity
]
