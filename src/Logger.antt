-- ===== src/Logger.antt =====
-- `Logger` (src/utils/logger.h). What it prints are the lines of `output`; the mutex is held for a
-- whole line.
pub mod Lines
use http2_server.Prelude.{ℕ, Option, none, some, List, [], ◌∷◌, ◌++◌, if◌then◌else◌, ltb, nat_beq}
use http2_server.Prelude.Text.{Text, codes}
use http2_server.Prelude.Int.{ℤ}
use http2_server.Prelude.Decimal.{to_string}

pub data LogLevel : Type 0 where
  debug info warn error : LogLevel

-- The enumeration's values.
abbrev pub rank : LogLevel → ℕ
rank debug = 0
rank info = 1
rank warn = 2
rank error = 3

pub record Logger : Type 0 where
  pub level : LogLevel
  pub output : List Text

abbrev pub new_logger : Logger
new_logger = record { level = info; output = [] }

unfoldable pub set_level : LogLevel → Logger → Logger
set_level level l = record l { level = level }

-- Every value of the enumeration has a case, so the default is never taken.
unfoldable pub level_string : LogLevel → Text
level_string debug = codes "DEBUG"
level_string info = codes "INFO "
level_string warn = codes "WARN "
level_string error = codes "ERROR"

-- What stands behind the last slash: the `strrchr` of `basename`, which gives the text from there on.
unfoldable pub behind_slash : Text → Option Text
behind_slash [] = none
behind_slash (c ∷ s) = elim (behind_slash s) [
  | some rest ↦ some rest
  | none ↦ if nat_beq c b'/' then some s else none
]

unfoldable pub basename : Text → Text
unfolding behind_slash
basename filepath = elim (behind_slash filepath) [ none ↦ filepath | some base ↦ base ]

unfoldable pub line_of : LogLevel → Text → ℤ → Text → Text
line_of level file line message =
    codes "["
    ++ (level_string level
        ++ (codes "] "
            ++ (basename file ++ (codes ":" ++ (to_string line ++ (codes " - " ++ message))))))

unfoldable pub log : LogLevel → Text → ℤ → Text → Logger → Logger
unfolding line_of
log level file line message l =
    if ltb (rank level) (rank l.level)
    then l
    else record l { output = l.output ++ line_of level file line message ∷ [] }
