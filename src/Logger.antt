-- ===== src/Logger.antt =====
-- includes/tacopie/utils/logger.hpp and sources/utils/logger.cpp: the library's logger, with the two
-- streams that it writes to, and the functions that call the active logger. `decimal` is how a stream
-- prints a number. The mutex makes each line one step.
pub mod Levels
use tacopie.Prelude.{ℕ, leb, List, [], ◌∷◌, ◌++◌, Option, none, some, codes, if◌then◌else◌, String}

pub data LogLevel : Type 0 where
  error warn info debug : LogLevel

-- The numbers of the enumeration.
abbrev pub rank : LogLevel → ℕ
rank error = 0
rank warn = 1
rank info = 2
rank debug = 3

-- The escape sequences of the colours.
abbrev pub escape : String → List ℕ
escape rest = 0x1b ∷ codes rest

abbrev pub black : List ℕ
black = escape "[1;30m"

abbrev pub red : List ℕ
red = escape "[1;31m"

abbrev pub yellow : List ℕ
yellow = escape "[1;33m"

abbrev pub blue : List ℕ
blue = escape "[1;34m"

abbrev pub normal : List ℕ
normal = escape "[0;39m"

-- A call of one of the four functions.
pub record Message : Type 0 where
  pub level : LogLevel
  pub msg : List ℕ
  pub file : List ℕ
  pub line : ℕ

-- What was written to `std::cout` and to `std::cerr`.
pub record Streams : Type 0 where
  pub out : List ℕ
  pub err : List ℕ

module _ (decimal : ℕ → List ℕ) where
  abbrev pub line_of : List ℕ → String → Message → List ℕ
  line_of colour name m =
      codes "["
      ++ (colour
          ++ (codes name
              ++ (normal
                  ++ (codes "][tacopie]["
                      ++ (m.file
                          ++ (codes ":"
                              ++ (decimal m.line ++ (codes "] " ++ (m.msg ++ codes "\n")))))))))

  abbrev pub write : LogLevel → Message → Streams → Streams
  write debug m s = record s { out = s.out ++ line_of black "DEBUG" m }
  write info m s = record s { out = s.out ++ line_of blue "INFO " m }
  write warn m s = record s { out = s.out ++ line_of yellow "WARN " m }
  write error m s = record s { err = s.err ++ line_of red "ERROR" m }

  -- `logger::debug`, `info`, `warn` and `error`, of a logger with a level.
  unfoldable pub log : LogLevel → Message → Streams → Streams
  log m_level m s = if leb (rank m.level) (rank m_level) then write m.level m s else s

  -- The functions of the namespace: nothing is written while no logger is active.
  unfoldable pub log_active : Option LogLevel → Message → Streams → Streams
  log_active none m s = s
  log_active (some m_level) m s = log m_level m s

  unfoldable pub log_all : Option LogLevel → List Message → Streams → Streams
  log_all active [] s = s
  log_all active (m ∷ ms) s = log_all active ms (log_active active m s)
