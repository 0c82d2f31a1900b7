-- ===== src/Recorder/Log.antt =====
-- recorder/src/logging/Logger.cpp: the level and the line of an entry. Whether the file opens is a
-- parameter; `false` is an exception.
use gambit_record.Common.{
  ℕ, zero, suc, ◌-◌, Bool, List, [], ◌∷◌, ◌++◌, ltb, if◌then◌else◌, length, Text, literal,
  same_text, is_empty, decimal,
}

pub data LogLevel : Type 0 where
  debug info warn error : LogLevel

pub record Logger : Type 0 where
  pub opened : Bool
  pub lines : List Text
  pub minimum : LogLevel

-- Any other name leaves the level as it is.
unfoldable pub level_of : Text → LogLevel → LogLevel
unfolding literal
level_of name minimum =
    if same_text name (literal "debug")
    then debug
    else if same_text name (literal "warn")
    then warn
    else if same_text name (literal "error")
    then error
    else minimum

unfoldable pub initialize : Bool → Text → Logger → Logger × Bool
unfolding level_of
initialize opens level g = (record g { opened = opens; minimum = level_of level g.minimum }, opens)

abbrev pub rank : LogLevel → ℕ
rank debug = 0
rank info = 1
rank warn = 2
rank error = 3

abbrev pub level_name : LogLevel → Text
level_name debug = literal "DEBUG"
level_name info = literal "INFO"
level_name warn = literal "WARN"
level_name error = literal "ERROR"

abbrev zeros : ℕ → Text
zeros zero = []
zeros (suc n) = 48 ∷ zeros n

-- A number in the format `{:0w}`.
unfoldable pub padded : ℕ → ℕ → Text
padded width n = zeros (width - length (decimal n)) ++ decimal n

pub record LocalTime : Type 0 where
  pub year : ℕ
  pub month : ℕ
  pub day : ℕ
  pub hour : ℕ
  pub minute : ℕ
  pub second : ℕ

unfoldable pub stamp : LocalTime → Text
unfolding padded literal
stamp t =
    padded 4 t.year
    ++ literal "-"
    ++ padded 2 t.month
    ++ literal "-"
    ++ padded 2 t.day
    ++ literal " "
    ++ padded 2 t.hour
    ++ literal ":"
    ++ padded 2 t.minute
    ++ literal ":"
    ++ padded 2 t.second

unfoldable pub line : LocalTime → LogLevel → Text → Text → Text
unfolding literal stamp
line t level event detail =
    literal "["
    ++ stamp t
    ++ literal "] "
    ++ level_name level
    ++ literal " "
    ++ event
    ++ (if is_empty detail then [] else literal " ")
    ++ detail

-- The lines of the file, the newest last.
unfoldable pub log : LocalTime → LogLevel → Text → Text → Logger → Logger
unfolding line
log t level event detail g =
    if ltb (rank level) (rank g.minimum)
    then g
    else if g.opened
    then record g { lines = g.lines ++ line t level event detail ∷ [] }
    else g
