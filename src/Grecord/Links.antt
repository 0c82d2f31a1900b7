-- ===== src/Grecord/Links.antt =====
-- grecord/src/Plugin.cpp: the buttons that copy the link and open the folder of the recordings. What
-- Windows answers is a parameter.
use gambit_record.Common.{
  ℕ, Bool, not, ◌&&◌, ◌||◌, Option, none, some, ltb, if◌then◌else◌, Text, literal,
}
use gambit_record.Grecord.Plugin.{Plugin}

-- Whether a text has a UTF-16 form of one unit or more, and what the calls on the clipboard return.
pub record Clipboard : Type 0 where
  pub converts : Text → Bool
  pub opens : Bool
  pub allocates : Bool
  pub empties : Bool
  pub sets : Bool

abbrev pub notice : Text → Plugin → Plugin
notice text p = record p { notice = text }

-- The plugin, and the text that the clipboard takes.
unfoldable pub copy_link : Clipboard → Text → Plugin → Plugin × Option Text
unfolding literal
copy_link c value p =
    if not (c.converts value) || not c.opens
    then (notice (literal "Не удалось открыть буфер обмена") p, none)
    else if c.allocates && c.empties && c.sets
    then (notice (literal "Ссылка скопирована") p, some value)
    else (notice (literal "Не удалось скопировать ссылку") p, none)

pub record Shell : Type 0 where
  pub converts : Text → Bool
  pub is_absolute : Text → Bool
  pub is_directory : Text → Bool
  pub execute : Text → ℕ

-- The directory of a status, or the empty text.
abbrev pub directory_or : Option Text → Text
directory_or none = literal ""
directory_or (some directory) = directory

-- The plugin, and the directory that is opened.
unfoldable pub open_recordings : Shell → Option Text → Plugin → Plugin × Option Text
unfolding literal
open_recordings s status p =
    let value = directory_or status in
    if not (s.converts value)
    then (notice (literal "Папка записей пока недоступна: дождитесь подключения recorder") p, none)
    else if not (s.is_absolute value) || not (s.is_directory value)
    then (notice (literal "Папка записей пока не создана или недоступна") p, none)
    else if ltb 32 (s.execute value)
    then (notice (literal "Папка записей открыта") p, some value)
    else (notice (literal "Не удалось открыть папку записей") p, none)
