-- ===== src/Grecord/UiConfig.antt =====
-- grecord/src/UiConfig.cpp and grecord/include/grecord/UiConfig.hpp: the colours of a theme and the
-- reader that polls its file. The file system and the MessagePack parser are parameters.
pub mod Settings
pub mod Screen
pub mod Saved
pub mod Theme
use gambit_record.Common.{
  ℕ, ◌+◌, ◌-◌, ◌*◌, Bool, true, false, ◌&&◌, ◌||◌, List, [], ◌∷◌, Option, none, some, ltb, leb,
  ◌==◌, if◌then◌else◌, length, Text,
}

-- The digits that `from_chars` takes to the base of 16.
unfoldable pub hex_digit : ℕ → Option ℕ
hex_digit c =
    if leb 48 c && leb c 57
    then some (c - 48)
    else if leb 65 c && leb c 70
    then some (c - 55)
    else if leb 97 c && leb c 102
    then some (c - 87)
    else none

add_digit : ℕ → Option ℕ → Option ℕ
add_digit n none = none
add_digit n (some d) = some (16 * n + d)

unfoldable pub hex_from : Option ℕ → Text → Option ℕ
unfolding add_digit
hex_from none s = none
hex_from (some n) [] = some n
hex_from (some n) (c ∷ s) = hex_from (add_digit n (hex_digit c)) s

-- Eight digits, all of which are taken.
unfoldable pub color : Text → Option ℕ
color s = if length s == 8 then hex_from (some 0) s else none

put_color : Option ℕ → Option (List ℕ) → Option (List ℕ)
put_color none rest = none
put_color (some c) none = none
put_color (some c) (some rest) = some (c ∷ rest)

each_color : List Text → Option (List ℕ)
unfolding put_color
each_color [] = some []
each_color (s ∷ rest) = put_color (color s) (each_color rest)

-- A palette of `n` colours.
unfoldable pub colors : ℕ → List Text → Option (List ℕ)
unfolding each_color
colors n values = if length values == n then each_color values else none

pub data ThemeState : Type 0 where
  missing loaded invalid : ThemeState

pub record ThemeReader (Theme : Type 0) : Type 0 where
  pub theme : Theme
  pub state : ThemeState
  pub modified : Option ℕ

-- The file at one poll: its time of writing before and after the read, its size, its bytes where
-- the read is complete.
pub record ThemeFile : Type 0 where
  pub stamp : ℕ
  pub stamp_after : ℕ
  pub size : ℕ
  pub bytes : Option Text

is_loaded : ThemeState → Bool
is_loaded loaded = true
is_loaded _ = false

is_stamp : ℕ → Option ℕ → Bool
is_stamp stamp none = false
is_stamp stamp (some m) = m == stamp

module _ {Theme : Type 0} where
  parsed : (Text → Option Theme) → Option Text → Option Theme
  parsed parse_theme none = none
  parsed parse_theme (some bytes) = parse_theme bytes

  taken : ThemeFile → Option Theme → ThemeReader Theme → ThemeReader Theme
  taken f none r = record r { state = invalid }
  taken f (some theme) r =
      if f.stamp_after == f.stamp
      then record { theme = theme; state = loaded; modified = some f.stamp }
      else record r { state = invalid }

  -- `none` is a path at which no file is; any exception leaves the theme and marks it invalid.
  unfoldable pub poll :
      (Text → Option Theme) → Theme → Option ThemeFile → ThemeReader Theme → ThemeReader Theme
  unfolding is_loaded is_stamp parsed taken
  poll parse_theme default_theme none r = record {
    theme = default_theme;
    state = missing;
    modified = none;
  }
  poll parse_theme default_theme (some f) r =
      if is_loaded r.state && is_stamp f.stamp r.modified
      then r
      else if (f.size == 0) || ltb (16 * 1024 * 1024) f.size
      then record r { state = invalid }
      else taken f (parsed parse_theme f.bytes) r
