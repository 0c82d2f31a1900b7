-- ===== src/Grecord/UiConfig/Theme.antt =====
-- grecord/src/UiConfig.cpp, parse_theme, and grecord/src/Plugin.cpp, theme_loop: the theme in GAdmin's
-- file. MessagePack is an interface; `none` is an exception.
use gambit_record.Common.{ℕ, List, [], ◌∷◌, Option, none, some, if◌then◌else◌, Text, literal}
use gambit_record.Grecord.UiConfig.{color, colors, ThemeReader, ThemeFile, poll}
use gambit_record.Grecord.UiConfig.Settings.{Settings}

pub record Theme : Type 0 where
  pub surface : List ℕ
  pub text : List ℕ
  pub overlay : List ℕ
  pub red : ℕ
  pub green : ℕ
  pub yellow : ℕ

unfoldable pub default_theme : Theme
default_theme = record {
  surface = 0xff2e1e1e ∷ 0xff251818 ∷ [];
  text = 0xfff4d6cd ∷ 0xffdec2ba ∷ [];
  overlay = 0xff443231 ∷ 0xff5a4745 ∷ 0xff705b58 ∷ [];
  red = 0xffa88bf3;
  green = 0xffa1e3a6;
  yellow = 0xffafe2f9;
}

-- What the code uses of the library: a member of an object, a string and an array.
pub record MessagePack {ℓ} (J : Type ℓ) : Type ℓ where
  pub from_msgpack : Text → Option J
  pub at : Text → J → Option J
  pub as_text : J → Option Text
  pub as_array : J → Option (List J)

abbrev and_with {ℓ ℓ'} : {A : Type ℓ} {B : Type ℓ'} → Option A → (A → Option B) → Option B
and_with none next = none
and_with (some a) next = next a

module _ {ℓ} {J : Type ℓ} (pack : MessagePack J) where
  unfoldable pub color_of : Option J → Option ℕ
  color_of value = and_with (and_with value pack.as_text) color

  abbrev texts : List J → Option (List Text)
  texts [] = some []
  texts (value ∷ rest) =
      and_with (pack.as_text value) (λ s. and_with (texts rest) (λ ss. some (s ∷ ss)))

  unfoldable pub colors_of : ℕ → Option J → Option (List ℕ)
  colors_of n value = and_with (and_with (and_with value pack.as_array) texts) (colors n)

  -- The theme of the two objects of colours.
  unfoldable pub theme_of : J → J → Option Theme
  unfolding literal color_of colors_of
  theme_of base accent = and_with (colors_of 2 (pack.at (literal "surface") base)) (λ surface.
      and_with (colors_of 2 (pack.at (literal "text") base)) (λ text.
        and_with (colors_of 3 (pack.at (literal "overlay") base)) (λ overlay.
          and_with (color_of (pack.at (literal "red") accent)) (λ red.
            and_with (color_of (pack.at (literal "green") accent)) (λ green.
              and_with (color_of (pack.at (literal "yellow") accent)) (λ yellow. some (record {
                surface = surface;
                text = text;
                overlay = overlay;
                red = red;
                green = green;
                yellow = yellow;
              })))))))

  unfoldable pub parse_theme : Text → Option Theme
  unfolding literal theme_of
  parse_theme bytes =
      and_with
        (and_with (and_with (pack.from_msgpack bytes) (pack.at (literal "internal")))
          (pack.at (literal "theme")))
        (λ theme.
          and_with (pack.at (literal "interface_colors") theme)
            (λ base. and_with (pack.at (literal "accent_colors") theme) (theme_of base)))

  -- The rounds of the loop, by the file that each finds.
  unfoldable pub theme_loop : List (Option ThemeFile) → ThemeReader Theme → ThemeReader Theme
  unfolding parse_theme default_theme
  theme_loop [] reader = reader
  theme_loop (file ∷ rest) reader = theme_loop rest (poll parse_theme default_theme file reader)

-- The theme of a frame that `present_hook` draws.
unfoldable pub next_theme {ℓ} : {F : Type ℓ} → Settings F → Theme → Theme
unfolding default_theme
next_theme ui external = if ui.follow_gadmin then external else default_theme
