-- ===== src/Grecord/UiConfig/Settings.antt =====
-- grecord/src/UiConfig.cpp: the settings of the interface and the place of the status bar. A `float`
-- is a value of an interface: the literals as fractions, the arithmetic, `<` and `std::isfinite`.
use gambit_record.Common.{
  ℕ, Bool, true, false, not, ◌&&◌, Option, none, some, ◌==◌, if◌then◌else◌, ◌≡◌, ◌*◌, ◌≤◌,
}

pub record Float {ℓ} (F : Type ℓ) : Type ℓ where
  pub fraction : ℕ → ℕ → F
  pub add : F → F → F
  pub sub : F → F → F
  pub mul : F → F → F
  pub div : F → F → F
  pub lt : F → F → Bool
  pub is_finite : F → Bool

-- What IEEE 754 says of `<`, which is false on a NaN, of what lies between two finite numbers, and of
-- the literals: they are finite, and the rounding of a fraction is monotone.
pub record IsFloat {ℓ} {F : Type ℓ} (f : Float F) : Type ℓ where
  pub lt_irrefl : (x : F) → f.lt x x ≡ false
  pub lt_asymm : (x y : F) → f.lt x y ≡ true → f.lt y x ≡ false
  pub between_finite :
      (x y z : F)
      → f.is_finite x ≡ true
      → f.is_finite z ≡ true
      → f.lt y x ≡ false
      → f.lt y z ≡ true
      → f.is_finite y ≡ true
  pub fraction_finite : (a b : ℕ) → 1 ≤ b → f.is_finite (f.fraction a b) ≡ true
  pub fraction_monotone :
      (a b c d : ℕ) → 1 ≤ b → 1 ≤ d → c * b ≤ a * d → f.lt (f.fraction a b) (f.fraction c d) ≡ false

pub record Point {ℓ} (F : Type ℓ) : Type ℓ where
  pub x : F
  pub y : F

pub record Settings {ℓ} (F : Type ℓ) : Type ℓ where
  pub follow_gadmin : Bool
  pub custom_position : Bool
  pub anchor : Point F
  pub scale : F
  pub opacity : F

-- A member of the JSON object: missing, of the type, or of another type.
pub data Found {ℓ} (A : Type ℓ) : Type ℓ where
  absent wrong : Found A
  found : A → Found A

abbrev pub value {ℓ κ} : {A : Type ℓ} {B : Type κ} → Found A → A → (A → Option B) → Option B
value absent fallback next = next fallback
value wrong fallback next = none
value (found a) fallback next = next a

pub record Document {ℓ} (F : Type ℓ) : Type ℓ where
  pub version : Found ℕ
  pub follow_gadmin : Found Bool
  pub custom_position : Found Bool
  pub scale : Found F
  pub opacity : Found F
  pub anchor_x : Found F
  pub anchor_y : Found F

-- The file is not there, cannot be parsed, or is an object.
pub data SettingsFile {ℓ} (F : Type ℓ) : Type ℓ where
  no_file unparsed : SettingsFile F
  object : Document F → SettingsFile F

module _ {ℓ} {F : Type ℓ} (f : Float F) where
  abbrev pub number : ℕ → F
  number n = f.fraction n 1

  abbrev pub half : F
  half = f.fraction 1 2

  -- `std::clamp`, `std::max`.
  abbrev pub clamp : F → F → F → F
  clamp v low high = if f.lt v low then low else if f.lt high v then high else v

  abbrev pub max_float : F → F → F
  max_float a b = if f.lt a b then b else a

  unfoldable pub bounded : F → F → F → F → F
  bounded v low high fallback = if f.is_finite v then clamp v low high else fallback

  abbrev pub default_settings : Settings F
  default_settings = record {
    follow_gadmin = true;
    custom_position = false;
    anchor = record { x = half; y = number 1 };
    scale = number 1;
    opacity = f.fraction 76 100;
  }

  unfoldable pub validated : Settings F → Settings F
  unfolding bounded
  validated s = record s {
    scale = bounded s.scale (f.fraction 75 100) (number 2) (number 1);
    opacity = bounded s.opacity (f.fraction 2 10) (number 1) (f.fraction 76 100);
    anchor = record {
      x = bounded s.anchor.x (number 0) (number 1) half;
      y = bounded s.anchor.y (number 0) (number 1) (number 1);
    };
  }

  unfoldable pub parsed : Document F → Option (Settings F)
  unfolding validated
  parsed d = value d.version 1 (λ version.
      if not (version == 1)
      then none
      else value d.follow_gadmin true (λ follow_gadmin.
        value d.custom_position false (λ custom_position. value d.scale (number 1) (λ scale.
          value d.opacity (f.fraction 76 100) (λ opacity. value d.anchor_x half (λ x.
            value d.anchor_y (number 1) (λ y. some (
              validated record {
                follow_gadmin = follow_gadmin;
                custom_position = custom_position;
                anchor = record { x = x; y = y };
                scale = scale;
                opacity = opacity;
              }))))))))

  -- The settings, and whether there was no error.
  abbrev pub or_default : Option (Settings F) → Settings F × Bool
  or_default none = (default_settings, false)
  or_default (some s) = (s, true)

  unfoldable pub load_settings : SettingsFile F → Settings F × Bool
  unfolding parsed
  load_settings no_file = (default_settings, true)
  load_settings unparsed = (default_settings, false)
  load_settings (object d) = or_default (parsed d)

  unfoldable pub document_of : Settings F → Document F
  document_of s = record {
    version = found 1;
    follow_gadmin = found s.follow_gadmin;
    custom_position = found s.custom_position;
    scale = found s.scale;
    opacity = found s.opacity;
    anchor_x = found s.anchor.x;
    anchor_y = found s.anchor.y;
  }

  -- What is at the path behind it, and the result: the temporary file takes the path's place at last.
  -- Whether the file is written and is moved are parameters.
  unfoldable pub save_settings : Bool → Bool → Settings F → SettingsFile F → SettingsFile F × Bool
  unfolding document_of validated
  save_settings writes moves s before =
      if writes && moves then (object (document_of (validated s)), true) else (before, false)

  unfoldable pub clamp_position : Point F → Point F → Point F → Point F
  unfolding bounded
  clamp_position position size display = record {
    x = bounded position.x (number 0) (max_float (number 0) (f.sub display.x size.x)) (number 0);
    y = bounded position.y (number 0) (max_float (number 0) (f.sub display.y size.y)) (number 0);
  }

  unfoldable pub hud_position : Settings F → Point F → Point F → Point F
  unfolding clamp_position validated
  hud_position s size display =
      let v = validated s in
      let anchor : Point F =
        if v.custom_position
        then record { x = f.mul v.anchor.x display.x; y = f.mul v.anchor.y display.y }
        else record { x = f.mul display.x half; y = f.sub display.y (number 18) } in
      clamp_position (record { x = f.sub anchor.x (f.mul size.x half); y = f.sub anchor.y size.y })
        size display

  unfoldable pub hud_anchor : Point F → Point F → Point F → Point F
  unfolding clamp_position bounded
  hud_anchor position size display =
      let p = clamp_position position size display in
      record {
        x =
            bounded (f.div (f.add p.x (f.mul size.x half)) (max_float (number 1) display.x))
              (number 0) (number 1) half;
        y =
            bounded (f.div (f.add p.y size.y) (max_float (number 1) display.y)) (number 0)
              (number 1) (number 1);
      }
