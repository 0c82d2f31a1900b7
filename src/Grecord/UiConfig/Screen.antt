-- ===== src/Grecord/UiConfig/Screen.antt =====
-- The places of the status bar and the bounds of numbers: grecord/src/UiConfig.cpp.
use gambit_record.Common.{
  arith, Bool, true, false, if◌then◌else◌, ◌≡◌, refl, sym, subst, Bool-cases, inl, inr,
}
use gambit_record.Grecord.UiConfig.Settings.{
  Float, IsFloat, Point, Settings, number, clamp, max_float, bounded, clamp_position, hud_position,
}

module _ {ℓ} {F : Type ℓ} (f : Float F) where
  -- Not below the one, nor above the other.
  abbrev pub Within : F → F → F → Type 0
  Within low high v = (f.lt v low ≡ false) × (f.lt high v ≡ false)

  if-Within :
      (low high : F) (b : Bool) (x y : F)
      → (b ≡ true → Within low high x)
      → (b ≡ false → Within low high y)
      → Within low high (if b then x else y)
  if-Within low high true x y h k = h refl
  if-Within low high false x y h k = k refl

  -- A finite number that is not outside of the bounds.
  pub record Fine (low high v : F) : Type 0 where
    pub finite : f.is_finite v ≡ true
    pub above : f.lt v low ≡ false
    pub below : f.lt high v ≡ false

  -- Both coordinates are finite, from 0 to where the bar still fits, or to 0 where it does not fit.
  abbrev pub OnScreen : Point F → Point F → Point F → Type 0
  OnScreen size display p =
      Fine (number f 0) (max_float f (number f 0) (f.sub display.x size.x)) p.x
      × Fine (number f 0) (max_float f (number f 0) (f.sub display.y size.y)) p.y

module _ {ℓ} {F : Type ℓ} (f : Float F) (laws : IsFloat f) where
  pub bounded-Within :
      (v low high fallback : F)
      → f.lt high low ≡ false
      → Within f low high fallback
      → Within f low high (bounded f v low high fallback)
  unfolding bounded
  bounded-Within v low high fallback order h =
      if-Within f low high (f.is_finite v) (clamp f v low high) fallback
        (λ _.
          if-Within f low high (f.lt v low) low (if f.lt high v then high else v)
            (λ _. (laws.lt_irrefl low, order))
            (λ above.
              if-Within f low high (f.lt high v) high v (λ _. (order, laws.lt_irrefl high))
                (λ below. (above, below))))
        (λ _. h)

  max_order : (e : F) → f.lt (max_float f (number f 0) e) (number f 0) ≡ false
  max_order e = elim (Bool-cases (f.lt (number f 0) e)) [
    | inl more ↦
        subst (λ b. f.lt (if b then e else number f 0) (number f 0) ≡ false) (sym more)
          (laws.lt_asymm (number f 0) e more)
    | inr less ↦
        subst (λ b. f.lt (if b then e else number f 0) (number f 0) ≡ false) (sym less)
          (laws.lt_irrefl (number f 0))
  ]

  finite_if :
      (b : Bool) (x y : F)
      → (b ≡ true → f.is_finite x ≡ true)
      → (b ≡ false → f.is_finite y ≡ true)
      → f.is_finite (if b then x else y) ≡ true
  finite_if true x y h k = h refl
  finite_if false x y h k = k refl

  -- The upper bound may be infinite: a number above it is then not finite, or it is taken itself.
  bounded_finite :
      (v low high fallback : F)
      → f.is_finite low ≡ true
      → f.lt high low ≡ false
      → f.is_finite fallback ≡ true
      → f.is_finite (bounded f v low high fallback) ≡ true
  unfolding bounded
  bounded_finite v low high fallback l order b =
      finite_if (f.is_finite v) (clamp f v low high) fallback
        (λ e.
          finite_if (f.lt v low) low (if f.lt high v then high else v) (λ _. l)
            (λ _.
              finite_if (f.lt high v) high v (λ h. laws.between_finite low high v l e order h)
                (λ _. e)))
        (λ _. b)

  pub bounded-Fine :
      (v low high fallback : F)
      → f.is_finite low ≡ true
      → f.lt high low ≡ false
      → Fine f low high fallback
      → Fine f low high (bounded f v low high fallback)
  bounded-Fine v low high fallback l order b =
      let within = bounded-Within v low high fallback order (b.above, b.below) in
      record {
        finite = bounded_finite v low high fallback l order b.finite;
        above = within.0;
        below = within.1;
      }

  -- 0, as a place of the bar.
  zero-Fine : (e : F) → Fine f (number f 0) (max_float f (number f 0) e) (number f 0)
  zero-Fine e = record {
    finite = laws.fraction_finite 0 1 (omega arith);
    above = laws.lt_irrefl (number f 0);
    below = max_order e;
  }

  pub clamp_position-OnScreen :
      (position size display : Point F)
      → OnScreen f size display (clamp_position f position size display)
  unfolding clamp_position
  clamp_position-OnScreen position size display =
      let x = f.sub display.x size.x in
      let y = f.sub display.y size.y in
      let low = laws.fraction_finite 0 1 (omega arith) in
      (
        bounded-Fine position.x (number f 0) (max_float f (number f 0) x) (number f 0) low
            (max_order x) (zero-Fine x),
        bounded-Fine position.y (number f 0) (max_float f (number f 0) y) (number f 0) low
            (max_order y) (zero-Fine y),
      )

  -- For any settings, size and display, numbers that are infinite or no numbers included, the status
  -- bar begins at a finite place on the screen, and where it fits, not beyond where it fits.
  pub hud_position-OnScreen :
      (s : Settings F) (size display : Point F)
      → OnScreen f size display (hud_position f s size display)
  unfolding hud_position
  hud_position-OnScreen s size display = clamp_position-OnScreen _ size display
