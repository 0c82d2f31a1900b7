-- ===== src/Grecord/Hud/Placed.antt =====
-- Where the status bar is drawn: grecord/src/Plugin.cpp, render_hud.
use gambit_record.Common.{Bool, true, false, not, ◌&&◌, ◌||◌, Option, none, some, if◌then◌else◌}
use gambit_record.Grecord.UiConfig.Settings.{Float, IsFloat, Point, hud_position, hud_anchor}
use gambit_record.Grecord.UiConfig.Screen.{OnScreen, clamp_position-OnScreen, hud_position-OnScreen}
use gambit_record.Grecord.Plugin.{Plugin}
use gambit_record.Grecord.Hud.{
  Hud, Frame, grab, dragged_to, drag, release, is_drawn, render_hud, is_raised,
}

module _ {ℓ} {F : Type ℓ} (f : Float F) where
  -- The bar is not drawn, or it is on the screen.
  abbrev pub Shown : Frame F → Option (Point F) → Type 0
  Shown frame none = Unit
  Shown frame (some place) = OnScreen f frame.size frame.display place

module _ {ℓ} {F : Type ℓ} (f : Float F) (laws : IsFloat f) where
  if-OnScreen :
      (frame : Frame F) (b : Bool) (x y : Hud F × Point F × Bool)
      → OnScreen f frame.size frame.display x.1
      → OnScreen f frame.size frame.display y.1
      → OnScreen f frame.size frame.display (if b then x else y).1
  if-OnScreen frame true x y h k = h
  if-OnScreen frame false x y h k = k

  if-Shown :
      (frame : Frame F) (b : Bool) (x y : Hud F × Option (Point F) × Bool)
      → Shown f frame x.1
      → Shown f frame y.1
      → Shown f frame (if b then x else y).1
  if-Shown frame true x y h k = h
  if-Shown frame false x y h k = k

  -- A drag moves the bar only on the screen.
  drag-OnScreen :
      (frame : Frame F) (editable : Bool) (current : Point F) (h : Hud F)
      → OnScreen f frame.size frame.display current
      → OnScreen f frame.size frame.display (drag f frame editable current h).1
  unfolding drag dragged_to
  drag-OnScreen frame editable current h k =
      if-OnScreen frame (not h.dragging) (h, current, false)
        (if editable && frame.down then moved else dropped) k
        (if-OnScreen frame (editable && frame.down) moved dropped
          (clamp_position-OnScreen f laws _ frame.size frame.display) k)
    where
      moved : Hud F × Point F × Bool
      moved = (
        record h {
          ui = record h.ui {
            custom_position = true;
            anchor = hud_anchor f (dragged_to f frame h) frame.size frame.display;
          };
        },
        dragged_to f frame h,
        false,
      )

      dropped : Hud F × Point F × Bool
      dropped = (record h { dragging = false }, current, true)

  -- For any settings, mouse, size of the bar and display, numbers that are infinite or no numbers
  -- included, the status bar is not drawn or begins at a finite place on the screen, during a drag
  -- too; where it fits, it does not begin beyond where it fits.
  pub render_hud-OnScreen :
      (frame : Frame F) (p : Plugin) (h : Hud F) → Shown f frame (render_hud f frame p h).1
  unfolding render_hud
  render_hud-OnScreen frame p h =
      let editable = p.menu_open && not (is_raised p.prompt) in
      let r = release f editable h in
      let current = hud_position f r.0.ui frame.size frame.display in
      let d = drag f frame editable current (grab f frame editable current r.0) in
      if-Shown frame (not (is_drawn f frame p) || not frame.visible) (r.0, none, r.1)
        (d.0, some d.1, r.1 || d.2) tt
        (drag-OnScreen frame editable current (grab f frame editable current r.0)
          (hud_position-OnScreen f laws r.0.ui frame.size frame.display))
