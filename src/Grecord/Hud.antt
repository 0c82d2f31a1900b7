-- ===== src/Grecord/Hud.antt =====
-- grecord/src/Plugin.cpp: the status bar, which the mouse drags, and the change of the page. A `float`
-- is a value of an interface; the mouse, the size of the bar and the display are parameters.
pub mod Placed
use gambit_record.Common.{
  Bool, true, false, not, ◌&&◌, ◌||◌, Option, none, some, if◌then◌else◌, is_empty,
}
use gambit_record.Grecord.UiConfig.Settings.{
  Float, Point, Settings, number, clamp_position, hud_position, hud_anchor,
}
use gambit_record.Grecord.Plugin.{Plugin, Page, Prompt, no_prompt}

abbrev pub is_raised : Prompt → Bool
is_raised no_prompt = false
is_raised _ = true

-- The settings, and the two variables of a drag.
pub record Hud {ℓ} (F : Type ℓ) : Type ℓ where
  pub ui : Settings F
  pub dragging : Bool
  pub offset : Point F

-- What one drawing meets: `shown` is whether a notice is current, `visible` whether the bar is drawn.
pub record Frame {ℓ} (F : Type ℓ) : Type ℓ where
  pub shown : Bool
  pub visible : Bool
  pub hovered : Bool
  pub clicked : Bool
  pub down : Bool
  pub mouse : Point F
  pub size : Point F
  pub display : Point F

-- A page's change: the time since it was asked for, or none.
pub record Paging {ℓ} (F : Type ℓ) : Type ℓ where
  pub page : Page
  pub next_page : Page
  pub transition : Bool
  pub alpha : F

module _ {ℓ} {F : Type ℓ} (f : Float F) where
  abbrev pub minus : Point F → Point F → Point F
  minus a b = record { x = f.sub a.x b.x; y = f.sub a.y b.y }

  unfoldable pub grab : Frame F → Bool → Point F → Hud F → Hud F
  grab frame editable current h =
      if editable && frame.hovered && frame.clicked
      then record h { offset = minus frame.mouse current; dragging = true }
      else h

  -- The place of the bar behind a drag.
  unfoldable pub dragged_to : Frame F → Hud F → Point F
  dragged_to frame h = clamp_position f (minus frame.mouse h.offset) frame.size frame.display

  -- The bar's state, its place, and whether the settings are saved.
  unfoldable pub drag : Frame F → Bool → Point F → Hud F → Hud F × Point F × Bool
  unfolding dragged_to
  drag frame editable current h =
      if not h.dragging
      then (h, current, false)
      else if editable && frame.down
      then (
        record h {
          ui = record h.ui {
            custom_position = true;
            anchor = hud_anchor f (dragged_to frame h) frame.size frame.display;
          };
        },
        dragged_to frame h,
        false,
      )
      else (record h { dragging = false }, current, true)

  -- The drag ends where the bar can no longer be moved.
  unfoldable pub release : Bool → Hud F → Hud F × Bool
  release editable h =
      if h.dragging && not editable then (record h { dragging = false }, true) else (h, false)

  unfoldable pub is_drawn : Frame F → Plugin → Bool
  is_drawn frame p =
      p.recording || p.uploading || frame.shown || not (is_empty p.last_url) || p.menu_open

  -- The bar's state, its place where it is drawn, and whether the settings are saved.
  unfoldable pub render_hud : Frame F → Plugin → Hud F → Hud F × Option (Point F) × Bool
  unfolding grab drag release is_drawn
  render_hud frame p h =
      let editable = p.menu_open && not (is_raised p.prompt) in
      let r = release editable h in
      let current = hud_position f r.0.ui frame.size frame.display in
      let d = drag frame editable current (grab frame editable current r.0) in
      if not (is_drawn frame p) || not frame.visible
      then (r.0, none, r.1)
      else (d.0, some d.1, r.1 || d.2)

  -- The opacity of the window, by the time since the last frame.
  unfoldable pub window_alpha : Bool → F → F → F
  window_alpha open_menu delta alpha =
      let moved =
        f.add alpha
          (f.div (if open_menu then delta else f.sub (number f 0) delta) (f.fraction 1 2)) in
      if f.lt moved (number f 0)
      then number f 0
      else if f.lt (number f 1) moved
      then number f 1
      else moved

  -- The page changes after 0.15 seconds and is there after 0.45.
  unfoldable pub turn_page : F → Paging F → Paging F
  turn_page elapsed g =
      let faded = record g { alpha = f.sub (number f 1) (f.div elapsed (f.fraction 15 100)) } in
      let grown = f.div (f.sub elapsed (f.fraction 15 100)) (f.fraction 3 10) in
      let turned = record g {
        page = g.next_page;
        alpha = if f.lt grown (number f 1) then grown else number f 1;
        transition = f.lt elapsed (f.fraction 45 100);
      } in
      if not g.transition then g else if f.lt elapsed (f.fraction 15 100) then faded else turned
