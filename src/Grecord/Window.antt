-- ===== src/Grecord/Window.antt =====
-- grecord/src/Plugin.cpp: the window procedure, the prompt and the settings page. Where a button was
-- pressed and what was chosen is a parameter; the drawing is not modelled.
pub mod Saving
use gambit_record.Common.{
  ℕ, Bool, true, false, not, ◌&&◌, ◌||◌, List, [], ◌∷◌, ◌++◌, Option, none, some, ◌==◌, leb,
  if◌then◌else◌, ℤ, pos, Text, literal,
}
use gambit_record.Recorder.Application.Requests.{Scalar, flag, number}
use gambit_record.Recorder.Application.Dispatch.{StatusReply}
use gambit_record.Grecord.Plugin.{
  Plugin, Prompt, no_prompt, start_prompt, finish_prompt, missing_prompt, Reply, begin_recording,
  stop_recording, escape_key,
}

abbrev is_open : Prompt → Bool
is_open no_prompt = false
is_open _ = true

-- The messages that the procedure tells apart; WM_MOUSEFIRST to WM_MOUSELAST are `mouse`.
pub data Message : Type 0 where
  key_down : Bool → Message
  input mouse key_up sys_key_down sys_key_up char other_message : Message

abbrev pub is_escape : Message → Bool
is_escape (key_down escape) = escape
is_escape _ = false

-- The messages that an open window keeps from the game.
unfoldable pub is_kept : Message → Bool
is_kept other_message = false
is_kept _ = true

-- Whether the game's own procedure is not called; `handled` is what ImGui answers.
unfoldable pub wndproc : Bool → Message → Plugin → Plugin × Bool
unfolding is_kept
wndproc handled message p =
    if not (p.menu_open || is_open p.prompt)
    then (p, false)
    else if is_escape message
    then escape_key p
    else (p, handled || is_kept message)

-- The buttons of the three prompts.
pub data Button : Type 0 where
  start_button not_now_button upload_button local_button continue_button understood_button : Button

abbrev pub closed : Plugin → Plugin
closed p = record p { prompt = no_prompt }

unfoldable pub press : Reply → ℕ → Prompt → Button → Plugin → Plugin
press reply now start_prompt start_button p = closed (begin_recording reply now p)
press reply now start_prompt not_now_button p = closed p
press reply now finish_prompt upload_button p = closed (stop_recording reply true p)
press reply now finish_prompt local_button p = closed (stop_recording reply false p)
press reply now finish_prompt continue_button p = closed p
press reply now missing_prompt understood_button p = closed p
press reply now _ button p = p

abbrev pub press_if : Reply → ℕ → Prompt → Option Button → Plugin → Plugin
press_if reply now raised none p = p
press_if reply now raised (some button) p = press reply now raised button p

-- One drawing of the prompt: a dismissal closes it and goes before the buttons.
unfoldable pub render_prompt : Reply → ℕ → Option Button → Plugin → Plugin
unfolding press
render_prompt reply now button p =
    if not (is_open p.prompt)
    then p
    else if p.dismiss_prompt
    then record p { dismiss_prompt = false; prompt = no_prompt }
    else press_if reply now p.prompt button p

-- The static variables of the settings page.
pub record Form : Type 0 where
  pub youtube : Bool
  pub audio_source : ℕ
  pub archive : ℕ
  pub dirty : Bool

-- What the page looks up in the last status, each perhaps missing.
pub record PageStatus : Type 0 where
  pub youtube_enabled : Option Bool
  pub audio_enabled : Option Bool
  pub microphone_enabled : Option Bool
  pub archive_limit_gb : Option ℕ

-- The status of the recorder has no limit of the archive.
unfoldable pub page_status : StatusReply → PageStatus
page_status s = record {
  youtube_enabled = some s.switches.youtube_enabled;
  audio_enabled = some s.switches.audio_enabled;
  microphone_enabled = some s.switches.microphone_enabled;
  archive_limit_gb = none;
}

abbrev pub or_else {ℓ} : {A : Type ℓ} → A → Option A → A
or_else a none = a
or_else a (some b) = b

-- The form is read again when the window has been opened.
unfoldable pub reload : PageStatus → Form
reload s = record {
  youtube = or_else true s.youtube_enabled;
  audio_source =
      if or_else false s.microphone_enabled
      then 2
      else if or_else true s.audio_enabled
      then 1
      else 0;
  archive = or_else 20 s.archive_limit_gb;
  dirty = false;
}

pub data Edit : Type 0 where
  toggle_youtube : Edit
  choose_source : ℕ → Edit
  move_archive : ℕ → Edit

unfoldable pub edit : Edit → Form → Form
edit toggle_youtube f = record f { youtube = not f.youtube; dirty = true }
edit (choose_source n) f = record f { audio_source = n; dirty = true }
edit (move_archive n) f = record f { archive = n; dirty = true }

-- The settings that are sent to the recorder.
unfoldable pub form_settings : Form → List (Text × Scalar)
unfolding literal
form_settings f =
    (literal "youtube_enabled", flag f.youtube)
    ∷ (literal "audio_enabled", flag (f.audio_source == 1))
    ∷ (literal "microphone_enabled", flag (f.audio_source == 2))
    ∷ (literal "archive_limit_gb", number (pos f.archive))
    ∷ []

-- What a saved form makes of the last status, until the next one comes.
unfoldable pub shown_status : Form → PageStatus
shown_status f = record {
  youtube_enabled = some f.youtube;
  audio_enabled = some (f.audio_source == 1);
  microphone_enabled = some (f.audio_source == 2);
  archive_limit_gb = some f.archive;
}

-- What saving leaves: the form, the last status and the notice.
unfoldable pub save_form : Reply → Form → PageStatus → Form × PageStatus × Text
unfolding literal shown_status
save_form reply f status =
    if reply.success
    then (record f { dirty = false }, shown_status f, literal "Настройки сохранены")
    else (
      f,
      status,
      literal "Не удалось сохранить настройки: " ++ or_else (literal "worker offline") reply.error,
    )
