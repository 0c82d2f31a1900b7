-- ===== src/Grecord/Logic/Session.antt =====
-- Histories of the plugin's `Logic` (grecord/src/Logic.cpp).
use gambit_record.Common.{
  ℕ, ◌+◌, ◌-◌, ◌≤◌, refl, ◌≡◌, ◌⊎◌, inr, List, [], ◌∷◌, Option, none, some, Bool, true, false,
  arith, Text, ℤ, if◌then◌else◌, subst,
}
use gambit_record.Grecord.Logic.{
  Logic, Punishment, Action, idle, show_start_prompt, show_finish_prompt, show_missing_evidence,
  logic, on_command, on_server_message, on_spectating_player, on_player_name, clear_spectating,
  reset_session, confirms_punishment, is_punishment_command, punishment_reason, confirm_window,
}

-- What the hooks of the plugin pass on.
pub data Event : Type 0 where
  command : Text → Bool → ℕ → Event
  message : Text → Bool → ℕ → Event
  spectate : ℤ → Bool → Event
  name_of : ℤ → Text → Event
  stop_spectating : Event
  reset : Event

unfoldable pub step : Event → Logic → Logic × Action
step (command text recording now) l = on_command text recording now l
step (message text recording now) l = on_server_message text recording now l
step (spectate id recording) l = on_spectating_player id recording l
step (name_of id name) l = (on_player_name id name l, idle)
step stop_spectating l = (clear_spectating l, idle)
step reset l = (reset_session l, idle)

unfoldable pub run : List Event → Logic → Logic
run [] l = l
run (e ∷ es) l = run es (step e l).0

-- Where the metadata of an upload comes from: a command with its reason, or both empty.
abbrev pub IsPunished : Text → Text → Type 0
IsPunished text reason = (is_punishment_command text ≡ true) × (reason ≡ punishment_reason text)

abbrev pub PendingSourced : Option Punishment → Type 0
PendingSourced none = Unit
PendingSourced (some p) = IsPunished p.command p.reason

pub record IsSourced (l : Logic) : Type 0 where
  pub pending_sourced : PendingSourced l.pending
  pub confirmed_sourced :
      IsPunished l.confirmed_command l.confirmed_reason
      ⊎ ((l.confirmed_command ≡ []) × (l.confirmed_reason ≡ []))

on_server_message-IsSourced :
    (text : Text) (recording : Bool) (now : ℕ) (l : Logic) (p : Option Punishment)
    → l.pending ≡ p
    → IsSourced l
    → IsSourced (on_server_message text recording now l).0
unfolding on_server_message
on_server_message-IsSourced text recording now l none e s = ground arith
on_server_message-IsSourced text recording now l (some p) e s =
    let sourced : IsPunished p.command p.reason = subst PendingSourced e s.pending_sourced in
    ground arith

step-IsSourced : (e : Event) (l : Logic) → IsSourced l → IsSourced (step e l).0
unfolding step on_command on_spectating_player on_player_name clear_spectating reset_session
step-IsSourced (command text recording now) l s = ground arith
step-IsSourced (message text recording now) l s =
    on_server_message-IsSourced text recording now l l.pending refl s
step-IsSourced (spectate id recording) l s = ground arith
step-IsSourced (name_of id name) l s = ground arith
step-IsSourced stop_spectating l s = ground arith
step-IsSourced reset l s = ground arith

run-IsSourced_from : (es : List Event) (l : Logic) → IsSourced l → IsSourced (run es l)
unfolding run
run-IsSourced_from [] l s = s
run-IsSourced_from (e ∷ es) l s = run-IsSourced_from es (step e l).0 (step-IsSourced e l s)

-- After any history, a pending command is a punishment command held with its own reason, and the
-- confirmed command is one too, with its own reason, or both texts are empty.
pub run-IsSourced : (admin : Text) (es : List Event) → IsSourced (run es (logic admin))
unfolding logic
run-IsSourced admin es =
    run-IsSourced_from es (logic admin)
      (record { pending_sourced = tt; confirmed_sourced = inr (refl, refl) })

-- How often a history raises the prompt to start recording, and how often it resets the session.
abbrev pub counts_start : Action → ℕ
counts_start show_start_prompt = 1
counts_start _ = 0

unfoldable pub start_prompts : List Event → Logic → ℕ
start_prompts [] l = 0
start_prompts (e ∷ es) l = counts_start (step e l).1 + start_prompts es (step e l).0

abbrev pub counts_reset : Event → ℕ
counts_reset reset = 1
counts_reset _ = 0

pub resets : List Event → ℕ
resets [] = 0
resets (e ∷ es) = counts_reset e + resets es

abbrev shown : Bool → ℕ
shown true = 1
shown false = 0

step-shown :
    (e : Event) (l : Logic)
    → counts_start (step e l).1 + shown l.spectate_prompt_shown
      ≤ counts_reset e + shown (step e l).0.spectate_prompt_shown
unfolding step on_command on_server_message on_spectating_player on_player_name clear_spectating
    reset_session
step-shown (command text recording now) l = ground arith
step-shown e l = ground arith

start_prompts-le-shown :
    (es : List Event) (l : Logic)
    → start_prompts es l + shown l.spectate_prompt_shown ≤ 1 + resets es
unfolding start_prompts resets
start_prompts-le-shown [] l = ground arith
start_prompts-le-shown (e ∷ es) l =
    omega (arith, step-shown e l, start_prompts-le-shown es (step e l).0)

-- The prompt to start recording is raised at most once in a session: over any history, at most
-- once more than the session is reset.
pub start_prompts-le-resets : (es : List Event) (l : Logic) → start_prompts es l ≤ 1 + resets es
start_prompts-le-resets es l = omega (arith, start_prompts-le-shown es l)

-- How often a history raises a prompt about a punishment, and how often a punishment is sent.
abbrev pub counts_punishment : Action → ℕ
counts_punishment show_finish_prompt = 1
counts_punishment show_missing_evidence = 1
counts_punishment _ = 0

unfoldable pub punishment_prompts : List Event → Logic → ℕ
punishment_prompts [] l = 0
punishment_prompts (e ∷ es) l = counts_punishment (step e l).1 + punishment_prompts es (step e l).0

abbrev pub sends_punishment : Event → ℕ
sends_punishment (command text recording now) = if is_punishment_command text then 1 else 0
sends_punishment _ = 0

pub punishments : List Event → ℕ
punishments [] = 0
punishments (e ∷ es) = sends_punishment e + punishments es

abbrev waits : Option Punishment → ℕ
waits none = 0
waits (some p) = 1

-- Behind a message, what is pending is young enough to be confirmed, and a prompt was raised only for
-- a pending command that is young enough and that the message confirms.
abbrev pub IsFresh : ℕ → Option Punishment → Type 0
IsFresh now none = Unit
IsFresh now (some p) = now - p.sent_at ≤ confirm_window

abbrev pub Confirms : Text → Text → ℕ → Option Punishment → Type 0
Confirms text admin now none = ⊥
Confirms text admin now (some p) =
    (now - p.sent_at ≤ confirm_window) × (confirms_punishment text admin ≡ true)
