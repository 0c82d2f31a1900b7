-- ===== src/Grecord/Plugin.antt =====
-- grecord/src/Plugin.cpp: what the plugin does with packets, commands, keys and the recorder's status.
-- The globals are a record. A worker's answer is what the code looks up in it; the conversion of
-- code pages, the names that the game knows and the clock are parameters.
pub mod Packets
pub mod Announce
use gambit_record.Common.{
  ℕ, suc, ◌+◌, ◌-◌, ◌≤◌, Bool, true, false, not, ◌&&◌, ◌||◌, List, [], ◌∷◌, ◌++◌, Option, none,
  some, ltb, leb, ◌==◌, if◌then◌else◌, ℤ, pos, negsuc, Text, literal, decimal, is_empty, same_text,
}
use gambit_record.Grecord.BitReader.{
  BitReader, reader, Outcome, done, refused, fault, RpcPayload, read, read_string,
  extract_rpc_payload,
}
use gambit_record.Grecord.Logic.{
  Logic, Action, idle, open_settings, start_recording, stop_and_upload, stop_local,
  show_start_prompt, show_finish_prompt, show_missing_evidence, on_command, on_server_message,
  on_spectating_player, on_player_name, clear_spectating, upload_announcement,
}

pub data Prompt : Type 0 where
  no_prompt start_prompt finish_prompt missing_prompt : Prompt

pub data Page : Type 0 where
  recording_page uploads_page settings_page about_page : Page

pub record Plugin : Type 0 where
  pub menu_open : Bool
  pub reload_settings : Bool
  pub recording : Bool
  pub worker_online : Bool
  pub capture_ready : Bool
  pub start_pending : Bool
  pub upload_percent : ℕ
  pub uploading : Bool
  pub server_commands : List Text
  pub logic : Logic
  pub notice : Text
  pub last_url : Text
  pub record_started : Option ℕ
  pub prompt : Prompt
  pub dismiss_prompt : Bool
  pub page : Page
  pub offline_polls : ℕ
  pub announced_upload_url : Text

-- `value` with a default, in a worker's answer.
pub record Reply : Type 0 where
  pub success : Bool
  pub error : Option Text
  pub upload_queued : Bool
  pub upload_error : Option Text

abbrev or : Text → Option Text → Text
or fallback none = fallback
or fallback (some t) = t

friendly_error : Text → Text
unfolding literal
friendly_error e =
    if same_text e (literal "WORKER_OFFLINE")
    then literal "модуль записи запускается"
    else if same_text e (literal "CAPTURE_NOT_READY")
    then literal "захват игры ещё запускается"
    else if same_text e (literal "YOUTUBE_DISABLED")
    then literal "загрузка на YouTube отключена"
    else if same_text e (literal "YOUTUBE_NOT_CONFIGURED")
    then literal "эта сборка не настроена для YouTube"
    else if is_empty e
    then literal "неизвестная ошибка"
    else e

unfoldable pub start_failed : Text → Plugin → Plugin
unfolding literal friendly_error
start_failed e p =
    let told = record p { notice = literal "Не удалось начать запись: " ++ friendly_error e } in
    if same_text e (literal "WORKER_OFFLINE")
    then record told { worker_online = false; start_pending = true }
    else if same_text e (literal "CAPTURE_NOT_READY")
    then record told { start_pending = true }
    else record told { start_pending = false }

-- No request is under way when it starts.
unfoldable pub start_recording_now : Reply → ℕ → Plugin → Plugin
unfolding literal start_failed
start_recording_now reply now p =
    if reply.success
    then record p {
      start_pending = false;
      record_started = some now;
      recording = true;
      notice = literal "Запись начата";
    }
    else start_failed (or (literal "unknown") reply.error) p

unfoldable pub begin_recording : Reply → ℕ → Plugin → Plugin
unfolding literal
begin_recording reply now p =
    if not p.worker_online || not p.capture_ready
    then record p {
      start_pending = true;
      notice = literal "Запись начнётся автоматически, когда захват игры будет готов";
    }
    else start_recording_now reply now p

unfoldable pub stop_recording : Reply → Bool → Plugin → Plugin
unfolding literal friendly_error
stop_recording reply upload p =
    if not reply.success
    then record p {
      notice =
          literal "Не удалось завершить запись: "
          ++ friendly_error (or (literal "unknown") reply.error);
    }
    else if upload && reply.upload_queued
    then record p {
      recording = false;
      notice = literal "Запись завершена, загрузка поставлена в очередь";
    }
    else if upload
    then record p {
      recording = false;
      notice =
          literal "Запись сохранена локально: "
          ++ friendly_error (or (literal "YOUTUBE_NOT_CONFIGURED") reply.upload_error);
    }
    else record p { recording = false; notice = literal "Запись сохранена локально" }

unfoldable pub apply_action : Reply → ℕ → Action → Plugin → Plugin
apply_action reply now open_settings p = record p {
  menu_open = not p.menu_open;
  reload_settings = if p.menu_open then p.reload_settings else true;
}
apply_action reply now start_recording p = begin_recording reply now p
apply_action reply now stop_local p = stop_recording reply false p
apply_action reply now show_start_prompt p = record p { prompt = start_prompt }
apply_action reply now show_finish_prompt p = record p { prompt = finish_prompt }
apply_action reply now show_missing_evidence p = record p { prompt = missing_prompt }
apply_action reply now stop_and_upload p = p
apply_action reply now idle p = p

-- The prompt that an action of the logic raises.
unfoldable pub prompt_of : Action → Prompt → Prompt
prompt_of show_start_prompt old = start_prompt
prompt_of show_finish_prompt old = finish_prompt
prompt_of show_missing_evidence old = missing_prompt
prompt_of _ old = old

decided : Plugin → Logic × Action → Plugin
unfolding prompt_of
decided p d = record p { logic = d.0; prompt = prompt_of d.1 p.prompt }

-- What a handler of a packet leaves: nothing where it reads out of bounds, and the plugin as it was
-- where a read fails.
unfoldable pub and_then {ℓ} :
    {A : Type ℓ} → Outcome A → Plugin → (A → BitReader → Option Plugin) → Option Plugin
and_then (done a r) p k = k a r
and_then (refused r) p k = some p
and_then fault p k = none

unfoldable pub player_joined : (Text → Text) → Text → Plugin → Option Plugin
player_joined utf8 bytes p = and_then (read 2 (reader bytes)) p (λ player r.
    and_then (read 1 r) p (λ size r.
      and_then (read_string size r) p
        (λ name r. some (record p { logic = on_player_name (pos player) (utf8 name) p.logic }))))

-- A length with the sign bit is negative.
unfoldable pub server_message : (Text → Text) → ℕ → Text → Plugin → Option Plugin
unfolding decided
server_message utf8 now bytes p = and_then (read 4 (reader bytes)) p (λ color r.
    and_then (read 4 r) p (λ size r.
      if ltb 4096 size
      then some p
      else and_then (read_string size r) p
          (λ text r. some (decided p (on_server_message (utf8 text) p.recording now p.logic)))))

unfoldable pub spectating : (ℕ → Text) → Text → Plugin → Option Plugin
unfolding decided
spectating player_name bytes p = and_then (read 2 (reader bytes)) p (λ player r.
    and_then (read 1 r) p (λ camera r.
      let nickname = player_name player in
      let named =
        if is_empty nickname then p.logic else on_player_name (pos player) nickname p.logic in
      some (decided p (on_spectating_player (pos player) p.recording named))))

unfoldable pub process_rpc : (Text → Text) → (ℕ → Text) → ℕ → RpcPayload → Plugin → Option Plugin
process_rpc utf8 player_name now rpc p =
    if rpc.id == 11
    then player_joined utf8 rpc.bytes p
    else if rpc.id == 93
    then server_message utf8 now rpc.bytes p
    else if rpc.id == 126
    then spectating player_name rpc.bytes p
    else if rpc.id == 78
    then some (record p { logic = clear_spectating p.logic })
    else some p

unfoldable pub incoming_rpc_hook :
    (Text → Text) → (ℕ → Text) → ℕ → Option Text → Plugin → Option Plugin
incoming_rpc_hook utf8 player_name now packet p =
    and_then (extract_rpc_payload packet) p (λ rpc r. process_rpc utf8 player_name now rpc p)

first_part : Text → Text
first_part [] = []
first_part (c ∷ s) = if c == 0x20 then [] else c ∷ first_part s

-- What `send_command_hook` leaves, and whether the command goes on to the server.
unfoldable pub send_command_hook : Reply → ℕ → Text → Plugin → Plugin × Bool
unfolding literal first_part
send_command_hook reply now command p =
    let word = first_part command in
    let settings = same_text word (literal "/esettings") in
    let status = same_text word (literal "/estatus") in
    let local =
      same_text word (literal "/grecord")
      || same_text word (literal "/estart")
      || same_text word (literal "/estop")
      || status
      || settings in
    let d = on_command command p.recording now p.logic in
    let acted = apply_action reply now d.1 (record p { logic = d.0 }) in
    let paged = if settings then record acted { page = settings_page } else acted in
    (
      if status
          then record paged {
            notice = if paged.recording then literal "REC: включена" else literal "REC: выключена";
          }
          else paged,
      not local,
    )

abbrev is_prompt : Prompt → Bool
is_prompt no_prompt = false
is_prompt _ = true

-- The Escape key on an open window: handled, and what it closes.
unfoldable pub escape_key : Plugin → Plugin × Bool
escape_key p =
    if not (p.menu_open || is_prompt p.prompt)
    then (p, false)
    else if is_prompt p.prompt
    then (record p { dismiss_prompt = true }, true)
    else (record p { menu_open = false }, true)

-- The fields of the answer to `status`.
pub record Status : Type 0 where
  pub success : Bool
  pub capture : Bool
  pub recording : Bool
  pub upload_in_progress : Bool
  pub percent : ℕ
  pub last_success : Bool
  pub last_url : Text
  pub last_target_name : Text
  pub last_target_id : ℤ

pub record LocalTime : Type 0 where
  pub year : ℕ
  pub month : ℕ
  pub day : ℕ
  pub hour : ℕ
  pub minute : ℕ

target_label : Status → Text
unfolding literal
target_label s =
    if is_empty s.last_target_name
    then elim s.last_target_id [ pos n ↦ literal "ID " ++ decimal n | negsuc n ↦ [] ]
    else s.last_target_name

-- The command is kept as UTF-8 here; the source converts it to the server's code page.
unfoldable pub queue_upload_announcement : LocalTime → Status → Plugin → Plugin
unfolding target_label
queue_upload_announcement t s p = record p {
  server_commands =
      p.server_commands
      ++ upload_announcement (target_label s) t.day t.month t.year t.hour t.minute ∷ [];
}

-- The oldest command goes to the server, once there is someone to send it to.
unfoldable pub dispatch_server_command : Bool → Plugin → Plugin × Option Text
dispatch_server_command ready p = elim p.server_commands [
  | [] ↦ (p, none)
  | command ∷ rest ↦
      if ready then (record p { server_commands = rest }, some command) else (p, none)
]

unfoldable pub updated : Status → Plugin → Plugin
updated s p = record p {
  offline_polls = 0;
  worker_online = true;
  capture_ready = s.capture;
  recording = s.recording;
  uploading = s.upload_in_progress;
  upload_percent = s.percent;
  last_url = if s.last_success then s.last_url else p.last_url;
}

unfoldable pub announce : LocalTime → Status → Plugin → Plugin
announce t s p =
    let url = if s.last_success then s.last_url else [] in
    if not (is_empty url) && not (same_text url p.announced_upload_url)
    then record (queue_upload_announcement t s p) { announced_upload_url = url }
    else p

unfoldable pub start_if_pending : Reply → ℕ → Plugin → Plugin
start_if_pending reply now p =
    if p.start_pending && p.capture_ready && not p.recording
    then start_recording_now reply now p
    else p

-- One round of `status_loop`: a fourth failure in a row launches the worker, which is the answer.
unfoldable pub status_round : LocalTime → Reply → ℕ → Status → Plugin → Plugin × Bool
unfolding updated
status_round t reply now s p =
    if s.success
    then (start_if_pending reply now (announce t s (updated s p)), false)
    else let offline = record p { worker_online = false; capture_ready = false } in
      if leb 4 (p.offline_polls + 1)
      then (record offline { offline_polls = 0 }, true)
      else (record offline { offline_polls = p.offline_polls + 1 }, false)
