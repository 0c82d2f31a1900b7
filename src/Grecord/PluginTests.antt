-- ===== src/Grecord/PluginTests.antt =====
-- The theorems about the plugin at concrete inputs.
use gambit_record.Common.{
  ◌+◌, ◌≤◌, true, false, [], ◌∷◌, Option, none, some, length, if◌then◌else◌, Text, same_text, ◌≢◌,
  refl, inr, pos,
}
use gambit_record.Grecord.Logic.{logic}
use gambit_record.Grecord.Plugin.{Plugin, Status, no_prompt, recording_page, incoming_rpc_hook}
use gambit_record.Grecord.Plugin.Packets.{incoming_rpc_hook-some}
use gambit_record.Grecord.Plugin.Announce.{Round, run, run-announces}

abbrev plugin : Plugin
plugin = record {
  menu_open = false;
  reload_settings = true;
  recording = false;
  worker_online = false;
  capture_ready = false;
  start_pending = true;
  upload_percent = 0;
  uploading = false;
  server_commands = [];
  logic = logic (65 ∷ []);
  notice = [];
  last_url = [];
  record_started = none;
  prompt = no_prompt;
  dismiss_prompt = false;
  page = recording_page;
  offline_polls = 0;
  announced_upload_url = [];
}

-- The name of player 3.
abbrev packet : Option Text
packet = some (20 ∷ 11 ∷ 0x12 ∷ 0x00 ∷ 0x03 ∷ 0x00 ∷ 0x01 ∷ 0x41 ∷ [])

incoming_rpc_hook-some_example : incoming_rpc_hook (λ t. t) (λ n. []) 5 packet plugin ≢ none
incoming_rpc_hook-some_example = incoming_rpc_hook-some (λ t. t) (λ n. []) 5 packet plugin

abbrev uploaded : Status
uploaded = record {
  success = true;
  capture = true;
  recording = false;
  upload_in_progress = false;
  percent = 100;
  last_success = true;
  last_url = 104 ∷ [];
  last_target_name = [];
  last_target_id = pos 3;
}

abbrev one_round : Round
one_round = record {
  time = record { year = 2025; month = 1; day = 2; hour = 3; minute = 4 };
  reply = record { success = true; error = none; upload_queued = false; upload_error = none };
  now = 9;
  status = uploaded;
}

run-announces_example :
    length (run (one_round ∷ one_round ∷ []) plugin).server_commands
    ≤ length plugin.server_commands
      + (if same_text (104 ∷ []) plugin.announced_upload_url then 0 else 1)
run-announces_example =
    run-announces (104 ∷ []) (one_round ∷ one_round ∷ []) plugin (inr refl, (inr refl, tt))
