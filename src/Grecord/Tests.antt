-- ===== src/Grecord/Tests.antt =====
-- The theorems about grecord/ at concrete inputs.
use gambit_record.Common.{
  ◌+◌, ◌≤◌, true, false, ◌≡◌, ◌≢◌, refl, inl, List, [], ◌∷◌, ◌++◌, Option, some, take, drop, Text,
  arith, pos, negsuc,
}
use gambit_record.Grecord.BitReader.{BitReader, done, read_bits}
use gambit_record.Grecord.BitReader.Bits.{to_bits}
use gambit_record.Grecord.BitReader.Stream.{read_bits-copies}
use gambit_record.Grecord.Logic.{
  Logic, Punishment, logic, punishment_reason, find_name, put_name, on_spectating_player,
  on_player_name,
}
use gambit_record.Grecord.Logic.Reason.{spaces, punishment_reason_tail}
use gambit_record.Grecord.Logic.Session.{
  Event, command, message, spectate, name_of, step, run, IsSourced, run-IsSourced, start_prompts,
  resets, start_prompts-le-resets,
}
use gambit_record.Grecord.Logic.Target.{label, run-IsLabelled}

-- A reader that stands behind the third bit of three bytes.
abbrev bytes_read : BitReader
bytes_read = record { bytes = 0xa7 ∷ 0x1c ∷ 0xff ∷ []; bits = 24; offset = 3 }

read_bits-copies_example :
    (out : Text) × (read_bits 11 false bytes_read ≡ done out (record bytes_read { offset = 14 }))
    × (take 11 (to_bits out) ≡ take 11 (drop 3 (to_bits bytes_read.bytes)))
read_bits-copies_example =
    read_bits-copies 11 false bytes_read (record { whole = refl; within = omega arith })
      (omega arith, (omega arith, (omega arith, tt))) (omega arith) (omega arith) (inl refl)

abbrev rpc_packet : Option Text
rpc_packet = some (20 ∷ 93 ∷ 0x48 ∷ 0x41 ∷ 0x42 ∷ [])

-- /ban 17 30 aim bot
punishment_reason_tail_example :
    punishment_reason (
      (0x2f ∷ 0x62 ∷ [])
      ++ spaces 1 (
          0x31
          ∷ ((0x37 ∷ [])
              ++ spaces 2 (0x33 ∷ ((0x30 ∷ []) ++ spaces 1 (0x61 ∷ (0x20 ∷ 0x62 ∷ [])))))))
    ≡ 0x61 ∷ 0x20 ∷ 0x62 ∷ []
punishment_reason_tail_example =
    punishment_reason_tail (0x2f ∷ 0x62 ∷ []) (0x37 ∷ []) (0x30 ∷ []) (0x20 ∷ 0x62 ∷ []) 0x31 0x33
      0x61 0 1 0 (ground arith, (ground arith, tt)) (ground arith) (ground arith, tt) (ground arith)
      (ground arith, tt) (ground arith)

abbrev admin : Text
admin = 0x41 ∷ 0x6c ∷ []

abbrev ban : Punishment
ban = record { command = 0x2f ∷ 0x62 ∷ []; reason = 0x61 ∷ []; sent_at = 1000 }

abbrev waiting : Logic
waiting = record {
  admin = admin;
  player_names = [];
  pending = some ban;
  target_id = pos 3;
  target_name = 0x54 ∷ [];
  confirmed_command = [];
  confirmed_reason = [];
  spectate_prompt_shown = true;
}

abbrev server_text : Text
server_text = 0x78 ∷ 0x20 ∷ []

abbrev history : List Event
history =
    spectate (pos 3) false
    ∷ name_of (pos 3) (0x54 ∷ [])
    ∷ command ban.command true 1000
    ∷ message server_text true 5000
    ∷ []

run-IsSourced_example : IsSourced (run history (logic admin))
run-IsSourced_example = run-IsSourced admin history

abbrev sent : List Event
sent = command ban.command true 1000 ∷ []

start_prompts-le-resets_example : start_prompts history (logic admin) ≤ 1 + resets history
start_prompts-le-resets_example = start_prompts-le-resets history (logic admin)

abbrev watched : List Event
watched = spectate (pos 3) false ∷ name_of (pos 3) (0x54 ∷ []) ∷ []

watched_target : (run watched (logic admin)).target_id ≢ negsuc 0
unfolding run logic step on_spectating_player on_player_name find_name put_name
watched_target = ground arith

run-IsLabelled_example :
    (run watched (logic admin)).target_name
    ≡ label (run watched (logic admin)).target_id (run watched (logic admin)).player_names
run-IsLabelled_example = run-IsLabelled admin watched watched_target
