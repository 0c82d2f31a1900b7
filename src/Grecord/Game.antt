-- ===== src/Grecord/Game.antt =====
-- grecord/src/Plugin.cpp: the versions of the game's client, the server, the start of the plugin and the
-- cursor. What stands in the game's memory is a parameter; a write to it is its address and bytes.
pub mod Cursor
use gambit_record.Common.{
  ℕ, suc, ◌+◌, ◌-◌, ◌/◌, Bool, true, false, not, ◌&&◌, ◌||◌, List, [], ◌∷◌, ◌++◌, Option, none,
  some, ltb, leb, ◌==◌, if◌then◌else◌, Text, literal, decimal, is_empty, same_text, starts_with,
}
use gambit_record.Recorder.Media.{EvidenceMetadata}
use gambit_record.Grecord.Logic.{Logic, set_admin}
use gambit_record.Grecord.Plugin.{Plugin}

pub data SampVersion : Type 0 where
  unknown r1 r3 r5 dl : SampVersion

-- By the address of the entry point of the client's module, which is not there at first.
unfoldable pub detect_version : Option ℕ → SampVersion
detect_version none = unknown
detect_version (some entry) =
    if entry == 0x31df13
    then r1
    else if entry == 0xcc4d0
    then r3
    else if entry == 0xcbc90
    then r5
    else if entry == 0xfdb60
    then dl
    else unknown

-- The tables of the addresses inside the client.
pub record Offsets : Type 0 where
  pub send_command : ℕ
  pub incoming_rpc : ℕ
  pub net_game : ℕ
  pub host : ℕ
  pub get_pool : ℕ
  pub get_nickname : ℕ
  pub own_name : ℕ

unfoldable pub offsets : SampVersion → Option Offsets
offsets unknown = none
offsets r1 = some (record {
  send_command = 0x65c60;
  incoming_rpc = 0x372f0;
  net_game = 0x21a0f8;
  host = 0x20;
  get_pool = 0x1160;
  get_nickname = 0x13ce0;
  own_name = 0xa;
})
offsets r3 = some (record {
  send_command = 0x69190;
  incoming_rpc = 0x3a6a0;
  net_game = 0x26e8dc;
  host = 0x30;
  get_pool = 0x1160;
  get_nickname = 0x16f00;
  own_name = 0x2f22;
})
offsets r5 = some (record {
  send_command = 0x69900;
  incoming_rpc = 0x3ade0;
  net_game = 0x26eb94;
  host = 0x30;
  get_pool = 0x1170;
  get_nickname = 0x175c0;
  own_name = 0xa;
})
offsets dl = some (record {
  send_command = 0x69340;
  incoming_rpc = 0x3a8a0;
  net_game = 0x2aca24;
  host = 0x30;
  get_pool = 0x1170;
  get_nickname = 0x170d0;
  own_name = 0x6;
})

-- `std::tolower` of the C locale.
abbrev pub to_lower : Text → Text
to_lower [] = []
to_lower (c ∷ s) = (if leb 65 c && leb c 90 then c + 32 else c) ∷ to_lower s

abbrev pub has_part : Text → Text → Bool
has_part [] part = is_empty part
has_part (c ∷ s) part = starts_with (c ∷ s) part || has_part s part

unfoldable pub on_gambit_server : Text → Bool
unfolding literal
on_gambit_server host =
    not (is_empty host)
    && (has_part (to_lower host) (literal "gambit") || same_text host (literal "85.234.65.36"))

-- The seconds from the start of the recording, of times in 100 ns; a clock that was set back counts as
-- none.
unfoldable pub elapsed_period : ℕ → Option ℕ → Text
unfolding literal
elapsed_period now none = []
elapsed_period now (some started) = decimal ((now - started) / 10000000) ++ literal " seconds"

unfoldable pub metadata : Text → ℕ → Text → Plugin → EvidenceMetadata
unfolding literal elapsed_period
metadata admin now stamp p = record {
  admin = admin;
  target_id = p.logic.target_id;
  target_name = p.logic.target_name;
  server = literal "Gambit Role Play";
  timestamp = stamp;
  punishment_command = p.logic.confirmed_command;
  punishment_reason = p.logic.confirmed_reason;
  recording_period = elapsed_period now p.record_started;
}

-- What `initialize` meets: whether the plugin still runs behind each of its waits, the entry point, the
-- host and the player's own name, and whether the hooks can be set.
pub record Start : Type 0 where
  pub client_waits : Bool
  pub entry : Option ℕ
  pub game_waits : Bool
  pub host : Text
  pub own_name : Text
  pub minhook : Bool
  pub hooks : Bool
  pub device_waits : Bool

-- How far it comes. Behind `served` the recorder has been launched.
pub data Started : Type 0 where
  stopped unsupported elsewhere served running : Started

unfoldable pub greeted : Text → Plugin → Plugin
greeted name p = record p { logic = set_admin name p.logic }

unfoldable pub served_from : Start → Plugin → Plugin × Started
served_from s p =
    if not s.minhook || not s.hooks
    then (p, served)
    else if not s.device_waits
    then (p, served)
    else (p, running)

abbrev pub is_known : SampVersion → Bool
is_known unknown = false
is_known _ = true

unfoldable pub initialize : Start → Plugin → Plugin × Started
unfolding literal detect_version on_gambit_server served_from greeted
initialize s p =
    if not s.client_waits
    then (p, stopped)
    else if not (is_known (detect_version s.entry))
    then (record p { notice = literal "Неподдерживаемая версия SA-MP/open.mp" }, unsupported)
    else if not s.game_waits
    then (p, stopped)
    else if not (on_gambit_server s.host)
    then (record p { notice = literal "Gambit Record работает только на Gambit-RP" }, elsewhere)
    else served_from s (greeted s.own_name p)

abbrev pub Write : Type 0
Write = ℕ × Text

-- The game's memory, by the address of a byte.
abbrev pub Memory : Type 0
Memory = ℕ → ℕ

abbrev pub put : ℕ → Text → Memory → Memory
put address [] m = m
put address (b ∷ bytes) m = put (suc address) bytes (λ a. if a == address then b else m a)

-- Where VirtualProtect does not make the bytes writable, they stay.
unfoldable pub write_memory : (ℕ → Bool) → Write → Memory → Memory
write_memory writable w m = if writable w.0 then put w.0 w.1 m else m

unfoldable pub write_all : (ℕ → Bool) → List Write → Memory → Memory
unfolding write_memory
write_all writable [] m = m
write_all writable (w ∷ rest) m = write_all writable rest (write_memory writable w m)

abbrev pub zeros : Text
zeros = 0 ∷ 0 ∷ 0 ∷ 0 ∷ 0 ∷ 0 ∷ 0 ∷ 0 ∷ []

-- The patches of the game's code, and the two fields of the mouse.
unfoldable pub set_game_cursor : Bool → List Write
set_game_cursor enabled =
    (
      0x53f417,
      if enabled
          then 0x90 ∷ 0x90 ∷ 0x90 ∷ 0x90 ∷ 0x90 ∷ []
          else 0xe8 ∷ 0xb4 ∷ 0x7a ∷ 0x20 ∷ 0x00 ∷ [],
    )
    ∷ (0x53f41f, if enabled then 0x33 ∷ 0xc0 ∷ 0x0f ∷ 0x84 ∷ [] else 0x85 ∷ 0xc0 ∷ 0x0f ∷ 0x8c ∷ [])
    ∷ (0x6194a0, if enabled then 0xc3 ∷ [] else 0xe9 ∷ [])
    ∷ (0xb73424, zeros)
    ∷ (0xb7342c, zeros)
    ∷ []

-- The new owner of the cursor, and what is written: again in each frame while the window is open, and
-- once when it closes.
unfoldable pub update_cursor : Bool → Bool → Bool × List Write
unfolding set_game_cursor
update_cursor owned interactive = (
  interactive,
  if interactive then set_game_cursor true else if owned then set_game_cursor false else [],
)

pub data Reason : Type 0 where
  process_attach process_detach other_reason : Reason

-- What `DllMain` writes when the plugin is unloaded.
unfoldable pub dll_main : Reason → Bool → List Write
unfolding set_game_cursor
dll_main process_attach owned = []
dll_main process_detach owned = if owned then set_game_cursor false else []
dll_main other_reason owned = []
