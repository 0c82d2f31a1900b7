-- ===== src/Recorder/Application/Requests.antt =====
-- recorder/src/app/Application.cpp: what handle_command looks up in a request. A request is a JSON
-- object of members, of which the code reads texts, numbers, Booleans and the members of an object.
-- `value` of the JSON library gives the default where a member is missing and throws where it has
-- another type, which is `none` here; a number is also read from a Boolean.
use gambit_record.Common.{
  ℕ, suc, ◌-◌, ◌%◌, ◌^◌, Bool, true, false, List, [], Option, none, some, if◌then◌else◌, ℤ, pos,
  negsuc, Text, literal,
}
use gambit_record.Recorder.Media.{EvidenceMetadata, no_metadata}
use gambit_record.Recorder.Config.{Config}
use gambit_record.Recorder.Config.File.{find, ◌>>=◌}

pub data Scalar : Type 0 where
  text : Text → Scalar
  number : ℤ → Scalar
  flag : Bool → Scalar
  other : Scalar

pub data Member : Type 0 where
  scalar : Scalar → Member
  object : List (Text × Scalar) → Member

abbrev pub Request : Type 0
Request = List (Text × Member)

unfoldable pub text_or : Text → Option Scalar → Option Text
text_or fallback none = some fallback
text_or fallback (some (text t)) = some t
text_or fallback (some (number n)) = none
text_or fallback (some (flag b)) = none
text_or fallback (some other) = none

unfoldable pub flag_or : Bool → Option Scalar → Option Bool
flag_or fallback none = some fallback
flag_or fallback (some (flag b)) = some b
flag_or fallback (some (text t)) = none
flag_or fallback (some (number n)) = none
flag_or fallback (some other) = none

unfoldable pub number_or : ℤ → Option Scalar → Option ℤ
number_or fallback none = some fallback
number_or fallback (some (number n)) = some n
number_or fallback (some (flag b)) = some (if b then pos 1 else pos 0)
number_or fallback (some (text t)) = none
number_or fallback (some other) = none

-- The conversion to `std::uint32_t`.
abbrev pub to_uint32 : ℤ → ℕ
to_uint32 (pos n) = n % 2 ^ 32
to_uint32 (negsuc n) = 2 ^ 32 - suc (n % 2 ^ 32)

-- A member that is no scalar is none that the code reads as one.
abbrev pub as_scalar : Option Member → Option Scalar
as_scalar none = none
as_scalar (some (scalar s)) = some s
as_scalar (some (object members)) = some other

unfoldable pub read_metadata : List (Text × Scalar) → Option EvidenceMetadata
unfolding literal text_or number_or
read_metadata values = do
  admin ← text_or [] (find (literal "admin") values)
  target_id ← number_or (negsuc 0) (find (literal "target_id") values)
  target_name ← text_or [] (find (literal "target_name") values)
  server ← text_or [] (find (literal "server") values)
  timestamp ← text_or [] (find (literal "timestamp") values)
  punishment_command ← text_or [] (find (literal "punishment_command") values)
  punishment_reason ← text_or [] (find (literal "punishment_reason") values)
  recording_period ← text_or [] (find (literal "recording_period") values)
  some record {
    admin = admin;
    target_id = target_id;
    target_name = target_name;
    server = server;
    timestamp = timestamp;
    punishment_command = punishment_command;
    punishment_reason = punishment_reason;
    recording_period = recording_period;
  }

unfoldable pub metadata_of : Option Member → Option EvidenceMetadata
metadata_of (some (object values)) = read_metadata values
metadata_of (some (scalar s)) = some no_metadata
metadata_of none = some no_metadata

unfoldable pub parse_metadata : Request → Option EvidenceMetadata
unfolding literal metadata_of
parse_metadata request = metadata_of (find (literal "metadata") request)

-- What `settings_set` leaves of the configuration in memory: an exception keeps the assignments that
-- were made before it, the second result says whether there was none.
unfoldable pub assign {ℓ} : {A : Type ℓ} → Option A → Config → (A → Config × Bool) → Config × Bool
assign none c next = (c, false)
assign (some a) c next = next a

-- The microphone turns the sound of the game off.
unfoldable pub exclude : Config → Config
exclude c = record c {
  audio = record c.audio {
    enabled = if c.audio.microphone then false else c.audio.enabled;
    microphone =
        if c.audio.microphone then true else if c.audio.enabled then false else c.audio.microphone;
  };
}

unfoldable pub assign_limit : List (Text × Scalar) → Config → Config × Bool
unfolding literal assign number_or
assign_limit values c =
    assign (number_or (pos c.recording.archive_limit_gb) (find (literal "archive_limit_gb") values))
      c
      (λ limit.
        (record c { recording = record c.recording { archive_limit_gb = to_uint32 limit } }, true))

unfoldable pub assign_microphone : List (Text × Scalar) → Config → Config × Bool
unfolding literal assign flag_or exclude assign_limit
assign_microphone values c =
    assign (flag_or c.audio.microphone (find (literal "microphone_enabled") values)) c (λ on.
      assign_limit values (exclude (record c { audio = record c.audio { microphone = on } })))

unfoldable pub assign_audio : List (Text × Scalar) → Config → Config × Bool
unfolding literal assign flag_or assign_microphone
assign_audio values c =
    assign (flag_or c.audio.enabled (find (literal "audio_enabled") values)) c
      (λ on. assign_microphone values (record c { audio = record c.audio { enabled = on } }))

unfoldable pub assign_settings : List (Text × Scalar) → Config → Config × Bool
unfolding literal assign flag_or assign_audio
assign_settings values c =
    assign (flag_or c.broker.enabled (find (literal "youtube_enabled") values)) c
      (λ on. assign_audio values (record c { broker = record c.broker { enabled = on } }))
