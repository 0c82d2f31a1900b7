-- ===== src/Recorder/Config/File.antt =====
-- recorder/src/config/Config.cpp: reading and writing the file. The JSON text and its parser are
-- not modelled, only what is looked up in a document. The conversions between a path and its text
-- are parameters.
use gambit_record.Common.{
  ℕ, Bool, true, false, List, [], ◌∷◌, Option, none, some, if◌then◌else◌, Text, String, literal,
  same_text,
}
use gambit_record.Recorder.Files.{FilePath}
use gambit_record.Recorder.Config.{
  Config, Capture, Video, Audio, Broker, Recording, Replay, Logging, default_config,
}

pub data Value : Type 0 where
  number : ℕ → Value
  flag : Bool → Value
  text : Text → Value

-- A group is an object, or something else.
pub data Group : Type 0 where
  object : List (Text × Value) → Group
  other : Group

abbrev pub Document : Type 0
Document = List (Text × Group)

abbrev pub find {ℓ} : {A : Type ℓ} → Text → List (Text × A) → Option A
find key [] = none
find key (e ∷ rest) = if same_text e.0 key then some e.1 else find key rest

-- What `value_at` finds: nothing where the group or the key is missing or the group is no object.
unfoldable pub in_group : Text → Option Group → Option Value
in_group key none = none
in_group key (some other) = none
in_group key (some (object values)) = find key values

unfoldable pub lookup : Document → String → String → Option Value
unfolding literal in_group
lookup d group key = in_group (literal key) (find (literal group) d)

-- `value_at` at the three types; a value of another type throws.
unfoldable pub number_or : ℕ → Option Value → Option ℕ
number_or fallback none = some fallback
number_or fallback (some (number n)) = some n
number_or fallback (some v) = none

unfoldable pub flag_or : Bool → Option Value → Option Bool
flag_or fallback none = some fallback
flag_or fallback (some (flag b)) = some b
flag_or fallback (some v) = none

unfoldable pub text_or : Text → Option Value → Option Text
text_or fallback none = some fallback
text_or fallback (some (text t)) = some t
text_or fallback (some v) = none

infixl 1 ◌>>=◌
abbrev pub ◌>>=◌ {ℓ κ} : {A : Type ℓ} {B : Type κ} → Option A → (A → Option B) → Option B
none >>= f = none
some a >>= f = f a

-- A path that is given as a text.
unfoldable pub path_or :
    (Text → FilePath) → (FilePath → Text) → FilePath → Option Value → Option FilePath
unfolding text_or
path_or path_of path_utf8 fallback v = do t ← text_or (path_utf8 fallback) v; some (path_of t)

unfoldable pub load_capture : Capture → Document → Option Capture
unfolding lookup number_or flag_or text_or literal
load_capture c j = do
  process ← text_or (literal "gta_sa.exe") (lookup j "capture" "process")
  backend ← text_or c.backend (lookup j "capture" "backend")
  some (record { process = process; backend = backend })

unfoldable pub load_video : Video → Document → Option Video
unfolding lookup number_or flag_or text_or
load_video c j = do
  fps ← number_or c.fps (lookup j "video" "fps")
  bitrate ← number_or c.bitrate (lookup j "video" "bitrate")
  codec ← text_or c.codec (lookup j "video" "codec")
  prefer_hardware_encoder ←
      flag_or c.prefer_hardware_encoder (lookup j "video" "prefer_hardware_encoder")
  keyframe_interval_seconds ←
      number_or c.keyframe_interval_seconds (lookup j "video" "keyframe_interval_seconds")
  queue_frames ← number_or c.queue_frames (lookup j "video" "queue_frames")
  some (record {
    fps = fps;
    bitrate = bitrate;
    codec = codec;
    prefer_hardware_encoder = prefer_hardware_encoder;
    keyframe_interval_seconds = keyframe_interval_seconds;
    queue_frames = queue_frames;
  })

unfoldable pub load_audio : Audio → Document → Option Audio
unfolding lookup number_or flag_or text_or
load_audio c j = do
  enabled ← flag_or c.enabled (lookup j "audio" "enabled")
  mode ← text_or c.mode (lookup j "audio" "mode")
  microphone ← flag_or c.microphone (lookup j "audio" "microphone")
  some (record { enabled = enabled; mode = mode; microphone = microphone })

unfoldable pub load_broker : Broker → Document → Option Broker
unfolding lookup number_or flag_or text_or
load_broker c j = do
  enabled ← flag_or c.enabled (lookup j "broker" "enabled")
  endpoint ← text_or c.endpoint (lookup j "broker" "endpoint")
  channel_title ← text_or c.channel_title (lookup j "broker" "channel_title")
  retry_seconds ← number_or c.retry_seconds (lookup j "broker" "retry_seconds")
  some (record {
    enabled = enabled;
    endpoint = endpoint;
    channel_title = channel_title;
    retry_seconds = retry_seconds;
  })

unfoldable pub load_recording :
    (Text → FilePath) → (FilePath → Text) → Recording → Document → Option Recording
unfolding lookup number_or flag_or text_or path_or
load_recording path_of path_utf8 c j = do
  directory ← path_or path_of path_utf8 c.directory (lookup j "recording" "directory")
  archive_limit_gb ← number_or c.archive_limit_gb (lookup j "recording" "archive_limit_gb")
  some (record { directory = directory; archive_limit_gb = archive_limit_gb })

unfoldable pub load_replay :
    (Text → FilePath) → (FilePath → Text) → Replay → Document → Option Replay
unfolding lookup number_or flag_or text_or path_or
load_replay path_of path_utf8 c j = do
  enabled ← flag_or c.enabled (lookup j "replay" "enabled")
  auto_start ← flag_or c.auto_start (lookup j "replay" "auto_start")
  seconds ← number_or c.seconds (lookup j "replay" "seconds")
  storage ← text_or c.storage (lookup j "replay" "storage")
  cache_directory ←
      path_or path_of path_utf8 c.cache_directory (lookup j "replay" "cache_directory")
  segment_seconds ← number_or c.segment_seconds (lookup j "replay" "segment_seconds")
  some (record {
    enabled = enabled;
    auto_start = auto_start;
    seconds = seconds;
    storage = storage;
    cache_directory = cache_directory;
    segment_seconds = segment_seconds;
  })

unfoldable pub load_logging :
    (Text → FilePath) → (FilePath → Text) → Logging → Document → Option Logging
unfolding lookup number_or flag_or text_or path_or
load_logging path_of path_utf8 c j = do
  directory ← path_or path_of path_utf8 c.directory (lookup j "logging" "directory")
  level ← text_or c.level (lookup j "logging" "level")
  some (record { directory = directory; level = level })

-- `load_or_create` of a document that was parsed, or made from the initial values.
unfoldable pub load : (Text → FilePath) → (FilePath → Text) → Document → Option Config
unfolding load_capture load_video load_audio load_broker load_recording load_replay load_logging
load path_of path_utf8 j = do
  capture ← load_capture default_config.capture j
  video ← load_video default_config.video j
  audio ← load_audio default_config.audio j
  broker ← load_broker default_config.broker j
  recording ← load_recording path_of path_utf8 default_config.recording j
  replay ← load_replay path_of path_utf8 default_config.replay j
  logging ← load_logging path_of path_utf8 default_config.logging j
  some (record {
    capture = capture;
    video = video;
    audio = audio;
    broker = broker;
    recording = recording;
    replay = replay;
    logging = logging;
  })

-- What `save` writes: the name of the process is a constant.
unfoldable pub save : (FilePath → Text) → Config → Document
unfolding literal
save path_utf8 c =
    (
      literal "capture",
      object (
          (literal "process", text (literal "gta_sa.exe"))
          ∷ (literal "backend", text c.capture.backend)
          ∷ []),
    )
    ∷ (
      literal "video",
      object (
          (literal "fps", number c.video.fps)
          ∷ (literal "bitrate", number c.video.bitrate)
          ∷ (literal "codec", text c.video.codec)
          ∷ (literal "prefer_hardware_encoder", flag c.video.prefer_hardware_encoder)
          ∷ (literal "keyframe_interval_seconds", number c.video.keyframe_interval_seconds)
          ∷ (literal "queue_frames", number c.video.queue_frames)
          ∷ []),
    )
    ∷ (
      literal "audio",
      object (
          (literal "enabled", flag c.audio.enabled)
          ∷ (literal "mode", text c.audio.mode)
          ∷ (literal "microphone", flag c.audio.microphone)
          ∷ []),
    )
    ∷ (
      literal "broker",
      object (
          (literal "enabled", flag c.broker.enabled)
          ∷ (literal "endpoint", text c.broker.endpoint)
          ∷ (literal "channel_title", text c.broker.channel_title)
          ∷ (literal "retry_seconds", number c.broker.retry_seconds)
          ∷ []),
    )
    ∷ (
      literal "recording",
      object (
          (literal "directory", text (path_utf8 c.recording.directory))
          ∷ (literal "archive_limit_gb", number c.recording.archive_limit_gb)
          ∷ []),
    )
    ∷ (
      literal "replay",
      object (
          (literal "enabled", flag c.replay.enabled)
          ∷ (literal "auto_start", flag c.replay.auto_start)
          ∷ (literal "seconds", number c.replay.seconds)
          ∷ (literal "storage", text c.replay.storage)
          ∷ (literal "cache_directory", text (path_utf8 c.replay.cache_directory))
          ∷ (literal "segment_seconds", number c.replay.segment_seconds)
          ∷ []),
    )
    ∷ (
      literal "logging",
      object (
          (literal "directory", text (path_utf8 c.logging.directory))
          ∷ (literal "level", text c.logging.level)
          ∷ []),
    )
    ∷ []

-- The document of a first start.
unfoldable pub default_json : Document
unfolding literal
default_json =
    (
      literal "capture",
      object (
          (literal "process", text (literal "gta_sa.exe"))
          ∷ (literal "backend", text (literal "windows_graphics_capture"))
          ∷ []),
    )
    ∷ (
      literal "video",
      object (
          (literal "fps", number 60)
          ∷ (literal "bitrate", number 16000000)
          ∷ (literal "codec", text (literal "h264"))
          ∷ (literal "prefer_hardware_encoder", flag true)
          ∷ (literal "keyframe_interval_seconds", number 2)
          ∷ (literal "queue_frames", number 6)
          ∷ []),
    )
    ∷ (
      literal "audio",
      object (
          (literal "enabled", flag true)
          ∷ (literal "mode", text (literal "process"))
          ∷ (literal "microphone", flag false)
          ∷ []),
    )
    ∷ (
      literal "broker",
      object (
          (literal "enabled", flag true)
          ∷ (
            literal "endpoint",
            text (literal "https://gambit-record-broker.whatdroyidclo.workers.dev"),
          )
          ∷ (literal "channel_title", text (literal "Gambit Record"))
          ∷ (literal "retry_seconds", number 30)
          ∷ []),
    )
    ∷ (
      literal "recording",
      object (
          (literal "directory", text (literal "grecord/records"))
          ∷ (literal "archive_limit_gb", number 20)
          ∷ []),
    )
    ∷ (
      literal "replay",
      object (
          (literal "enabled", flag true)
          ∷ (literal "auto_start", flag true)
          ∷ (literal "seconds", number 600)
          ∷ (literal "storage", text (literal "disk"))
          ∷ (literal "cache_directory", text (literal "grecord/cache"))
          ∷ (literal "segment_seconds", number 10)
          ∷ []),
    )
    ∷ (
      literal "logging",
      object (
          (literal "directory", text (literal "grecord/logs"))
          ∷ (literal "level", text (literal "info"))
          ∷ []),
    )
    ∷ []
