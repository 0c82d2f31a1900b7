-- ===== src/Recorder/Config.antt =====
-- recorder/src/config/Config.cpp and Config.hpp. A parsed document is what the code looks up in it:
-- groups of named values. A wide string is its UTF-8 text; the conversions between a path and its
-- text and `weakly_canonical` are parameters.
pub mod Valid
pub mod File
pub mod Saved
use gambit_record.Common.{
  ℕ, Bool, true, false, not, ◌&&◌, ◌||◌, List, [], ◌∷◌, ◌++◌, Option, none, some, ltb,
  if◌then◌else◌, Text, String, literal, same_text, starts_with,
}
use gambit_record.Recorder.Files.{FilePath, is_path_within}

-- The nested structs, one after the other: capture, video, audio, broker, recording, replay, logging.
pub record Capture : Type 0 where
  pub process : Text
  pub backend : Text

pub record Video : Type 0 where
  pub fps : ℕ
  pub bitrate : ℕ
  pub codec : Text
  pub prefer_hardware_encoder : Bool
  pub keyframe_interval_seconds : ℕ
  pub queue_frames : ℕ

pub record Audio : Type 0 where
  pub enabled : Bool
  pub mode : Text
  pub microphone : Bool

pub record Broker : Type 0 where
  pub enabled : Bool
  pub endpoint : Text
  pub channel_title : Text
  pub retry_seconds : ℕ

pub record Recording : Type 0 where
  pub directory : FilePath
  pub archive_limit_gb : ℕ

pub record Replay : Type 0 where
  pub enabled : Bool
  pub auto_start : Bool
  pub seconds : ℕ
  pub storage : Text
  pub cache_directory : FilePath
  pub segment_seconds : ℕ

pub record Logging : Type 0 where
  pub directory : FilePath
  pub level : Text

pub record Config : Type 0 where
  pub capture : Capture
  pub video : Video
  pub audio : Audio
  pub broker : Broker
  pub recording : Recording
  pub replay : Replay
  pub logging : Logging

-- The members' initial values.
unfoldable pub default_config : Config
unfolding literal
default_config = record {
  capture = record { process = literal "gta_sa.exe"; backend = literal "windows_graphics_capture" };
  video = record {
    fps = 60;
    bitrate = 16000000;
    codec = literal "h264";
    prefer_hardware_encoder = true;
    keyframe_interval_seconds = 2;
    queue_frames = 6;
  };
  audio = record { enabled = true; mode = literal "process"; microphone = false };
  broker = record {
    enabled = true;
    endpoint = literal "https://gambit-record-broker.whatdroyidclo.workers.dev";
    channel_title = literal "Gambit Record";
    retry_seconds = 30;
  };
  recording = record {
    directory = literal "grecord" ∷ literal "records" ∷ [];
    archive_limit_gb = 20;
  };
  replay = record {
    enabled = true;
    auto_start = true;
    seconds = 600;
    storage = literal "disk";
    cache_directory = literal "grecord" ∷ literal "cache" ∷ [];
    segment_seconds = 10;
  };
  logging = record { directory = literal "grecord" ∷ literal "logs" ∷ []; level = literal "info" };
}

pub data Error : Type 0 where
  video_configuration queue_frames replay_configuration replay_storage audio_mode capture_backend
        cache_directory recording_directory archive_limit retry_seconds endpoint_scheme :
      Error

outside : ℕ → ℕ → ℕ → Bool
outside low high n = ltb n low || ltb high n

text_is : String → Text → Bool
unfolding literal
text_is name t = same_text t (literal name)

-- The first test that fails names the exception.
unfoldable pub check : Bool → Error → Option Error → Option Error
check bad e later = if bad then some e else later

unfoldable pub validate_video : Config → Option Error → Option Error
unfolding check outside text_is
validate_video c later =
    check
      (not (text_is "h264" c.video.codec)
        || outside 10 240 c.video.fps
        || outside 500000 200000000 c.video.bitrate)
      video_configuration (check (outside 2 120 c.video.queue_frames) queue_frames later)

unfoldable pub validate_replay : Config → Option Error → Option Error
unfolding check outside text_is
validate_replay c later =
    check (outside 10 3600 c.replay.seconds || outside 1 60 c.replay.segment_seconds)
      replay_configuration
      (check (not (text_is "disk" c.replay.storage) && not (text_is "memory" c.replay.storage))
        replay_storage later)

unfoldable pub validate_modes : Config → Option Error → Option Error
unfolding check text_is
validate_modes c later =
    check
      (not (text_is "process" c.audio.mode)
        && not (text_is "system" c.audio.mode)
        && not (text_is "disabled" c.audio.mode))
      audio_mode
      (check
        (not (text_is "windows_graphics_capture" c.capture.backend)
          && not (text_is "desktop_duplication" c.capture.backend))
        capture_backend later)

unfoldable pub validate_paths :
    (FilePath → Option FilePath) → FilePath → Config → Option Error → Option Error
unfolding check
validate_paths weakly_canonical allowed c later =
    check (not (is_path_within weakly_canonical c.replay.cache_directory allowed)) cache_directory (
      check (not (is_path_within weakly_canonical c.recording.directory allowed))
        recording_directory later)

unfoldable pub validate_limits : Config → Option Error
unfolding check outside literal
validate_limits c = check (outside 1 1024 c.recording.archive_limit_gb) archive_limit (
    check (outside 5 3600 c.broker.retry_seconds) retry_seconds (
      check (c.broker.enabled && not (starts_with c.broker.endpoint (literal "https://")))
        endpoint_scheme none))

-- `allowed` is the canonical form of the executable's own directory "grecord".
unfoldable pub validate : (FilePath → Option FilePath) → FilePath → Config → Option Error
validate weakly_canonical allowed c = validate_video c (
    validate_replay c
      (validate_modes c (validate_paths weakly_canonical allowed c (validate_limits c))))

resolve : (FilePath → Bool) → FilePath → FilePath → FilePath
resolve is_relative base path = if is_relative path then base ++ path else path

unfoldable pub resolve_paths : (FilePath → Bool) → FilePath → Config → Config
unfolding resolve
resolve_paths is_relative base c = record c {
  recording = record c.recording { directory = resolve is_relative base c.recording.directory };
  replay = record c.replay { cache_directory = resolve is_relative base c.replay.cache_directory };
  logging = record c.logging { directory = resolve is_relative base c.logging.directory };
}
