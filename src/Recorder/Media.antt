-- ===== src/Recorder/Media.antt =====
-- recorder/src/common/Media.hpp. Times are signed numbers of 100 ns; the 64-bit range is far above
-- what a recording reaches, and is not modelled. A texture is a number that names it.
use gambit_record.Common.{ℕ, Bool, false, [], Option, ℤ, negsuc, Text}

abbrev pub hns_per_second : ℕ
hns_per_second = 10000000

-- An enumeration over `std::uint8_t`, which may hold other codes than the two that are named.
abbrev pub TrackKind : Type 0
TrackKind = ℕ

abbrev pub video : TrackKind
video = 1

abbrev pub audio : TrackKind
audio = 2

pub record VideoFrame : Type 0 where
  pub texture : ℕ
  pub width : ℕ
  pub height : ℕ
  pub pts : ℤ
  pub duration : ℤ

-- `bytes` is a shared pointer that may be null.
pub record EncodedSample : Type 0 where
  pub track : TrackKind
  pub pts : ℤ
  pub duration : ℤ
  pub keyframe : Bool
  pub bytes : Option Text

pub record StreamDescription : Type 0 where
  pub width : ℕ
  pub height : ℕ
  pub fps : ℕ
  pub bitrate : ℕ
  pub sequence_header : Text
  pub has_audio : Bool
  pub audio_rate : ℕ
  pub audio_channels : ℕ
  pub audio_user_data : Text

abbrev pub no_stream : StreamDescription
no_stream = record {
  width = 0;
  height = 0;
  fps = 0;
  bitrate = 0;
  sequence_header = [];
  has_audio = false;
  audio_rate = 48000;
  audio_channels = 2;
  audio_user_data = [];
}

pub record EvidenceMetadata : Type 0 where
  pub admin : Text
  pub target_id : ℤ
  pub target_name : Text
  pub server : Text
  pub timestamp : Text
  pub punishment_command : Text
  pub punishment_reason : Text
  pub recording_period : Text

abbrev pub no_metadata : EvidenceMetadata
no_metadata = record {
  admin = [];
  target_id = negsuc 0;
  target_name = [];
  server = [];
  timestamp = [];
  punishment_command = [];
  punishment_reason = [];
  recording_period = [];
}
