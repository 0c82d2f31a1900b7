-- ===== src/Recorder/AudioCapture.antt =====
-- recorder/src/audio/WasapiCapture.cpp and WasapiCapture.hpp. What the audio client and the AAC
-- encoder answer is a parameter; a step gives its state and whether it ended without an exception.
pub mod Times
use gambit_record.Common.{
  ℕ, ◌*◌, ◌/◌, Bool, true, false, not, ◌&&◌, ◌||◌, List, [], ◌∷◌, ◌++◌, Option, none, some,
  if◌then◌else◌, ℤ, pos, ◌+ℤ◌, eqb_ℤ, Text, literal, same_text, replicate,
}
use gambit_record.Recorder.Media.{
  EncodedSample, StreamDescription, no_stream, hns_per_second, audio,
}

-- A sample that the AAC encoder takes.
pub record PcmSample : Type 0 where
  pub pts : ℤ
  pub duration : ℤ
  pub bytes : Text

pub data Source : Type 0 where
  process : ℕ → Source
  microphone system : Source

-- `client` is the activated client, of which it keeps the source; `fed` is what its encoder took.
pub record AudioCapture : Type 0 where
  pub running : Bool
  pub loopback : Bool
  pub client : Option Source
  pub next_pts : ℤ
  pub user_data : Text
  pub fed : List PcmSample
  pub output : List EncodedSample

abbrev pub rate : ℕ
rate = 48000

abbrev pub channels : ℕ
channels = 2

unfoldable pub audio_capture : AudioCapture
audio_capture = record {
  running = false;
  loopback = true;
  client = none;
  next_pts = pos 0;
  user_data = [];
  fed = [];
  output = [];
}

-- What the calls of `start` answer.
pub record Device : Type 0 where
  pub activates : Bool
  pub initializes : Bool
  pub encodes : Bool
  pub starts : Bool
  pub user_data : Text

unfoldable pub stop : AudioCapture → AudioCapture
stop a = record a { running = false; client = none; next_pts = pos 0 }

unfoldable pub source_of : ℕ → Text → Source
unfolding literal
source_of pid mode =
    if same_text mode (literal "process")
    then process pid
    else if same_text mode (literal "microphone")
    then microphone
    else system

-- The calls behind the choice of the source, in their order. An exception keeps what came before it.
unfoldable pub opened : Device → Source → AudioCapture → AudioCapture × Bool
opened d source a =
    let active = record a { client = some source } in
    let encoding = record active { user_data = d.user_data } in
    if not d.activates
    then (a, false)
    else if not d.initializes || not d.encodes
    then (active, false)
    else if not d.starts
    then (encoding, false)
    else (record encoding { running = true }, true)

unfoldable pub start : Device → ℕ → Text → AudioCapture → AudioCapture × Bool
unfolding literal
start d pid mode a =
    opened d (source_of pid mode)
      (record (stop a) { loopback = not (same_text mode (literal "microphone")) })

-- What `GetNextPacketSize` and `GetBuffer` answer for one packet, and whether the encoder takes it:
-- its frames, whether it is silent, its bytes and the time of the device, or 0.
pub data Packet : Type 0 where
  query_fails buffer_fails : Packet
  packet : ℕ → Bool → Text → ℤ → Bool → Packet

unfoldable pub duration_of : ℕ → ℤ
duration_of frames = pos (frames * hns_per_second / rate)

-- `encode_pcm`: the time that follows is set before the encoder is asked.
unfoldable pub encode_pcm : Bool → ℕ → Text → ℤ → AudioCapture → AudioCapture
encode_pcm takes frames bytes device_pts a =
    let pts = if eqb_ℤ device_pts (pos 0) then a.next_pts else device_pts in
    let duration = duration_of frames in
    record a {
      next_pts = pts +ℤ duration;
      fed =
          if takes
          then a.fed ++ record { pts = pts; duration = duration; bytes = bytes } ∷ []
          else a.fed;
    }

-- The packets that are there, up to one that fails, which ends the capture.
unfoldable pub run : List Packet → AudioCapture → AudioCapture
run [] a = a
run (query_fails ∷ rest) a = record a { running = false }
run (buffer_fails ∷ rest) a = record a { running = false }
run (packet frames silent bytes pts takes ∷ rest) a =
    run rest (
      encode_pcm takes frames (if silent then replicate (frames * channels * 2) 0 else bytes) pts a)

unfoldable pub audio_description : AudioCapture → StreamDescription
audio_description a = record no_stream {
  has_audio = a.running;
  audio_rate = rate;
  audio_channels = channels;
  audio_user_data = a.user_data;
}

-- `drain_encoder`: each output of the encoder is a keyframe of the sound.
unfoldable pub drain_encoder : List (ℤ × ℤ × Text) → AudioCapture → AudioCapture
drain_encoder [] a = a
drain_encoder (o ∷ rest) a = drain_encoder rest (record a {
  output =
      a.output
      ++ record { track = audio; pts = o.0; duration = o.1; keyframe = true; bytes = some o.2 }
        ∷ [];
})
