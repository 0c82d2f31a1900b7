-- ===== src/Recorder/Pipeline.antt =====
-- recorder/src/app/Application.cpp: encoder_loop and recover_pipeline, over the parts that they call.
-- A round is one frame that the loop pops; what Windows and Media Foundation answer in it is in a
-- `Surroundings`. The samples of an `encode` reach `on_encoded` when it ends.
pub mod Following
pub mod Recovery
pub mod Timing
pub mod Clock
use gambit_record.Common.{
  ℕ, zero, suc, ◌+◌, ◌*◌, ◌/◌, Bool, true, false, not, ◌&&◌, ◌||◌, List, [], ◌∷◌, ◌++◌, Option,
  none, some, if◌then◌else◌, leb, ◌==◌, ℤ, pos, Text, literal, same_text,
}
use gambit_record.Recorder.Media.{
  VideoFrame, EncodedSample, StreamDescription, no_stream, hns_per_second,
}
use gambit_record.Recorder.States.{RecordingState, CaptureState, is_stopped}
use gambit_record.Recorder.Config.{Config}
use gambit_record.Recorder.Mp4Muxer.{Calls}
use gambit_record.Recorder.SegmentStore.{Disk}
use gambit_record.Recorder.RecordingSession.{RecordingSession, stop as stop_recording}
use gambit_record.Recorder.ReplayBuffer.{reset}
use gambit_record.Recorder.Transform.{Encoder, Machine, even}
use gambit_record.Recorder.VideoEncoder.{
  Event, Produced, Run, at, encode, stop as stop_encoder, request_keyframe,
}
use gambit_record.Recorder.AudioCapture.{
  AudioCapture, Device, start as start_audio, stop as stop_audio, audio_description,
}
use gambit_record.Recorder.Application.{pace}
use gambit_record.Recorder.Application.Commands.{Application, on_encoded}

pub record Pipeline : Type 0 where
  pub application : Application
  pub encoder : Encoder
  pub audio : AudioCapture
  pub audio_pid : ℕ
  pub audio_failed : Bool
  pub active_audio_mode : Text
  pub frames : List VideoFrame
  pub dropped_frames : ℕ
  pub last_capture_pts : ℤ
  pub consecutive_failures : ℕ

-- The events and the outputs that Media Foundation hands out during one call of the encoder.
pub record Script : Type 0 where
  pub events : List Event
  pub outputs : List Produced

-- What a round meets. `pid` is the process of the captured window, or 0; `recovers` whether the
-- device and the capture come back.
pub record Surroundings : Type 0 where
  pub calls : Calls
  pub disk : Disk
  pub timestamp : Text
  pub tick : ℕ
  pub machine : Machine
  pub resizing : Script
  pub encoding : Script
  pub recovering : Script
  pub pid : ℕ
  pub device : Device
  pub recovers : Bool

unfoldable pub needs_keyframe : RecordingState → Bool
needs_keyframe RecordingState.waiting_for_keyframe = true
needs_keyframe _ = false

-- `if (recording_->state() != Stopped) recording_->stop()`.
unfoldable pub end_recording : Calls → Application → Application
end_recording calls a = record a { recording = (stop_recording calls a.recording).0 }

unfoldable pub size_changed : VideoFrame → StreamDescription → Bool
size_changed frame before =
    not (before.width == 0)
    && (not (before.width == even frame.width) || not (before.height == even frame.height))

unfoldable pub deliver : Surroundings → List EncodedSample → Application → Application
deliver s [] a = a
deliver s (e ∷ rest) a = deliver s rest (on_encoded s.disk s.calls s.timestamp e a)

-- What a call of the encoder leaves, with the samples that it gave delivered.
unfoldable pub encoded : Surroundings → Run × Bool → Pipeline → Pipeline × Bool
encoded s r p = (
  record p {
    encoder = record r.0.encoder { output = [] };
    application = deliver s r.0.encoder.output p.application;
  },
  r.1,
)

-- What follows where no exception has ended the round.
abbrev pub and_then : Pipeline × Bool → (Pipeline → Pipeline × Bool) → Pipeline × Bool
and_then (p, true) next = next p
and_then (p, false) next = (p, false)

-- A frame of another size ends the recording and empties the replay. An exception of the encoder's
-- `stop` leaves the time of the last frame.
unfoldable pub resized : Surroundings → VideoFrame → Pipeline → Pipeline × Bool
resized s frame p =
    let ended = record p {
      application =
          let a = end_recording s.calls p.application in record a { replay = reset a.replay };
    } in
    if size_changed frame p.application.stream
    then and_then
        (encoded s (stop_encoder (at ended.encoder s.resizing.events s.resizing.outputs)) ended)
        (λ q. (record q { last_capture_pts = pos 0 }, true))
    else (p, true)

-- The members of the audio in the description of the stream.
abbrev pub with_audio : StreamDescription → StreamDescription → StreamDescription
with_audio d stream = record stream {
  has_audio = d.has_audio;
  audio_rate = d.audio_rate;
  audio_channels = d.audio_channels;
  audio_user_data = d.audio_user_data;
}

-- The tick, the description and the keyframe behind an `encode` without an exception.
unfoldable pub described : Surroundings → Pipeline → Pipeline
unfolding needs_keyframe
described s p = record p {
  application = record p.application {
    last_encoded_frame_tick = s.tick;
    stream =
        if p.audio.running
        then with_audio (audio_description p.audio) p.encoder.description
        else p.encoder.description;
  };
  encoder =
      if needs_keyframe p.application.recording.state
      then request_keyframe p.encoder
      else p.encoder;
}

-- The settings of the sound: the microphone goes before the mode.
unfoldable pub audio_mode : Config → Text
unfolding literal
audio_mode c = if c.audio.microphone then literal "microphone" else c.audio.mode

unfoldable pub audio_enabled : Config → Bool
audio_enabled c = c.audio.enabled || c.audio.microphone

unfoldable pub wants_audio : Config → Bool
unfolding literal
wants_audio c = audio_enabled c && not (same_text (audio_mode c) (literal "disabled"))

unfoldable pub stop_if : Bool → Pipeline → Pipeline
stop_if change p =
    if p.audio.running && change
    then record p { audio = stop_audio p.audio; audio_failed = false }
    else p

-- Sound that is not wanted is stopped, with the note of a failure kept.
unfoldable pub stop_unwanted : Pipeline → Pipeline
stop_unwanted p =
    if not (wants_audio p.application.config) && p.audio.running
    then record p { audio = stop_audio p.audio }
    else p

unfoldable pub started : Surroundings → Pipeline → AudioCapture × Bool → Pipeline
started s p r =
    if r.1
    then record p {
      audio = r.0;
      audio_pid = s.pid;
      active_audio_mode = audio_mode p.application.config;
      application = record p.application {
        stream = with_audio (audio_description r.0) p.application.stream;
      };
    }
    else record p { audio = r.0; audio_failed = true }

unfoldable pub start_wanted : Surroundings → Pipeline → Pipeline
start_wanted s p =
    if wants_audio p.application.config
      && not p.audio.running
      && not p.audio_failed
      && not (s.pid == 0)
    then started s p (start_audio s.device s.pid (audio_mode p.application.config) p.audio)
    else p

-- The sound follows the process of the window and the settings.
unfoldable pub follow_audio : Surroundings → Pipeline → Pipeline
follow_audio s p =
    let same_process = stop_if (not (s.pid == 0) && not (p.audio_pid == s.pid)) p in
    let same_mode =
      stop_if (not (same_text same_process.active_audio_mode (audio_mode p.application.config)))
        same_process in
    start_wanted s (stop_unwanted same_mode)

-- The `try` of the loop, behind the pacing. An exception of `stop` or `encode` ends it.
unfoldable pub process : Surroundings → VideoFrame → Pipeline → Pipeline × Bool
process s frame p = and_then (resized s frame p) (λ q.
    and_then
      (encoded s (encode s.machine frame (at q.encoder s.encoding.events s.encoding.outputs)) q)
      (λ r. (record (follow_audio s (described s r)) { consecutive_failures = 0 }, true)))

-- The device and the capture come back, or an exception ends the recovery.
unfoldable pub recreated : Surroundings → Pipeline → Pipeline × Bool
recreated s p = if not s.recovers then (p, false) else (
  record p {
    audio_failed = false;
    audio_pid = 0;
    active_audio_mode = [];
    application = record p.application { stream = no_stream };
  },
  true,
)

unfoldable pub silenced : Pipeline → Pipeline
silenced p = record p {
  audio = stop_audio p.audio;
  application = record p.application { capture_state = CaptureState.waiting_for_game };
}

unfoldable pub emptied : Surroundings → Pipeline → Pipeline
emptied s p = record p {
  frames = [];
  application = let a = end_recording s.calls p.application in record a { replay = reset a.replay };
}

-- The encoder's `stop` may throw.
unfoldable pub stopped_encoder : Script → Surroundings → Pipeline → Pipeline × Bool
stopped_encoder script s p = encoded s (stop_encoder (at p.encoder script.events script.outputs)) p

unfoldable pub recover_pipeline : Surroundings → Pipeline → Pipeline × Bool
recover_pipeline s p =
    and_then (stopped_encoder s.recovering s (silenced p)) (λ q. recreated s (emptied s q))

unfoldable pub recovered : Pipeline × Bool → Pipeline
recovered r = if r.1 then record r.0 { consecutive_failures = 0; last_capture_pts = pos 0 } else r.0

-- The handler of an exception: the third in a row starts the recovery.
unfoldable pub failed : Surroundings → Pipeline → Pipeline
failed s p =
    let counted = record p { consecutive_failures = suc p.consecutive_failures } in
    if leb 3 counted.consecutive_failures then recovered (recover_pipeline s counted) else counted

unfoldable pub handled : Surroundings → Pipeline × Bool → Pipeline
handled s r = if r.1 then r.0 else failed s r.0

unfoldable pub paced_round : Surroundings → VideoFrame → Pipeline → Option ℤ → Pipeline
paced_round s frame p none = record p { dropped_frames = suc p.dropped_frames }
paced_round s frame p (some pts) =
    handled s (process s (record frame { pts = pts }) (record p { last_capture_pts = pts }))

-- One round of `encoder_loop`.
unfoldable pub round : Surroundings → VideoFrame → Pipeline → Pipeline
round s frame p =
    paced_round s frame p (pace p.application.config.video.fps p.last_capture_pts frame.pts)
