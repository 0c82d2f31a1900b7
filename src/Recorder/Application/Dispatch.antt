-- ===== src/Recorder/Application/Dispatch.antt =====
-- recorder/src/app/Application.cpp, handle_command: the choice of the command, and the commands over
-- the encoder, the sound and the settings. An exception keeps the state that it left, without an
-- answer. What lies outside is in a `World`.
use gambit_record.Common.{
  ℕ, suc, ◌/◌, Bool, true, false, not, ◌&&◌, [], Option, none, some, if◌then◌else◌, ℤ, pos, negsuc,
  ◌-ℤ◌, Text, String, literal, same_text, is_empty,
}
use gambit_record.Recorder.Media.{EvidenceMetadata, no_metadata, hns_per_second}
use gambit_record.Recorder.States.{
  RecordingState, is_stopped, capture_text, recording_text, replay_text,
}
use gambit_record.Recorder.Files.{FilePath}
use gambit_record.Recorder.Config.{Config}
use gambit_record.Recorder.Config.File.{find}
use gambit_record.Recorder.RecordingSession.{stop}
use gambit_record.Recorder.SegmentStore.{available_hns}
use gambit_record.Recorder.ReplayBuffer.{SaveResult, is_stopped as replay_is_stopped, is_error}
use gambit_record.Recorder.UploadQueue.{Status, status as upload_status, configure}
use gambit_record.Recorder.BrokerUploader.Channel.{ChannelResult, Body, channel}
use gambit_record.Recorder.BrokerUploader.{Attempt}
use gambit_record.Recorder.VideoEncoder.{request_keyframe}
use gambit_record.Recorder.Pipeline.{Pipeline}
use gambit_record.Recorder.Application.Requests.{
  Request, Member, object, scalar, text_or, flag_or, as_scalar, parse_metadata, assign_settings,
}
use gambit_record.Recorder.Application.Commands.{
  Application, Outside, Reply, reply, may_upload, capture_ready, record_start, stopped_at,
  replay_start, replay_stop, replay_save, marker, collect_save_result,
}

pub data Command : Type 0 where
  record_start_command record_stop_command settings_command youtube_channel_command
        settings_set_command replay_start_command marker_command replay_stop_command
        replay_save_command status_command unknown :
      Command

abbrev pub is_text : Text → String → Bool
is_text name s = same_text name (literal s)

-- The chain of the comparisons.
unfoldable pub command_of : Text → Command
unfolding literal
command_of name =
    if is_text name "record_start"
    then record_start_command
    else if is_text name "record_stop"
    then record_stop_command
    else if is_text name "settings"
    then settings_command
    else if is_text name "youtube_channel"
    then youtube_channel_command
    else if is_text name "settings_set"
    then settings_set_command
    else if is_text name "replay_start"
    then replay_start_command
    else if is_text name "marker"
    then marker_command
    else if is_text name "replay_stop"
    then replay_stop_command
    else if is_text name "replay_save"
    then replay_save_command
    else if is_text name "status"
    then status_command
    else unknown

-- What a request meets: the clock, the answers of `record_stop`, whether the configuration and the
-- marker can be written, the result of a save that has ended, and
-- what the request for the channel meets.
pub record World : Type 0 where
  pub now : ℕ
  pub outside : Outside
  pub config_writes : Bool
  pub marker_writes : Bool
  pub saved : Option SaveResult
  pub https : Text → Bool
  pub opens : Bool
  pub connects : Bool
  pub attempt : ℕ → Attempt
  pub parse_channel : Text → Body

-- What the answers to `settings`, `settings_set` and `status` share.
pub record Switches : Type 0 where
  pub youtube_enabled : Bool
  pub youtube_configured : Bool
  pub audio_enabled : Bool
  pub microphone_enabled : Bool

pub record SettingsReply : Type 0 where
  pub switches : Switches
  pub youtube_channel : Text
  pub archive_limit_gb : ℕ

pub record StatusReply : Type 0 where
  pub capture : Bool
  pub capture_state : Text
  pub recording : Bool
  pub recording_state : Text
  pub recording_seconds : ℤ
  pub replay_buffer : Bool
  pub replay_state : Text
  pub replay_seconds : ℕ
  pub replay_available_seconds : ℤ
  pub encoder : Text
  pub fps : ℕ
  pub dropped_frames : ℕ
  pub save_id : ℕ
  pub recording_directory : FilePath
  pub width : ℕ
  pub height : ℕ
  pub audio : Bool
  pub switches : Switches
  pub youtube_channel : Text
  pub uploads : Status
  pub save_in_progress : Bool
  pub last_save : Option SaveResult

pub data Answer : Type 0 where
  replied : Reply → Answer
  settings_are : SettingsReply → Answer
  settings_saved : Switches → Answer
  channel_is : ChannelResult → Answer
  status_is : StatusReply → Answer

unfoldable pub switches : World → Config → Switches
switches w c = record {
  youtube_enabled = c.broker.enabled;
  youtube_configured = not (is_empty c.broker.endpoint) && w.outside.has_key;
  audio_enabled = c.audio.enabled;
  microphone_enabled = c.audio.microphone;
}

unfoldable pub settings : World → Config → SettingsReply
settings w c = record {
  switches = switches w c;
  youtube_channel = c.broker.channel_title;
  archive_limit_gb = c.recording.archive_limit_gb;
}

-- A division of times, which goes towards 0.
abbrev pub seconds : ℤ → ℤ
seconds (pos n) = pos (n / hns_per_second)
seconds (negsuc n) = pos 0 -ℤ pos (suc n / hns_per_second)

abbrev pub is_recording : RecordingState → Bool
is_recording RecordingState.recording = true
is_recording RecordingState.waiting_for_keyframe = true
is_recording _ = false

unfoldable pub status : World → Pipeline → StatusReply
status w p =
    let a = p.application in
    record {
      capture = capture_ready w.now a;
      capture_state = capture_text a.capture_state;
      recording = is_recording a.recording.state;
      recording_state = recording_text a.recording.state;
      recording_seconds = seconds a.recording.duration_hns;
      replay_buffer = not (replay_is_stopped a.replay.state) && not (is_error a.replay.state);
      replay_state = replay_text a.replay.state;
      replay_seconds = a.config.replay.seconds;
      replay_available_seconds = seconds (available_hns a.replay.store);
      encoder = p.encoder.encoder_name;
      fps = a.config.video.fps;
      dropped_frames = p.dropped_frames;
      save_id = a.save_generation;
      recording_directory = a.config.recording.directory;
      width = a.stream.width;
      height = a.stream.height;
      audio = p.audio.running;
      switches = switches w a.config;
      youtube_channel = a.config.broker.channel_title;
      uploads = upload_status a.uploads;
      save_in_progress = a.save_valid;
      last_save = a.last_save;
    }

abbrev pub with_application : Pipeline → Application × Reply → Pipeline × Option Answer
with_application p r = (record p { application = r.0 }, some (replied r.1))

-- A recording that starts asks for a keyframe.
unfoldable pub start_recording :
    World → Pipeline → Option EvidenceMetadata → Pipeline × Option Answer
start_recording w p none = (p, none)
start_recording w p (some metadata) =
    let r = record_start w.now metadata p.application in
    (
      record p {
        application = r.0;
        encoder = if r.1.success then request_keyframe p.encoder else p.encoder;
      },
      some (replied r.1),
    )

-- The metadata is read behind the test of the capture.
unfoldable pub on_record_start : World → Request → Pipeline → Pipeline × Option Answer
unfolding literal reply
on_record_start w request p =
    if not (capture_ready w.now p.application)
    then (
      p,
      some (
          replied
            (reply false (literal "CAPTURE_NOT_READY") (literal "Game capture is still starting"))),
    )
    else start_recording w p (parse_metadata request)

-- The rest of `record_stop`, whose reads of the request may throw when the recording has ended.
unfoldable pub stopped_with :
    World → Pipeline → FilePath → Option Bool → Option EvidenceMetadata → Pipeline × Option Answer
stopped_with w p path none metadata = (p, none)
stopped_with w p path (some upload) (some metadata) =
    let s = stopped_at w.outside upload metadata p.application path in
    (record p { application = s.application }, some (replied s.answer))
stopped_with w p path (some upload) none =
    let s = stopped_at w.outside upload no_metadata p.application path in
    if not (is_empty path) && may_upload w.outside upload p.application
    then (p, none)
    else (record p { application = s.application }, some (replied s.answer))

unfoldable pub on_record_stop : World → Request → Pipeline → Pipeline × Option Answer
unfolding literal reply
on_record_stop w request p =
    let s = stop w.outside.calls p.application.recording in
    if is_stopped p.application.recording.state
    then (
      p,
      some (replied (reply false (literal "NOT_RECORDING") (literal "Recording is not active"))),
    )
    else stopped_with w (record p { application = record p.application { recording = s.0 } }) s.1
        (flag_or true (as_scalar (find (literal "upload") request))) (parse_metadata request)

-- The broker and the queue get the new settings where the configuration was written.
unfoldable pub applied : World → Pipeline → Config × Bool → Pipeline × Option Answer
unfolding literal reply
applied w p (c, false) = (record p { application = record p.application { config = c } }, none)
applied w p (c, true) =
    let p' = record p { application = record p.application { config = c } } in
    if not w.config_writes
    then (p', some (replied (reply false (literal "CONFIG_WRITE_FAILED") [])))
    else (
      record p' {
        application = record p'.application { uploads = configure c.broker p'.application.uploads };
      },
      some (settings_saved (switches w c)),
    )

unfoldable pub on_settings_set : World → Pipeline → Option Member → Pipeline × Option Answer
unfolding literal reply
on_settings_set w p (some (object values)) =
    applied w p (assign_settings values p.application.config)
on_settings_set w p (some (scalar s)) = (
  p,
  some (replied (reply false (literal "INVALID_SETTINGS") (literal "settings object is required"))),
)
on_settings_set w p none = (
  p,
  some (replied (reply false (literal "INVALID_SETTINGS") (literal "settings object is required"))),
)

abbrev pub is_missing {ℓ} : {A : Type ℓ} → Option A → Bool
is_missing none = true
is_missing (some a) = false

-- The metadata is read when the result of the last save is gone already.
unfoldable pub on_replay_save : World → Request → Pipeline → Pipeline × Option Answer
on_replay_save w request p =
    let r = replay_save w.now p.application in
    if r.1.success && is_missing (parse_metadata request)
    then (record p { application = record p.application { last_save = none } }, none)
    else with_application p r

-- The label of a marker is read when the file is open; nothing else changes.
unfoldable pub on_marker : World → Request → Pipeline → Pipeline × Option Answer
unfolding literal
on_marker w request p =
    let r = marker w.marker_writes p.application in
    if r.1.success
      && is_missing (text_or (literal "important") (as_scalar (find (literal "label") request)))
    then (p, none)
    else with_application p r

unfoldable pub on_command : World → Request → Pipeline → Command → Pipeline × Option Answer
unfolding literal reply
on_command w request p record_start_command = on_record_start w request p
on_command w request p record_stop_command = on_record_stop w request p
on_command w request p settings_command = (p, some (settings_are (settings w p.application.config)))
on_command w request p youtube_channel_command = (
  p,
  some (
      channel_is (
        channel (w.https p.application.config.broker.endpoint) w.opens w.connects w.attempt
          w.parse_channel)),
)
on_command w request p settings_set_command =
    on_settings_set w p (find (literal "settings") request)
on_command w request p replay_start_command = with_application p (replay_start p.application)
on_command w request p marker_command = on_marker w request p
on_command w request p replay_stop_command = with_application p (replay_stop p.application)
on_command w request p replay_save_command = on_replay_save w request p
on_command w request p status_command = (p, some (status_is (status w p)))
on_command w request p unknown =
    (p, some (replied (reply false (literal "UNKNOWN_COMMAND") (literal "Unknown command"))))

unfoldable pub on_name : World → Request → Pipeline → Option Text → Pipeline × Option Answer
unfolding command_of
on_name w request p none = (p, none)
on_name w request p (some name) = on_command w request p (command_of name)

abbrev pub collected : World → Pipeline → Pipeline
collected w p = record p { application = collect_save_result w.saved p.application }

unfoldable pub handle_command : World → Request → Pipeline → Pipeline × Option Answer
unfolding literal
handle_command w request p =
    on_name w request (collected w p) (text_or [] (as_scalar (find (literal "command") request)))
