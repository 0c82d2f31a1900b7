-- ===== src/Recorder/Application/Commands.antt =====
-- recorder/src/app/Application.cpp, handle_command. An answer is a record of the fields that the
-- commands set. The settings and the status are in Dispatch. What lies outside is a parameter.
use gambit_record.Common.{
  ℕ, ◌+◌, ◌-◌, ◌*◌, Bool, true, false, not, ◌&&◌, ◌||◌, List, [], Option, none, some, ltb, ◌==◌,
  if◌then◌else◌, Text, literal, is_empty,
}
use gambit_record.Recorder.Media.{EncodedSample, EvidenceMetadata, StreamDescription}
use gambit_record.Recorder.States.{CaptureState, is_stopped}
use gambit_record.Recorder.Files.{FilePath}
use gambit_record.Recorder.Config.{Config}
use gambit_record.Recorder.Mp4Muxer.{Calls}
use gambit_record.Recorder.RecordingSession.{RecordingSession, start, stop, on_sample}
use gambit_record.Recorder.SegmentStore.{Disk, Snapshot}
use gambit_record.Recorder.ReplayBuffer.{
  ReplayBuffer, SaveResult, is_running, start as start_replay, stop as stop_replay,
  on_sample as replay_sample, save,
}
use gambit_record.Recorder.UploadQueue.{UploadQueue, File, Archive, enqueue, enforce_archive_limit}

-- `task` is the save under way, `save_valid` whether its future is still to be collected.
pub record Application : Type 0 where
  pub config : Config
  pub recording : RecordingSession
  pub replay : ReplayBuffer
  pub uploads : UploadQueue
  pub stream : StreamDescription
  pub capture_state : CaptureState
  pub last_encoded_frame_tick : ℕ
  pub save_valid : Bool
  pub task : Option Snapshot
  pub last_save : Option SaveResult
  pub save_generation : ℕ

pub record Reply : Type 0 where
  pub success : Bool
  pub error : Text
  pub message : Text
  pub path : FilePath
  pub upload_queued : Option Bool
  pub upload_id : Text
  pub upload_error : Text
  pub save_id : ℕ

unfoldable pub reply : Bool → Text → Text → Reply
reply success error message = record {
  success = success;
  error = error;
  message = message;
  path = [];
  upload_queued = none;
  upload_id = [];
  upload_error = [];
  save_id = 0;
}

is_capturing : CaptureState → Bool
is_capturing CaptureState.running = true
is_capturing _ = false

-- `now` is the tick count of the system.
unfoldable pub capture_ready : ℕ → Application → Bool
unfolding is_capturing
capture_ready now a =
    is_capturing a.capture_state
    && not (a.last_encoded_frame_tick == 0)
    && ltb (now - a.last_encoded_frame_tick) 3000
    && not (a.stream.width == 0)

-- `on_encoded`: each sample goes to the replay buffer and to the recording.
unfoldable pub on_encoded : Disk → Calls → Text → EncodedSample → Application → Application
on_encoded disk calls timestamp sample a = record a {
  replay = replay_sample disk sample a.replay;
  recording = on_sample calls timestamp sample a.recording;
}

unfoldable pub record_start : ℕ → EvidenceMetadata → Application → Application × Reply
unfolding literal reply
record_start now metadata a =
    let s = start metadata a.stream a.recording in
    if not (capture_ready now a)
    then (a, reply false (literal "CAPTURE_NOT_READY") (literal "Game capture is still starting"))
    else (
      record a { recording = s.0 },
      reply s.1 []
          (if s.1 then literal "Recording start requested" else literal "Recording already active"),
    )

-- What `record_stop` finds: Media Foundation, whether the build has a key, the new job's id and time,
-- and the files of the archive.
pub record Outside : Type 0 where
  pub calls : Calls
  pub has_key : Bool
  pub id : Text
  pub now : ℕ
  pub equivalent : FilePath → FilePath → Bool
  pub removes : FilePath → Bool
  pub sorted : List File

abbrev pub gibibytes : ℕ → ℕ
gibibytes n = n * 1024 * 1024 * 1024

-- What `record_stop` leaves, with its answer and what it did to the archive.
pub record Stopped : Type 0 where
  pub application : Application
  pub answer : Reply
  pub archive : Option Archive

unfoldable pub may_upload : Outside → Bool → Application → Bool
may_upload o upload_requested a =
    upload_requested
    && a.config.broker.enabled
    && not (is_empty a.config.broker.endpoint)
    && o.has_key

-- The upload and the limit of the archive, once a path is there.
unfoldable pub stopped_at : Outside → Bool → EvidenceMetadata → Application → FilePath → Stopped
unfolding literal reply
stopped_at o upload_requested metadata a path =
    let queued = not (is_empty path) && may_upload o upload_requested a in
    let a' =
      if queued then record a { uploads = enqueue o.id o.now path metadata a.uploads } else a in
    record {
      application = a';
      answer =
          record (reply (not (is_empty path)) [] (
            if is_empty path
            then literal "Recording stop failed"
            else literal "Recording stopped")) {
              path = path;
              upload_queued = some queued;
              upload_id = if queued then o.id else [];
              upload_error =
                  if queued || not upload_requested
                  then []
                  else if not a.config.broker.enabled
                  then literal "YOUTUBE_DISABLED"
                  else literal "YOUTUBE_NOT_CONFIGURED";
            };
      archive =
          if is_empty path
          then none
          else some (
              enforce_archive_limit o.equivalent o.removes o.sorted
                (gibibytes a.config.recording.archive_limit_gb) path a'.uploads);
    }

unfoldable pub record_stop : Outside → Bool → EvidenceMetadata → Application → Stopped
unfolding literal reply
record_stop o upload_requested metadata a =
    let s = stop o.calls a.recording in
    if is_stopped a.recording.state
    then record {
      application = a;
      answer = reply false (literal "NOT_RECORDING") (literal "Recording is not active");
      archive = none;
    }
    else stopped_at o upload_requested metadata (record a { recording = s.0 }) s.1

unfoldable pub replay_start : Application → Application × Reply
unfolding literal reply
replay_start a =
    let s = start_replay a.replay in
    (
      record a { replay = s.0 },
      reply s.1 []
          (if s.1 then literal "Replay buffer started" else literal "Replay buffer already active"),
    )

unfoldable pub replay_stop : Application → Application × Reply
unfolding literal reply
replay_stop a =
    let s = stop_replay a.replay in
    (
      record a { replay = s.0 },
      reply s.1 [] (
          if s.1
          then literal "Replay buffer stopped"
          else literal "Replay buffer is stopped or saving"),
    )

-- Whether the marker can be written is a parameter.
unfoldable pub marker : Bool → Application → Application × Reply
unfolding literal reply
marker writes a =
    if is_stopped a.recording.state
    then (a, reply false (literal "NOT_RECORDING") [])
    else if not writes
    then (a, reply false (literal "MARKER_WRITE_FAILED") [])
    else (a, reply true [] [])

unfoldable pub replay_save : ℕ → Application → Application × Reply
unfolding literal reply
replay_save now a =
    let s = save a.replay in
    if not (is_running a.replay.state)
    then (a, reply false (literal "REPLAY_NOT_RUNNING") (literal "Replay buffer is not running"))
    else if not (capture_ready now a)
    then (
      a,
      reply false (literal "CAPTURE_NOT_READY") (literal "No recent encoded video is available"),
    )
    else if a.save_valid
    then (
      a,
      reply false (literal "SAVE_IN_PROGRESS") (literal "Replay save is already in progress"),
    )
    else (
      record a {
        last_save = none;
        replay = s.0;
        task = s.1;
        save_valid = true;
        save_generation = a.save_generation + 1;
      },
      record (reply true [] (literal "Replay save started")) { save_id = a.save_generation + 1 },
    )

-- A future that is ready is collected once.
unfoldable pub collect_save_result : Option SaveResult → Application → Application
collect_save_result none a = a
collect_save_result (some result) a =
    if a.save_valid
    then record a { save_valid = false; last_save = some result; task = none }
    else a
