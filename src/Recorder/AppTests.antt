-- ===== src/Recorder/AppTests.antt =====
-- The theorems about the application, the pipe and the capture at concrete inputs.
use gambit_record.Common.{◌==◌, refl, true, false, List, [], ◌∷◌, none, some, length}
use gambit_record.Recorder.Media.{no_stream, no_metadata}
use gambit_record.Recorder.States.{CaptureState, RecordingState}
use gambit_record.Recorder.Files.{FilePath}
use gambit_record.Recorder.Config.{default_config}
use gambit_record.Recorder.RecordingSession.{recording_session}
use gambit_record.Recorder.RecordingSession.Written.{fine}
use gambit_record.Recorder.ReplayBuffer.{replay_buffer}
use gambit_record.Recorder.UploadQueue.{upload_queue}
use gambit_record.Recorder.Application.Commands.{Application, Outside, record_stop}
use gambit_record.Recorder.Application.Stop.{Spares, record_stop-Spares}
use gambit_record.Recorder.CaptureManager.{
  Backends, marks_state, marks_failed, monitor, capture_manager,
}
use gambit_record.Recorder.CaptureManager.Running.{
  Event, IsConnected, IsHealed, round, report, run, run-IsConnected,
}

abbrev records : FilePath
records = (1 ∷ []) ∷ []

abbrev app : Application
app = record {
  config = default_config;
  recording = record (recording_session records) {
    state = RecordingState.waiting_for_keyframe;
    path = (1 ∷ []) ∷ (2 ∷ []) ∷ [];
  };
  replay = replay_buffer records 600 10 false;
  uploads = upload_queue default_config.broker;
  stream = no_stream;
  capture_state = CaptureState.running;
  last_encoded_frame_tick = 10;
  save_valid = false;
  task = none;
  last_save = none;
  save_generation = 0;
}

abbrev outside : Outside
outside = record {
  calls = fine;
  has_key = true;
  id = 7 ∷ [];
  now = 100;
  equivalent = λ p q. length p == length q;
  removes = λ p. true;
  sorted =
      record { path = records; size = 30000000000 }
      ∷ record { path = (1 ∷ []) ∷ (2 ∷ []) ∷ []; size = 9 }
      ∷ [];
}

record_stop-Spares_example : Spares outside (record_stop outside true no_metadata app)
record_stop-Spares_example = record_stop-Spares outside true no_metadata app

abbrev all_start : Backends
all_start = record {
  supported = true;
  wgc_starts = true;
  duplication_starts = true;
  first_reports = [];
  second_reports = [];
  last_reports = [];
}

-- The backend is interrupted while it starts.
abbrev interrupted_start : Backends
interrupted_start = record all_start { first_reports = marks_state ∷ marks_failed ∷ [] }

abbrev connecting : List Event
connecting = round interrupted_start (some 4) true ∷ report marks_state ∷ report marks_failed ∷ []

run-IsConnected_example :
    IsConnected (run connecting (capture_manager true))
    × IsHealed 4 (monitor all_start (some 4) true (run connecting (capture_manager true)))
run-IsConnected_example =
    run-IsConnected connecting true all_start 4
      (record { starts = refl; first_calm = refl; second_calm = refl; last_calm = refl })
