-- ===== src/Recorder/StoreTests.antt =====
-- The theorems about the replay segments and the recordings at concrete inputs.
use gambit_record.Common.{true, false, ◌≡◌, refl, List, [], ◌∷◌, ◌++◌, none, some, arith, pos, ◌+ℤ◌}
use gambit_record.Recorder.Media.{EncodedSample, StreamDescription, no_stream, no_metadata}
use gambit_record.Recorder.States.{RecordingState}
use gambit_record.Recorder.Files.{FilePath}
use gambit_record.Recorder.SegmentStore.{
  Segment, SegmentStore, Snapshot, Disk, samples, read, append,
}
use gambit_record.Recorder.SegmentStore.File.{IsStorable, file_bytes, read-file_bytes}
use gambit_record.Recorder.SegmentStore.Retention.{KeepsWindow, append-KeepsWindow}
use gambit_record.Recorder.Select.{find_key}
use gambit_record.Recorder.RecordingSession.{recording_session, start}
use gambit_record.Recorder.RecordingSession.Written.{feed, fine, recorded, start-feed}
use gambit_record.Recorder.RecordingSession.States.{
  IsConsistent, start_event, sample_event, stop_event, run as run_session, run-IsConsistent,
}
use gambit_record.Recorder.ReplayBuffer.{ReplayBuffer, replay_buffer}
use gambit_record.Recorder.ReplayBuffer.Saving.{
  IsDone, start_event as begin_event, save_event, done_event, step as step_replay,
  run as run_replay, run-IsDone,
}

abbrev key_frame : EncodedSample
key_frame = record {
  track = 1;
  pts = pos 5000;
  duration = pos 400;
  keyframe = true;
  bytes = some (1 ∷ 2 ∷ 3 ∷ []);
}

abbrev sound : EncodedSample
sound = record {
  track = 2;
  pts = pos 4900;
  duration = pos 300;
  keyframe = false;
  bytes = some (7 ∷ []);
}

abbrev later_frame : EncodedSample
later_frame = record {
  track = 1;
  pts = pos 5400;
  duration = pos 400;
  keyframe = false;
  bytes = some (4 ∷ []);
}

abbrev three : List EncodedSample
three = sound ∷ key_frame ∷ later_frame ∷ []

abbrev allowed : FilePath
allowed = (1 ∷ []) ∷ []

storable : IsStorable key_frame
storable = record {
  track_fits = omega arith;
  pts_fits = ground arith;
  duration_fits = ground arith;
  held = refl;
  size_fits = omega arith;
}

abbrev on_disk : Segment
on_disk = record {
  disk = true;
  contents = file_bytes (key_frame ∷ []) ++ (0x45 ∷ 0x53 ∷ []);
  memory_samples = [];
  first_pts = pos 5000;
  last_pts = pos 5400;
}

read-file_bytes_example : read on_disk ≡ samples (key_frame ∷ [])
read-file_bytes_example =
    read-file_bytes on_disk (key_frame ∷ []) (0x45 ∷ 0x53 ∷ []) refl refl (storable, tt)
      (omega arith)

abbrev in_memory : Segment
in_memory = record {
  disk = false;
  contents = [];
  memory_samples = three;
  first_pts = pos 4900;
  last_pts = pos 5800;
}

abbrev one_segment : SegmentStore
one_segment = record {
  retention_hns = pos 100;
  segment_hns = pos 50;
  disk = false;
  sealed = in_memory ∷ [];
  active = none;
  file_failed = false;
  sequence = 0;
}

abbrev next_key : EncodedSample
next_key = record key_frame { pts = pos 6000 }

abbrev some_disk : Disk
some_disk = record { opens = true; accepts = 100 }

append-KeepsWindow_example :
    KeepsWindow next_key one_segment (append some_disk next_key one_segment)
unfolding ◌+ℤ◌
append-KeepsWindow_example =
    append-KeepsWindow some_disk next_key one_segment
      (record {
        in_memory = refl;
        sealed_covers = ((omega arith, (omega arith, (omega arith, tt))), tt);
        active_covers = tt;
      })
      refl

abbrev as_is : List EncodedSample → List EncodedSample
as_is xs = xs

abbrev snapshot_of : Snapshot
snapshot_of = record { segments = in_memory ∷ []; available_hns = pos 900 }

abbrev stream : StreamDescription
stream = record no_stream { width = 640; height = 480; has_audio = true }

stopped_session : (recording_session allowed).state ≡ RecordingState.stopped
unfolding recording_session
stopped_session = refl

start-feed_example :
    feed (1 ∷ []) three (start no_metadata stream (recording_session allowed)).0
    ≡ recorded (1 ∷ []) no_metadata stream (recording_session allowed) (find_key three)
start-feed_example =
    start-feed (1 ∷ []) no_metadata stream (recording_session allowed) three stopped_session

run-IsConsistent_example : IsConsistent (
    run_session
      (start_event no_metadata stream ∷ sample_event fine (1 ∷ []) key_frame ∷ stop_event fine ∷ [])
      (recording_session allowed))
run-IsConsistent_example =
    run-IsConsistent
      (start_event no_metadata stream ∷ sample_event fine (1 ∷ []) key_frame ∷ stop_event fine ∷ [])
      allowed

abbrev saving : ReplayBuffer
saving = run_replay (begin_event ∷ save_event ∷ []) (replay_buffer allowed 600 10 false)

run-IsDone_example : IsDone saving (step_replay done_event saving)
run-IsDone_example = run-IsDone (begin_event ∷ save_event ∷ []) allowed 600 10 false

abbrev replayed : List EncodedSample
replayed = record key_frame { pts = pos 0 } ∷ record later_frame { pts = pos 400 } ∷ []
