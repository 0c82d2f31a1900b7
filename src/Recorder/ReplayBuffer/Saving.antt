-- ===== src/Recorder/ReplayBuffer/Saving.antt =====
-- The states and the saved file of recorder/src/replay/ReplayBuffer.cpp.
use gambit_record.Common.{
  ℕ, Bool, true, false, not, ◌&&◌, List, [], ◌∷◌, none, some, if◌then◌else◌, arith, ◌≡◌, ◌≢◌, refl,
}
use gambit_record.Recorder.Media.{EncodedSample}
use gambit_record.Recorder.Files.{FilePath}
use gambit_record.Recorder.Mp4Muxer.{Muxed}
use gambit_record.Recorder.SegmentStore.{Disk, Thrown, append}
use gambit_record.Recorder.ReplayBuffer.{
  ReplayBuffer, is_saving, is_running, replay_buffer, start, stop, reset, on_sample,
  stored_or_error, save, save_done,
}

pub data Event : Type 0 where
  start_event stop_event reset_event save_event done_event : Event
  sample_event : Disk → EncodedSample → Event

-- A task ends only where one was started.
abbrev pub step : Event → ReplayBuffer → ReplayBuffer
step start_event b = (start b).0
step stop_event b = (stop b).0
step reset_event b = reset b
step save_event b = (save b).0
step done_event b = if b.save_active then save_done b else b
step (sample_event disk s) b = on_sample disk s b

abbrev pub run : List Event → ReplayBuffer → ReplayBuffer
run [] b = b
run (e ∷ events) b = run events (step e b)

-- A buffer that is saving has a task.
abbrev pub HasTask : ReplayBuffer → Type 0
HasTask b = (is_saving b.state && not b.save_active) ≡ false

sample-HasTask : (b : ReplayBuffer) (t : Thrown) → HasTask b → HasTask (stored_or_error b t)
unfolding stored_or_error
sample-HasTask b (store, none) h = h
sample-HasTask b (store, some e) h = refl

step-HasTask : (e : Event) (b : ReplayBuffer) → HasTask b → HasTask (step e b)
unfolding start stop reset save save_done on_sample
step-HasTask start_event b h = ground (arith, h)
step-HasTask stop_event b h = ground (arith, h)
step-HasTask reset_event b h = h
step-HasTask save_event b h = ground (arith, h)
step-HasTask done_event b h = ground (arith, h)
step-HasTask (sample_event disk s) b h =
    choose (not (is_running b.state) && not (is_saving b.state))
  where
    choose : (q : Bool) → HasTask (if q then b else stored_or_error b (append disk s b.store))
    choose true = h
    choose false = sample-HasTask b (append disk s b.store) h

run-keeps : (events : List Event) (b : ReplayBuffer) → HasTask b → HasTask (run events b)
run-keeps [] b h = h
run-keeps (e ∷ events) b h = run-keeps events (step e b) (step-HasTask e b h)

-- What the end of the task makes of a buffer: no task and no saving, and a buffer that was saving runs
-- and accepts the next save.
pub record IsDone (b b' : ReplayBuffer) : Type 0 where
  pub no_task : b'.save_active ≡ false
  pub not_saving : is_saving b'.state ≡ false
  pub runs : is_saving b.state ≡ true → is_running b'.state ≡ true
  pub next_save : is_saving b.state ≡ true → (save b').1 ≢ none

task_ends : (b : ReplayBuffer) → HasTask b → IsDone b (step done_event b)
unfolding save_done save
task_ends b h = record {
  no_task = ground (arith, h);
  not_saving = ground (arith, h);
  runs = λ k. ground (arith, h, k);
  next_save = λ k. ground (arith, h, k);
}

-- After any calls of a new buffer, the end of the task that it has leaves no task and no saving: a
-- buffer that was saving has such a task, and then runs and accepts the next save.
pub run-IsDone :
    (events : List Event) (output : FilePath) (seconds segment_seconds : ℕ) (disk : Bool)
    → (let b = run events (replay_buffer output seconds segment_seconds disk) in
        IsDone b (step done_event b))
unfolding replay_buffer
run-IsDone events output seconds segment_seconds disk =
    task_ends (run events (replay_buffer output seconds segment_seconds disk))
      (run-keeps events (replay_buffer output seconds segment_seconds disk) refl)

-- An open file that has these samples.
abbrev at : Bool → List EncodedSample → Muxed
at has_audio written = record {
  muxer = record { writer = true; audio_stream = has_audio; finalized = false; written = written };
  threw = false;
}
