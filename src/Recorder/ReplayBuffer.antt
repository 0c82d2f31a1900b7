-- ===== src/Recorder/ReplayBuffer.antt =====
-- recorder/src/replay/ReplayBuffer.cpp and ReplayBuffer.hpp. `save` starts a task: the task's work is
-- `save_file`, its last block is `save_done`. Each block that holds a mutex is one step.
pub mod Saving
use gambit_record.Common.{
  ℕ, ◌*◌, Bool, true, false, not, ◌&&◌, ◌||◌, List, [], ◌∷◌, Option, none, some, if◌then◌else◌, ℤ,
  pos, ◌+ℤ◌, Text, literal,
}
use gambit_record.Recorder.Media.{
  EncodedSample, EvidenceMetadata, StreamDescription, hns_per_second,
}
use gambit_record.Recorder.States.{ReplayState}
use gambit_record.Recorder.Files.{FilePath}
use gambit_record.Recorder.Mp4Muxer.{Mp4Muxer, Muxed, Calls, new_muxer, open_file, write, finalize}
use gambit_record.Recorder.SegmentStore.{
  SegmentStore, Snapshot, Disk, Thrown, Parsed, samples, failure, segment_store, append, snapshot,
  clear,
}
use gambit_record.Recorder.Select.{select_replay_samples}

pub record ReplayBuffer : Type 0 where
  pub store : SegmentStore
  pub output : FilePath
  pub seconds : ℕ
  pub state : ReplayState
  pub save_active : Bool

unfoldable pub replay_buffer : FilePath → ℕ → ℕ → Bool → ReplayBuffer
replay_buffer output seconds segment_seconds disk = record {
  store =
      segment_store (pos (seconds * hns_per_second)) (pos (segment_seconds * hns_per_second)) disk;
  output = output;
  seconds = seconds;
  state = ReplayState.stopped;
  save_active = false;
}

-- `state == …` for the three states that are compared.
abbrev pub is_stopped : ReplayState → Bool
is_stopped ReplayState.stopped = true
is_stopped _ = false

abbrev pub is_running : ReplayState → Bool
is_running ReplayState.running = true
is_running _ = false

abbrev pub is_saving : ReplayState → Bool
is_saving ReplayState.saving = true
is_saving _ = false

abbrev pub is_error : ReplayState → Bool
is_error ReplayState.error = true
is_error _ = false

unfoldable pub start : ReplayBuffer → ReplayBuffer × Bool
start b =
    if is_stopped b.state then (record b { state = ReplayState.running }, true) else (b, false)

unfoldable pub stop : ReplayBuffer → ReplayBuffer × Bool
stop b =
    if is_stopped b.state
    then (b, false)
    else if is_saving b.state
    then (b, false)
    else (record b { store = clear b.store; state = ReplayState.stopped }, true)

unfoldable pub reset : ReplayBuffer → ReplayBuffer
reset b = record b { store = clear b.store }

unfoldable pub stored_or_error : ReplayBuffer → Thrown → ReplayBuffer
stored_or_error b (store, none) = record b { store = store }
stored_or_error b (store, some e) = record b { store = store; state = ReplayState.error }

unfoldable pub on_sample : Disk → EncodedSample → ReplayBuffer → ReplayBuffer
unfolding stored_or_error
on_sample disk sample b =
    if not (is_running b.state) && not (is_saving b.state)
    then b
    else stored_or_error b (append disk sample b.store)

-- The first block of `save`: what the task starts with, or nothing where it is refused.
unfoldable pub save : ReplayBuffer → ReplayBuffer × Option Snapshot
save b =
    if not (is_running b.state) || b.save_active
    then (b, none)
    else let s = snapshot b.store in
      (record b { store = s.0; save_active = true; state = ReplayState.saving }, some s.1)

-- The last block of the task.
unfoldable pub save_done : ReplayBuffer → ReplayBuffer
save_done b = record b {
  save_active = false;
  state = if is_error b.state then b.state else ReplayState.running;
}

pub data SaveError : Type 0 where
  unreadable no_keyframe muxer_failed : SaveError

-- A result: the duration, or an error, with the file that was written.
pub record SaveResult : Type 0 where
  pub success : Bool
  pub duration_hns : ℤ
  pub error : Option SaveError
  pub file : Mp4Muxer

failed : SaveError → Mp4Muxer → SaveResult
failed e m = record { success = false; duration_hns = pos 0; error = some e; file = m }

unfoldable pub write_all : Calls → List EncodedSample → Muxed → Muxed
write_all calls [] w = w
write_all calls (s ∷ rest) w = if w.threw then w else write_all calls rest (write calls s w.muxer)

unfoldable pub end_of_last : EncodedSample → List EncodedSample → ℤ
end_of_last s [] = s.pts +ℤ s.duration
end_of_last s (t ∷ rest) = end_of_last t rest

unfoldable pub close_file : Calls → ℤ → Muxed → SaveResult
unfolding failed
close_file calls duration w =
    let f = finalize calls w.muxer in
    if w.threw
    then failed muxer_failed w.muxer
    else if f.threw
    then failed muxer_failed f.muxer
    else record { success = true; duration_hns = duration; error = none; file = f.muxer }

unfoldable pub mux : Calls → StreamDescription → List EncodedSample → SaveResult
unfolding failed close_file
mux calls description [] = failed no_keyframe new_muxer
mux calls description (s ∷ rest) =
    close_file calls (end_of_last s rest)
      (write_all calls (s ∷ rest) (open_file calls description new_muxer))

unfoldable pub mux_parsed : Calls → StreamDescription → Parsed → SaveResult
unfolding failed mux
mux_parsed calls description (failure e) = failed unreadable new_muxer
mux_parsed calls description (samples selected) = mux calls description selected

-- The task's work on its snapshot.
unfoldable pub save_file :
    (List EncodedSample → List EncodedSample)
    → Calls
    → ℕ
    → StreamDescription
    → Snapshot
    → SaveResult
unfolding mux_parsed
save_file sort calls seconds description snapshot =
    mux_parsed calls description
      (select_replay_samples sort snapshot (pos (seconds * hns_per_second)))
