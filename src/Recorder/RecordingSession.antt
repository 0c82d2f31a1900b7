-- ===== src/Recorder/RecordingSession.antt =====
-- recorder/src/recording/RecordingSession.cpp and RecordingSession.hpp. A call is one step here: the
-- lock that `start` takes only behind its exchange of the state is not modelled.
pub mod Written
pub mod States
use gambit_record.Common.{
  Bool, true, false, not, ◌&&◌, Option, none, some, List, [], if◌then◌else◌, ℤ, pos, ◌+ℤ◌, ◌-ℤ◌,
  ltb_ℤ, leb_ℤ, max_ℤ, Text, literal,
}
use gambit_record.Recorder.Media.{
  EncodedSample, StreamDescription, EvidenceMetadata, no_stream, no_metadata,
}
use gambit_record.Recorder.States.{RecordingState, is_stopped}
use gambit_record.Recorder.Files.{FilePath, evidence_filename}
use gambit_record.Recorder.Select.{is_key}
use gambit_record.Recorder.Mp4Muxer.{Mp4Muxer, Muxed, Calls, new_muxer, open_file, write, finalize}

pub record RecordingSession : Type 0 where
  pub directory : FilePath
  pub muxer : Option Mp4Muxer
  pub pending_description : StreamDescription
  pub pending_metadata : EvidenceMetadata
  pub path : FilePath
  pub base_pts : ℤ
  pub duration_hns : ℤ
  pub state : RecordingState

unfoldable pub recording_session : FilePath → RecordingSession
recording_session directory = record {
  directory = directory;
  muxer = none;
  pending_description = no_stream;
  pending_metadata = no_metadata;
  path = [];
  base_pts = pos 0;
  duration_hns = pos 0;
  state = RecordingState.stopped;
}

unfoldable pub start :
    EvidenceMetadata → StreamDescription → RecordingSession → RecordingSession × Bool
start metadata description st = if not (is_stopped st.state) then (st, false) else (
  record st {
    state = RecordingState.waiting_for_keyframe;
    pending_metadata = metadata;
    pending_description = description;
    path = [];
    duration_hns = pos 0;
  },
  true,
)

-- The handler of an exception: the muxer goes, and with it its writer.
unfoldable pub fail : RecordingSession → RecordingSession
fail st = record st { state = RecordingState.error; muxer = none }

unfoldable pub wrote : EncodedSample → RecordingSession → Muxed → RecordingSession
wrote rebased st w = if w.threw then fail (record st { muxer = some w.muxer }) else record st {
  muxer = some w.muxer;
  duration_hns = max_ℤ st.duration_hns (rebased.pts +ℤ rebased.duration);
}

-- The second `if` of `on_sample`; a session that records has a muxer.
unfoldable pub record_sample :
    Calls → EncodedSample → RecordingSession → Option Mp4Muxer → RecordingSession
record_sample calls sample st none = st
record_sample calls sample st (some m) =
    let rebased = record sample { pts = sample.pts -ℤ st.base_pts } in
    if leb_ℤ st.base_pts sample.pts then wrote rebased st (write calls rebased m) else st

unfoldable pub opened : Calls → EncodedSample → RecordingSession → Muxed → RecordingSession
opened calls sample st o =
    if o.threw
    then fail (record st { muxer = some o.muxer })
    else record_sample calls sample
        (record st { muxer = some o.muxer; state = RecordingState.recording }) (some o.muxer)

-- The first `if`: a video keyframe opens the file.
unfoldable pub await_keyframe : Calls → Text → EncodedSample → RecordingSession → RecordingSession
unfolding literal
await_keyframe calls timestamp sample st =
    if not (is_key sample)
    then st
    else opened calls sample
        (record st {
          path = evidence_filename timestamp st.directory st.pending_metadata (literal "record");
          base_pts = sample.pts;
        })
        (open_file calls st.pending_description new_muxer)

on_state : Calls → Text → EncodedSample → RecordingSession → RecordingState → RecordingSession
on_state calls timestamp sample st RecordingState.waiting_for_keyframe =
    await_keyframe calls timestamp sample st
on_state calls timestamp sample st RecordingState.recording = record_sample calls sample st st.muxer
on_state calls timestamp sample st RecordingState.stopped = st
on_state calls timestamp sample st RecordingState.stopping = st
on_state calls timestamp sample st RecordingState.error = st

unfoldable pub on_sample : Calls → Text → EncodedSample → RecordingSession → RecordingSession
unfolding on_state
on_sample calls timestamp sample st = on_state calls timestamp sample st st.state

-- `stop` behind the finalization: an exception keeps the muxer.
unfoldable pub finished : RecordingSession → Muxed → RecordingSession × FilePath
finished st f =
    if f.threw
    then (record st { state = RecordingState.error; muxer = some f.muxer }, [])
    else (record st { state = RecordingState.stopped; muxer = none }, st.path)

unfoldable pub stop_muxer : Calls → RecordingSession → Option Mp4Muxer → RecordingSession × FilePath
stop_muxer calls st none = (record st { state = RecordingState.stopped }, st.path)
stop_muxer calls st (some m) = finished st (finalize calls m)

unfoldable pub stop : Calls → RecordingSession → RecordingSession × FilePath
stop calls st =
    if is_stopped st.state
    then (st, [])
    else let stopping = record st { state = RecordingState.stopping } in
      stop_muxer calls stopping stopping.muxer
