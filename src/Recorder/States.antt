-- ===== src/Recorder/States.antt =====
-- recorder/src/common/States.hpp.
use gambit_record.Common.{Bool, true, false, Text, literal}

pub data CaptureState : Type 0 where
  waiting_for_game starting running restarting error : CaptureState

pub data RecordingState : Type 0 where
  stopped waiting_for_keyframe recording stopping error : RecordingState

pub data ReplayState : Type 0 where
  stopped starting running saving error : ReplayState

pub CaptureState-discrete : Discrete CaptureState
CaptureState-discrete = hlevel

-- `to_string` of the three states.
unfoldable pub capture_text : CaptureState → Text
unfolding literal
capture_text CaptureState.waiting_for_game = literal "waiting_for_game"
capture_text CaptureState.starting = literal "starting"
capture_text CaptureState.running = literal "running"
capture_text CaptureState.restarting = literal "restarting"
capture_text CaptureState.error = literal "error"

unfoldable pub recording_text : RecordingState → Text
unfolding literal
recording_text RecordingState.stopped = literal "stopped"
recording_text RecordingState.waiting_for_keyframe = literal "waiting_for_keyframe"
recording_text RecordingState.recording = literal "recording"
recording_text RecordingState.stopping = literal "stopping"
recording_text RecordingState.error = literal "error"

unfoldable pub replay_text : ReplayState → Text
unfolding literal
replay_text ReplayState.stopped = literal "stopped"
replay_text ReplayState.starting = literal "starting"
replay_text ReplayState.running = literal "running"
replay_text ReplayState.saving = literal "saving"
replay_text ReplayState.error = literal "error"

-- `state == …` on the states that the code compares.
abbrev pub is_stopped : RecordingState → Bool
is_stopped RecordingState.stopped = true
is_stopped _ = false
