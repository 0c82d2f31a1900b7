-- ===== src/Recorder/RecordingSession/States.antt =====
-- The states of recorder/src/recording/RecordingSession.cpp in any sequence of calls.
use gambit_record.Common.{
  Bool, true, false, not, Option, none, some, List, [], ◌∷◌, if◌then◌else◌, ◌-ℤ◌, leb_ℤ, Text,
  arith, ◌≡◌, refl, sym, subst, Bool-cases, inl, inr,
}
use gambit_record.Recorder.Media.{EncodedSample, StreamDescription, EvidenceMetadata}
use gambit_record.Recorder.States.{RecordingState, is_stopped}
use gambit_record.Recorder.Files.{FilePath}
use gambit_record.Recorder.Select.{is_key}
use gambit_record.Recorder.Mp4Muxer.{Mp4Muxer, Muxed, Calls, new_muxer, open_file, write, finalize}
use gambit_record.Recorder.RecordingSession.{
  RecordingSession, recording_session, start, fail, wrote, record_sample, opened, await_keyframe,
  on_sample, on_state, finished, stop_muxer, stop,
}

-- The muxer that a session in some state has.
abbrev pub Holds : RecordingState → Option Mp4Muxer → Type 0
Holds RecordingState.stopped none = Unit
Holds RecordingState.stopped (some m) = ⊥
Holds RecordingState.waiting_for_keyframe none = Unit
Holds RecordingState.waiting_for_keyframe (some m) = ⊥
Holds RecordingState.recording none = ⊥
Holds RecordingState.recording (some m) = (m.writer ≡ true) × (m.finalized ≡ false)
Holds RecordingState.stopping o = ⊥
Holds RecordingState.error none = Unit
Holds RecordingState.error (some m) = m.finalized ≡ true

abbrev pub IsConsistent : RecordingSession → Type 0
IsConsistent st = Holds st.state st.muxer

pub data Event : Type 0 where
  start_event : EvidenceMetadata → StreamDescription → Event
  sample_event : Calls → Text → EncodedSample → Event
  stop_event : Calls → Event

abbrev pub step : Event → RecordingSession → RecordingSession
step (start_event m d) st = (start m d st).0
step (sample_event calls timestamp s) st = on_sample calls timestamp s st
step (stop_event calls) st = (stop calls st).0

abbrev pub run : List Event → RecordingSession → RecordingSession
run [] st = st
run (e ∷ events) st = run events (step e st)

stopped-Holds :
    (s : RecordingState) (o : Option Mp4Muxer)
    → Holds s o
    → is_stopped s ≡ true
    → Holds RecordingState.waiting_for_keyframe o
stopped-Holds RecordingState.stopped none h e = tt
stopped-Holds RecordingState.stopped (some m) h e = elim h [ ]
stopped-Holds RecordingState.waiting_for_keyframe o h e = absurd (ground (arith, e))
stopped-Holds RecordingState.recording o h e = absurd (ground (arith, e))
stopped-Holds RecordingState.stopping o h e = elim h [ ]
stopped-Holds RecordingState.error o h e = absurd (ground (arith, e))

start-IsConsistent :
    (m : EvidenceMetadata) (d : StreamDescription) (st : RecordingSession)
    → IsConsistent st
    → IsConsistent (start m d st).0
unfolding start
start-IsConsistent m d st h = elim (Bool-cases (is_stopped st.state)) [
  | inl e ↦ ground (arith, e, stopped-Holds st.state st.muxer h e)
  | inr e ↦ ground (arith, e, h)
]

abbrev IsOpen : Mp4Muxer → Type 0
IsOpen m = (m.writer ≡ true) × (m.finalized ≡ false)

write-IsOpen :
    (calls : Calls) (s : EncodedSample) (m : Mp4Muxer) → IsOpen m → IsOpen (write calls s m).muxer
unfolding write
write-IsOpen calls s m h = (ground (arith, h.0, h.1), ground (arith, h.0, h.1))

if-IsConsistent :
    (b : Bool) (x y : RecordingSession)
    → IsConsistent x
    → IsConsistent y
    → IsConsistent (if b then x else y)
if-IsConsistent true x y h k = h
if-IsConsistent false x y h k = k

wrote-IsConsistent :
    (s : EncodedSample) (st : RecordingSession) (w : Muxed)
    → st.state ≡ RecordingState.recording
    → IsOpen w.muxer
    → IsConsistent (wrote s st w)
unfolding wrote fail
wrote-IsConsistent s st w e o =
    if-IsConsistent w.threw _ _ tt (subst (λ x. Holds x (some w.muxer)) (sym e) o)

record_sample-IsConsistent :
    (calls : Calls) (s : EncodedSample) (st : RecordingSession) (o : Option Mp4Muxer)
    → st.state ≡ RecordingState.recording
    → st.muxer ≡ o
    → IsConsistent st
    → IsConsistent (record_sample calls s st o)
unfolding record_sample
record_sample-IsConsistent calls s st none e f h = h
record_sample-IsConsistent calls s st (some m) e f h =
    let held : IsOpen m =
      subst (λ o. Holds RecordingState.recording o) f (subst (λ x. Holds x st.muxer) e h) in
    if-IsConsistent (leb_ℤ st.base_pts s.pts) _ _
      (wrote-IsConsistent (record s { pts = s.pts -ℤ st.base_pts }) st _ e
        (write-IsOpen calls _ m held))
      h

opened-IsConsistent :
    (calls : Calls) (s : EncodedSample) (st : RecordingSession) (o : Muxed) (b : Bool)
    → o.threw ≡ b
    → (b ≡ false → IsOpen o.muxer)
    → IsConsistent (opened calls s st o)
unfolding opened fail
opened-IsConsistent calls s st o true e f = ground (arith, e)
opened-IsConsistent calls s st o false e f = if-IsConsistent o.threw _ _ tt (
    record_sample-IsConsistent calls s
      (record st { muxer = some o.muxer; state = RecordingState.recording }) (some o.muxer) refl
      refl (f refl))

open_file-IsOpen :
    (calls : Calls) (d : StreamDescription) (m : Mp4Muxer)
    → (open_file calls d m).threw ≡ false
    → IsOpen (open_file calls d m).muxer
unfolding open_file
open_file-IsOpen calls d m e = (ground (arith, e), ground (arith, e))

on_state-IsConsistent :
    (calls : Calls) (timestamp : Text) (s : EncodedSample) (st : RecordingSession)
    (x : RecordingState)
    → st.state ≡ x
    → IsConsistent st
    → IsConsistent (on_state calls timestamp s st x)
unfolding on_state await_keyframe
on_state-IsConsistent calls timestamp s st RecordingState.waiting_for_keyframe e h =
    if-IsConsistent (not (is_key s)) _ _ h (
      opened-IsConsistent calls s _ (open_file calls st.pending_description new_muxer) _ refl
        (open_file-IsOpen calls st.pending_description new_muxer))
on_state-IsConsistent calls timestamp s st RecordingState.recording e h =
    record_sample-IsConsistent calls s st st.muxer e refl h
on_state-IsConsistent calls timestamp s st RecordingState.stopped e h = h
on_state-IsConsistent calls timestamp s st RecordingState.stopping e h = h
on_state-IsConsistent calls timestamp s st RecordingState.error e h = h

finalize-finalized :
    (calls : Calls) (m : Mp4Muxer)
    → (finalize calls m).threw ≡ true
    → (finalize calls m).muxer.finalized ≡ true
unfolding finalize
finalize-finalized calls m e = ground (arith, e)

finished-IsConsistent :
    (st : RecordingSession) (f : Muxed) (b : Bool)
    → f.threw ≡ b
    → (b ≡ true → f.muxer.finalized ≡ true)
    → IsConsistent (finished st f).0
unfolding finished
finished-IsConsistent st f true e h = ground (arith, e, h refl)
finished-IsConsistent st f false e h = ground (arith, e)

stop_muxer-IsConsistent :
    (calls : Calls) (st : RecordingSession) (o : Option Mp4Muxer)
    → st.muxer ≡ o
    → IsConsistent (stop_muxer calls st o).0
unfolding stop_muxer
stop_muxer-IsConsistent calls st none e = subst (λ o. Holds RecordingState.stopped o) (sym e) tt
stop_muxer-IsConsistent calls st (some m) e =
    finished-IsConsistent st (finalize calls m) _ refl (finalize-finalized calls m)

stop-IsConsistent :
    (calls : Calls) (st : RecordingSession) → IsConsistent st → IsConsistent (stop calls st).0
unfolding stop
stop-IsConsistent calls st h = choose (is_stopped st.state)
  where
    stopping : RecordingSession
    stopping = record st { state = RecordingState.stopping }

    choose :
        (b : Bool)
        → IsConsistent (if b then (st, []) else stop_muxer calls stopping stopping.muxer).0
    choose true = h
    choose false = stop_muxer-IsConsistent calls stopping stopping.muxer refl

step-IsConsistent : (e : Event) (st : RecordingSession) → IsConsistent st → IsConsistent (step e st)
unfolding on_sample
step-IsConsistent (start_event m d) st h = start-IsConsistent m d st h
step-IsConsistent (sample_event calls timestamp s) st h =
    on_state-IsConsistent calls timestamp s st st.state refl h
step-IsConsistent (stop_event calls) st h = stop-IsConsistent calls st h

run-keeps :
    (events : List Event) (st : RecordingSession) → IsConsistent st → IsConsistent (run events st)
run-keeps [] st h = h
run-keeps (e ∷ events) st h = run-keeps events (step e st) (step-IsConsistent e st h)

-- After any calls of a new session, with any failures of Media Foundation: a session that records
-- has an open muxer, one that is stopped or waits for a keyframe has none, one with an error has none
-- or a finalized one, and no session stays in the state of stopping.
pub run-IsConsistent :
    (events : List Event) (directory : FilePath)
    → IsConsistent (run events (recording_session directory))
unfolding recording_session
run-IsConsistent events directory = run-keeps events (recording_session directory) tt
