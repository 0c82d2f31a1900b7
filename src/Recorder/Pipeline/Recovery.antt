-- ===== src/Recorder/Pipeline/Recovery.antt =====
-- The failures of rounds of encoder_loop in a row, and recover_pipeline:
-- recorder/src/app/Application.cpp.
use gambit_record.Common.{
  ℕ, suc, ◌≤◌, Bool, true, false, not, [], Option, none, some, if◌then◌else◌, leb, pos, arith, ◌≡◌,
  refl,
}
use gambit_record.Recorder.Files.{FilePath}
use gambit_record.Recorder.Media.{no_stream}
use gambit_record.Recorder.Mp4Muxer.{Calls, Mp4Muxer, finalize}
use gambit_record.Recorder.States.{RecordingState, is_stopped}
use gambit_record.Recorder.RecordingSession.{
  RecordingSession, stop as stop_recording, stop_muxer, finished,
}
use gambit_record.Recorder.AudioCapture.{stop}
use gambit_record.Recorder.Pipeline.{
  Pipeline, Surroundings, failed, recovered, recover_pipeline, and_then, end_recording, encoded,
  silenced, emptied, stopped_encoder, recreated,
}

-- A recording that is not under way.
abbrev pub has_ended : RecordingState → Bool
has_ended RecordingState.stopped = true
has_ended RecordingState.error = true
has_ended _ = false

when {ℓ} :
    {A : Type ℓ} (P : A → Type 0) (b : Bool) (x y : A)
    → (b ≡ true → P x)
    → (b ≡ false → P y)
    → P (if b then x else y)
when P true x y h k = h refl
when P false x y h k = k refl

stopped_ended : (st : RecordingState) → is_stopped st ≡ true → has_ended st ≡ true
stopped_ended RecordingState.stopped h = refl
stopped_ended RecordingState.waiting_for_keyframe h = h
stopped_ended RecordingState.recording h = h
stopped_ended RecordingState.stopping h = h
stopped_ended RecordingState.error h = refl

IsEnded : RecordingSession × FilePath → Type 0
IsEnded x = has_ended x.0.state ≡ true

stop_muxer-IsEnded :
    (calls : Calls) (r : RecordingSession) (o : Option Mp4Muxer) → IsEnded (stop_muxer calls r o)
unfolding IsEnded stop_muxer finished
stop_muxer-IsEnded calls r none = refl
stop_muxer-IsEnded calls r (some m) =
    when IsEnded (finalize calls m).threw _ _ (λ _. refl) (λ _. refl)

stop_recording-ended :
    (calls : Calls) (r : RecordingSession) → has_ended (stop_recording calls r).0.state ≡ true
unfolding stop_recording IsEnded
stop_recording-ended calls r =
    when IsEnded (is_stopped r.state) (r, []) _ (stopped_ended r.state)
      (λ _. stop_muxer-IsEnded calls (record r { state = RecordingState.stopping }) r.muxer)

-- The state behind a recovery: nothing is captured, recorded or heard, and the count starts again.
pub record Recovered (p : Pipeline) : Type 0 where
  pub frames : p.frames ≡ []
  pub recording : has_ended p.application.recording.state ≡ true
  pub stream : p.application.stream ≡ no_stream
  pub audio : p.audio.running ≡ false
  pub last_capture_pts : p.last_capture_pts ≡ pos 0
  pub consecutive_failures : p.consecutive_failures ≡ 0

Ends : (Pipeline → Type 0) → Pipeline × Bool → Type 0
Ends P x = x.1 ≡ true → P x.0

and_then-Ends :
    (P : Pipeline → Type 0) (x : Pipeline × Bool) (next : Pipeline → Pipeline × Bool)
    → x.0.audio.running ≡ false
    → ((q : Pipeline) → q.audio.running ≡ false → Ends P (next q))
    → Ends P (and_then x next)
unfolding Ends
and_then-Ends P (p, true) next h k = k p h
and_then-Ends P (p, false) next h k = λ e. absurd (ground (arith, e))

-- The part of it that recover_pipeline sees to.
record Emptied (p : Pipeline) : Type 0 where
  frames : p.frames ≡ []
  recording : has_ended p.application.recording.state ≡ true
  stream : p.application.stream ≡ no_stream
  audio : p.audio.running ≡ false

recreated-Emptied :
    (s : Surroundings) (p : Pipeline)
    → p.frames ≡ []
    → has_ended p.application.recording.state ≡ true
    → p.audio.running ≡ false
    → Ends Emptied (recreated s p)
unfolding recreated Ends
recreated-Emptied s p empty ended quiet =
    when (Ends Emptied) (not s.recovers) (p, false)
      (
        record p {
          audio_failed = false;
          audio_pid = 0;
          active_audio_mode = [];
          application = record p.application { stream = no_stream };
        },
        true,
      )
      (λ _ h. absurd (ground (arith, h)))
      (λ _ _. record { frames = empty; recording = ended; stream = refl; audio = quiet })

recover_pipeline-Emptied : (s : Surroundings) (p : Pipeline) → Ends Emptied (recover_pipeline s p)
unfolding recover_pipeline stopped_encoder encoded silenced stop emptied end_recording
recover_pipeline-Emptied s p =
    and_then-Ends Emptied (stopped_encoder s.recovering s (silenced p))
      (λ q. recreated s (emptied s q)) refl
      (λ q quiet.
        recreated-Emptied s (emptied s q) refl
          (stop_recording-ended s.calls q.application.recording) quiet)

-- An exception behind two others in a row, and a recovery without one, leave no frame in the queue,
-- no recording under way, no description of the stream and no sound; the time of the last frame and
-- the number of the exceptions are 0.
pub failed-Recovered :
    (s : Surroundings) (p : Pipeline)
    → 2 ≤ p.consecutive_failures
    → (recover_pipeline s (record p { consecutive_failures = suc p.consecutive_failures })).1 ≡ true
    → Recovered (failed s p)
unfolding failed recovered Ends
failed-Recovered s p h k =
    when Recovered (leb 3 (suc p.consecutive_failures)) (recovered r) counted
      (λ _.
        when Recovered r.1 _ r.0
          (λ _. record {
            frames = e.frames;
            recording = e.recording;
            stream = e.stream;
            audio = e.audio;
            last_capture_pts = refl;
            consecutive_failures = refl;
          })
          (λ n. absurd (ground (arith, n, k))))
      (λ n. absurd (few p.consecutive_failures h n))
  where
    counted : Pipeline
    counted = record p { consecutive_failures = suc p.consecutive_failures }

    r : Pipeline × Bool
    r = recover_pipeline s counted

    e : Emptied r.0
    e = recover_pipeline-Emptied s counted k

    few : (n : ℕ) → 2 ≤ n → leb 3 (suc n) ≡ false → ⊥
    few n a b = ground (arith, a, b)
