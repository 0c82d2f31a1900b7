-- ===== src/Recorder/Pipeline/Timing.antt =====
-- The frame rate, the count and the time over the steps of a round: recorder/src/app/Application.cpp.
use gambit_record.Common.{
  ℕ, suc, arith, ◌≤◌, same_text, Bool, true, false, not, ◌&&◌, List, [], ◌∷◌, if◌then◌else◌, leb,
  ◌==◌, ◌≡◌, ◌⊎◌, refl, ap, ◌∙◌, inl, inr, ℤ, pos,
}
use gambit_record.Recorder.Media.{VideoFrame, EncodedSample, no_stream}
use gambit_record.Recorder.Application.Commands.{Application, on_encoded}
use gambit_record.Recorder.ReplayBuffer.{reset}
use gambit_record.Recorder.AudioCapture.{AudioCapture, start as start_audio, stop as stop_audio}
use gambit_record.Recorder.Transform.{Encoder}
use gambit_record.Recorder.VideoEncoder.Success.{encode-Encoded}
use gambit_record.Recorder.VideoEncoder.{request_keyframe, Run, at, encode, stop as stop_encoder}
use gambit_record.Recorder.Pipeline.{
  Pipeline, Surroundings, wants_audio, audio_mode, failed, recovered, recover_pipeline, and_then,
  end_recording, encoded, deliver, resized, described, process, stop_if, stop_unwanted, started,
  start_wanted, follow_audio, silenced, emptied, stopped_encoder, recreated, size_changed,
  needs_keyframe,
}

-- What a step leaves: the frame rate, the two counts and the time of the last frame.
pub record Keeps (p q : Pipeline) : Type 0 where
  pub fps : q.application.config.video.fps ≡ p.application.config.video.fps
  pub dropped : q.dropped_frames ≡ p.dropped_frames
  pub last : q.last_capture_pts ≡ p.last_capture_pts
  pub failures : q.consecutive_failures ≡ p.consecutive_failures

kept : (p : Pipeline) → Keeps p p
kept p = record { fps = refl; dropped = refl; last = refl; failures = refl }

pub then_keeps : (p q r : Pipeline) → Keeps p q → Keeps q r → Keeps p r
then_keeps p q r h k = record {
  fps = k.fps ∙ h.fps;
  dropped = k.dropped ∙ h.dropped;
  last = k.last ∙ h.last;
  failures = k.failures ∙ h.failures;
}

if-Keeps :
    (p : Pipeline) (b : Bool) (x y : Pipeline)
    → Keeps p x
    → Keeps p y
    → Keeps p (if b then x else y)
if-Keeps p true x y h k = h
if-Keeps p false x y h k = k

pair-Keeps :
    (p : Pipeline) (b : Bool) (x y : Pipeline × Bool)
    → Keeps p x.0
    → Keeps p y.0
    → Keeps p (if b then x else y).0
pair-Keeps p true x y h k = h
pair-Keeps p false x y h k = k

and_then-Keeps :
    (p : Pipeline) (x : Pipeline × Bool) (next : Pipeline → Pipeline × Bool)
    → Keeps p x.0
    → ((q : Pipeline) → Keeps q (next q).0)
    → Keeps p (and_then x next).0
and_then-Keeps p (q, true) next h k = then_keeps p q (next q).0 h (k q)
and_then-Keeps p (q, false) next h k = h

deliver-config :
    (s : Surroundings) (xs : List EncodedSample) (a : Application)
    → (deliver s xs a).config ≡ a.config
unfolding deliver on_encoded
deliver-config s [] a = refl
deliver-config s (e ∷ rest) a = deliver-config s rest _

encoded-Keeps : (s : Surroundings) (r : Run × Bool) (p : Pipeline) → Keeps p (encoded s r p).0
unfolding encoded
encoded-Keeps s r p = record {
  fps = ap (λ c. c.video.fps) (deliver-config s r.0.encoder.output p.application);
  dropped = refl;
  last = refl;
  failures = refl;
}

abbrev ended_at : Surroundings → Pipeline → Pipeline
ended_at s p = record p {
  application = let a = end_recording s.calls p.application in record a { replay = reset a.replay };
}

ended-Keeps : (s : Surroundings) (p : Pipeline) → Keeps p (ended_at s p)
unfolding end_recording
ended-Keeps s p = record { fps = refl; dropped = refl; last = refl; failures = refl }

described-Keeps : (s : Surroundings) (p : Pipeline) → Keeps p (described s p)
unfolding described
described-Keeps s p = record { fps = refl; dropped = refl; last = refl; failures = refl }

stop_if-Keeps : (change : Bool) (p : Pipeline) → Keeps p (stop_if change p)
unfolding stop_if
stop_if-Keeps change p =
    if-Keeps p (p.audio.running && change)
      (record p { audio = stop_audio p.audio; audio_failed = false }) p
      (record { fps = refl; dropped = refl; last = refl; failures = refl }) (kept p)

stop_unwanted-Keeps : (p : Pipeline) → Keeps p (stop_unwanted p)
unfolding stop_unwanted
stop_unwanted-Keeps p =
    if-Keeps p (not (wants_audio p.application.config) && p.audio.running)
      (record p { audio = stop_audio p.audio }) p
      (record { fps = refl; dropped = refl; last = refl; failures = refl }) (kept p)

started-Keeps :
    (s : Surroundings) (p : Pipeline) (r : AudioCapture × Bool) → Keeps p (started s p r)
unfolding started
started-Keeps s p (a, true) = record { fps = refl; dropped = refl; last = refl; failures = refl }
started-Keeps s p (a, false) = record { fps = refl; dropped = refl; last = refl; failures = refl }

start_wanted-Keeps : (s : Surroundings) (p : Pipeline) → Keeps p (start_wanted s p)
unfolding start_wanted
start_wanted-Keeps s p =
    let r = start_audio s.device s.pid (audio_mode p.application.config) p.audio in
    if-Keeps p
      (wants_audio p.application.config
        && not p.audio.running
        && not p.audio_failed
        && not (s.pid == 0))
      (started s p r) p (started-Keeps s p r) (kept p)

follow_audio-Keeps : (s : Surroundings) (p : Pipeline) → Keeps p (follow_audio s p)
unfolding follow_audio
follow_audio-Keeps s p =
    let change = not (s.pid == 0) && not (p.audio_pid == s.pid) in
    let p1 = stop_if change p in
    let other = not (same_text p1.active_audio_mode (audio_mode p.application.config)) in
    let p2 = stop_if other p1 in
    then_keeps p p1 (start_wanted s (stop_unwanted p2)) (stop_if-Keeps change p) (
      then_keeps p1 p2 (start_wanted s (stop_unwanted p2)) (stop_if-Keeps other p1) (
        then_keeps p2 (stop_unwanted p2) (start_wanted s (stop_unwanted p2))
          (stop_unwanted-Keeps p2) (start_wanted-Keeps s (stop_unwanted p2))))

if-encoder :
    (b : Bool) (x y : Pipeline) (e : Encoder)
    → x.encoder ≡ e
    → y.encoder ≡ e
    → (if b then x else y).encoder ≡ e
if-encoder true x y e h k = h
if-encoder false x y e h k = k

stop_if-encoder : (change : Bool) (p : Pipeline) → (stop_if change p).encoder ≡ p.encoder
unfolding stop_if
stop_if-encoder change p =
    if-encoder (p.audio.running && change)
      (record p { audio = stop_audio p.audio; audio_failed = false }) p p.encoder refl refl

stop_unwanted-encoder : (p : Pipeline) → (stop_unwanted p).encoder ≡ p.encoder
unfolding stop_unwanted
stop_unwanted-encoder p =
    if-encoder (not (wants_audio p.application.config) && p.audio.running)
      (record p { audio = stop_audio p.audio }) p p.encoder refl refl

started-encoder :
    (s : Surroundings) (p : Pipeline) (r : AudioCapture × Bool)
    → (started s p r).encoder ≡ p.encoder
unfolding started
started-encoder s p (a, true) = refl
started-encoder s p (a, false) = refl

start_wanted-encoder : (s : Surroundings) (p : Pipeline) → (start_wanted s p).encoder ≡ p.encoder
unfolding start_wanted
start_wanted-encoder s p =
    let r = start_audio s.device s.pid (audio_mode p.application.config) p.audio in
    if-encoder
      (wants_audio p.application.config
        && not p.audio.running
        && not p.audio_failed
        && not (s.pid == 0))
      (started s p r) p p.encoder (started-encoder s p r) refl

follow_audio-encoder : (s : Surroundings) (p : Pipeline) → (follow_audio s p).encoder ≡ p.encoder
unfolding follow_audio
follow_audio-encoder s p =
    let change = not (s.pid == 0) && not (p.audio_pid == s.pid) in
    let p1 = stop_if change p in
    let other = not (same_text p1.active_audio_mode (audio_mode p.application.config)) in
    let p2 = stop_if other p1 in
    start_wanted-encoder s (stop_unwanted p2)
    ∙ (stop_unwanted-encoder p2 ∙ (stop_if-encoder other p1 ∙ stop_if-encoder change p))

described-last :
    (s : Surroundings) (p : Pipeline) → (described s p).encoder.last_pts ≡ p.encoder.last_pts
unfolding described request_keyframe
described-last s p = choose (needs_keyframe p.application.recording.state)
  where
    choose :
        (b : Bool)
        → (if b then request_keyframe p.encoder else p.encoder).last_pts ≡ p.encoder.last_pts
    choose true = refl
    choose false = refl

-- What holds behind a step, and what holds where an exception has ended it.
Post : (Pipeline → Type 0) → (Pipeline → Type 0) → Pipeline × Bool → Type 0
Post Q R x = (x.1 ≡ true → Q x.0) × (x.1 ≡ false → R x.0)

and_then-Post :
    (Q S R : Pipeline → Type 0) (x : Pipeline × Bool) (next : Pipeline → Pipeline × Bool)
    → Post Q R x
    → ((q : Pipeline) → Q q → Post S R (next q))
    → Post S R (and_then x next)
unfolding Post
and_then-Post Q S R (q, true) next h k = k q (h.0 refl)
and_then-Post Q S R (q, false) next h k = ((λ e. absurd (ground (arith, e))), λ _. h.1 refl)

-- Behind the change of the size, which takes the time of the last frame away.
record Resized (changed : Bool) (p q : Pipeline) : Type 0 where
  fps : q.application.config.video.fps ≡ p.application.config.video.fps
  dropped : q.dropped_frames ≡ p.dropped_frames
  failures : q.consecutive_failures ≡ p.consecutive_failures
  last : q.last_capture_pts ≡ (if changed then pos 0 else p.last_capture_pts)

-- Behind a round without an exception: the frame is encoded at its time.
pub record Done (changed : Bool) (pts : ℤ) (p q : Pipeline) : Type 0 where
  pub fps : q.application.config.video.fps ≡ p.application.config.video.fps
  pub dropped : q.dropped_frames ≡ p.dropped_frames
  pub failures : q.consecutive_failures ≡ 0
  pub last : q.last_capture_pts ≡ (if changed then pos 0 else p.last_capture_pts)
  pub encoded_at : q.encoder.last_pts ≡ pts

-- Where an exception has ended it.
pub record Broken (changed : Bool) (p q : Pipeline) : Type 0 where
  pub fps : q.application.config.video.fps ≡ p.application.config.video.fps
  pub dropped : q.dropped_frames ≡ p.dropped_frames
  pub failures : q.consecutive_failures ≡ p.consecutive_failures
  pub last :
      (q.last_capture_pts ≡ p.last_capture_pts) ⊎ ((changed ≡ true) × (q.last_capture_pts ≡ pos 0))

if_last :
    (changed : Bool) (x l : ℤ)
    → x ≡ (if changed then pos 0 else l)
    → (x ≡ l) ⊎ ((changed ≡ true) × (x ≡ pos 0))
if_last true x l h = inr (refl, h)
if_last false x l h = inl h

Keeps-Broken : (changed : Bool) (p q : Pipeline) → Keeps p q → Broken changed p q
Keeps-Broken changed p q k = record {
  fps = k.fps;
  dropped = k.dropped;
  failures = k.failures;
  last = inl k.last;
}

Resized-Broken :
    (changed : Bool) (p q r : Pipeline) → Resized changed p q → Keeps q r → Broken changed p r
Resized-Broken changed p q r h k = record {
  fps = k.fps ∙ h.fps;
  dropped = k.dropped ∙ h.dropped;
  failures = k.failures ∙ h.failures;
  last = if_last changed r.last_capture_pts p.last_capture_pts (k.last ∙ h.last);
}

abbrev set_back : Pipeline → Pipeline × Bool
set_back q = (record q { last_capture_pts = pos 0 }, true)

resized-Post :
    (s : Surroundings) (frame : VideoFrame) (p : Pipeline)
    → Post
        (Resized (size_changed frame p.application.stream) p)
        (Broken (size_changed frame p.application.stream) p)
        (resized s frame p)
unfolding resized Post
resized-Post s frame p = choose (size_changed frame p.application.stream)
  where
    r : Run × Bool
    r = stop_encoder (at (ended_at s p).encoder s.resizing.events s.resizing.outputs)

    k : Keeps p (encoded s r (ended_at s p)).0
    k =
        then_keeps p (ended_at s p) (encoded s r (ended_at s p)).0 (ended-Keeps s p)
          (encoded-Keeps s r (ended_at s p))

    choose :
        (b : Bool)
        → Post
            (Resized b p)
            (Broken b p)
            (if b then and_then (encoded s r (ended_at s p)) set_back else (p, true))
    choose true =
        and_then-Post (Keeps p) (Resized true p) (Broken true p) (encoded s r (ended_at s p))
          set_back ((λ _. k), λ _. Keeps-Broken true p (encoded s r (ended_at s p)).0 k)
          (λ q h. (
            λ _. record { fps = h.fps; dropped = h.dropped; failures = h.failures; last = refl },
            λ e. absurd (ground (arith, e)),
          ))
    choose false = (
      λ _. record { fps = refl; dropped = refl; failures = refl; last = refl },
      λ e. absurd (ground (arith, e)),
    )

-- A round without an exception ends so.
abbrev settled : Surroundings → Pipeline → Pipeline × Bool
settled s r = (record (follow_audio s (described s r)) { consecutive_failures = 0 }, true)

settled-Done :
    (s : Surroundings) (changed : Bool) (pts : ℤ) (p q r : Pipeline)
    → Resized changed p q
    → Keeps q r
    → r.encoder.last_pts ≡ pts
    → Done changed pts p (settled s r).0
settled-Done s changed pts p q r h l e =
    let k =
      then_keeps r (described s r) (follow_audio s (described s r)) (described-Keeps s r)
        (follow_audio-Keeps s (described s r)) in
    record {
      fps = k.fps ∙ (l.fps ∙ h.fps);
      dropped = k.dropped ∙ (l.dropped ∙ h.dropped);
      failures = refl;
      last = k.last ∙ (l.last ∙ h.last);
      encoded_at =
          ap (λ (x : Encoder). x.last_pts) (follow_audio-encoder s (described s r))
          ∙ (described-last s r ∙ e);
    }

abbrev encoding : Surroundings → VideoFrame → Pipeline → Pipeline × Bool
encoding s frame q =
    encoded s (encode s.machine frame (at q.encoder s.encoding.events s.encoding.outputs)) q

pub process-Post :
    (s : Surroundings) (frame : VideoFrame) (p : Pipeline)
    → ((process s frame p).1 ≡ true
        → Done (size_changed frame p.application.stream) frame.pts p (process s frame p).0)
      × ((process s frame p).1 ≡ false
          → Broken (size_changed frame p.application.stream) p (process s frame p).0)
unfolding process Post encoded
process-Post s frame p =
    let b = size_changed frame p.application.stream in
    and_then-Post (Resized b p) (Done b frame.pts p) (Broken b p) (resized s frame p)
      (λ q. and_then (encoding s frame q) (settled s)) (resized-Post s frame p)
      (λ q h.
        let run = at q.encoder s.encoding.events s.encoding.outputs in
        let k = encoded-Keeps s (encode s.machine frame run) q in
        and_then-Post (λ r. Keeps q r × (r.encoder.last_pts ≡ frame.pts)) (Done b frame.pts p)
          (Broken b p) (encoding s frame q) (settled s)
          (
            λ e. (k, (encode-Encoded s.machine frame run e).last_pts),
            λ _. Resized-Broken b p q (encoding s frame q).0 h k,
          )
          (λ r l.
            (λ _. settled-Done s b frame.pts p q r h l.0 l.1, λ e. absurd (ground (arith, e)))))

recreated-Keeps : (s : Surroundings) (p : Pipeline) → Keeps p (recreated s p).0
unfolding recreated
recreated-Keeps s p =
    pair-Keeps p (not s.recovers) (p, false)
      (
        record p {
          audio_failed = false;
          audio_pid = 0;
          active_audio_mode = [];
          application = record p.application { stream = no_stream };
        },
        true,
      )
      (kept p) (record { fps = refl; dropped = refl; last = refl; failures = refl })

emptied-Keeps : (s : Surroundings) (p : Pipeline) → Keeps p (emptied s p)
unfolding emptied end_recording
emptied-Keeps s p = record { fps = refl; dropped = refl; last = refl; failures = refl }

silenced-Keeps : (p : Pipeline) → Keeps p (silenced p)
unfolding silenced
silenced-Keeps p = record { fps = refl; dropped = refl; last = refl; failures = refl }

recover_pipeline-Keeps : (s : Surroundings) (p : Pipeline) → Keeps p (recover_pipeline s p).0
unfolding recover_pipeline stopped_encoder
recover_pipeline-Keeps s p =
    and_then-Keeps p (stopped_encoder s.recovering s (silenced p)) (λ q. recreated s (emptied s q))
      (then_keeps p (silenced p) (stopped_encoder s.recovering s (silenced p)).0 (silenced-Keeps p)
        (encoded-Keeps s _ (silenced p)))
      (λ q.
        then_keeps q (emptied s q) (recreated s (emptied s q)).0 (emptied-Keeps s q)
          (recreated-Keeps s (emptied s q)))

-- Behind an exception: one failure more, or a recovery behind two others.
pub data Failed (p : Pipeline) (q : Pipeline) : Type 0 where
  counts : Keeps (record p { consecutive_failures = suc p.consecutive_failures }) q → Failed p q
  recovers :
      2 ≤ p.consecutive_failures
      → q.application.config.video.fps ≡ p.application.config.video.fps
      → q.dropped_frames ≡ p.dropped_frames
      → q.last_capture_pts ≡ pos 0
      → q.consecutive_failures ≡ 0
      → Failed p q

pub failed-Failed : (s : Surroundings) (p : Pipeline) → Failed p (failed s p)
unfolding failed recovered
failed-Failed s p = choose (leb 3 counted.consecutive_failures) refl
  where
    counted : Pipeline
    counted = record p { consecutive_failures = suc p.consecutive_failures }

    r : Pipeline × Bool
    r = recover_pipeline s counted

    k : Keeps counted r.0
    k = recover_pipeline-Keeps s counted

    many : (n : ℕ) → leb 3 (suc n) ≡ true → 2 ≤ n
    many n h = ground (arith, h)

    ended :
        (ok : Bool)
        → 2 ≤ p.consecutive_failures
        → Failed p
            (if ok then record r.0 { consecutive_failures = 0; last_capture_pts = pos 0 } else r.0)
    ended true h = recovers h k.fps k.dropped refl refl
    ended false h = counts k

    choose :
        (b : Bool)
        → leb 3 (suc p.consecutive_failures) ≡ b
        → Failed p (if b then recovered r else counted)
    choose true h = ended r.1 (many p.consecutive_failures h)
    choose false h = counts (kept counted)
