-- ===== src/Recorder/VideoEncoder/Kept.antt =====
-- What the drains and the wait of recorder/src/video/MediaFoundationEncoder.cpp leave as it is.
use gambit_record.Common.{
  Bool, true, false, not, List, [], ◌∷◌, Option, none, some, if◌then◌else◌, ℤ, Text, ◌≡◌, refl, ◌∙◌,
}
use gambit_record.Recorder.Transform.{Activation, Encoder}
use gambit_record.Recorder.VideoEncoder.{
  Event, need_input, have_output, unrelated, fails, Produced, need_more, stream_change, failed,
  no_sample, sample, Run, at, emit, produce, drain_transform, drain_output, then_do, poll,
  drain_events, awaits, wait, drain,
}

-- The second encoder has these members of the first.
pub record Keeps (e e' : Encoder) : Type 0 where
  pub hardware : e'.hardware ≡ e.hardware
  pub force_software : e'.force_software ≡ e.force_software
  pub force_keyframe : e'.force_keyframe ≡ e.force_keyframe
  pub forced_keyframes : e'.forced_keyframes ≡ e.forced_keyframes
  pub configured : e'.configured ≡ e.configured
  pub async : e'.async ≡ e.async
  pub transform : e'.transform ≡ e.transform
  pub encoder_name : e'.encoder_name ≡ e.encoder_name
  pub width : e'.description.width ≡ e.description.width
  pub height : e'.description.height ≡ e.description.height

Keeps-refl : (e : Encoder) → Keeps e e
Keeps-refl e = record {
  hardware = refl;
  force_software = refl;
  force_keyframe = refl;
  forced_keyframes = refl;
  configured = refl;
  async = refl;
  transform = refl;
  encoder_name = refl;
  width = refl;
  height = refl;
}

Keeps-trans : (a b c : Encoder) → Keeps a b → Keeps b c → Keeps a c
Keeps-trans a b c h k = record {
  hardware = k.hardware ∙ h.hardware;
  force_software = k.force_software ∙ h.force_software;
  force_keyframe = k.force_keyframe ∙ h.force_keyframe;
  forced_keyframes = k.forced_keyframes ∙ h.forced_keyframes;
  configured = k.configured ∙ h.configured;
  async = k.async ∙ h.async;
  transform = k.transform ∙ h.transform;
  encoder_name = k.encoder_name ∙ h.encoder_name;
  width = k.width ∙ h.width;
  height = k.height ∙ h.height;
}

emit-Keeps :
    (pts duration : ℤ) (clean : Bool) (bytes header : Text) (e : Encoder)
    → Keeps e (emit pts duration clean bytes header e)
unfolding emit
emit-Keeps pts duration clean bytes header e = record {
  hardware = refl;
  force_software = refl;
  force_keyframe = refl;
  forced_keyframes = refl;
  configured = refl;
  async = refl;
  transform = refl;
  encoder_name = refl;
  width = refl;
  height = refl;
}

pub produce-Keeps :
    (events : List Event) (e : Encoder) (outputs : List Produced)
    → Keeps e (produce events e outputs).0.encoder
unfolding produce
produce-Keeps events e [] = Keeps-refl e
produce-Keeps events e (need_more ∷ rest) = Keeps-refl e
produce-Keeps events e (stream_change ∷ rest) = produce-Keeps events e rest
produce-Keeps events e (failed ∷ rest) = Keeps-refl e
produce-Keeps events e (no_sample ∷ rest) = produce-Keeps events e rest
produce-Keeps events e (sample pts duration clean bytes header ∷ rest) =
    Keeps-trans e (emit pts duration clean bytes header e) _
      (emit-Keeps pts duration clean bytes header e)
      (produce-Keeps events (emit pts duration clean bytes header e) rest)

pub if-Keeps :
    (e : Encoder) (b : Bool) (x y : Run × Bool)
    → Keeps e x.0.encoder
    → Keeps e y.0.encoder
    → Keeps e (if b then x else y).0.encoder
if-Keeps e true x y h k = h
if-Keeps e false x y h k = k

drain_output-Keeps : (r : Run) → Keeps r.encoder (drain_output r).0.encoder
unfolding drain_output drain_transform
drain_output-Keeps r = choose r.encoder.transform
  where
    choose : (t : Option Activation) → Keeps r.encoder (drain_transform r t).0.encoder
    choose none = Keeps-refl r.encoder
    choose (some a) =
        if-Keeps r.encoder (not a.has_stream_info) (r, true) (produce r.events r.encoder r.outputs)
          (Keeps-refl r.encoder) (produce-Keeps r.events r.encoder r.outputs)

pub then_do-Keeps :
    (e : Encoder) (x : Run × Bool) (next : Run → Run × Bool)
    → Keeps e x.0.encoder
    → ((r : Run) → Keeps r.encoder (next r).0.encoder)
    → Keeps e (then_do x next).0.encoder
then_do-Keeps e (r, true) next h k = Keeps-trans e r.encoder (next r).0.encoder h (k r)
then_do-Keeps e (r, false) next h k = h

asked-Keeps : (e : Encoder) → Keeps e (record e { need_input = true })
asked-Keeps e = record {
  hardware = refl;
  force_software = refl;
  force_keyframe = refl;
  forced_keyframes = refl;
  configured = refl;
  async = refl;
  transform = refl;
  encoder_name = refl;
  width = refl;
  height = refl;
}

poll-Keeps :
    (events : List Event) (e : Encoder) (outputs : List Produced)
    → Keeps e (poll events e outputs).0.encoder
unfolding poll
poll-Keeps [] e outputs = Keeps-refl e
poll-Keeps (fails ∷ events) e outputs = Keeps-refl e
poll-Keeps (unrelated ∷ events) e outputs = poll-Keeps events e outputs
poll-Keeps (need_input ∷ events) e outputs =
    let e' = record e { need_input = true } in
    Keeps-trans e e' _ (asked-Keeps e) (poll-Keeps events e' outputs)
poll-Keeps (have_output ∷ events) e outputs =
    then_do-Keeps e (drain_output (at e events outputs)) (λ r. poll events r.encoder r.outputs)
      (drain_output-Keeps (at e events outputs)) (λ r. poll-Keeps events r.encoder r.outputs)

drain_events-Keeps : (r : Run) → Keeps r.encoder (drain_events r).0.encoder
unfolding drain_events
drain_events-Keeps r =
    if-Keeps r.encoder r.encoder.async (poll r.events r.encoder r.outputs) (r, true)
      (poll-Keeps r.events r.encoder r.outputs) (Keeps-refl r.encoder)

pub drain-Keeps : (r : Run) → Keeps r.encoder (drain r).0.encoder
unfolding drain
drain-Keeps r =
    then_do-Keeps r.encoder (drain_events r) drain_output (drain_events-Keeps r) drain_output-Keeps

pub wait-Keeps :
    (events : List Event) (e : Encoder) (outputs : List Produced)
    → Keeps e (wait events e outputs).0.encoder
unfolding wait
wait-Keeps [] e outputs = Keeps-refl e
wait-Keeps (fails ∷ events) e outputs =
    if-Keeps e (awaits e) (at e events outputs, false) (at e (fails ∷ events) outputs, true)
      (Keeps-refl e) (Keeps-refl e)
wait-Keeps (unrelated ∷ events) e outputs =
    if-Keeps e (awaits e) (wait events e outputs) (at e (unrelated ∷ events) outputs, true)
      (wait-Keeps events e outputs) (Keeps-refl e)
wait-Keeps (need_input ∷ events) e outputs =
    let e' = record e { need_input = true } in
    if-Keeps e (awaits e) (wait events e' outputs) (at e (need_input ∷ events) outputs, true)
      (Keeps-trans e e' _ (asked-Keeps e) (wait-Keeps events e' outputs)) (Keeps-refl e)
wait-Keeps (have_output ∷ events) e outputs =
    if-Keeps e (awaits e) _ (at e (have_output ∷ events) outputs, true)
      (then_do-Keeps e (drain_output (at e events outputs)) (λ r. wait events r.encoder r.outputs)
        (drain_output-Keeps (at e events outputs)) (λ r. wait-Keeps events r.encoder r.outputs))
      (Keeps-refl e)
