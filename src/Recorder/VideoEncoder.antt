-- ===== src/Recorder/VideoEncoder.antt =====
-- recorder/src/video/MediaFoundationEncoder.cpp, `encode` and the drains. A `Run` has the events and
-- the outputs that Media Foundation will hand out. The conversion of the texture and `make_input`
-- succeed or throw. A step gives its state and whether it ended without an exception.
pub mod Kept
pub mod Fallback
pub mod Success
pub mod Recovery
use gambit_record.Common.{
  suc, Bool, true, false, not, ◌&&◌, ◌||◌, List, [], ◌∷◌, ◌++◌, Option, none, some, ◌==◌,
  if◌then◌else◌, ℤ, Text, is_empty,
}
use gambit_record.Recorder.Media.{VideoFrame, video}
use gambit_record.Recorder.Nal.{contains_idr}
use gambit_record.Recorder.Transform.{
  Activation, Encoder, Machine, Accepted, accepted, not_accepting, refused, teardown, configure,
  even,
}

-- What `GetEvent` answers next; `fails` is also the answer that there is no event.
pub data Event : Type 0 where
  need_input have_output unrelated fails : Event

-- What `ProcessOutput` answers next. A sample comes with its time, its duration, its clean point, its
-- bytes and the sequence header of the output type; `no_sample` is one without readable bytes.
pub data Produced : Type 0 where
  need_more stream_change failed no_sample : Produced
  sample : ℤ → ℤ → Bool → Text → Text → Produced

pub record Run : Type 0 where
  pub encoder : Encoder
  pub events : List Event
  pub outputs : List Produced

abbrev pub at : Encoder → List Event → List Produced → Run
at e events outputs = record { encoder = e; events = events; outputs = outputs }

-- A sample goes to the callback; the first one may bring the sequence header.
unfoldable pub emit : ℤ → ℤ → Bool → Text → Text → Encoder → Encoder
emit pts duration clean bytes header e = record e {
  description = record e.description {
    sequence_header =
        if is_empty e.description.sequence_header then header else e.description.sequence_header;
  };
  output =
      e.output
      ++ record {
        track = video;
        pts = pts;
        duration = duration;
        keyframe = clean || contains_idr bytes;
        bytes = some bytes;
      }
        ∷ [];
}

-- The loop of `drain_output`.
unfoldable pub produce : List Event → Encoder → List Produced → Run × Bool
produce events e [] = (at e events [], true)
produce events e (need_more ∷ rest) = (at e events rest, true)
produce events e (stream_change ∷ rest) = produce events e rest
produce events e (failed ∷ rest) = (at e events rest, e.async)
produce events e (no_sample ∷ rest) = produce events e rest
produce events e (sample pts duration clean bytes header ∷ rest) =
    produce events (emit pts duration clean bytes header e) rest

unfoldable pub drain_transform : Run → Option Activation → Run × Bool
drain_transform r none = (r, true)
drain_transform r (some a) =
    if not a.has_stream_info then (r, true) else produce r.events r.encoder r.outputs

unfoldable pub drain_output : Run → Run × Bool
drain_output r = drain_transform r r.encoder.transform

-- What follows in a body where an exception has not ended it.
abbrev pub then_do : Run × Bool → (Run → Run × Bool) → Run × Bool
then_do (r, true) next = next r
then_do (r, false) next = (r, false)

-- The loop of `drain_events`.
unfoldable pub poll : List Event → Encoder → List Produced → Run × Bool
poll [] e outputs = (at e [] outputs, true)
poll (fails ∷ events) e outputs = (at e events outputs, true)
poll (unrelated ∷ events) e outputs = poll events e outputs
poll (need_input ∷ events) e outputs = poll events (record e { need_input = true }) outputs
poll (have_output ∷ events) e outputs =
    then_do (drain_output (at e events outputs)) (λ r. poll events r.encoder r.outputs)

unfoldable pub drain_events : Run → Run × Bool
drain_events r = if r.encoder.async then poll r.events r.encoder r.outputs else (r, true)

-- The loop that waits for the encoder to take an input.
abbrev pub awaits : Encoder → Bool
awaits e = e.async && not e.need_input

unfoldable pub wait : List Event → Encoder → List Produced → Run × Bool
wait [] e outputs = (at e [] outputs, not (awaits e))
wait (fails ∷ events) e outputs =
    if awaits e then (at e events outputs, false) else (at e (fails ∷ events) outputs, true)
wait (unrelated ∷ events) e outputs =
    let later = wait events e outputs in
    if awaits e then later else (at e (unrelated ∷ events) outputs, true)
wait (need_input ∷ events) e outputs =
    let later = wait events (record e { need_input = true }) outputs in
    if awaits e then later else (at e (need_input ∷ events) outputs, true)
wait (have_output ∷ events) e outputs =
    let later =
      then_do (drain_output (at e events outputs)) (λ r. wait events r.encoder r.outputs) in
    if awaits e then later else (at e (have_output ∷ events) outputs, true)

unfoldable pub drain : Run → Run × Bool
drain r = then_do (drain_events r) drain_output

-- An input that is not taken is offered once more, behind the outputs.
unfoldable pub offered : Machine → Run → Accepted → Run × Bool
offered m r accepted = (r, true)
offered m r refused = (r, false)
offered m r not_accepting =
    then_do (drain r) (λ r'. elim m.second [ accepted ↦ (r', true) | _ ↦ (r', false) ])

unfoldable pub needs_configure : VideoFrame → Encoder → Bool
needs_configure frame e =
    not e.configured
    || not (even frame.width == e.description.width)
    || not (even frame.height == e.description.height)

unfoldable pub configured_for : Machine → VideoFrame → Run → Run × Bool
configured_for m frame r =
    let c = configure m frame.width frame.height r.encoder in
    if needs_configure frame r.encoder then (record r { encoder = c.0 }, c.1) else (r, true)

-- A call that may throw.
abbrev pub check : Bool → Run → Run × Bool
check fine r = (r, fine)

-- `codec->SetValue` where a keyframe is asked for and there is a codec; the request ends in any case.
abbrev pub forced : Machine → Encoder → Encoder
forced m e = record e {
  forced_keyframes =
      if e.force_keyframe && m.codec_api then suc e.forced_keyframes else e.forced_keyframes;
  force_keyframe = false;
}

-- The body of `encode`'s `try`.
unfoldable pub attempt : Machine → VideoFrame → Run → Run × Bool
attempt m frame r = then_do (configured_for m frame r) (λ r1. then_do (check m.converts r1) (λ r2.
    then_do (drain (record r2 { encoder = forced m r2.encoder })) (λ r3.
      then_do (wait r3.events r3.encoder r3.outputs) (λ r4. then_do (check m.makes r4) (λ r5.
        then_do (offered m r5 m.first) (λ r6.
          then_do (drain (record r6 { encoder = record r6.encoder { need_input = false } }))
            (λ r7. (record r7 { encoder = record r7.encoder { last_pts = frame.pts } }, true))))))))

-- The handler of an exception.
unfoldable pub caught : Encoder → Encoder
caught e = if e.hardware then teardown (record e { force_software = true }) else e

unfoldable pub encode : Machine → VideoFrame → Run → Run × Bool
encode m frame r =
    let a = attempt m frame r in
    if a.1 then a else (record a.0 { encoder = caught a.0.encoder }, false)

unfoldable pub request_keyframe : Encoder → Encoder
request_keyframe e = record e { force_keyframe = true }

-- An exception of the last drain leaves the transform there.
unfoldable pub stop_transform : Run → Option Activation → Run × Bool
stop_transform r none = (r, true)
stop_transform r (some a) =
    then_do (drain r) (λ r'. (record r' { encoder = teardown r'.encoder }, true))

unfoldable pub stop : Run → Run × Bool
stop r = stop_transform r r.encoder.transform
