-- ===== src/Recorder/VideoEncoder/Fallback.antt =====
-- What `encode` of recorder/src/video/MediaFoundationEncoder.cpp leaves: the configuration for a frame
-- and the change to a software encoder.
use gambit_record.Common.{
  ℕ, Bool, true, false, not, ◌&&◌, List, [], Option, none, some, if◌then◌else◌, ◌≡◌, refl, sym,
  subst, is_empty,
}
use gambit_record.Recorder.Media.{VideoFrame}
use gambit_record.Recorder.Transform.{
  Activation, Encoder, Machine, Accepted, accepted, not_accepting, refused, teardown, activated,
  hardware_of, create_transform, streaming, configure, enumerate,
}
use gambit_record.Recorder.VideoEncoder.{
  forced, Run, then_do, drain, wait, check, offered, needs_configure, configured_for, attempt,
  caught, encode,
}
use gambit_record.Recorder.VideoEncoder.Kept.{Keeps, drain-Keeps, wait-Keeps}

-- Hardware that failed once is not used again.
abbrev pub IsSafe : Encoder → Type 0
IsSafe e = (e.force_software && e.hardware) ≡ false

IsSafe-kept : (e e' : Encoder) → Keeps e e' → IsSafe e → IsSafe e'
IsSafe-kept e e' k h =
    subst (λ s. (s && e'.hardware) ≡ false) (sym k.force_software)
      (subst (λ w. (e.force_software && w) ≡ false) (sym k.hardware) h)

then_do-IsSafe :
    (x : Run × Bool) (next : Run → Run × Bool)
    → IsSafe x.0.encoder
    → ((r : Run) → IsSafe r.encoder → IsSafe (next r).0.encoder)
    → IsSafe (then_do x next).0.encoder
then_do-IsSafe (r, true) next h k = k r h
then_do-IsSafe (r, false) next h k = h

activated-IsSafe : (e : Encoder) (o : Option Activation) → IsSafe e → IsSafe (activated e o).0
unfolding activated
activated-IsSafe e none h = h
activated-IsSafe e (some a) h = h

no_hardware :
    (prefer software : Bool) (xs : List Activation)
    → (software && not (is_empty (if prefer && not software then xs else []))) ≡ false
no_hardware true true xs = refl
no_hardware false true xs = refl
no_hardware true false xs = refl
no_hardware false false xs = refl

create_transform-IsSafe : (m : Machine) (e : Encoder) → IsSafe (create_transform m e).0
unfolding create_transform hardware_of
create_transform-IsSafe m e =
    activated-IsSafe (record e { hardware = not (is_empty (hardware_of m e)) }) _
      (no_hardware e.prefer_hardware e.force_software (enumerate m.hardware))

if-IsSafe {ℓ} :
    {A : Type ℓ} (f : A → Encoder) (b : Bool) (x y : A)
    → IsSafe (f x)
    → IsSafe (f y)
    → IsSafe (f (if b then x else y))
if-IsSafe f true x y h k = h
if-IsSafe f false x y h k = k

streaming-IsSafe :
    (w h : ℕ) (e : Encoder) (o : Option Activation) → IsSafe e → IsSafe (streaming w h e o).0
unfolding streaming
streaming-IsSafe w h e none k = k
streaming-IsSafe w h e (some a) k =
    if-IsSafe (λ (x : Encoder × Bool). x.0) (not a.configures) (e, false) _ k k

configured_for-IsSafe :
    (m : Machine) (frame : VideoFrame) (r : Run)
    → IsSafe r.encoder
    → IsSafe (configured_for m frame r).0.encoder
unfolding configured_for configure
configured_for-IsSafe m frame r k =
    if-IsSafe (λ (x : Run × Bool). x.0.encoder) (needs_configure frame r.encoder)
      (
        record r { encoder = (configure m frame.width frame.height r.encoder).0 },
        (configure m frame.width frame.height r.encoder).1,
      )
      (r, true)
      (if-IsSafe (λ (x : Encoder × Bool). x.0) (create_transform m (teardown r.encoder)).1
        (streaming frame.width frame.height t t.transform) (create_transform m (teardown r.encoder))
        (streaming-IsSafe frame.width frame.height t t.transform safe) safe)
      k
  where
    t : Encoder
    t = (create_transform m (teardown r.encoder)).0

    safe : IsSafe t
    safe = create_transform-IsSafe m (teardown r.encoder)

drain-IsSafe : (r : Run) → IsSafe r.encoder → IsSafe (drain r).0.encoder
drain-IsSafe r = IsSafe-kept r.encoder (drain r).0.encoder (drain-Keeps r)

offered-IsSafe :
    (m : Machine) (r : Run) (a : Accepted) → IsSafe r.encoder → IsSafe (offered m r a).0.encoder
unfolding offered
offered-IsSafe m r accepted h = h
offered-IsSafe m r refused h = h
offered-IsSafe m r not_accepting h =
    then_do-IsSafe (drain r) _ (drain-IsSafe r h) (λ r' k. second r' k m.second)
  where
    second :
        (r' : Run)
        → IsSafe r'.encoder
        → (a : Accepted)
        → IsSafe (elim a as (λ _. Run × Bool) [ accepted ↦ (r', true) | _ ↦ (r', false) ]).0.encoder
    second r' k accepted = k
    second r' k not_accepting = k
    second r' k refused = k

attempt-IsSafe :
    (m : Machine) (frame : VideoFrame) (r : Run)
    → IsSafe r.encoder
    → IsSafe (attempt m frame r).0.encoder
unfolding attempt
attempt-IsSafe m frame r h =
    then_do-IsSafe (configured_for m frame r) _ (configured_for-IsSafe m frame r h) (λ r1 h1.
      then_do-IsSafe (check m.converts r1) _ h1 (λ r2 h2.
        then_do-IsSafe (drain (record r2 { encoder = forced m r2.encoder })) _
          (drain-IsSafe (record r2 { encoder = forced m r2.encoder }) h2)
          (λ r3 h3.
            then_do-IsSafe (wait r3.events r3.encoder r3.outputs) _
              (IsSafe-kept r3.encoder _ (wait-Keeps r3.events r3.encoder r3.outputs) h3)
              (λ r4 h4. then_do-IsSafe (check m.makes r4) _ h4 (λ r5 h5.
                then_do-IsSafe (offered m r5 m.first) _ (offered-IsSafe m r5 m.first h5) (λ r6 h6.
                  then_do-IsSafe
                    (drain (record r6 { encoder = record r6.encoder { need_input = false } })) _
                    (drain-IsSafe (record r6 { encoder = record r6.encoder { need_input = false } })
                      h6)
                    (λ r7 h7. h7)))))))

caught-IsSafe : (e : Encoder) → IsSafe e → IsSafe (caught e)
unfolding caught teardown
caught-IsSafe e h =
    if-IsSafe (λ x. x) e.hardware (teardown (record e { force_software = true })) e refl h

-- An encoder that has gone over to software holds no hardware encoder, and `encode` keeps that,
-- whether it ends with an exception or not.
pub encode-IsSafe :
    (m : Machine) (frame : VideoFrame) (r : Run)
    → IsSafe r.encoder
    → IsSafe (encode m frame r).0.encoder
unfolding encode
encode-IsSafe m frame r h =
    if-IsSafe (λ (x : Run × Bool). x.0.encoder) (attempt m frame r).1 (attempt m frame r) _
      (attempt-IsSafe m frame r h)
      (caught-IsSafe (attempt m frame r).0.encoder (attempt-IsSafe m frame r h))
