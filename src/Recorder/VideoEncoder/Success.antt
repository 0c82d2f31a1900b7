-- ===== src/Recorder/VideoEncoder/Success.antt =====
-- What an `encode` that throws nothing leaves, and when it throws nothing:
-- recorder/src/video/MediaFoundationEncoder.cpp.
use gambit_record.Common.{
  ℕ, suc, ◌&&◌, ap₂, Bool, true, false, not, Option, none, some, if◌then◌else◌, arith, ◌≡◌, refl,
  ◌∙◌,
}
use gambit_record.Recorder.Media.{VideoFrame}
use gambit_record.Recorder.Transform.{
  Activation, Encoder, Machine, Accepted, accepted, not_accepting, refused, teardown,
  create_transform, activated, streaming, configure, even,
}
use gambit_record.Recorder.VideoEncoder.{
  forced, Run, then_do, drain, wait, check, offered, needs_configure, configured_for, attempt,
  encode,
}
use gambit_record.Recorder.VideoEncoder.Kept.{Keeps, drain-Keeps, wait-Keeps}

-- The encoder is set up for a frame of this size.
pub record Fits (frame : VideoFrame) (e : Encoder) : Type 0 where
  pub configured : e.configured ≡ true
  pub width : e.description.width ≡ even frame.width
  pub height : e.description.height ≡ even frame.height

Fits-kept : (frame : VideoFrame) (e e' : Encoder) → Keeps e e' → Fits frame e → Fits frame e'
Fits-kept frame e e' k h = record {
  configured = k.configured ∙ h.configured;
  width = k.width ∙ h.width;
  height = k.height ∙ h.height;
}

-- What holds of the state where no exception has ended a step.
Ok {ℓ} : (Encoder → Type ℓ) → Run × Bool → Type ℓ
Ok Q x = x.1 ≡ true → Q x.0.encoder

then_do-Ok {ℓ κ} :
    (Q : Encoder → Type ℓ) (S : Encoder → Type κ) (x : Run × Bool) (next : Run → Run × Bool)
    → Ok Q x
    → ((r : Run) → Q r.encoder → Ok S (next r))
    → Ok S (then_do x next)
unfolding Ok
then_do-Ok Q S (r, true) next h k = k r (h refl)
then_do-Ok Q S (r, false) next h k = λ e. absurd (ground (arith, e))

if-Ok {ℓ} :
    {A : Type ℓ} (P : A × Bool → Type 0) (b : Bool) (x y : A × Bool)
    → (b ≡ true → P x)
    → (b ≡ false → P y)
    → P (if b then x else y)
if-Ok P true x y h k = h refl
if-Ok P false x y h k = k refl

clash : (b : Bool) → b ≡ false → b ≡ true → ⊥
clash b h k = ground (arith, h, k)

streaming-Fits :
    (frame : VideoFrame) (e : Encoder) (o : Option Activation)
    → (streaming frame.width frame.height e o).1 ≡ true
    → Fits frame (streaming frame.width frame.height e o).0
unfolding streaming
streaming-Fits frame e none = λ h. absurd (clash false refl h)
streaming-Fits frame e (some a) =
    if-Ok (λ (x : Encoder × Bool). x.1 ≡ true → Fits frame x.0) (not a.configures) (e, false) _
      (λ _ h. absurd (clash false refl h))
      (λ _ h. record { configured = refl; width = refl; height = refl })

fit_already : (frame : VideoFrame) (e : Encoder) → needs_configure frame e ≡ false → Fits frame e
unfolding needs_configure
fit_already frame e h = record {
  configured = ground (arith, h);
  width = ground (arith, h);
  height = ground (arith, h);
}

configured_for-Fits :
    (m : Machine) (frame : VideoFrame) (r : Run) → Ok (Fits frame) (configured_for m frame r)
unfolding Ok configured_for configure
configured_for-Fits m frame r =
    if-Ok (Ok (Fits frame)) (needs_configure frame r.encoder)
      (
        record r { encoder = (configure m frame.width frame.height r.encoder).0 },
        (configure m frame.width frame.height r.encoder).1,
      )
      (r, true)
      (λ _.
        if-Ok (λ (x : Encoder × Bool). x.1 ≡ true → Fits frame x.0)
          (create_transform m (teardown r.encoder)).1
          (streaming frame.width frame.height t t.transform)
          (create_transform m (teardown r.encoder)) (λ _. streaming-Fits frame t t.transform)
          (λ h k. absurd (clash _ h k)))
      (λ h _. fit_already frame r.encoder h)
  where
    t : Encoder
    t = (create_transform m (teardown r.encoder)).0

drain-Ok :
    (Q : Encoder → Type 0) (r : Run) → ((e : Encoder) → Keeps r.encoder e → Q e) → Ok Q (drain r)
unfolding Ok
drain-Ok Q r h _ = h (drain r).0.encoder (drain-Keeps r)

-- The request for a keyframe and the calls of the codec are as they were.
record IsUnasked (e e' : Encoder) : Type 0 where
  flag : e'.force_keyframe ≡ e.force_keyframe
  count : e'.forced_keyframes ≡ e.forced_keyframes

activated-IsUnasked : (e : Encoder) (o : Option Activation) → IsUnasked e (activated e o).0
unfolding activated
activated-IsUnasked e none = record { flag = refl; count = refl }
activated-IsUnasked e (some a) = record { flag = refl; count = refl }

streaming-IsUnasked :
    (width height : ℕ) (e : Encoder) (o : Option Activation)
    → IsUnasked e (streaming width height e o).0
unfolding streaming
streaming-IsUnasked width height e none = record { flag = refl; count = refl }
streaming-IsUnasked width height e (some a) =
    if-Ok (λ (x : Encoder × Bool). IsUnasked e x.0) (not a.configures) (e, false) _
      (λ _. record { flag = refl; count = refl }) (λ _. record { flag = refl; count = refl })

configured_for-IsUnasked :
    (m : Machine) (frame : VideoFrame) (r : Run)
    → IsUnasked r.encoder (configured_for m frame r).0.encoder
unfolding configured_for configure create_transform teardown
configured_for-IsUnasked m frame r =
    if-Ok (λ (x : Run × Bool). IsUnasked r.encoder x.0.encoder) (needs_configure frame r.encoder)
      (
        record r { encoder = (configure m frame.width frame.height r.encoder).0 },
        (configure m frame.width frame.height r.encoder).1,
      )
      (r, true)
      (λ _.
        if-Ok (λ (x : Encoder × Bool). IsUnasked r.encoder x.0) t.1
          (streaming frame.width frame.height t.0 t.0.transform) t
          (λ _.
            let k = streaming-IsUnasked frame.width frame.height t.0 t.0.transform in
            record { flag = k.flag ∙ made.flag; count = k.count ∙ made.count })
          (λ _. record { flag = made.flag; count = made.count }))
      (λ _. record { flag = refl; count = refl })
  where
    t : Encoder × Bool
    t = create_transform m (teardown r.encoder)

    made : IsUnasked (teardown r.encoder) t.0
    made = let k = activated-IsUnasked _ _ in record { flag = k.flag; count = k.count }

-- The number of calls that force a keyframe, behind an `encode`.
abbrev pub asked : Machine → Encoder → ℕ
asked m e = if e.force_keyframe && m.codec_api then suc e.forced_keyframes else e.forced_keyframes

-- The frame's size, with no keyframe that is still to be forced, and so many calls.
abbrev pub IsForced : VideoFrame → ℕ → Encoder → Type 0
IsForced frame n e = Fits frame e × (e.force_keyframe ≡ false) × (e.forced_keyframes ≡ n)

IsForced-kept :
    (frame : VideoFrame) (n : ℕ) (e e' : Encoder)
    → Keeps e e'
    → IsForced frame n e
    → IsForced frame n e'
IsForced-kept frame n e e' k h =
    (Fits-kept frame e e' k h.0, k.force_keyframe ∙ h.1, k.forced_keyframes ∙ h.2)

offered-Forced :
    (m : Machine) (frame : VideoFrame) (n : ℕ) (r : Run) (a : Accepted)
    → IsForced frame n r.encoder
    → Ok (IsForced frame n) (offered m r a)
unfolding Ok offered
offered-Forced m frame n r accepted h = λ _. h
offered-Forced m frame n r refused h = λ k. absurd (clash false refl k)
offered-Forced m frame n r not_accepting h =
    then_do-Ok (IsForced frame n) (IsForced frame n) (drain r) _
      (drain-Ok (IsForced frame n) r (λ e k. IsForced-kept frame n r.encoder e k h))
      (λ r' k. second r' k m.second)
  where
    second :
        (r' : Run)
        → IsForced frame n r'.encoder
        → (a : Accepted)
        → Ok
            (IsForced frame n)
            (elim a as (λ _. Run × Bool) [ accepted ↦ (r', true) | _ ↦ (r', false) ])
    second r' k accepted _ = k
    second r' k not_accepting _ = k
    second r' k refused _ = k

-- What an encoded frame leaves.
pub record Encoded (frame : VideoFrame) (n : ℕ) (e : Encoder) : Type 0 where
  pub fits : Fits frame e
  pub force_keyframe : e.force_keyframe ≡ false
  pub forced_keyframes : e.forced_keyframes ≡ n
  pub last_pts : e.last_pts ≡ frame.pts

-- An encoder that is set up and has not been told to force a keyframe yet.
abbrev IsPrepared : VideoFrame → Encoder → Encoder → Type 0
IsPrepared frame before e = Fits frame e × IsUnasked before e

asked_same : (m : Machine) (e e' : Encoder) → IsUnasked e e' → asked m e' ≡ asked m e
asked_same m e e' h =
    ap₂ (λ (b : Bool) (n : ℕ). if b && m.codec_api then suc n else n) h.flag h.count

attempt-Encoded :
    (m : Machine) (frame : VideoFrame) (r : Run)
    → Ok (Encoded frame (asked m r.encoder)) (attempt m frame r)
unfolding Ok attempt
attempt-Encoded m frame r =
    let n = asked m r.encoder in
    let P = IsPrepared frame r.encoder in
    then_do-Ok P (Encoded frame n) (configured_for m frame r) _
      (λ h. (configured_for-Fits m frame r h, configured_for-IsUnasked m frame r))
      (λ r1 h1.
        then_do-Ok P (Encoded frame n) (check m.converts r1) _ (λ _. h1)
          (λ r2 h2.
            let unforced = record r2 { encoder = forced m r2.encoder } in
            then_do-Ok (IsForced frame n) (Encoded frame n) (drain unforced) _
              (drain-Ok (IsForced frame n) unforced (λ e k.
                IsForced-kept frame n unforced.encoder e k (
                  record { configured = h2.0.configured; width = h2.0.width; height = h2.0.height },
                  refl,
                  asked_same m r.encoder r2.encoder h2.1,
                )))
              (λ r3 h3.
                then_do-Ok (IsForced frame n) (Encoded frame n)
                  (wait r3.events r3.encoder r3.outputs) _
                  (λ _.
                    IsForced-kept frame n r3.encoder _ (wait-Keeps r3.events r3.encoder r3.outputs)
                      h3)
                  (λ r4 h4.
                    then_do-Ok (IsForced frame n) (Encoded frame n) (check m.makes r4) _ (λ _. h4)
                      (λ r5 h5.
                        then_do-Ok (IsForced frame n) (Encoded frame n) (offered m r5 m.first) _
                          (offered-Forced m frame n r5 m.first h5)
                          (λ r6 h6.
                            let taken = record r6 {
                              encoder = record r6.encoder { need_input = false };
                            } in
                            then_do-Ok (IsForced frame n) (Encoded frame n) (drain taken) _
                              (drain-Ok (IsForced frame n) taken (λ e k.
                                IsForced-kept frame n taken.encoder e k (
                                  record {
                                    configured = h6.0.configured;
                                    width = h6.0.width;
                                    height = h6.0.height;
                                  },
                                  h6.1,
                                  h6.2,
                                )))
                              (λ r7 h7 _. record {
                                fits = record {
                                  configured = h7.0.configured;
                                  width = h7.0.width;
                                  height = h7.0.height;
                                };
                                force_keyframe = h7.1;
                                forced_keyframes = h7.2;
                                last_pts = refl;
                              })))))))

-- After an `encode` without an exception, the encoder is set up for the even part of the frame's
-- width and height, the last time is the frame's, and no keyframe is requested any more: the codec has
-- been told once to force one where one was requested and there is an ICodecAPI, and not otherwise.
pub encode-Encoded :
    (m : Machine) (frame : VideoFrame) (r : Run)
    → (encode m frame r).1 ≡ true
    → Encoded frame (asked m r.encoder) (encode m frame r).0.encoder
unfolding encode Ok
encode-Encoded m frame r =
    if-Ok (Ok (Encoded frame (asked m r.encoder))) (attempt m frame r).1 (attempt m frame r) _
      (λ _. attempt-Encoded m frame r) (λ _ k. absurd (clash false refl k))
