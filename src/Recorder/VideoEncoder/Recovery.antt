-- ===== src/Recorder/VideoEncoder/Recovery.antt =====
-- The frame behind a failure of a hardware encoder: recorder/src/video/MediaFoundationEncoder.cpp.
use gambit_record.Common.{
  ℕ, Bool, true, false, not, ◌&&◌, ◌||◌, List, [], ◌∷◌, Option, none, some, ◌==◌, if◌then◌else◌,
  Text, arith, ◌≡◌, refl, sym, subst, ◌∙◌, is_empty, ap,
}
use gambit_record.Recorder.Media.{VideoFrame}
use gambit_record.Recorder.Transform.{
  Activation, Encoder, Machine, accepted, teardown, first_active, activated, hardware_of,
  create_transform, streaming, configure, even, enumerate,
}
use gambit_record.Recorder.VideoEncoder.{
  forced, Event, fails, unrelated, need_input, have_output, Produced, need_more, stream_change,
  failed, no_sample, sample, at, emit, produce, drain_transform, drain_output, drain_events, awaits,
  poll, Run, then_do, drain, wait, check, offered, needs_configure, configured_for, attempt, caught,
  encode,
}

-- No `ProcessOutput` fails.
abbrev pub Produces : List Produced → Type 0
Produces [] = Unit
Produces (failed ∷ rest) = ⊥
Produces (need_more ∷ rest) = Produces rest
Produces (stream_change ∷ rest) = Produces rest
Produces (no_sample ∷ rest) = Produces rest
Produces (sample pts duration clean bytes header ∷ rest) = Produces rest

-- A synchronous encoder of this name is in use, and its outputs do not fail.
pub record Works (name : Text) (r : Run) : Type 0 where
  pub sync : r.encoder.async ≡ false
  pub named : r.encoder.encoder_name ≡ name
  pub produces : Produces r.outputs

Runs : (Run → Type 0) → Run × Bool → Type 0
Runs Q x = (x.1 ≡ true) × Q x.0

then_do-Runs :
    (Q S : Run → Type 0) (x : Run × Bool) (next : Run → Run × Bool)
    → Runs Q x
    → ((r : Run) → Q r → Runs S (next r))
    → Runs S (then_do x next)
unfolding Runs
then_do-Runs Q S (r, true) next h k = k r h.1
then_do-Runs Q S (r, false) next h k = absurd (ground (arith, h.0))

produce-Runs :
    (name : Text) (events : List Event) (e : Encoder) (outputs : List Produced)
    → Works name (at e events outputs)
    → Runs (Works name) (produce events e outputs)
unfolding Runs produce emit
produce-Runs name events e [] h = (refl, h)
produce-Runs name events e (need_more ∷ rest) h =
    (refl, record { sync = h.sync; named = h.named; produces = h.produces })
produce-Runs name events e (stream_change ∷ rest) h =
    produce-Runs name events e rest
      (record { sync = h.sync; named = h.named; produces = h.produces })
produce-Runs name events e (failed ∷ rest) h = absurd h.produces
produce-Runs name events e (no_sample ∷ rest) h =
    produce-Runs name events e rest
      (record { sync = h.sync; named = h.named; produces = h.produces })
produce-Runs name events e (sample pts duration clean bytes header ∷ rest) h =
    produce-Runs name events (emit pts duration clean bytes header e) rest
      (record { sync = h.sync; named = h.named; produces = h.produces })

drain_output-Runs : (name : Text) (r : Run) → Works name r → Runs (Works name) (drain_output r)
unfolding Runs drain_output drain_transform
drain_output-Runs name r h = choose r.encoder.transform
  where
    choose : (t : Option Activation) → Runs (Works name) (drain_transform r t)
    choose none = (refl, h)
    choose (some a) = pick a.has_stream_info
      where
        pick :
            (b : Bool)
            → Runs (Works name) (if not b then (r, true) else produce r.events r.encoder r.outputs)
        pick true = produce-Runs name r.events r.encoder r.outputs h
        pick false = (refl, h)

drain-Runs : (name : Text) (r : Run) → Works name r → Runs (Works name) (drain r)
unfolding Runs drain drain_events
drain-Runs name r h =
    then_do-Runs (Works name) (Works name) (drain_events r) drain_output
      (subst (λ b. Runs (Works name) (if b then poll r.events r.encoder r.outputs else (r, true)))
        (sym h.sync) (refl, h))
      (drain_output-Runs name)

sync_awaits : (e : Encoder) → e.async ≡ false → awaits e ≡ false
sync_awaits e h = ground (arith, h)

idle :
    (name : Text) (b : Bool) (x y : Run × Bool)
    → b ≡ false
    → Runs (Works name) y
    → Runs (Works name) (if b then x else y)
idle name true x y h k = absurd (ground (arith, h))
idle name false x y h k = k

wait-Runs :
    (name : Text) (events : List Event) (e : Encoder) (outputs : List Produced)
    → Works name (at e events outputs)
    → Runs (Works name) (wait events e outputs)
unfolding Runs wait
wait-Runs name [] e outputs h = (
  ap not (sync_awaits e h.sync),
  record { sync = h.sync; named = h.named; produces = h.produces },
)
wait-Runs name (fails ∷ events) e outputs h =
    idle name (awaits e) _ (at e (fails ∷ events) outputs, true) (sync_awaits e h.sync) (refl, h)
wait-Runs name (unrelated ∷ events) e outputs h =
    idle name (awaits e) (wait events e outputs) (at e (unrelated ∷ events) outputs, true)
      (sync_awaits e h.sync) (refl, h)
wait-Runs name (need_input ∷ events) e outputs h =
    idle name (awaits e) _ (at e (need_input ∷ events) outputs, true) (sync_awaits e h.sync)
      (refl, h)
wait-Runs name (have_output ∷ events) e outputs h =
    idle name (awaits e) _ (at e (have_output ∷ events) outputs, true) (sync_awaits e h.sync)
      (refl, h)

create_transform_software :
    (m : Machine) (e : Encoder) (a : Activation)
    → e.force_software ≡ true
    → first_active (enumerate m.software) ≡ some a
    → create_transform m e ≡ (
      record e {
        hardware = false;
        transform = some a;
        encoder_name = a.name;
        async = a.is_async;
        gpu_input = false;
      },
      true,
    )
unfolding create_transform hardware_of activated
create_transform_software m e a h k =
    subst
      (λ xs.
        activated (record e { hardware = not (is_empty xs) })
          (first_active (if is_empty xs then enumerate m.software else xs))
        ≡ (
          record e {
            hardware = false;
            transform = some a;
            encoder_name = a.name;
            async = a.is_async;
            gpu_input = false;
          },
          true,
        ))
      (sym (no_hardware e.prefer_hardware e.force_software (enumerate m.hardware) h))
      (subst
        (λ o. activated (record e { hardware = false }) o ≡ (
          record e {
            hardware = false;
            transform = some a;
            encoder_name = a.name;
            async = a.is_async;
            gpu_input = false;
          },
          true,
        ))
        (sym k) refl)
  where
    no_hardware :
        (p f : Bool) (xs : List Activation) → f ≡ true → (if p && not f then xs else []) ≡ []
    no_hardware true true xs q = refl
    no_hardware false true xs q = refl
    no_hardware p false xs q = absurd (ground (arith, q))

-- The software encoder's name, and that it is synchronous, behind a `configure` without an exception.
Configured : Text → Encoder × Bool → Type 0
Configured name c = (c.1 ≡ true) × (c.0.async ≡ false) × (c.0.encoder_name ≡ name)

by_false {ℓ} :
    {A : Type ℓ} (P : A → Type 0) (b : Bool) (x y : A) → b ≡ false → P y → P (if b then x else y)
by_false P true x y h k = absurd (ground (arith, h))
by_false P false x y h k = k

streaming_software :
    (w h : ℕ) (e : Encoder) (a : Activation)
    → a.configures ≡ true
    → e.async ≡ false
    → Configured e.encoder_name (streaming w h e (some a))
unfolding streaming Configured
streaming_software w h e a k sync =
    by_false (Configured e.encoder_name) (not a.configures) (e, false) _ (ap not k)
      (refl, sync, refl)

configure_software :
    (m : Machine) (w h : ℕ) (e : Encoder) (a : Activation)
    → e.force_software ≡ true
    → first_active (enumerate m.software) ≡ some a
    → a.configures ≡ true
    → a.is_async ≡ false
    → Configured a.name (configure m w h e)
unfolding configure teardown
configure_software m w h e a forced first configures sync =
    subst
      (λ (t : Encoder × Bool).
        Configured a.name (if t.1 then streaming w h t.0 t.0.transform else t))
      (sym (create_transform_software m (teardown e) a forced first))
      (streaming_software w h
        (record (teardown e) {
          hardware = false;
          transform = some a;
          encoder_name = a.name;
          async = a.is_async;
          gpu_input = false;
        })
        a configures sync)

configured_for-Runs :
    (m : Machine) (frame : VideoFrame) (r : Run) (a : Activation)
    → r.encoder.configured ≡ false
    → r.encoder.force_software ≡ true
    → first_active (enumerate m.software) ≡ some a
    → a.configures ≡ true
    → a.is_async ≡ false
    → Produces r.outputs
    → Runs (Works a.name) (configured_for m frame r)
unfolding configured_for needs_configure Runs Configured
configured_for-Runs m frame r a fresh forced first configures sync fine =
    let c =
      configure_software m frame.width frame.height r.encoder a forced first configures sync in
    subst
      (λ b. Runs (Works a.name) (
        if not b
          || not (even frame.width == r.encoder.description.width)
          || not (even frame.height == r.encoder.description.height)
        then (
          record r { encoder = (configure m frame.width frame.height r.encoder).0 },
          (configure m frame.width frame.height r.encoder).1,
        )
        else (r, true)))
      (sym fresh) (c.0, record { sync = c.1; named = c.2; produces = fine })

check-Runs :
    (name : Text) (b : Bool) (r : Run) → b ≡ true → Works name r → Runs (Works name) (check b r)
unfolding Runs
check-Runs name b r h k = (h, k)

changed :
    (name : Text) (r r' : Run)
    → r'.encoder.async ≡ r.encoder.async
    → r'.encoder.encoder_name ≡ r.encoder.encoder_name
    → r'.outputs ≡ r.outputs
    → Works name r
    → Works name r'
changed name r r' h k l w = record {
  sync = h ∙ w.sync;
  named = k ∙ w.named;
  produces = subst Produces (sym l) w.produces;
}

attempt-Runs :
    (m : Machine) (frame : VideoFrame) (r : Run) (a : Activation)
    → Runs (Works a.name) (configured_for m frame r)
    → m.converts ≡ true
    → m.makes ≡ true
    → m.first ≡ accepted
    → Runs (Works a.name) (attempt m frame r)
unfolding attempt offered Runs
attempt-Runs m frame r a start converts makes takes =
    let W = Works a.name in
    then_do-Runs W W (configured_for m frame r) _ start (λ r1 h1.
      then_do-Runs W W (check m.converts r1) _ (check-Runs a.name m.converts r1 converts h1)
        (λ r2 h2.
          let unforced = record r2 { encoder = forced m r2.encoder } in
          then_do-Runs W W (drain unforced) _
            (drain-Runs a.name unforced (changed a.name r2 unforced refl refl refl h2))
            (λ r3 h3.
              then_do-Runs W W (wait r3.events r3.encoder r3.outputs) _
                (wait-Runs a.name r3.events r3.encoder r3.outputs
                  (changed a.name r3 (at r3.encoder r3.events r3.outputs) refl refl refl h3))
                (λ r4 h4.
                  then_do-Runs W W (check m.makes r4) _ (check-Runs a.name m.makes r4 makes h4)
                    (λ r5 h5.
                      then_do-Runs W W (offered m r5 m.first) _
                        (subst (λ t. Runs W (offered m r5 t)) (sym takes) (refl, h5))
                        (λ r6 h6.
                          let taken = record r6 {
                            encoder = record r6.encoder { need_input = false };
                          } in
                          then_do-Runs W W (drain taken) _
                            (drain-Runs a.name taken (changed a.name r6 taken refl refl refl h6))
                            (λ r7 h7. (refl, changed a.name r7 _ refl refl refl h7))))))))

-- The state behind a failure of a hardware encoder.
fallen :
    (m : Machine) (frame : VideoFrame) (r : Run)
    → (encode m frame r).1 ≡ false
    → (attempt m frame r).0.encoder.hardware ≡ true
    → ((encode m frame r).0.encoder.configured ≡ false)
      × ((encode m frame r).0.encoder.force_software ≡ true)
unfolding encode caught teardown
fallen m frame r h k = choose (attempt m frame r).1 refl
  where
    x : Run
    x = (attempt m frame r).0

    torn :
        (b : Bool)
        → b ≡ true
        → ((if b
              then teardown (record x.encoder { force_software = true })
              else x.encoder).configured
            ≡ false)
          × ((if b
                then teardown (record x.encoder { force_software = true })
                else x.encoder).force_software
              ≡ true)
    torn true e = (refl, refl)
    torn false e = absurd (ground (arith, e))

    choose :
        (b : Bool)
        → (attempt m frame r).1 ≡ b
        → ((encode m frame r).0.encoder.configured ≡ false)
          × ((encode m frame r).0.encoder.force_software ≡ true)
    choose true e = absurd (ground (arith, e, h))
    choose false e =
        subst
          (λ b.
            ((if b
                then attempt m frame r
                else (record x { encoder = caught x.encoder }, false)).0.encoder.configured
              ≡ false)
            × ((if b
                  then attempt m frame r
                  else (record x { encoder = caught x.encoder }, false)).0.encoder.force_software
                ≡ true))
          (sym e) (torn x.encoder.hardware k)

encode-Runs :
    (Q : Run → Type 0) (m : Machine) (frame : VideoFrame) (r : Run)
    → Runs Q (attempt m frame r)
    → Runs Q (encode m frame r)
unfolding Runs encode
encode-Runs Q m frame r h =
    subst
      (λ b. Runs Q (
        if b then attempt m frame r else (
          record (attempt m frame r).0 { encoder = caught (attempt m frame r).0.encoder },
          false,
        )))
      (sym h.0) h

-- Where an `encode` fails while a hardware encoder is in use, the next `encode` ends without an
-- exception and with the first software encoder that activates, given that this encoder is
-- synchronous and its set-up succeeds, the frame is converted, the sample is made and is accepted at
-- once, and no output fails.
pub encode_after_failure :
    (m m' : Machine) (frame frame' : VideoFrame) (r : Run) (events : List Event)
    (outputs : List Produced) (a : Activation)
    → (encode m frame r).1 ≡ false
    → (attempt m frame r).0.encoder.hardware ≡ true
    → first_active (enumerate m'.software) ≡ some a
    → a.configures ≡ true
    → a.is_async ≡ false
    → m'.converts ≡ true
    → m'.makes ≡ true
    → m'.first ≡ accepted
    → Produces outputs
    → ((encode m' frame' (at (encode m frame r).0.encoder events outputs)).1 ≡ true)
      × ((encode m' frame' (at (encode m frame r).0.encoder events outputs)).0.encoder.encoder_name
          ≡ a.name)
unfolding Runs
encode_after_failure m m' frame frame' r events outputs a broke hard first configures sync converts
      makes takes fine =
    let next = at (encode m frame r).0.encoder events outputs in
    let f = fallen m frame r broke hard in
    let done = encode-Runs (Works a.name) m' frame' next (
      attempt-Runs m' frame' next a
        (configured_for-Runs m' frame' next a f.0 f.1 first configures sync fine) converts makes
        takes) in
    (done.0, done.1.named)
