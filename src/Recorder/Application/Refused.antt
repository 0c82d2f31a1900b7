-- ===== src/Recorder/Application/Refused.antt =====
-- What a refused command leaves: recorder/src/app/Application.cpp, handle_command.
use gambit_record.Common.{
  ℕ, Bool, true, false, not, ◌&&◌, [], Option, none, some, if◌then◌else◌, Text, literal, arith, ◌≡◌,
  refl, sym, subst, ap,
}
use gambit_record.Recorder.Media.{EvidenceMetadata}
use gambit_record.Recorder.States.{is_stopped}
use gambit_record.Recorder.Config.File.{find}
use gambit_record.Recorder.RecordingSession.{RecordingSession, start}
use gambit_record.Recorder.ReplayBuffer.{
  ReplayBuffer, is_running, is_saving, start as start_replay, stop as stop_replay,
  is_stopped as replay_is_stopped,
}
use gambit_record.Recorder.VideoEncoder.{request_keyframe}
use gambit_record.Recorder.Pipeline.{Pipeline}
use gambit_record.Recorder.Application.Requests.{Request, text_or, as_scalar, parse_metadata}
use gambit_record.Recorder.Application.Commands.{
  Application, Reply, reply, capture_ready, record_start, replay_start, replay_stop, replay_save,
  marker,
}
use gambit_record.Recorder.Application.Dispatch.{
  Command, record_start_command, record_stop_command, settings_command, youtube_channel_command,
  settings_set_command, replay_start_command, marker_command, replay_stop_command,
  replay_save_command, status_command, unknown, command_of, is_missing, World, Answer, replied,
  settings_are, settings_saved, channel_is, status_is, settings, with_application, start_recording,
  on_record_start, on_replay_save, on_marker, on_command, on_name, collected, handle_command,
}

-- An answer that says that the command was not carried out.
abbrev pub is_refused : Option Answer → Bool
is_refused none = false
is_refused (some (replied r)) = not r.success
is_refused (some (settings_are s)) = false
is_refused (some (settings_saved s)) = false
is_refused (some (channel_is c)) = not c.success
is_refused (some (status_is s)) = false

-- All commands but `record_stop` and `settings_set`.
abbrev pub is_guarded : Command → Bool
is_guarded record_stop_command = false
is_guarded settings_set_command = false
is_guarded _ = true

Unchanged : Pipeline → Pipeline × Option Answer → Type 0
Unchanged p x = is_refused x.1 ≡ true → x.0 ≡ p

pick :
    (p : Pipeline) (b : Bool) (x y : Pipeline × Option Answer)
    → (b ≡ true → Unchanged p x)
    → (b ≡ false → Unchanged p y)
    → Unchanged p (if b then x else y)
pick p true x y h k = h refl
pick p false x y h k = k refl

-- A refused command of the application keeps it.
Refuses : Application → Application × Reply → Type 0
Refuses a r = r.1.success ≡ false → r.0 ≡ a

choose :
    (a : Application) (b : Bool) (x y : Application × Reply)
    → (b ≡ true → Refuses a x)
    → (b ≡ false → Refuses a y)
    → Refuses a (if b then x else y)
choose a true x y h k = h refl
choose a false x y h k = k refl

-- A step of a part that reports false keeps the part.
keeps_part {ℓ} :
    {A : Type ℓ} (old : A) (b : Bool) (x y : A × Bool)
    → (x.1 ≡ false → x.0 ≡ old)
    → (y.1 ≡ false → y.0 ≡ old)
    → (if b then x else y).1 ≡ false
    → (if b then x else y).0 ≡ old
keeps_part old true x y h k = h
keeps_part old false x y h k = k

never {ℓ} : {A : Type ℓ} {x y : A} → true ≡ false → x ≡ y
never h = absurd (ground (arith, h))

start-keeps :
    (m : EvidenceMetadata) (a : Application)
    → (start m a.stream a.recording).1 ≡ false
    → (start m a.stream a.recording).0 ≡ a.recording
unfolding start
start-keeps m a = keeps_part a.recording (not (is_stopped a.recording.state)) _ _ (λ _. refl) never

start_replay-keeps : (b : ReplayBuffer) → (start_replay b).1 ≡ false → (start_replay b).0 ≡ b
unfolding start_replay
start_replay-keeps b = keeps_part b (replay_is_stopped b.state) _ _ never (λ _. refl)

stop_replay-keeps : (b : ReplayBuffer) → (stop_replay b).1 ≡ false → (stop_replay b).0 ≡ b
unfolding stop_replay
stop_replay-keeps b =
    keeps_part b (replay_is_stopped b.state) _ _ (λ _. refl)
      (keeps_part b (is_saving b.state) (b, false) _ (λ _. refl) never)

record_start-Refuses :
    (now : ℕ) (m : EvidenceMetadata) (a : Application) → Refuses a (record_start now m a)
unfolding record_start Refuses reply
record_start-Refuses now m a =
    choose a (not (capture_ready now a)) _ _ (λ _ _. refl)
      (λ _ h. ap (λ (r : RecordingSession). record a { recording = r }) (start-keeps m a h))

replay_start-Refuses : (a : Application) → Refuses a (replay_start a)
unfolding replay_start Refuses reply
replay_start-Refuses a h =
    ap (λ (r : ReplayBuffer). record a { replay = r }) (start_replay-keeps a.replay h)

replay_stop-Refuses : (a : Application) → Refuses a (replay_stop a)
unfolding replay_stop Refuses reply
replay_stop-Refuses a h =
    ap (λ (r : ReplayBuffer). record a { replay = r }) (stop_replay-keeps a.replay h)

replay_save-Refuses : (now : ℕ) (a : Application) → Refuses a (replay_save now a)
unfolding replay_save Refuses reply
replay_save-Refuses now a =
    choose a (not (is_running a.replay.state)) _ _ (λ _ _. refl)
      (λ _.
        choose a (not (capture_ready now a)) _ _ (λ _ _. refl)
          (λ _. choose a a.save_valid _ _ (λ _ _. refl) (λ _. never)))

marker-Refuses : (writes : Bool) (a : Application) → Refuses a (marker writes a)
unfolding marker Refuses reply
marker-Refuses writes a =
    choose a (is_stopped a.recording.state) _ _ (λ _ _. refl)
      (λ _. choose a (not writes) _ _ (λ _ _. refl) (λ _ _. refl))

is_false : (b : Bool) → not b ≡ true → b ≡ false
is_false b h = ground (arith, h)

with_application-Unchanged :
    (p : Pipeline) (r : Application × Reply)
    → Refuses p.application r
    → Unchanged p (with_application p r)
unfolding Unchanged Refuses
with_application-Unchanged p r k h =
    ap (λ (a : Application). record p { application = a }) (k (is_false r.1.success h))

absent : (p q : Pipeline) → Unchanged p (q, none)
unfolding Unchanged
absent p q h = absurd (ground (arith, h))

start_recording-Unchanged :
    (w : World) (p : Pipeline) (m : Option EvidenceMetadata) → Unchanged p (start_recording w p m)
unfolding start_recording Unchanged Refuses
start_recording-Unchanged w p none h = refl
start_recording-Unchanged w p (some m) h =
    let r = record_start w.now m p.application in
    let no = is_false r.1.success h in
    subst
      (λ b.
        record p {
          application = r.0;
          encoder = if b then request_keyframe p.encoder else p.encoder;
        }
        ≡ p)
      (sym no)
      (ap (λ (a : Application). record p { application = a })
        (record_start-Refuses w.now m p.application no))

on_record_start-Unchanged :
    (w : World) (request : Request) (p : Pipeline) → Unchanged p (on_record_start w request p)
unfolding on_record_start Unchanged
on_record_start-Unchanged w request p =
    pick p (not (capture_ready w.now p.application)) _ _ (λ _ _. refl)
      (λ _. start_recording-Unchanged w p (parse_metadata request))

on_replay_save-Unchanged :
    (w : World) (request : Request) (p : Pipeline) → Unchanged p (on_replay_save w request p)
unfolding on_replay_save Unchanged
on_replay_save-Unchanged w request p =
    let r = replay_save w.now p.application in
    pick p (r.1.success && is_missing (parse_metadata request))
      (record p { application = record p.application { last_save = none } }, none)
      (with_application p r)
      (λ _. absent p (record p { application = record p.application { last_save = none } }))
      (λ _. with_application-Unchanged p r (replay_save-Refuses w.now p.application))

on_command-Unchanged :
    (w : World) (request : Request) (p : Pipeline) (c : Command)
    → is_guarded c ≡ true
    → Unchanged p (on_command w request p c)
unfolding on_command on_replay_save on_marker Unchanged settings
on_command-Unchanged w request p record_start_command g = on_record_start-Unchanged w request p
on_command-Unchanged w request p record_stop_command g = absurd (ground (arith, g))
on_command-Unchanged w request p settings_command g = λ _. refl
on_command-Unchanged w request p youtube_channel_command g = λ _. refl
on_command-Unchanged w request p settings_set_command g = absurd (ground (arith, g))
on_command-Unchanged w request p replay_start_command g =
    with_application-Unchanged p _ (replay_start-Refuses p.application)
on_command-Unchanged w request p marker_command g =
    pick p _ _ _ (λ _. absent p p)
      (λ _.
        with_application-Unchanged p (marker w.marker_writes p.application)
          (marker-Refuses w.marker_writes p.application))
on_command-Unchanged w request p replay_stop_command g =
    with_application-Unchanged p _ (replay_stop-Refuses p.application)
on_command-Unchanged w request p replay_save_command g = on_replay_save-Unchanged w request p
on_command-Unchanged w request p status_command g = λ _. refl
on_command-Unchanged w request p unknown g = λ _. refl

-- Where the request names any command but `record_stop` and `settings_set`, an answer that refuses it
-- leaves the recorder as it was when the result of a save that has ended was taken.
pub handle_command-refused :
    (w : World) (request : Request) (p : Pipeline) (name : Text)
    → text_or [] (as_scalar (find (literal "command") request)) ≡ some name
    → is_guarded (command_of name) ≡ true
    → is_refused (handle_command w request p).1 ≡ true
    → (handle_command w request p).0 ≡ collected w p
unfolding handle_command on_name Unchanged
handle_command-refused w request p name e g =
    subst (λ o. Unchanged (collected w p) (on_name w request (collected w p) o)) (sym e)
      (on_command-Unchanged w request (collected w p) (command_of name) g)
