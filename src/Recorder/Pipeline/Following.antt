-- ===== src/Recorder/Pipeline/Following.antt =====
-- The sound behind a round of encoder_loop: recorder/src/app/Application.cpp.
use gambit_record.Common.{
  ℕ, Bool, true, false, not, ◌&&◌, ◌||◌, if◌then◌else◌, ◌==◌, same_text, Text, same_text_refl,
  arith, ◌≡◌, refl, sym, subst, ◌∙◌,
}
use gambit_record.Recorder.AudioCapture.{
  AudioCapture, Device, Source, opened, start, stop, source_of,
}
use gambit_record.Recorder.Pipeline.{
  Pipeline, Surroundings, audio_mode, wants_audio, stop_if, stop_unwanted, started, start_wanted,
  follow_audio,
}

-- What runs is wanted, in the mode of the settings and for the window's process, where it has one.
pub record Follows (pid : ℕ) (p : Pipeline) : Type 0 where
  pub wanted : p.audio.running ≡ true → wants_audio p.application.config ≡ true
  pub mode :
      p.audio.running ≡ true
      → same_text p.active_audio_mode (audio_mode p.application.config) ≡ true
  pub same_process : p.audio.running ≡ true → ((pid == 0) || (p.audio_pid == pid)) ≡ true
  pub silent :
      p.audio.running ≡ false
      → (not (wants_audio p.application.config) || p.audio_failed || (pid == 0)) ≡ true

by_cases :
    (P : Pipeline → Type 0) (b : Bool) (x y : Pipeline)
    → (b ≡ true → P x)
    → (b ≡ false → P y)
    → P (if b then x else y)
by_cases P true x y h k = h refl
by_cases P false x y h k = k refl

opened_running :
    (d : Device) (source : Source) (a : AudioCapture)
    → a.running ≡ false
    → (opened d source a).0.running ≡ (opened d source a).1
unfolding opened
opened_running d source a h = ground (arith, h)

start_running :
    (d : Device) (pid : ℕ) (mode : Text) (a : AudioCapture)
    → (start d pid mode a).0.running ≡ (start d pid mode a).1
unfolding start stop
start_running d pid mode a = opened_running d (source_of pid mode) _ refl

-- What the two stops leave: the settings, and sound that runs only where it ran and did not change.
record Stops (change : Bool) (p q : Pipeline) : Type 0 where
  config : q.application.config ≡ p.application.config
  audio_pid : q.audio_pid ≡ p.audio_pid
  active : q.active_audio_mode ≡ p.active_audio_mode
  ran : q.audio.running ≡ true → p.audio.running ≡ true
  unchanged : q.audio.running ≡ true → change ≡ false

stop_if-Stops : (change : Bool) (p : Pipeline) → Stops change p (stop_if change p)
unfolding stop_if stop
stop_if-Stops change p =
    by_cases (Stops change p) (p.audio.running && change) _ p
      (λ _. record {
        config = refl;
        audio_pid = refl;
        active = refl;
        ran = λ h. absurd (ground (arith, h));
        unchanged = λ h. absurd (ground (arith, h));
      })
      (λ e. record {
        config = refl;
        audio_pid = refl;
        active = refl;
        ran = λ h. h;
        unchanged = λ h. ground (arith, e, h);
      })

stop_unwanted-Stops :
    (p : Pipeline) → Stops (not (wants_audio p.application.config)) p (stop_unwanted p)
unfolding stop_unwanted stop
stop_unwanted-Stops p =
    by_cases (Stops (not (wants_audio p.application.config)) p)
      (not (wants_audio p.application.config) && p.audio.running) _ p
      (λ _. record {
        config = refl;
        audio_pid = refl;
        active = refl;
        ran = λ h. absurd (ground (arith, h));
        unchanged = λ h. absurd (ground (arith, h));
      })
      (λ e. record {
        config = refl;
        audio_pid = refl;
        active = refl;
        ran = λ h. h;
        unchanged = λ h. ground (arith, e, h);
      })

-- What runs fits, before the sound may start.
record Fitting (pid : ℕ) (p : Pipeline) : Type 0 where
  wanted : p.audio.running ≡ true → wants_audio p.application.config ≡ true
  mode :
      p.audio.running ≡ true
      → same_text p.active_audio_mode (audio_mode p.application.config) ≡ true
  same_process : p.audio.running ≡ true → ((pid == 0) || (p.audio_pid == pid)) ≡ true

or_self :
    (pid n : ℕ) → (not (pid == 0) && not (n == pid)) ≡ false → ((pid == 0) || (n == pid)) ≡ true
or_self pid n h = ground (arith, h)

true_of_not : (b : Bool) → not b ≡ false → b ≡ true
true_of_not b h = ground (arith, h)

Stops-Fitting :
    (pid : ℕ) (p p1 p2 p3 : Pipeline)
    → Stops (not (pid == 0) && not (p.audio_pid == pid)) p p1
    → Stops (not (same_text p1.active_audio_mode (audio_mode p.application.config))) p1 p2
    → Stops (not (wants_audio p2.application.config)) p2 p3
    → Fitting pid p3
Stops-Fitting pid p p1 p2 p3 h k l = record {
  wanted = λ r. subst (λ c. wants_audio c ≡ true) (sym l.config) (true_of_not _ (l.unchanged r));
  mode = λ r.
      subst (λ t. same_text t (audio_mode p3.application.config) ≡ true) (sym (l.active ∙ k.active))
        (subst (λ c. same_text p1.active_audio_mode (audio_mode c) ≡ true)
          (sym (l.config ∙ (k.config ∙ h.config))) (true_of_not _ (k.unchanged (l.ran r))));
  same_process = λ r.
      subst (λ n. ((pid == 0) || (n == pid)) ≡ true)
        (sym (l.audio_pid ∙ (k.audio_pid ∙ h.audio_pid)))
        (or_self pid p.audio_pid (h.unchanged (k.ran (l.ran r))));
}

started-Follows :
    (s : Surroundings) (p : Pipeline) (r : AudioCapture × Bool)
    → r.0.running ≡ r.1
    → wants_audio p.application.config ≡ true
    → Follows s.pid (started s p r)
unfolding started
started-Follows s p (a, true) h w = record {
  wanted = λ _. w;
  mode = λ _. same_text_refl (audio_mode p.application.config);
  same_process = λ _. ground arith;
  silent = λ k. absurd (ground (arith, h, k));
}
started-Follows s p (a, false) h w = record {
  wanted = λ k. absurd (ground (arith, h, k));
  mode = λ k. absurd (ground (arith, h, k));
  same_process = λ k. absurd (ground (arith, h, k));
  silent = λ _. ground arith;
}

wants_first : (w r f z : Bool) → (w && not r && not f && not z) ≡ true → (w ≡ true) × (r ≡ false)
wants_first w r f z h = (ground (arith, h), ground (arith, h))

reason :
    (w r f z : Bool) → (w && not r && not f && not z) ≡ false → r ≡ false → (not w || f || z) ≡ true
reason w r f z h k = ground (arith, h, k)

start_wanted-Follows :
    (s : Surroundings) (p : Pipeline) → Fitting s.pid p → Follows s.pid (start_wanted s p)
unfolding start_wanted
start_wanted-Follows s p h =
    by_cases (Follows s.pid)
      (wants_audio p.application.config
        && not p.audio.running
        && not p.audio_failed
        && not (s.pid == 0))
      _ p
      (λ e.
        started-Follows s p (start s.device s.pid (audio_mode p.application.config) p.audio)
          (start_running s.device s.pid (audio_mode p.application.config) p.audio)
          (wants_first _ p.audio.running p.audio_failed (s.pid == 0) e).0)
      (λ e. record {
        wanted = h.wanted;
        mode = h.mode;
        same_process = h.same_process;
        silent = λ k. reason _ p.audio.running p.audio_failed (s.pid == 0) e k;
      })

pub follow_audio-Follows : (s : Surroundings) (p : Pipeline) → Follows s.pid (follow_audio s p)
unfolding follow_audio
follow_audio-Follows s p =
    let change = not (s.pid == 0) && not (p.audio_pid == s.pid) in
    let p1 = stop_if change p in
    let other = not (same_text p1.active_audio_mode (audio_mode p.application.config)) in
    let p2 = stop_if other p1 in
    start_wanted-Follows s (stop_unwanted p2) (
      Stops-Fitting s.pid p p1 p2 (stop_unwanted p2) (stop_if-Stops change p)
        (stop_if-Stops other p1) (stop_unwanted-Stops p2))

Ends : (Pipeline → Type 0) → Pipeline × Bool → Type 0
Ends P x = x.1 ≡ true → P x.0
