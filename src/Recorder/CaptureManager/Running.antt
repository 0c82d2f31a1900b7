-- ===== src/Recorder/CaptureManager/Running.antt =====
-- The states of recorder/src/capture/CaptureManager.cpp in any sequence of events.
use gambit_record.Common.{
  ℕ, Bool, true, false, not, ◌&&◌, ◌||◌, List, [], ◌∷◌, Option, none, some, arith, ◌≡◌, refl,
  if◌then◌else◌, ap, ◌∙◌,
}
use gambit_record.Recorder.States.{CaptureState}
use gambit_record.Recorder.CaptureManager.{
  CaptureManager, windows_graphics_capture, desktop_duplication, Backends, Report, marks_state,
  marks_failed, reported, reports, capture_manager, cleared, connected, disconnected, duplicate,
  connect, monitor, stop, is_same,
}

pub data Event : Type 0 where
  round : Backends → Option ℕ → Bool → Event
  report : Report → Event
  stop_event : Event

abbrev pub step : Event → CaptureManager → CaptureManager
step (round backends found is_window) c = monitor backends found is_window c
step (report r) c = reported r c
step stop_event c = stop c

abbrev pub run : List Event → CaptureManager → CaptureManager
run [] c = c
run (e ∷ events) c = run events (step e c)

abbrev pub present {ℓ} : {A : Type ℓ} → Option A → Bool
present none = false
present (some a) = true

abbrev pub runs : CaptureState → Bool
runs CaptureState.running = true
runs _ = false

-- A manager that runs has a window, and one with a window has a backend.
pub record IsConnected (c : CaptureManager) : Type 0 where
  pub window : runs c.state ≡ true → present c.hwnd ≡ true
  pub backend : present c.hwnd ≡ true → present c.backend ≡ true

reported-backend :
    (rs : List Report) (c : CaptureManager)
    → ((reports rs c).backend ≡ c.backend) × ((reports rs c).hwnd ≡ c.hwnd)
unfolding reports reported
reported-backend [] c = (refl, refl)
reported-backend (marks_state ∷ rs) c = reported-backend rs _
reported-backend (marks_failed ∷ rs) c = reported-backend rs _

connected-IsConnected :
    (backends : Backends) (hwnd : ℕ) (c : CaptureManager)
    → present c.backend ≡ true
    → IsConnected (connected backends hwnd c)
unfolding connected
connected-IsConnected backends hwnd c h =
    let k = reported-backend backends.last_reports (record c { hwnd = some hwnd }) in
    record { window = λ _. ap present k.1; backend = λ _. ap present k.0 ∙ h }

disconnected-IsConnected : (c : CaptureManager) → IsConnected (disconnected c)
unfolding disconnected
disconnected-IsConnected c = record {
  window = λ h. ground (arith, h);
  backend = λ h. ground (arith, h);
}

if-IsConnected :
    (b : Bool) (x y : CaptureManager)
    → IsConnected x
    → IsConnected y
    → IsConnected (if b then x else y)
if-IsConnected true x y h k = h
if-IsConnected false x y h k = k

duplicate-IsConnected :
    (backends : Backends) (during : List Report) (hwnd : ℕ) (c : CaptureManager)
    → IsConnected (duplicate backends during hwnd c)
unfolding duplicate
duplicate-IsConnected backends during hwnd c =
    let d = record c { backend = some desktop_duplication } in
    if-IsConnected backends.duplication_starts (connected backends hwnd (reports during d))
      (disconnected (reports during d))
      (connected-IsConnected backends hwnd (reports during d)
        (ap present (reported-backend during d).0))
      (disconnected-IsConnected (reports during d))

connect-IsConnected :
    (backends : Backends) (hwnd : ℕ) (c : CaptureManager) → IsConnected (connect backends hwnd c)
unfolding connect
connect-IsConnected backends hwnd c =
    let w = record (cleared c) { backend = some windows_graphics_capture } in
    let wgc = reports backends.first_reports w in
    if-IsConnected (not (c.prefers_wgc && backends.supported))
      (duplicate backends backends.first_reports hwnd (cleared c))
      (if backends.wgc_starts
        then connected backends hwnd wgc
        else duplicate backends backends.second_reports hwnd wgc)
      (duplicate-IsConnected backends backends.first_reports hwnd (cleared c))
      (if-IsConnected backends.wgc_starts (connected backends hwnd wgc)
        (duplicate backends backends.second_reports hwnd wgc)
        (connected-IsConnected backends hwnd wgc
          (ap present (reported-backend backends.first_reports w).0))
        (duplicate-IsConnected backends backends.second_reports hwnd wgc))

step-IsConnected : (e : Event) (c : CaptureManager) → IsConnected c → IsConnected (step e c)
unfolding monitor reported stop
step-IsConnected (round backends none is_window) c h = record {
  window = λ k. ground (arith, k);
  backend = λ k. ground (arith, k);
}
step-IsConnected (round backends (some found) is_window) c h =
    if-IsConnected (not (is_same found c.hwnd) || c.backend_failed || not is_window)
      (connect backends found c) c (connect-IsConnected backends found c) h
step-IsConnected (report marks_state) c h = record {
  window = λ k. ground (arith, k);
  backend = h.backend;
}
step-IsConnected (report marks_failed) c h = record { window = h.window; backend = h.backend }
step-IsConnected stop_event c h = record {
  window = λ k. ground (arith, k);
  backend = λ k. ground (arith, k);
}

run-keeps : (events : List Event) (c : CaptureManager) → IsConnected c → IsConnected (run events c)
run-keeps [] c h = h
run-keeps (e ∷ events) c h = run-keeps events (step e c) (step-IsConnected e c h)

-- The backends of a round in which desktop duplication starts and nothing is reported.
pub record IsCalm (backends : Backends) : Type 0 where
  pub starts : backends.duplication_starts ≡ true
  pub first_calm : backends.first_reports ≡ []
  pub second_calm : backends.second_reports ≡ []
  pub last_calm : backends.last_reports ≡ []

-- Whatever has failed, the round leaves a backend on this window that has not failed.
pub record IsHealed (found : ℕ) (c : CaptureManager) : Type 0 where
  pub not_failed : c.backend_failed ≡ false
  pub window : c.hwnd ≡ some found

if-IsHealed :
    (found : ℕ) (b : Bool) (x y : CaptureManager)
    → (b ≡ true → IsHealed found x)
    → (b ≡ false → IsHealed found y)
    → IsHealed found (if b then x else y)
if-IsHealed found true x y h k = h refl
if-IsHealed found false x y h k = k refl

calm_reports : (rs : List Report) (c : CaptureManager) → rs ≡ [] → reports rs c ≡ c
unfolding reports
calm_reports rs c e = ap (λ r. reports r c) e

connected-IsHealed :
    (backends : Backends) (found : ℕ) (c : CaptureManager)
    → backends.last_reports ≡ []
    → c.backend_failed ≡ false
    → IsHealed found (connected backends found c)
unfolding connected
connected-IsHealed backends found c e h =
    let k = calm_reports backends.last_reports (record c { hwnd = some found }) e in
    record {
      not_failed = ap (λ (d : CaptureManager). d.backend_failed) k ∙ h;
      window = ap (λ (d : CaptureManager). d.hwnd) k;
    }

duplicate-IsHealed :
    (backends : Backends) (during : List Report) (found : ℕ) (c : CaptureManager)
    → IsCalm backends
    → during ≡ []
    → c.backend_failed ≡ false
    → IsHealed found (duplicate backends during found c)
unfolding duplicate
duplicate-IsHealed backends during found c calm e h =
    let d = record c { backend = some desktop_duplication } in
    if-IsHealed found backends.duplication_starts (connected backends found (reports during d))
      (disconnected (reports during d))
      (λ _.
        connected-IsHealed backends found (reports during d) calm.last_calm
          (ap (λ (x : CaptureManager). x.backend_failed) (calm_reports during d e) ∙ h))
      (λ k. absurd (ground (arith, k, calm.starts)))

connect-IsHealed :
    (backends : Backends) (found : ℕ) (c : CaptureManager)
    → IsCalm backends
    → IsHealed found (connect backends found c)
unfolding connect cleared
connect-IsHealed backends found c calm =
    let w = record (cleared c) { backend = some windows_graphics_capture } in
    let wgc = reports backends.first_reports w in
    let fine : wgc.backend_failed ≡ false =
      ap (λ (x : CaptureManager). x.backend_failed)
        (calm_reports backends.first_reports w calm.first_calm) in
    if-IsHealed found (not (c.prefers_wgc && backends.supported))
      (duplicate backends backends.first_reports found (cleared c))
      (if backends.wgc_starts
        then connected backends found wgc
        else duplicate backends backends.second_reports found wgc)
      (λ _.
        duplicate-IsHealed backends backends.first_reports found (cleared c) calm calm.first_calm
          refl)
      (λ _.
        if-IsHealed found backends.wgc_starts (connected backends found wgc)
          (duplicate backends backends.second_reports found wgc)
          (λ _. connected-IsHealed backends found wgc calm.last_calm fine)
          (λ _.
            duplicate-IsHealed backends backends.second_reports found wgc calm calm.second_calm
              fine))

same_window : (found : ℕ) (o : Option ℕ) → is_same found o ≡ true → o ≡ some found
unfolding is_same
same_window found none h = absurd (ground (arith, h))
same_window found (some w) h = ground (arith, h)

kept-IsHealed :
    (found : ℕ) (c : CaptureManager) (same : Bool)
    → is_same found c.hwnd ≡ same
    → (not same || c.backend_failed || not true) ≡ false
    → IsHealed found c
kept-IsHealed found c same e h = record {
  not_failed = ground (arith, h);
  window = same_window found c.hwnd (e ∙ ground (arith, h));
}

monitor-IsHealed :
    (backends : Backends) (found : ℕ) (c : CaptureManager)
    → IsCalm backends
    → IsHealed found (monitor backends (some found) true c)
unfolding monitor
monitor-IsHealed backends found c calm =
    if-IsHealed found (not (is_same found c.hwnd) || c.backend_failed || not true)
      (connect backends found c) c (λ _. connect-IsHealed backends found c calm)
      (kept-IsHealed found c (is_same found c.hwnd) refl)

-- After any rounds of the monitor, stops, and writes of a backend's reports between and during them, a
-- new manager that is in the state of running has a window and a backend. A backend may have failed
-- then: the next round that finds a window, and in which desktop duplication starts and nothing is
-- reported, leaves no failed backend and the manager on that window.
pub run-IsConnected :
    (events : List Event) (prefers_wgc : Bool) (backends : Backends) (found : ℕ)
    → IsCalm backends
    → (let c = run events (capture_manager prefers_wgc) in
        IsConnected c × IsHealed found (monitor backends (some found) true c))
unfolding capture_manager
run-IsConnected events prefers_wgc backends found calm = (
  run-keeps events (capture_manager prefers_wgc)
      (record { window = λ h. ground (arith, h); backend = λ h. ground (arith, h) }),
  monitor-IsHealed backends found (run events (capture_manager prefers_wgc)) calm,
)
