-- ===== src/Recorder/CaptureManager.antt =====
-- recorder/src/capture/CaptureManager.cpp and CaptureManager.hpp: the connection to the game's window.
-- A window is a number; which window is found, whether a backend starts, and when a backend's thread
-- writes are parameters. There is no mutex: `Backends` says which of these writes come at
-- each point of `connect`.
pub mod Running
use gambit_record.Common.{
  ℕ, Bool, true, false, not, ◌&&◌, ◌||◌, List, [], ◌∷◌, Option, none, some, ◌==◌, if◌then◌else◌,
}
use gambit_record.Recorder.States.{CaptureState}

pub data Backend : Type 0 where
  windows_graphics_capture desktop_duplication : Backend

-- `prefers_wgc` is the test of the configured backend.
pub record CaptureManager : Type 0 where
  pub prefers_wgc : Bool
  pub backend : Option Backend
  pub hwnd : Option ℕ
  pub state : CaptureState
  pub backend_failed : Bool

unfoldable pub capture_manager : Bool → CaptureManager
capture_manager prefers_wgc = record {
  prefers_wgc = prefers_wgc;
  backend = none;
  hwnd = none;
  state = CaptureState.waiting_for_game;
  backend_failed = false;
}

-- The two writes of a backend's report that it was interrupted, which comes on a thread of its own: the
-- state first, then the flag.
pub data Report : Type 0 where
  marks_state marks_failed : Report

unfoldable pub reported : Report → CaptureManager → CaptureManager
reported marks_state c = record c { state = CaptureState.restarting }
reported marks_failed c = record c { backend_failed = true }

unfoldable pub reports : List Report → CaptureManager → CaptureManager
unfolding reported
reports [] c = c
reports (r ∷ rest) c = reports rest (reported r c)

-- Whether Windows Graphics Capture is supported, which backends start, and the writes of reports that
-- come during the first start, during the second, and before the state becomes that of running.
pub record Backends : Type 0 where
  pub supported : Bool
  pub wgc_starts : Bool
  pub duplication_starts : Bool
  pub first_reports : List Report
  pub second_reports : List Report
  pub last_reports : List Report

is_there : Option ℕ → Bool
is_there none = false
is_there (some hwnd) = true

-- The first lines of `connect`. The old backend's reports before the flag is cleared are lost here.
unfoldable pub cleared : CaptureManager → CaptureManager
unfolding is_there
cleared c = record c {
  state = if is_there c.hwnd then CaptureState.restarting else CaptureState.starting;
  backend = none;
  hwnd = none;
  backend_failed = false;
}

-- Behind a start without an exception.
unfoldable pub connected : Backends → ℕ → CaptureManager → CaptureManager
unfolding reports
connected backends hwnd c = record (reports backends.last_reports (record c { hwnd = some hwnd })) {
  state = CaptureState.running;
}

-- The handler of the exceptions, which `monitor` catches again; the flag stays.
unfoldable pub disconnected : CaptureManager → CaptureManager
disconnected c = record c { backend = none; hwnd = none; state = CaptureState.error }

-- Desktop duplication, as the first choice or behind a failure of the other backend.
unfoldable pub duplicate : Backends → List Report → ℕ → CaptureManager → CaptureManager
unfolding reports connected disconnected
duplicate backends during hwnd c =
    let started = reports during (record c { backend = some desktop_duplication }) in
    if backends.duplication_starts then connected backends hwnd started else disconnected started

unfoldable pub connect : Backends → ℕ → CaptureManager → CaptureManager
unfolding reports cleared connected duplicate
connect backends hwnd c =
    let wgc =
      reports backends.first_reports
        (record (cleared c) { backend = some windows_graphics_capture }) in
    if not (c.prefers_wgc && backends.supported)
    then duplicate backends backends.first_reports hwnd (cleared c)
    else if backends.wgc_starts
    then connected backends hwnd wgc
    else duplicate backends backends.second_reports hwnd wgc

is_same : ℕ → Option ℕ → Bool
is_same hwnd none = false
is_same hwnd (some h) = hwnd == h

-- One round of `monitor`: the window that was found, and whether it still is one.
unfoldable pub monitor : Backends → Option ℕ → Bool → CaptureManager → CaptureManager
unfolding is_same
monitor backends none is_window c = record c {
  backend = none;
  hwnd = none;
  state = CaptureState.waiting_for_game;
}
monitor backends (some found) is_window c =
    if not (is_same found c.hwnd) || c.backend_failed || not is_window
    then connect backends found c
    else c

unfoldable pub stop : CaptureManager → CaptureManager
stop c = record c { backend = none; hwnd = none; state = CaptureState.waiting_for_game }
