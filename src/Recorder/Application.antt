-- ===== src/Recorder/Application.antt =====
-- recorder/src/app/Application.cpp: the pacing of captured frames; the commands are in the children.
pub mod Commands
pub mod Requests
pub mod Dispatch
pub mod Refused
pub mod Exclusive
pub mod Stop
use gambit_record.Common.{
  ℕ, ◌*◌, ◌/◌, Bool, true, false, not, ◌&&◌, ◌||◌, List, [], ◌∷◌, Option, none, some, if◌then◌else◌,
  ℤ, pos, ◌+ℤ◌, ◌-ℤ◌, ltb_ℤ, leb_ℤ, eqb_ℤ,
}
use gambit_record.Recorder.Media.{hns_per_second}

-- A frame closer than this to the one before is dropped; C++ divides from left to right.
abbrev pub minimum_interval : ℕ → ℕ
minimum_interval fps = hns_per_second / fps * 3 / 4

-- The time that a frame is encoded at, or nothing where it is dropped; `last` is 0 before the first.
unfoldable pub pace : ℕ → ℤ → ℤ → Option ℤ
pace fps last pts =
    if not (eqb_ℤ last (pos 0))
      && ltb_ℤ last pts
      && ltb_ℤ (pts -ℤ last) (pos (minimum_interval fps))
    then none
    else if leb_ℤ pts last
    then some (last +ℤ pos (hns_per_second / fps))
    else some pts
