-- ===== src/Recorder/Select/Keyframe.antt =====
-- Where a saved replay starts: recorder/src/replay/SegmentStore.cpp, select_replay_samples.
use gambit_record.Common.{
  Bool, true, false, not, ◌&&◌, List, ◌∷◌, ◌++◌, map, length, ◌==◌, if◌then◌else◌, ℤ, ◌-ℤ◌, ◌≤ℤ◌,
  All, ◌≡◌, ◌⊎◌,
}
use gambit_record.Recorder.Media.{EncodedSample}
use gambit_record.Recorder.Select.{is_key, is_early, find_key, starts_key, since, desired_pts}

-- `rest` starts at a sample of `all` that passes the test.
record Found (test : EncodedSample → Bool) (all found : List EncodedSample) : Type 0 where
  before : List EncodedSample
  sample : EncodedSample
  after : List EncodedSample
  parts : all ≡ before ++ sample ∷ after
  place : found ≡ sample ∷ after
  passes : test sample ≡ true

abbrev pub None : (EncodedSample → Bool) → List EncodedSample → Type 0
None test xs = All (λ x. test x ≡ false) xs

-- The choice of the start: a video keyframe of the list, at or before `desired` where there is one.
record IsStart (desired : ℤ) (all found : List EncodedSample) : Type 0 where
  found_key : Found is_key all found
  covers : (found_key.sample.pts ≤ℤ desired) ⊎ None (is_early desired) all

choose : List EncodedSample → List EncodedSample → List EncodedSample
choose all start =
    if (length start == length all) && not (starts_key start) then find_key all else start

abbrev pub shift : ℤ → EncodedSample → EncodedSample
shift base s = record s { pts = s.pts -ℤ base }

-- What is selected: the samples that are not before some video keyframe, with its time as 0.
pub record StartsAtKey (requested : ℤ) (all out : List EncodedSample) : Type 0 where
  pub start : EncodedSample
  pub before : List EncodedSample
  pub after : List EncodedSample
  pub parts : all ≡ before ++ start ∷ after
  pub key : is_key start ≡ true
  pub shifted : out ≡ map (shift start.pts) (since start.pts all)
  pub covers :
      (start.pts ≤ℤ desired_pts requested all) ⊎ None (is_early (desired_pts requested all)) all
