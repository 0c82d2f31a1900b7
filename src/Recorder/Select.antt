-- ===== src/Recorder/Select.antt =====
-- recorder/src/replay/SegmentStore.cpp: what a saved replay takes from a snapshot. An iterator into
-- the list of samples is the part of the list from that place on; the sort is a parameter.
pub mod Keyframe
use gambit_record.Common.{
  ℕ, Bool, true, not, ◌&&◌, List, [], ◌∷◌, ◌++◌, length, ◌==◌, if◌then◌else◌, ℤ, pos, ◌+ℤ◌, ◌-ℤ◌,
  ltb_ℤ, leb_ℤ, max_ℤ,
}
use gambit_record.Recorder.Media.{EncodedSample, video}
use gambit_record.Recorder.SegmentStore.{Segment, Snapshot, Parsed, samples, failure, read}

join : Parsed → Parsed → Parsed
join (failure e) more = failure e
join (samples part) (failure e) = failure e
join (samples part) (samples more) = samples (part ++ more)

-- The samples of all segments, in order; the first segment that fails ends the call.
unfoldable pub read_all : List Segment → Parsed
unfolding join
read_all [] = samples []
read_all (s ∷ segments) = join (read s) (read_all segments)

abbrev pub is_key : EncodedSample → Bool
is_key s = (s.track == video) && s.keyframe

-- `max_element` by the end of a sample: the first of the latest. Its `pts` is what is used.
unfoldable pub latest_end : EncodedSample → List EncodedSample → EncodedSample
latest_end s [] = s
latest_end s (x ∷ xs) =
    latest_end (if ltb_ℤ (s.pts +ℤ s.duration) (x.pts +ℤ x.duration) then x else s) xs

abbrev pub is_early : ℤ → EncodedSample → Bool
is_early desired s = is_key s && leb_ℤ s.pts desired

-- The loop that moves `start` to each video keyframe at or before `desired`.
unfoldable pub latest_key : ℤ → List EncodedSample → List EncodedSample → List EncodedSample
latest_key desired start [] = start
latest_key desired start (s ∷ rest) =
    latest_key desired (if is_early desired s then s ∷ rest else start) rest

unfoldable pub find_key : List EncodedSample → List EncodedSample
find_key [] = []
find_key (s ∷ rest) = if is_key s then s ∷ rest else find_key rest

unfoldable pub starts_key : List EncodedSample → Bool
starts_key [] = true
starts_key (s ∷ rest) = is_key s

unfoldable pub start_of : ℤ → List EncodedSample → List EncodedSample
start_of desired all =
    let start = latest_key desired all all in
    if (length start == length all) && not (starts_key start) then find_key all else start

unfoldable pub since : ℤ → List EncodedSample → List EncodedSample
since start_pts [] = []
since start_pts (s ∷ rest) =
    if leb_ℤ start_pts s.pts then s ∷ since start_pts rest else since start_pts rest

unfoldable pub min_pts : ℤ → List EncodedSample → ℤ
min_pts m [] = m
min_pts m (s ∷ rest) = min_pts (if ltb_ℤ s.pts m then s.pts else m) rest

unfoldable pub move_back : ℤ → List EncodedSample → List EncodedSample
move_back base [] = []
move_back base (s ∷ rest) = record s { pts = max_ℤ (pos 0) (s.pts -ℤ base) } ∷ move_back base rest

unfoldable pub rebase_timestamps : List EncodedSample → List EncodedSample
rebase_timestamps [] = []
rebase_timestamps (s ∷ rest) = move_back (min_pts s.pts rest) (s ∷ rest)

unfoldable pub cut_from : List EncodedSample → List EncodedSample → List EncodedSample
cut_from all [] = []
cut_from all (s ∷ rest) = rebase_timestamps (since s.pts all)

-- The pts that the requested window starts at.
unfoldable pub desired_pts : ℤ → List EncodedSample → ℤ
desired_pts requested [] = pos 0
desired_pts requested (s ∷ rest) = (latest_end s rest).pts -ℤ requested

-- The part of `select_replay_samples` behind the sort.
unfoldable pub select_sorted : ℤ → List EncodedSample → List EncodedSample
select_sorted requested [] = []
select_sorted requested (s ∷ rest) =
    cut_from (s ∷ rest) (start_of (desired_pts requested (s ∷ rest)) (s ∷ rest))

unfoldable pub sorted_of : (List EncodedSample → List EncodedSample) → ℤ → Parsed → Parsed
unfolding select_sorted
sorted_of sort requested (failure e) = failure e
sorted_of sort requested (samples all) = samples (select_sorted requested (sort all))

unfoldable pub select_replay_samples :
    (List EncodedSample → List EncodedSample) → Snapshot → ℤ → Parsed
unfolding sorted_of
select_replay_samples sort snapshot requested =
    sorted_of sort requested (read_all snapshot.segments)
