-- ===== src/Recorder/SegmentStore.antt =====
-- recorder/src/replay/SegmentStore.cpp and SegmentStore.hpp: the ring of replay segments. A segment
-- file is the bytes written to it. Every method holds the mutex throughout.
pub mod File
pub mod Retention
use gambit_record.Common.{
  ℕ, zero, suc, ◌+◌, ◌-◌, ◌*◌, ◌/◌, ◌%◌, ◌^◌, Bool, true, false, not, ◌&&◌, ◌||◌, List, [], ◌∷◌,
  ◌++◌, Option, none, some, ltb, leb, ◌==◌, if◌then◌else◌, length, take, drop, ℤ, pos, negsuc, ◌+ℤ◌,
  ◌-ℤ◌, ltb_ℤ, leb_ℤ, eqb_ℤ, max_ℤ, min_ℤ, Text, is_empty, le_bytes, little_endian,
}
use gambit_record.Recorder.Media.{TrackKind, video, EncodedSample}

pub data Error : Type 0 where
  cannot_create_segment write_failed corrupt_segment truncated_segment : Error

pub record Segment : Type 0 where
  pub disk : Bool
  pub contents : Text
  pub memory_samples : List EncodedSample
  pub first_pts : ℤ
  pub last_pts : ℤ

-- ESV1
abbrev pub magic : ℕ
magic = 0x31565345

abbrev pub max_size : ℕ
max_size = 128 * 1024 * 1024

-- A `std::int64_t` as the bytes of a file: two's complement.
unfoldable pub to_u64 : ℤ → ℕ
to_u64 (pos n) = n % 2 ^ 64
to_u64 (negsuc n) = 2 ^ 64 - 1 - n % 2 ^ 64

unfoldable pub from_u64 : ℕ → ℤ
from_u64 n = if ltb n (2 ^ 63) then pos n else negsuc (2 ^ 64 - 1 - n)

-- `DiskHeader`, packed: magic, track, flags, reserved, pts, duration, size.
pub record DiskHeader : Type 0 where
  pub magic_number : ℕ
  pub track : ℕ
  pub flags : ℕ
  pub reserved : ℕ
  pub pts : ℤ
  pub duration : ℤ
  pub size : ℕ

abbrev pub header_size : ℕ
header_size = 28

unfoldable pub header_bytes : DiskHeader → Text
unfolding to_u64
header_bytes h =
    le_bytes 4 h.magic_number
    ++ (le_bytes 1 h.track
        ++ (le_bytes 1 h.flags
            ++ (le_bytes 2 h.reserved
                ++ (le_bytes 8 (to_u64 h.pts)
                    ++ (le_bytes 8 (to_u64 h.duration) ++ le_bytes 4 h.size)))))

-- The header in the first bytes of a file.
unfoldable pub read_header : Text → DiskHeader
unfolding from_u64
read_header s = record {
  magic_number = little_endian (take 4 s);
  track = little_endian (take 1 (drop 4 s));
  flags = little_endian (take 1 (drop 5 s));
  reserved = little_endian (take 2 (drop 6 s));
  pts = from_u64 (little_endian (take 8 (drop 8 s)));
  duration = from_u64 (little_endian (take 8 (drop 16 s)));
  size = little_endian (take 4 (drop 24 s));
}

-- The payload of a sample; `append` lets no sample through whose pointer is null.
abbrev pub payload : EncodedSample → Text
payload s = elim s.bytes [ none ↦ [] | some b ↦ b ]

unfoldable pub header_of : EncodedSample → DiskHeader
header_of s = record {
  magic_number = magic;
  track = s.track % 256;
  flags = if s.keyframe then 1 else 0;
  reserved = 0;
  pts = s.pts;
  duration = s.duration;
  size = length (payload s) % 2 ^ 32;
}

unfoldable pub record_bytes : EncodedSample → Text
unfolding header_bytes header_of
record_bytes s = header_bytes (header_of s) ++ payload s

pub data Parsed : Type 0 where
  samples : List EncodedSample → Parsed
  failure : Error → Parsed

put_sample : EncodedSample → Parsed → Parsed
put_sample s (samples more) = samples (s ∷ more)
put_sample s (failure e) = failure e

sample_of : DiskHeader → Text → EncodedSample
sample_of h rest = record {
  track = h.track;
  pts = h.pts;
  duration = h.duration;
  keyframe = h.flags % 2 == 1;
  bytes = some (take h.size rest);
}

-- One round of the loop of `Segment::read`: the bytes left of the file, the header in front of
-- them, what follows it, and what the later rounds read. A header that the file cuts off sets `eof`
-- and ends the loop, as the end of the file does.
unfoldable pub read_one : ℕ → DiskHeader → Text → Parsed → Parsed
unfolding put_sample sample_of
read_one left h rest more =
    if ltb left header_size
    then samples []
    else if not (h.magic_number == magic) || ltb max_size h.size
    then failure corrupt_segment
    else if ltb (length rest) h.size
    then failure truncated_segment
    else put_sample (sample_of h rest) more

-- The `while (true)` loop. Each round but the last takes 28 bytes or more, so a fuel of the file's
-- size suffices.
unfoldable pub read_records : ℕ → Text → Parsed
read_records zero s = samples []
read_records (suc fuel) s =
    read_one (length s) (read_header s) (drop header_size s)
      (read_records fuel (drop (read_header s).size (drop header_size s)))

-- `Segment::read`, of a segment whose file can be opened.
unfoldable pub read : Segment → Parsed
unfolding read_records
read s =
    if s.disk then read_records (suc (length s.contents)) s.contents else samples s.memory_samples

pub record SegmentStore : Type 0 where
  pub retention_hns : ℤ
  pub segment_hns : ℤ
  pub disk : Bool
  pub sealed : List Segment
  pub active : Option Segment
  pub file_failed : Bool
  pub sequence : ℕ

unfoldable pub segment_store : ℤ → ℤ → Bool → SegmentStore
segment_store retention_hns segment_hns disk = record {
  retention_hns = retention_hns;
  segment_hns = segment_hns;
  disk = disk;
  sealed = [];
  active = none;
  file_failed = false;
  sequence = 0;
}

-- What the disk does during one call: whether a new file opens, and how many more bytes fit.
pub record Disk : Type 0 where
  pub opens : Bool
  pub accepts : ℕ

-- A call's new state, with the exception that it throws.
abbrev pub Thrown : Type 0
Thrown = SegmentStore × Option Error

unfoldable pub start_segment : Disk → EncodedSample → SegmentStore → Thrown
start_segment d sample st =
    let fresh : Segment = record {
      disk = st.disk;
      contents = [];
      memory_samples = [];
      first_pts = sample.pts;
      last_pts = sample.pts;
    } in
    if not st.disk
    then (record st { active = some fresh }, none)
    else if d.opens
    then (record st { active = some fresh; file_failed = false; sequence = st.sequence + 1 }, none)
    else (
      record st { active = none; file_failed = true; sequence = st.sequence + 1 },
      some cannot_create_segment,
    )

unfoldable pub seal : SegmentStore → SegmentStore
seal st = elim st.active [
  | none ↦ st
  | some a ↦ record st { sealed = st.sealed ++ a ∷ []; active = none }
]

-- `while (!sealed_.empty() && sealed_.front()->last_pts < cutoff) sealed_.pop_front();`
unfoldable pub drop_stale : ℤ → List Segment → List Segment
drop_stale cutoff [] = []
drop_stale cutoff (s ∷ segments) =
    if ltb_ℤ s.last_pts cutoff then drop_stale cutoff segments else s ∷ segments

unfoldable pub evict : ℤ → SegmentStore → SegmentStore
unfolding drop_stale
evict newest_pts st = record st { sealed = drop_stale (newest_pts -ℤ st.retention_hns) st.sealed }

-- The write of a sample to the active segment, then the eviction.
unfoldable pub store_in_memory : EncodedSample → ℤ → SegmentStore → Segment → Thrown
store_in_memory sample newest st a = (
  evict newest (record st {
    active =
        some (record a { memory_samples = a.memory_samples ++ sample ∷ []; last_pts = newest });
  }),
  none,
)

unfoldable pub store_on_disk : Disk → Text → ℤ → SegmentStore → Segment → Thrown
store_on_disk d wire newest st a =
    let written : Segment = record a {
      contents = a.contents ++ (if st.file_failed then [] else take d.accepts wire);
    } in
    if st.file_failed || ltb d.accepts (length wire)
    then (record st { active = some written; file_failed = true }, some write_failed)
    else (evict newest (record st { active = some (record written { last_pts = newest }) }), none)

unfoldable pub store_sample : Disk → EncodedSample → SegmentStore → Segment → Thrown
store_sample d sample st a =
    let newest = max_ℤ a.last_pts (sample.pts +ℤ sample.duration) in
    if st.disk
    then store_on_disk d (record_bytes sample) newest st a
    else store_in_memory sample newest st a

unfoldable pub write_to : Disk → EncodedSample → SegmentStore → Option Segment → Thrown
write_to d sample st none = (st, none)
write_to d sample st (some a) = store_sample d sample st a

-- A video keyframe behind the segment's length starts the next segment.
unfoldable pub rotate_from : Disk → EncodedSample → SegmentStore → Option Segment → Thrown
rotate_from d sample st none = (st, none)
rotate_from d sample st (some a) =
    if (sample.track == video)
      && sample.keyframe
      && leb_ℤ st.segment_hns (sample.pts -ℤ a.first_pts)
    then start_segment d sample (seal st)
    else (st, none)

unfoldable pub start_if_none : Disk → EncodedSample → SegmentStore → Option Segment → Thrown
start_if_none d sample st none = start_segment d sample st
start_if_none d sample st (some a) = (st, none)

-- An exception ends the method.
infixl 5 ◌then_do◌
abbrev pub ◌then_do◌ : Thrown → (SegmentStore → Thrown) → Thrown
(st, some e) then_do f = (st, some e)
(st, none) then_do f = f st

unfoldable pub append : Disk → EncodedSample → SegmentStore → Thrown
append d sample st =
    if is_empty (payload sample)
    then (st, none)
    else start_if_none d sample st st.active
      then_do (λ st. rotate_from d sample st st.active)
      then_do (λ st. write_to d sample st st.active)

abbrev last_segment : Segment → List Segment → Segment
last_segment s [] = s
last_segment s (t ∷ rest) = last_segment t rest

pub record Snapshot : Type 0 where
  pub segments : List Segment
  pub available_hns : ℤ

span_of : List Segment → ℤ
span_of [] = pos 0
span_of (s ∷ rest) = max_ℤ (pos 0) ((last_segment s rest).last_pts -ℤ s.first_pts)

unfoldable pub snapshot : SegmentStore → SegmentStore × Snapshot
unfolding seal span_of
snapshot st =
    let st' = seal st in (st', record { segments = st'.sealed; available_hns = span_of st'.sealed })

unfoldable pub clear : SegmentStore → SegmentStore
unfolding seal
clear st = record (seal st) { sealed = [] }

-- The ends of what is held; 0 where nothing is.
first_held : List Segment → Option Segment → ℤ
first_held (s ∷ rest) active = s.first_pts
first_held [] none = pos 0
first_held [] (some a) = a.first_pts

last_held : List Segment → Option Segment → ℤ
last_held sealed (some a) = a.last_pts
last_held [] none = pos 0
last_held (s ∷ rest) none = (last_segment s rest).last_pts

unfoldable pub available_hns : SegmentStore → ℤ
unfolding first_held last_held
available_hns st = max_ℤ (pos 0) (last_held st.sealed st.active -ℤ first_held st.sealed st.active)

unfoldable pub segment_count : SegmentStore → ℕ
segment_count st = length st.sealed + elim st.active [ none ↦ 0 | some a ↦ 1 ]
