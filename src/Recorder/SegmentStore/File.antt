-- ===== src/Recorder/SegmentStore/File.antt =====
-- The segment files of recorder/src/replay/SegmentStore.cpp: what is written can be read.
use gambit_record.Common.{
  ℕ, zero, suc, ◌%◌, ◌^◌, ◌≤◌, ◌<◌, true, ◌≡◌, refl, ap, ◌∙◌, sym, List, [], ◌∷◌, ◌++◌, some,
  length, take, drop, ℤ, pos, negsuc, pos_part, neg_part, Text, le_bytes, little_endian, arith, All,
  length-append, append_assoc, if◌then◌else◌, ◌==◌,
}
use gambit_record.Recorder.Media.{EncodedSample}
use gambit_record.Recorder.SegmentStore.{
  DiskHeader, to_u64, from_u64, header_bytes, read_header, payload, header_of, record_bytes, Parsed,
  samples, put_sample, sample_of, read_one, read_records, read, Segment, max_size, header_size,
}

-- A `std::int64_t`.
abbrev pub FitsInt64 : ℤ → Type 0
FitsInt64 z = (pos_part z < 2 ^ 63) × (neg_part z ≤ 2 ^ 63)

from_u64-to_u64 : (z : ℤ) → FitsInt64 z → from_u64 (to_u64 z) ≡ z
unfolding from_u64 to_u64
from_u64-to_u64 (pos n) h = ground arith
from_u64-to_u64 (negsuc n) h = ground arith

to_u64-lt : (z : ℤ) → to_u64 z < 2 ^ 64
unfolding to_u64
to_u64-lt (pos n) = omega arith
to_u64-lt (negsuc n) = omega arith

-- A sample that a segment file can hold: its fields fit the header's.
pub record IsStorable (s : EncodedSample) : Type 0 where
  pub track_fits : s.track < 256
  pub pts_fits : FitsInt64 s.pts
  pub duration_fits : FitsInt64 s.duration
  pub held : s.bytes ≡ some (payload s)
  pub size_fits : length (payload s) ≤ max_size

le8 : (n : ℕ) → n < 2 ^ 64 → little_endian (le_bytes 8 n) ≡ n
le8 n h = omega arith

le4 : (n : ℕ) → n < 2 ^ 32 → little_endian (le_bytes 4 n) ≡ n
le4 n h = omega arith

le2 : (n : ℕ) → n < 2 ^ 16 → little_endian (le_bytes 2 n) ≡ n
le2 n h = omega arith

le1 : (n : ℕ) → n < 256 → little_endian (le_bytes 1 n) ≡ n
le1 n h = omega arith

record FitsHeader (h : DiskHeader) : Type 0 where
  magic_fits : h.magic_number < 2 ^ 32
  track_fits : h.track < 256
  flags_fits : h.flags < 256
  reserved_fits : h.reserved < 2 ^ 16
  pts_fits : FitsInt64 h.pts
  duration_fits : FitsInt64 h.duration
  size_fits : h.size < 2 ^ 32

read_header-header_bytes :
    (h : DiskHeader) (rest : Text) → FitsHeader h → read_header (header_bytes h ++ rest) ≡ h
unfolding read_header header_bytes
read_header-header_bytes h rest f = λ i. record {
  magic_number = le4 h.magic_number f.magic_fits i;
  track = le1 h.track f.track_fits i;
  flags = le1 h.flags f.flags_fits i;
  reserved = le2 h.reserved f.reserved_fits i;
  pts = pts_back i;
  duration = duration_back i;
  size = le4 h.size f.size_fits i;
}
  where
    pts_back : from_u64 (little_endian (le_bytes 8 (to_u64 h.pts))) ≡ h.pts
    pts_back = ap from_u64 (le8 (to_u64 h.pts) (to_u64-lt h.pts)) ∙ from_u64-to_u64 h.pts f.pts_fits

    duration_back : from_u64 (little_endian (le_bytes 8 (to_u64 h.duration))) ≡ h.duration
    duration_back =
        ap from_u64 (le8 (to_u64 h.duration) (to_u64-lt h.duration))
        ∙ from_u64-to_u64 h.duration f.duration_fits

drop-header_bytes :
    (h : DiskHeader) (rest : Text) → drop header_size (header_bytes h ++ rest) ≡ rest
unfolding header_bytes
drop-header_bytes h rest = refl

length-header_bytes : (h : DiskHeader) → length (header_bytes h) ≡ header_size
unfolding header_bytes
length-header_bytes h = refl

header_of-FitsHeader : (s : EncodedSample) → IsStorable s → FitsHeader (header_of s)
unfolding header_of
header_of-FitsHeader s k = record {
  magic_fits = omega arith;
  track_fits = omega arith;
  flags_fits = ground arith;
  reserved_fits = omega arith;
  pts_fits = k.pts_fits;
  duration_fits = k.duration_fits;
  size_fits = omega arith;
}

-- The bytes of a segment file.
pub file_bytes : List EncodedSample → Text
file_bytes [] = []
file_bytes (s ∷ ss) = record_bytes s ++ file_bytes ss

take-append : {A : Type 0} (xs ys : List A) → take (length xs) (xs ++ ys) ≡ xs
take-append [] ys = refl
take-append (x ∷ xs) ys = ap (◌∷◌ x) (take-append xs ys)

drop-append : {A : Type 0} (xs ys : List A) → drop (length xs) (xs ++ ys) ≡ ys
drop-append [] ys = refl
drop-append (x ∷ xs) ys = drop-append xs ys

size_of : (s : EncodedSample) → IsStorable s → (header_of s).size ≡ length (payload s)
unfolding header_of
size_of s k = omega arith

sample_of-header_of :
    (s : EncodedSample) (rest : Text)
    → IsStorable s
    → sample_of (header_of s) (payload s ++ rest) ≡ s
unfolding sample_of header_of
sample_of-header_of s rest k = λ i. record {
  track = track_back i;
  pts = s.pts;
  duration = s.duration;
  keyframe = keyframe_back i;
  bytes = bytes_back i;
}
  where
    track_back : s.track % 256 ≡ s.track
    track_back = omega (arith, k.track_fits)

    keyframe_back : ((if s.keyframe then 1 else 0) % 2 == 1) ≡ s.keyframe
    keyframe_back = ground arith

    bytes_back : some (take (length (payload s) % 2 ^ 32) (payload s ++ rest)) ≡ s.bytes
    bytes_back =
        ap (λ n. some (take n (payload s ++ rest))) {y = length (payload s)}
          (omega (arith, k.size_fits))
        ∙ ap some (take-append (payload s) rest)
        ∙ sym k.held

read_one-stored :
    (left : ℕ) (s : EncodedSample) (rest : Text) (more : Parsed)
    → IsStorable s
    → header_size ≤ left
    → read_one left (header_of s) (payload s ++ rest) more ≡ put_sample s more
unfolding read_one header_of
read_one-stored left s rest more k h =
    ground (arith, length-append (payload s) rest, sample_of-header_of s rest k)

module _ (s : EncodedSample) (rest : Text) (k : IsStorable s) where
  head_back : read_header (record_bytes s ++ rest) ≡ header_of s
  unfolding record_bytes
  head_back =
      ap read_header (append_assoc (header_bytes (header_of s)) (payload s) rest)
      ∙ read_header-header_bytes (header_of s) (payload s ++ rest) (header_of-FitsHeader s k)

  tail_back : drop header_size (record_bytes s ++ rest) ≡ payload s ++ rest
  unfolding record_bytes
  tail_back =
      ap (drop header_size) (append_assoc (header_bytes (header_of s)) (payload s) rest)
      ∙ drop-header_bytes (header_of s) (payload s ++ rest)

  later_back : drop (header_of s).size (payload s ++ rest) ≡ rest
  later_back = ap (λ n. drop n (payload s ++ rest)) (size_of s k) ∙ drop-append (payload s) rest

  room : header_size ≤ length (record_bytes s ++ rest)
  unfolding record_bytes
  room = omega (
    arith,
    length-append {0} (header_bytes (header_of s) ++ payload s) rest,
    length-append {0} (header_bytes (header_of s)) (payload s),
    length-header_bytes (header_of s),
  )

  -- One record is read back, and the loop goes on behind it.
  read_records-record_bytes :
      (fuel : ℕ)
      → read_records (suc fuel) (record_bytes s ++ rest) ≡ put_sample s (read_records fuel rest)
  unfolding read_records
  read_records-record_bytes fuel =
      rw (head_back, tail_back, later_back)
        (read_one-stored (length (record_bytes s ++ rest)) s rest (read_records fuel rest) k room)

-- A header that the file cuts off ends the reading.
read_one-cut :
    (left : ℕ) (h : DiskHeader) (rest : Text) (more : Parsed)
    → left < header_size
    → read_one left h rest more ≡ samples []
unfolding read_one
read_one-cut left h rest more l = ground arith

read_records-file_bytes :
    (fuel : ℕ) (ss : List EncodedSample) (cut : Text)
    → All IsStorable ss
    → length ss < fuel
    → length cut < header_size
    → read_records fuel (file_bytes ss ++ cut) ≡ samples ss
unfolding file_bytes put_sample
read_records-file_bytes zero ss cut k f h = absurd (omega arith)
read_records-file_bytes (suc fuel) [] cut k f h =
    unfold read_records in read_one-cut (length cut) (read_header cut) (drop header_size cut) _ h
read_records-file_bytes (suc fuel) (s ∷ ss) cut k f h =
    ap (read_records (suc fuel)) (append_assoc (record_bytes s) (file_bytes ss) cut)
    ∙ read_records-record_bytes s (file_bytes ss ++ cut) k.0 fuel
    ∙ ap (put_sample s) (read_records-file_bytes fuel ss cut k.1 (omega arith) h)

length-le-file_bytes : (ss : List EncodedSample) → length ss ≤ length (file_bytes ss)
unfolding file_bytes record_bytes
length-le-file_bytes [] = omega arith
length-le-file_bytes (s ∷ ss) = omega (
  arith,
  length-le-file_bytes ss,
  length-append {0} (header_bytes (header_of s) ++ payload s) (file_bytes ss),
  length-append {0} (header_bytes (header_of s)) (payload s),
  length-header_bytes (header_of s),
)

-- A segment file that holds the records of storable samples, the last header perhaps cut off by a
-- crash, is read back as just these samples.
pub read-file_bytes :
    (a : Segment) (ss : List EncodedSample) (cut : Text)
    → a.disk ≡ true
    → a.contents ≡ file_bytes ss ++ cut
    → All IsStorable ss
    → length cut < header_size
    → read a ≡ samples ss
unfolding read
read-file_bytes a ss cut d e k h =
    rw (d, e)
      (read_records-file_bytes (suc (length (file_bytes ss ++ cut))) ss cut k
        (omega (arith, length-append {0} (file_bytes ss) cut, length-le-file_bytes ss)) h)
