-- ===== src/Recorder/Nal.antt =====
-- recorder/src/video/MediaFoundationEncoder.cpp, contains_idr. The bytes from the index `i` on are a
-- list, so a pattern of five bytes is the condition of a loop, `i + 4 < size` or `i + 5 <= size`.
pub mod Found
use gambit_record.Common.{
  ℕ, zero, suc, ◌+◌, ◌*◌, ◌%◌, Bool, true, false, ◌&&◌, ◌||◌, List, [], ◌∷◌, ltb, ◌==◌,
  if◌then◌else◌, length, drop, Text,
}

-- `(byte & 0x1f) == 5`.
abbrev pub is_idr : ℕ → Bool
is_idr header = header % 32 == 5

-- The test of the first loop: a start code of three or four bytes in front of an IDR slice.
abbrev pub starts_idr : ℕ → ℕ → ℕ → ℕ → ℕ → Bool
starts_idr a b c d e = a == 0 && b == 0 && ((c == 1 && is_idr d) || (c == 0 && d == 1 && is_idr e))

unfoldable pub has_start_code : Text → Bool
has_start_code (a ∷ b ∷ c ∷ d ∷ e ∷ rest) =
    starts_idr a b c d e || has_start_code (b ∷ c ∷ d ∷ e ∷ rest)
has_start_code bytes = false

-- The four bytes of a length, the highest first.
abbrev pub big_endian : ℕ → ℕ → ℕ → ℕ → ℕ
big_endian a b c d = a * 16777216 + b * 65536 + c * 256 + d

-- The second loop, over units behind their lengths. Each round takes five bytes or more, so the
-- number of the bytes is enough fuel.
unfoldable pub has_length_unit : ℕ → Text → Bool
has_length_unit (suc fuel) (a ∷ b ∷ c ∷ d ∷ e ∷ rest) =
    let n = big_endian a b c d in
    let later = has_length_unit fuel (drop n (e ∷ rest)) in
    if n == 0 || ltb (suc (length rest)) n then false else if is_idr e then true else later
has_length_unit fuel bytes = false

unfoldable pub contains_idr : Text → Bool
contains_idr bytes = has_start_code bytes || has_length_unit (length bytes) bytes
