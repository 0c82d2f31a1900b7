-- ===== src/Recorder/Files/Names.antt =====
-- The names that recorder/src/common/Files.cpp makes.
use gambit_record.Common.{
  ℕ, zero, suc, ◌≤◌, false, ◌||◌, List, [], ◌∷◌, ltb, length, take, Text, literal, arith, All,
  length-take, ◌≡◌,
}
use gambit_record.Recorder.Files.{
  contains, invalid, replace_invalid, trim_end, or_unknown, sanitize_filename,
}

-- A byte that a file name may hold.
abbrev pub IsNameByte : ℕ → Type 0
IsNameByte c = (ltb c 32 || contains invalid c) ≡ false

replace_invalid-IsNameByte : (s : Text) → All IsNameByte (replace_invalid s)
unfolding replace_invalid
replace_invalid-IsNameByte [] = tt
replace_invalid-IsNameByte (c ∷ s) = ground (arith, replace_invalid-IsNameByte s)

trim_end-IsNameByte : (s : Text) → All IsNameByte s → All IsNameByte (trim_end s)
unfolding trim_end
trim_end-IsNameByte [] h = tt
trim_end-IsNameByte (c ∷ s) h = ground (arith, trim_end-IsNameByte s h.1)

or_unknown-IsNameByte :
    (s : Text) → All IsNameByte s → All IsNameByte (or_unknown s) × (1 ≤ length (or_unknown s))
unfolding or_unknown literal
or_unknown-IsNameByte [] h = (ground arith, ground arith)
or_unknown-IsNameByte (c ∷ s) h = (h, omega arith)

take-All {ℓ κ} : {A : Type ℓ} (P : A → Type κ) (n : ℕ) (xs : List A) → All P xs → All P (take n xs)
take-All P zero xs h = tt
take-All P (suc n) [] h = tt
take-All P (suc n) (x ∷ xs) h = (h.0, take-All P n xs h.1)

-- A sanitized name has between 1 and 80 bytes, none of which is a control character or one of
-- the nine characters that Windows refuses in a file name.
pub sanitize_filename-IsName :
    (value : Text)
    → All IsNameByte (sanitize_filename value)
      × (1 ≤ length (sanitize_filename value))
      × (length (sanitize_filename value) ≤ 80)
unfolding sanitize_filename
sanitize_filename-IsName value =
    let full =
      or_unknown-IsNameByte (trim_end (replace_invalid value))
        (trim_end-IsNameByte (replace_invalid value) (replace_invalid-IsNameByte value)) in
    let size = length-take 80 (or_unknown (trim_end (replace_invalid value))) in
    (take-All IsNameByte 80 _ full.0, omega (arith, size, full.1), omega (arith, size))
