-- ===== src/Recorder/Files.antt =====
-- recorder/src/common/Files.cpp. A path is its components; the local time as the file name prints it
-- and `weakly_canonical` are parameters.
pub mod Names
pub mod Within
use gambit_record.Common.{
  ℕ, Bool, true, false, not, ◌&&◌, ◌||◌, List, [], ◌∷◌, ◌++◌, Option, none, some, ltb, ◌==◌,
  if◌then◌else◌, length, take, ℤ, pos, negsuc, Text, literal, decimal, is_empty, same_text,
}
use gambit_record.Recorder.Media.{EvidenceMetadata}

abbrev pub FilePath : Type 0
FilePath = List Text

abbrev pub contains : Text → ℕ → Bool
contains [] c = false
contains (x ∷ xs) c = x == c || contains xs c

-- <>:"/\|?*
abbrev pub invalid : Text
invalid = 60 ∷ 62 ∷ 58 ∷ 34 ∷ 47 ∷ 92 ∷ 124 ∷ 63 ∷ 42 ∷ []

unfoldable pub replace_invalid : Text → Text
replace_invalid [] = []
replace_invalid (c ∷ s) = (if ltb c 32 || contains invalid c then 95 else c) ∷ replace_invalid s

-- `while (back is ' ' or '.') pop_back()`.
unfoldable pub trim_end : Text → Text
trim_end [] = []
trim_end (c ∷ s) =
    let rest = trim_end s in if is_empty rest && (c == 32 || c == 46) then [] else c ∷ rest

unfoldable pub or_unknown : Text → Text
unfolding literal
or_unknown s = if is_empty s then literal "unknown" else s

unfoldable pub sanitize_filename : Text → Text
sanitize_filename value = take 80 (or_unknown (trim_end (replace_invalid value)))

target_part : EvidenceMetadata → Text
unfolding literal sanitize_filename
target_part m =
    if is_empty m.target_name
    then []
    else (literal "_" ++ sanitize_filename m.target_name)
      ++ elim m.target_id [ pos n ↦ literal "_ID" ++ decimal n | negsuc n ↦ [] ]

unfoldable pub evidence_filename : Text → FilePath → EvidenceMetadata → Text → FilePath
unfolding literal target_part
evidence_filename timestamp directory m suffix =
    directory ++ (timestamp ++ (target_part m ++ (literal "_" ++ (suffix ++ literal ".mp4")))) ∷ []

-- The loop over both paths: the first is as long as the second, and has the same components there.
unfoldable pub has_prefix : FilePath → FilePath → Bool
has_prefix child [] = true
has_prefix [] (p ∷ parent) = false
has_prefix (c ∷ child) (p ∷ parent) = same_text c p && has_prefix child parent

both_within : Option FilePath → Option FilePath → Bool
unfolding has_prefix
both_within none p = false
both_within (some c) none = false
both_within (some c) (some p) = has_prefix c p

unfoldable pub is_path_within : (FilePath → Option FilePath) → FilePath → FilePath → Bool
unfolding both_within
is_path_within weakly_canonical child parent =
    both_within (weakly_canonical child) (weakly_canonical parent)
