-- ===== src/Recorder/Files/Within.antt =====
-- Containment of paths in recorder/src/common/Files.cpp.
use gambit_record.Common.{
  true, [], ◌∷◌, ◌++◌, Option, some, same_text_sound, same_text_refl, arith, ◌≡◌, refl, ap₂, ◌↔◌,
}
use gambit_record.Recorder.Files.{FilePath, has_prefix, is_path_within}

has_prefix-append : (parent rest : FilePath) → has_prefix (parent ++ rest) parent ≡ true
unfolding has_prefix
has_prefix-append [] rest = refl
has_prefix-append (p ∷ parent) rest =
    ground (arith, same_text_refl p, has_prefix-append parent rest)

has_prefix-parts :
    (child parent : FilePath)
    → has_prefix child parent ≡ true
    → (rest : FilePath) × (child ≡ parent ++ rest)
unfolding has_prefix
has_prefix-parts child [] h = (child, refl)
has_prefix-parts [] (p ∷ parent) h = absurd (ground (arith, h))
has_prefix-parts (c ∷ child) (p ∷ parent) h =
    let more = has_prefix-parts child parent (ground arith) in
    (more.0, ap₂ ◌∷◌ (same_text_sound c p (ground arith)) more.1)

-- Where both paths have a canonical form, the first is within the second exactly when its
-- canonical form is that of the second followed by further components.
pub is_path_within_iff :
    (weakly_canonical : FilePath → Option FilePath) (child parent c p : FilePath)
    → weakly_canonical child ≡ some c
    → weakly_canonical parent ≡ some p
    → (is_path_within weakly_canonical child parent ≡ true) ↔ ((rest : FilePath) × (c ≡ p ++ rest))
unfolding is_path_within
is_path_within_iff weakly_canonical child parent c p e f =
    rw (e, f) ((λ h. has_prefix-parts c p h), (λ k. rw k.1 (has_prefix-append p k.0)))
