-- ===== src/Grecord/Logic/Reason.antt =====
-- `Logic::punishment_reason` of grecord/src/Logic.cpp: what it takes for the reason.
use gambit_record.Common.{ℕ, zero, suc, refl, ◌≡◌, ◌≢◌, [], ◌∷◌, ◌++◌, none, some, arith, Text, All}
use gambit_record.Grecord.Logic.{find_space, skip_spaces, reason_from, punishment_reason}

-- A word has no space in it.
abbrev pub IsWord : Text → Type 0
IsWord = All (λ c. c ≢ 0x20)

abbrev pub spaces : ℕ → Text → Text
spaces zero s = s
spaces (suc n) s = 0x20 ∷ spaces n s

find_space-word : (w s : Text) → IsWord w → find_space (w ++ 0x20 ∷ s) ≡ some (0x20 ∷ s)
unfolding find_space
find_space-word [] s h = refl
find_space-word (c ∷ w) s h = ground (arith, h.0, find_space-word w s h.1)

find_space-none : (w : Text) → IsWord w → find_space w ≡ none
unfolding find_space
find_space-none [] h = refl
find_space-none (c ∷ w) h = ground (arith, h.0, find_space-none w h.1)

skip_spaces-word : (n c : ℕ) (s : Text) → c ≢ 0x20 → skip_spaces (spaces n (c ∷ s)) ≡ some (c ∷ s)
unfolding skip_spaces
skip_spaces-word zero c s h = ground arith
skip_spaces-word (suc n) c s h = skip_spaces-word n c s h

-- A command of the form `/command id duration reason`, its parts one or more spaces apart, has as
-- its reason all that follows the third part, further spaces included.
pub punishment_reason_tail :
    (command id duration reason : Text) (i d r : ℕ) (a b c : ℕ)
    → IsWord command
    → i ≢ 0x20
    → IsWord id
    → d ≢ 0x20
    → IsWord duration
    → r ≢ 0x20
    → punishment_reason (
        command
        ++ spaces
            (suc a)
            (i ∷ (id ++ spaces (suc b) (d ∷ (duration ++ spaces (suc c) (r ∷ reason))))))
      ≡ r ∷ reason
unfolding punishment_reason
punishment_reason_tail command id duration reason i d r a b c hc hi hid hd hdur hr = rw (
  find_space-word command
      (spaces a (i ∷ (id ++ spaces (suc b) (d ∷ (duration ++ spaces (suc c) (r ∷ reason)))))) hc,
  skip_spaces-word (suc a) i (id ++ spaces (suc b) (d ∷ (duration ++ spaces (suc c) (r ∷ reason))))
      hi,
  find_space-word (i ∷ id) (spaces b (d ∷ (duration ++ spaces (suc c) (r ∷ reason)))) (hi, hid),
  skip_spaces-word (suc b) d (duration ++ spaces (suc c) (r ∷ reason)) hd,
  find_space-word (d ∷ duration) (spaces c (r ∷ reason)) (hd, hdur),
  skip_spaces-word (suc c) r reason hr,
  reason_from,
)

-- A command with two arguments only, `/command id reason`, has the empty reason: its last word is
-- taken for the duration.
pub punishment_reason_lost :
    (command id reason : Text) (i r : ℕ) (a b : ℕ)
    → IsWord command
    → i ≢ 0x20
    → IsWord id
    → r ≢ 0x20
    → IsWord reason
    → punishment_reason (command ++ spaces (suc a) (i ∷ (id ++ spaces (suc b) (r ∷ reason)))) ≡ []
unfolding punishment_reason
punishment_reason_lost command id reason i r a b hc hi hid hr hreason = rw (
  find_space-word command (spaces a (i ∷ (id ++ spaces (suc b) (r ∷ reason)))) hc,
  skip_spaces-word (suc a) i (id ++ spaces (suc b) (r ∷ reason)) hi,
  find_space-word (i ∷ id) (spaces b (r ∷ reason)) (hi, hid),
  skip_spaces-word (suc b) r reason hr,
  find_space-none (r ∷ reason) (hr, hreason),
  reason_from,
)
