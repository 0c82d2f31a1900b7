-- ===== src/Recorder/Nal/Found.antt =====
-- What contains_idr of recorder/src/video/MediaFoundationEncoder.cpp looks for, without its loops.
use gambit_record.Common.{
  ℕ, zero, suc, ◌≤◌, Bool, true, false, ◌||◌, [], ◌∷◌, ltb, ◌==◌, if◌then◌else◌, length, drop,
  length-drop, Text, arith, ◌≡◌, refl, subst, sym, Bool-cases, inl, inr, ◌⊎◌, ◌↔◌,
}
use gambit_record.Recorder.Nal.{
  is_idr, starts_idr, has_start_code, big_endian, has_length_unit, contains_idr,
}

-- Somewhere in the bytes stands a start code in front of an IDR slice.
pub data StartCode : Text → Type 0 where
  here :
      {a b c d e : ℕ} {rest : Text}
      → starts_idr a b c d e ≡ true
      → StartCode (a ∷ b ∷ c ∷ d ∷ e ∷ rest)
  later : {a : ℕ} {rest : Text} → StartCode rest → StartCode (a ∷ rest)

-- The bytes are units behind their lengths, up to an IDR slice.
pub data LengthUnit : Text → Type 0 where
  found :
      {a b c d e : ℕ} {rest : Text}
      → 1 ≤ big_endian a b c d
      → big_endian a b c d ≤ suc (length rest)
      → is_idr e ≡ true
      → LengthUnit (a ∷ b ∷ c ∷ d ∷ e ∷ rest)
  next :
      {a b c d e : ℕ} {rest : Text}
      → 1 ≤ big_endian a b c d
      → big_endian a b c d ≤ suc (length rest)
      → LengthUnit (drop (big_endian a b c d) (e ∷ rest))
      → LengthUnit (a ∷ b ∷ c ∷ d ∷ e ∷ rest)

has_start_code_sound : (bytes : Text) → has_start_code bytes ≡ true → StartCode bytes
unfolding has_start_code
has_start_code_sound [] h = absurd (ground arith)
has_start_code_sound (a ∷ []) h = absurd (ground arith)
has_start_code_sound (a ∷ b ∷ []) h = absurd (ground arith)
has_start_code_sound (a ∷ b ∷ c ∷ []) h = absurd (ground arith)
has_start_code_sound (a ∷ b ∷ c ∷ d ∷ []) h = absurd (ground arith)
has_start_code_sound (a ∷ b ∷ c ∷ d ∷ e ∷ rest) h = elim (Bool-cases (starts_idr a b c d e)) [
  | inl starts ↦ here starts
  | inr other ↦ later (
      has_start_code_sound (b ∷ c ∷ d ∷ e ∷ rest)
        (subst (λ t. (t || has_start_code (b ∷ c ∷ d ∷ e ∷ rest)) ≡ true) other h))
]

or_true : (b : Bool) → (b || true) ≡ true
or_true true = refl
or_true false = refl

has_start_code_complete : (bytes : Text) → StartCode bytes → has_start_code bytes ≡ true
unfolding has_start_code
has_start_code_complete _ (here {a} {b} {c} {d} {e} {rest} h) =
    subst (λ t. (t || has_start_code (b ∷ c ∷ d ∷ e ∷ rest)) ≡ true) (sym h) refl
has_start_code_complete (a ∷ rest) (later h) = widen rest (has_start_code_complete rest h)
  where
    widen : (r : Text) → has_start_code r ≡ true → has_start_code (a ∷ r) ≡ true
    widen [] k = absurd (ground arith)
    widen (b ∷ []) k = absurd (ground arith)
    widen (b ∷ c ∷ []) k = absurd (ground arith)
    widen (b ∷ c ∷ d ∷ []) k = absurd (ground arith)
    widen (b ∷ c ∷ d ∷ e ∷ r) k =
        subst (λ t. (starts_idr a b c d e || t) ≡ true) (sym k) (or_true (starts_idr a b c d e))

if_parts :
    (p q r : Bool)
    → (if p then false else if q then true else r) ≡ true
    → (p ≡ false) × ((q || r) ≡ true)
if_parts true q r h = absurd (ground arith)
if_parts false true r h = (refl, refl)
if_parts false false r h = (refl, h)

length_parts : (n m : ℕ) → (n == 0 || ltb m n) ≡ false → (1 ≤ n) × (n ≤ m)
length_parts n m h = (ground arith, ground arith)

has_length_unit_sound :
    (fuel : ℕ) (bytes : Text) → has_length_unit fuel bytes ≡ true → LengthUnit bytes
unfolding has_length_unit
has_length_unit_sound zero bytes h = absurd (ground arith)
has_length_unit_sound (suc fuel) [] h = absurd (ground arith)
has_length_unit_sound (suc fuel) (a ∷ []) h = absurd (ground arith)
has_length_unit_sound (suc fuel) (a ∷ b ∷ []) h = absurd (ground arith)
has_length_unit_sound (suc fuel) (a ∷ b ∷ c ∷ []) h = absurd (ground arith)
has_length_unit_sound (suc fuel) (a ∷ b ∷ c ∷ d ∷ []) h = absurd (ground arith)
has_length_unit_sound (suc fuel) (a ∷ b ∷ c ∷ d ∷ e ∷ rest) h =
    let n = big_endian a b c d in
    let later = has_length_unit fuel (drop n (e ∷ rest)) in
    let parts = if_parts (n == 0 || ltb (suc (length rest)) n) (is_idr e) later h in
    let bounds = length_parts n (suc (length rest)) parts.0 in
    elim (Bool-cases (is_idr e)) [
      | inl idr ↦ found bounds.0 bounds.1 idr
      | inr other ↦ next bounds.0 bounds.1 (
          has_length_unit_sound fuel (drop n (e ∷ rest))
            (subst (λ t. (t || later) ≡ true) other parts.1))
    ]

in_bounds : (n m : ℕ) → 1 ≤ n → n ≤ m → (n == 0 || ltb m n) ≡ false
in_bounds n m low high = ground arith

shorter :
    (n fuel : ℕ) (e : ℕ) (rest : Text)
    → suc (suc (suc (suc (suc (length rest))))) ≤ suc fuel
    → length (drop n (e ∷ rest)) ≤ fuel
shorter n fuel e rest h = omega (arith, length-drop n (e ∷ rest))

has_length_unit_complete :
    (fuel : ℕ) (bytes : Text)
    → length bytes ≤ fuel
    → LengthUnit bytes
    → has_length_unit fuel bytes ≡ true
unfolding has_length_unit
has_length_unit_complete zero _ k (found low high h) = absurd (omega arith)
has_length_unit_complete zero _ k (next low high h) = absurd (omega arith)
has_length_unit_complete (suc fuel) _ k (found {a} {b} {c} {d} {e} {rest} low high h) =
    let n = big_endian a b c d in
    let later = has_length_unit fuel (drop n (e ∷ rest)) in
    subst (λ p. (if p then false else if is_idr e then true else later) ≡ true)
      (sym (in_bounds n (suc (length rest)) low high))
      (subst (λ q. (if q then true else later) ≡ true) (sym h) refl)
has_length_unit_complete (suc fuel) _ k (next {a} {b} {c} {d} {e} {rest} low high h) =
    let n = big_endian a b c d in
    let later = has_length_unit fuel (drop n (e ∷ rest)) in
    subst (λ p. (if p then false else if is_idr e then true else later) ≡ true)
      (sym (in_bounds n (suc (length rest)) low high))
      (subst (λ l. (if is_idr e then true else l) ≡ true)
        (sym (has_length_unit_complete fuel (drop n (e ∷ rest)) (shorter n fuel e rest k) h))
        (either (is_idr e)))
  where
    either : (q : Bool) → (if q then true else true) ≡ true
    either true = refl
    either false = refl

or_cases : (p q : Bool) → (p || q) ≡ true → (p ≡ true) ⊎ (q ≡ true)
or_cases true q h = inl refl
or_cases false q h = inr h

-- The answer is yes exactly where the bytes hold a start code in front of an IDR slice or are units
-- behind their lengths with an IDR slice among those that are read: both loops end, for any bytes.
pub contains_idr_iff :
    (bytes : Text) → (contains_idr bytes ≡ true) ↔ (StartCode bytes ⊎ LengthUnit bytes)
unfolding contains_idr
contains_idr_iff bytes = (
  λ h. elim (or_cases (has_start_code bytes) (has_length_unit (length bytes) bytes) h) [
    | inl starts ↦ inl (has_start_code_sound bytes starts)
    | inr units ↦ inr (has_length_unit_sound (length bytes) bytes units)
  ],
  λ k. elim k [
    | inl starts ↦
        subst (λ t. (t || has_length_unit (length bytes) bytes) ≡ true)
          (sym (has_start_code_complete bytes starts)) refl
    | inr units ↦
        subst (λ t. (has_start_code bytes || t) ≡ true)
          (sym (has_length_unit_complete (length bytes) bytes (omega arith) units))
          (or_true (has_start_code bytes))
  ],
)
