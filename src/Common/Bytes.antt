-- ===== src/Common/Bytes.antt =====
-- Texts as their bytes: `std::string` is a sequence of bytes, and a literal of the source stands
-- for its UTF-8 encoding.
use Prim.Native.Nat.{ℕ, zero, suc, ◌+◌, ◌*◌, ◌/◌, ◌%◌, ◌^◌, ◌≤◌, ◌<◌}
use Prim.Native.Char.{code}
use Prim.Native.String.{String}
use mathlib.Core.Bool.{Bool, true, false, ◌&&◌}
use mathlib.Core.List.{List, [], ◌∷◌, ◌++◌}
use mathlib.Core.Path.{◌≡◌, refl, sym, subst, ap}
use native.Mathlib.Omega.{arith}
use native.Mathlib.Numerals.{unary_clauses}
use gambit_record.Common.Lists.{length, All}
use gambit_record.Common.Tests.{ltb, ◌==◌, if◌then◌else◌}

abbrev pub Text : Type 0
Text = List ℕ

-- The bytes of one code point below 0x10000.
encode_char : ℕ → Text
encode_char c =
    if ltb c 0x80
    then c ∷ []
    else if ltb c 0x800
    then (0xc0 + c / 64) ∷ (0x80 + c % 64) ∷ []
    else (0xe0 + c / 4096) ∷ (0x80 + c / 64 % 64) ∷ (0x80 + c % 64) ∷ []

encode : String → Text
unfolding encode_char
encode String.[] = []
encode (String.◌∷◌ c s) = encode_char (code c) ++ encode s

-- A string literal of the source.
unfoldable pub literal : String → Text
unfolding encode
literal s = encode s

-- `a == b` on two `std::string`s.
abbrev pub same_text : Text → Text → Bool
same_text [] [] = true
same_text [] (y ∷ ys) = false
same_text (x ∷ xs) [] = false
same_text (x ∷ xs) (y ∷ ys) = x == y && same_text xs ys

abbrev pub is_empty {ℓ} : {A : Type ℓ} → List A → Bool
is_empty [] = true
is_empty (x ∷ xs) = false

pub same_text_refl : (s : Text) → same_text s s ≡ true
same_text_refl [] = refl
same_text_refl (x ∷ s) = ground (arith, same_text_refl s)

pub same_text_sound : (s t : Text) → same_text s t ≡ true → s ≡ t
same_text_sound [] [] h = refl
same_text_sound [] (y ∷ t) h = cc
same_text_sound (x ∷ s) [] h = cc
same_text_sound (x ∷ s) (y ∷ t) h = ground (arith, same_text_sound s t)

-- `starts_with`.
abbrev pub starts_with : Text → Text → Bool
starts_with s [] = true
starts_with [] (y ∷ p) = false
starts_with (x ∷ s) (y ∷ p) = x == y && starts_with s p

-- The decimal digits of a number, as `std::to_string` prints them: `fuel` digits at most.
digits_from : ℕ → ℕ → Text → Text
digits_from zero n rest = rest
digits_from (suc fuel) n rest =
    let more = digits_from fuel (n / 10) ((0x30 + n % 10) ∷ rest) in
    if ltb n 10 then (0x30 + n) ∷ rest else more

-- A number has no more decimal digits than its own value plus one.
pub decimal : ℕ → Text
unfolding digits_from
decimal n = digits_from (suc n) n []

digits_from-le :
    (fuel n k : ℕ) (rest : Text)
    → n < 10 ^ suc k
    → length (digits_from fuel n rest) ≤ suc k + length rest
unfolding digits_from
digits_from-le zero n k rest h = omega arith
digits_from-le (suc fuel) n zero rest h =
    subst
      (λ b.
        length (if b then (0x30 + n) ∷ rest else digits_from fuel (n / 10) ((0x30 + n % 10) ∷ rest))
        ≤ 1 + length rest)
      (sym (small n h)) (omega arith)
  where
    small : (m : ℕ) → m < 10 ^ 1 → ltb m 10 ≡ true
    small m l = ground (arith, l)
digits_from-le (suc fuel) n (suc k) rest h =
    let more = digits_from-le fuel (n / 10) k ((0x30 + n % 10) ∷ rest) tenth in
    choose (ltb n 10) (omega (arith, more))
  where
    tenth : n / 10 < 10 ^ suc k
    tenth = omega (arith, simp unary_clauses at h)

    choose :
        (b : Bool)
        → length (digits_from fuel (n / 10) ((0x30 + n % 10) ∷ rest)) ≤ suc (suc k) + length rest
        → length
            (if b then (0x30 + n) ∷ rest else digits_from fuel (n / 10) ((0x30 + n % 10) ∷ rest))
          ≤ suc (suc k) + length rest
    choose true l = omega arith
    choose false l = l

-- A number below a power of ten has no more digits than the power's exponent.
pub length-decimal : (n k : ℕ) → n < 10 ^ suc k → length (decimal n) ≤ suc k
unfolding decimal
length-decimal n k h = omega (arith, digits_from-le (suc n) n k [] h)

-- The value of a little-endian object in memory, and its bytes.
abbrev pub little_endian : Text → ℕ
little_endian [] = 0
little_endian (b ∷ bs) = b + 256 * little_endian bs

abbrev pub le_bytes : ℕ → ℕ → Text
le_bytes zero n = []
le_bytes (suc k) n = (n % 256) ∷ le_bytes k (n / 256)

-- A text with a last byte, all of whose bytes are of one kind.
pub record Ending (P : ℕ → Type 0) (s : Text) : Type 0 where
  pub front : Text
  pub last : ℕ
  pub shape : s ≡ front ++ last ∷ []
  pub front_holds : All P front
  pub last_holds : P last

pub cons-Ending : (P : ℕ → Type 0) (c : ℕ) (s : Text) → P c → Ending P s → Ending P (c ∷ s)
cons-Ending P c s h d = record {
  front = c ∷ d.front;
  last = d.last;
  shape = ap (λ t. c ∷ t) d.shape;
  front_holds = (h, d.front_holds);
  last_holds = d.last_holds;
}

one-Ending : (P : ℕ → Type 0) (c : ℕ) → P c → Ending P (c ∷ [])
one-Ending P c h = record { front = []; last = c; shape = refl; front_holds = tt; last_holds = h }

module _ (P : ℕ → Type 0) (digit : (m : ℕ) → ltb m 10 ≡ true → P (0x30 + m)) where
  if-Ending :
      (b : Bool) (x y : Text)
      → (b ≡ true → Ending P x)
      → (b ≡ false → Ending P y)
      → Ending P (if b then x else y)
  if-Ending true x y h k = h refl
  if-Ending false x y h k = k refl

  rest_digit : (n : ℕ) → P (0x30 + n % 10)
  rest_digit n = digit (n % 10) (ground arith)

  digits_from-Ending :
      (fuel n : ℕ) (rest : Text) → Ending P rest → Ending P (digits_from fuel n rest)
  unfolding digits_from
  digits_from-Ending zero n rest h = h
  digits_from-Ending (suc fuel) n rest h =
      if-Ending (ltb n 10) ((0x30 + n) ∷ rest) (digits_from fuel (n / 10) ((0x30 + n % 10) ∷ rest))
        (λ e. cons-Ending P (0x30 + n) rest (digit n e) h)
        (λ _.
          digits_from-Ending fuel (n / 10) ((0x30 + n % 10) ∷ rest)
            (cons-Ending P (0x30 + n % 10) rest (rest_digit n) h))

  pub decimal-Ending : (n : ℕ) → Ending P (decimal n)
  unfolding decimal digits_from
  decimal-Ending n =
      if-Ending (ltb n 10) ((0x30 + n) ∷ []) (digits_from n (n / 10) ((0x30 + n % 10) ∷ []))
        (λ e. one-Ending P (0x30 + n) (digit n e))
        (λ _.
          digits_from-Ending n (n / 10) ((0x30 + n % 10) ∷ [])
            (one-Ending P (0x30 + n % 10) (rest_digit n)))
