-- ===== src/Grecord/BitReader/Bits.antt =====
-- What `read_bits` reads: the bits of the packet from the cursor on, most significant first.
use Prim.Native.Nat.{bit_or}
use gambit_record.Common.{
  ℕ, zero, suc, ◌+◌, ◌-◌, ◌*◌, ◌/◌, ◌%◌, ◌^◌, ◌≤◌, ◌<◌, Bool, true, ◌&&◌, refl, ◌≡◌, ap, ◌∙◌, sym,
  List, [], ◌∷◌, ◌++◌, some, length, get_elem?, take, drop, arith, Text, ◌==◌, All, take-append_le,
  take-append-take, drop-append_le, min, not, ltb, length-drop, Bool-cases, inl, inr, replicate,
  ==_iff,
}
use gambit_record.Grecord.BitReader.{combine, high_part}

abbrev pub byte_bits : ℕ → List ℕ
byte_bits x =
    x / 128 % 2
    ∷ x / 64 % 2
    ∷ x / 32 % 2
    ∷ x / 16 % 2
    ∷ x / 8 % 2
    ∷ x / 4 % 2
    ∷ x / 2 % 2
    ∷ x % 2
    ∷ []

abbrev pub to_bits : Text → List ℕ
to_bits [] = []
to_bits (x ∷ xs) = byte_bits x ++ to_bits xs

abbrev pub IsByte : ℕ → Type 0
IsByte x = x < 256

table_holds : (ℕ → Bool) → ℕ → Bool
table_holds test zero = true
table_holds test (suc k) = test k && table_holds test k

-- An entry of a table that was computed.
table_entry :
    (test : ℕ → Bool) {bound : ℕ} (i : ℕ)
    → i < bound
    → table_holds test bound ≡ true
    → test i ≡ true
unfolding table_holds
table_entry test {bound = zero} i below all = absurd (omega (arith, below))
table_entry test {bound = suc k} i below all = ground (arith, table_entry test {bound = k} i)

-- A byte is the `|` of its parts above and below bit `m`.
split_test : ℕ → ℕ → Bool
split_test m z = bit_or (z / 2 ^ m * 2 ^ m) (z % 2 ^ m) == z

split_table : table_holds (λ m. table_holds (split_test m) 256) 8 ≡ true
unfolding table_holds split_test
split_table = refl

bit_or_split : (m z : ℕ) → m < 8 → z < 256 → bit_or (z / 2 ^ m * 2 ^ m) (z % 2 ^ m) ≡ z
unfolding split_test
bit_or_split m z h k = (==_iff _ z).0 (
    table_entry (split_test m) z k
      (table_entry (λ m. table_holds (split_test m) 256) m h split_table))

join_at :
    (m hi lo : ℕ)
    → m < 8
    → hi + lo < 256
    → (hi + lo) / 2 ^ m * 2 ^ m ≡ hi
    → (hi + lo) % 2 ^ m ≡ lo
    → bit_or hi lo ≡ hi + lo
join_at m hi lo l b h k = rw (h, k) at (bit_or_split m (hi + lo) l b)

eight :
    {a b c d e f g h a' b' c' d' e' f' g' h' : ℕ}
    → (a ≡ a') × (b ≡ b') × (c ≡ c') × (d ≡ d') × (e ≡ e') × (f ≡ f') × (g ≡ g') × (h ≡ h')
    → ◌≡◌ {A = List ℕ}
        (a ∷ b ∷ c ∷ d ∷ e ∷ f ∷ g ∷ h ∷ [])
        (a' ∷ b' ∷ c' ∷ d' ∷ e' ∷ f' ∷ g' ∷ h' ∷ [])
eight p = cc (p.0, p.1, p.2, p.3, p.4, p.5, p.6, p.7)

-- Both parts of an output byte: the rest of one packet byte and the start of the next.
Joins : ℕ → ℕ → ℕ → Type 0
Joins m x y =
    byte_bits (bit_or (high_part x m) (y / 2 ^ (8 - m)))
    ≡ drop m (byte_bits x) ++ take m (byte_bits y)

joins :
    (m x y : ℕ)
    → m < 8
    → high_part x m + y / 2 ^ (8 - m) < 256
    → (high_part x m + y / 2 ^ (8 - m)) / 2 ^ m * 2 ^ m ≡ high_part x m
    → (high_part x m + y / 2 ^ (8 - m)) % 2 ^ m ≡ y / 2 ^ (8 - m)
    → byte_bits (high_part x m + y / 2 ^ (8 - m)) ≡ drop m (byte_bits x) ++ take m (byte_bits y)
    → Joins m x y
unfolding Joins
joins m x y l b h k e = rw (join_at m (high_part x m) (y / 2 ^ (8 - m)) l b h k) e

joined-bits : (m x y : ℕ) → 0 < m → m < 8 → x < 256 → y < 256 → Joins m x y
joined-bits zero x y p l h k = absurd (omega arith)
joined-bits (suc zero) x y p l h k =
    joins 1 x y l (omega arith) (omega arith) (omega arith) (eight (omega arith))
joined-bits (suc (suc zero)) x y p l h k =
    joins 2 x y l (omega arith) (omega arith) (omega arith) (eight (omega arith))
joined-bits (suc (suc (suc zero))) x y p l h k =
    joins 3 x y l (omega arith) (omega arith) (omega arith) (eight (omega arith))
joined-bits (suc (suc (suc (suc zero)))) x y p l h k =
    joins 4 x y l (omega arith) (omega arith) (omega arith) (eight (omega arith))
joined-bits (suc (suc (suc (suc (suc zero))))) x y p l h k =
    joins 5 x y l (omega arith) (omega arith) (omega arith) (eight (omega arith))
joined-bits (suc (suc (suc (suc (suc (suc zero)))))) x y p l h k =
    joins 6 x y l (omega arith) (omega arith) (omega arith) (eight (omega arith))
joined-bits (suc (suc (suc (suc (suc (suc (suc zero))))))) x y p l h k =
    joins 7 x y l (omega arith) (omega arith) (omega arith) (eight (omega arith))
joined-bits (suc (suc (suc (suc (suc (suc (suc (suc m)))))))) x y p l h k = absurd (omega arith)

-- The first part alone, with zeros behind it.
shifted-bits :
    (m x : ℕ) → m < 8 → x < 256 → byte_bits (high_part x m) ≡ drop m (byte_bits x) ++ replicate m 0
shifted-bits zero x l h = eight (omega arith)
shifted-bits (suc zero) x l h = eight (omega arith)
shifted-bits (suc (suc zero)) x l h = eight (omega arith)
shifted-bits (suc (suc (suc zero))) x l h = eight (omega arith)
shifted-bits (suc (suc (suc (suc zero)))) x l h = eight (omega arith)
shifted-bits (suc (suc (suc (suc (suc zero))))) x l h = eight (omega arith)
shifted-bits (suc (suc (suc (suc (suc (suc zero)))))) x l h = eight (omega arith)
shifted-bits (suc (suc (suc (suc (suc (suc (suc zero))))))) x l h = eight (omega arith)
shifted-bits (suc (suc (suc (suc (suc (suc (suc (suc m)))))))) x l h = absurd (omega arith)

module _ (x : ℕ) (rest : Text) (m left b : ℕ) (l : m < 8) (h : IsByte x) where
  abbrev first_bits : List ℕ
  first_bits = drop m (byte_bits x)

  first_bits-length : length first_bits ≡ 8 - m
  first_bits-length = length-drop m (byte_bits x)

  packet_bits : drop m (to_bits (x ∷ rest)) ≡ first_bits ++ to_bits rest
  packet_bits = drop-append_le m (byte_bits x) (to_bits rest) (omega arith)

  -- The second part comes from the next byte.
  gathered_two :
      (y : ℕ) (more : Text)
      → rest ≡ y ∷ more
      → IsByte y
      → 0 < m
      → bit_or (high_part x m) (y / 2 ^ (8 - m)) ≡ b
      → take (min left 8) (byte_bits b) ≡ take (min left 8) (drop m (to_bits (x ∷ rest)))
  unfolding Joins
  gathered_two y more r k p e =
      ap (take (min left 8)) (ap byte_bits (sym e) ∙ joined-bits m x y p l h k)
      ∙ take-append-take (min left 8) m first_bits (byte_bits y) (to_bits more)
          (omega (arith, first_bits-length)) (omega arith)
      ∙ ap (λ z. take (min left 8) (first_bits ++ to_bits z)) (sym r)
      ∙ ap (take (min left 8)) (sym packet_bits)

  gathered_one :
      min left 8 ≤ 8 - m
      → high_part x m ≡ b
      → take (min left 8) (byte_bits b) ≡ take (min left 8) (drop m (to_bits (x ∷ rest)))
  gathered_one fits e =
      ap (take (min left 8)) (ap byte_bits (sym e) ∙ shifted-bits m x l h)
      ∙ take-append_le (min left 8) first_bits (replicate m 0) (omega (arith, first_bits-length))
      ∙ sym
          (take-append_le (min left 8) first_bits (to_bits rest) (omega (arith, first_bits-length)))
      ∙ ap (take (min left 8)) (sym packet_bits)

-- The bits of a gathered byte are those of the packet, as far as bits are left.
pub gathered-bits :
    (x : ℕ) (rest : Text) (m left b : ℕ)
    → m < 8
    → IsByte x
    → All IsByte rest
    → combine (some x) (get_elem? rest 0) m left ≡ some b
    → take (min left 8) (byte_bits b) ≡ take (min left 8) (drop m (to_bits (x ∷ rest)))
unfolding combine
gathered-bits x [] m left b l h a e = elim (Bool-cases (not (m == 0) && ltb (8 - m) left)) [
  | inl two ↦ cc (rw two at e)
  | inr one ↦ gathered_one x [] m left b l h (ground arith) (ground arith)
]
gathered-bits x (y ∷ rest) m left b l h a e = elim (Bool-cases (not (m == 0) && ltb (8 - m) left)) [
  | inl two ↦ gathered_two x (y ∷ rest) m left b l h y rest refl a.0 (ground arith) (ground arith)
  | inr one ↦ gathered_one x (y ∷ rest) m left b l h (ground arith) (ground arith)
]
