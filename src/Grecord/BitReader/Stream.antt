-- ===== src/Grecord/BitReader/Stream.antt =====
-- `read_bits` of grecord/src/BitReader.cpp copies a run of bits.
use gambit_record.Common.{
  ℕ, zero, suc, ◌+◌, ◌-◌, ◌*◌, ◌/◌, ◌%◌, ◌≤◌, ◌<◌, Bool, true, false, refl, ◌≡◌, ap, ap₂, ◌∙◌, sym,
  ◌⊎◌, inl, inr, dec_lt, subst, [], ◌∷◌, ◌++◌, Option, none, some, length, get_elem?, take, drop,
  arith, Text, ltb, ◌==◌, All, take-append_le, take_add, drop-drop, min, if◌then◌else◌,
}
use gambit_record.Grecord.BitReader.{
  BitReader, done, combine, gather, put_byte, read_loop, read_bits, aligned,
}
use gambit_record.Grecord.BitReader.Safety.{IsInside, read_loop_zero, read_loop_total, final_offset}
use gambit_record.Grecord.BitReader.Bits.{byte_bits, to_bits, IsByte, gathered-bits}

abbrev outputs : Option (Text × ℕ) → Option Text
outputs none = none
outputs (some (out, end)) = some out

gather-cons :
    (x : ℕ) (bytes : Text) (offset m left : ℕ)
    → gather (x ∷ bytes) (offset + 8) m left ≡ gather bytes offset m left
unfolding gather
gather-cons x bytes offset m left =
    λ i. combine (get_elem? (x ∷ bytes) (here i)) (get_elem? (x ∷ bytes) (next i)) m left
  where
    here : (offset + 8) / 8 ≡ suc (offset / 8)
    here = omega arith

    next : (offset + 8) / 8 + 1 ≡ suc (offset / 8 + 1)
    next = omega arith

outputs-put_byte :
    (g : Option ℕ) (al : Bool) (left : ℕ) (t t' : Option (Text × ℕ))
    → outputs t ≡ outputs t'
    → outputs (put_byte g al left t) ≡ outputs (put_byte g al left t')
unfolding put_byte
outputs-put_byte g al left t t' h = ground arith

outputs-if :
    (t : Bool) (a b a' b' : Option (Text × ℕ))
    → outputs a ≡ outputs a'
    → outputs b ≡ outputs b'
    → outputs (if t then a else b) ≡ outputs (if t then a' else b')
outputs-if true a b a' b' h k = h
outputs-if false a b a' b' h k = k

-- The loop at a cursor in the tail of the packet.
read_loop-cons :
    (fuel x : ℕ) (bytes : Text) (offset m : ℕ) (al : Bool) (left : ℕ)
    → outputs (read_loop fuel (x ∷ bytes) (offset + 8) m al left)
      ≡ outputs (read_loop fuel bytes offset m al left)
unfolding read_loop
read_loop-cons zero x bytes offset m al left = refl
read_loop-cons (suc fuel) x bytes offset m al left = rw (gather-cons x bytes offset m left) (
    outputs-if (left == 0) _ _ _ _ refl (
      outputs-put_byte (gather bytes offset m left) al left _ _ (
        outputs-if (ltb left 8) _ _ _ _
          (ap outputs (read_loop_zero fuel (x ∷ bytes) (offset + 8 + left) m al)
            ∙ ap outputs (sym (read_loop_zero fuel bytes (offset + left) m al)))
          (read_loop-cons fuel x bytes (offset + 8) m al (left - 8)))))

-- One round of the loop, in the tail that it leaves to the later ones.
put_byte-some :
    (g : Option ℕ) (al : Bool) (left : ℕ) (t : Option (Text × ℕ)) (out : Text)
    → outputs (put_byte g al left t) ≡ some out
    → (b : ℕ) × (more : Text) × (g ≡ some b)
      × (outputs t ≡ some more)
      × (out ≡ aligned al left b ∷ more)
unfolding put_byte
put_byte-some none al left t out h = absurd (ground arith)
put_byte-some (some b) al left none out h = absurd (ground arith)
put_byte-some (some b) al left (some (more, end)) out h = (b, more, refl, refl, ground arith)

-- The bits that a reader at bit `m` of the packet's first byte puts out.
abbrev Copies : Text → ℕ → ℕ → Text → Type 0
Copies bytes m left out = take left (to_bits out) ≡ take left (drop m (to_bits bytes))

aligned-whole :
    (al : Bool) (left b : ℕ) → (al ≡ false) ⊎ (left % 8 ≡ 0) → 0 < left → aligned al left b ≡ b
aligned-whole al left b w p = ground arith

last_round-Copies :
    (x b : ℕ) (rest : Text) (m left : ℕ)
    → left < 8
    → take (min left 8) (byte_bits b) ≡ take (min left 8) (drop m (to_bits (x ∷ rest)))
    → Copies (x ∷ rest) m left (b ∷ [])
last_round-Copies x b rest m left l h =
    let e : min left 8 ≡ left = omega arith in
    take-append_le left (byte_bits b) [] (omega arith) ∙ (rw e at h)

next_round-Copies :
    (x b : ℕ) (rest more : Text) (m left : ℕ)
    → take 8 (byte_bits b) ≡ take 8 (drop m (to_bits (x ∷ rest)))
    → Copies rest m left more
    → Copies (x ∷ rest) m (8 + left) (b ∷ more)
next_round-Copies x b rest more m left h ih =
    take_add 8 left (to_bits (b ∷ more))
    ∙ ap₂ ◌++◌ h (ih ∙ ap (take left) (sym later))
    ∙ sym (take_add 8 left (drop m (to_bits (x ∷ rest))))
  where
    later : drop 8 (drop m (to_bits (x ∷ rest))) ≡ drop m (to_bits rest)
    later =
        drop-drop 8 m (to_bits (x ∷ rest))
        ∙ ap (λ i. drop i (to_bits (x ∷ rest))) {x = m + 8} {y = 8 + m} (omega arith)
        ∙ sym (drop-drop m 8 (to_bits (x ∷ rest)))

gather-head :
    (x : ℕ) (rest : Text) (m left : ℕ)
    → m < 8
    → gather (x ∷ rest) m m left ≡ combine (some x) (get_elem? rest 0) m left
unfolding gather
gather-head x rest m left l =
    λ i. combine (get_elem? (x ∷ rest) (here i)) (get_elem? (x ∷ rest) (next i)) m left
  where
    here : m / 8 ≡ 0
    here = omega arith

    next : m / 8 + 1 ≡ 1
    next = omega arith

module _ (fuel : ℕ) (bytes : Text) (offset m : ℕ) (al : Bool) (left : ℕ) where
  last_round :
      suc left < 8
      → read_loop (suc fuel) bytes offset m al (suc left)
        ≡ put_byte (gather bytes offset m (suc left)) al (suc left) (some ([], offset + suc left))
  unfolding read_loop
  last_round h = ground (arith, read_loop_zero fuel bytes (offset + suc left) m al)

  next_round :
      8 ≤ suc left
      → read_loop (suc fuel) bytes offset m al (suc left)
        ≡ put_byte
            (gather bytes offset m (suc left))
            al
            (suc left)
            (read_loop fuel bytes (offset + 8) m al (suc left - 8))
  unfolding read_loop
  next_round h = ground arith

read_loop-Copies :
    (fuel : ℕ) (bytes : Text) (m : ℕ) (al : Bool) (left : ℕ) (out : Text)
    → m < 8
    → left ≤ fuel
    → m + left ≤ length bytes * 8
    → All IsByte bytes
    → (al ≡ false) ⊎ (left % 8 ≡ 0)
    → outputs (read_loop fuel bytes m m al left) ≡ some out
    → Copies bytes m left out
unfolding read_loop
read_loop-Copies fuel bytes m al zero out l f fits a w h = refl
read_loop-Copies zero bytes m al (suc left) out l f fits a w h = absurd (omega arith)
read_loop-Copies (suc fuel) [] m al (suc left) out l f fits a w h = absurd (omega arith)
read_loop-Copies (suc fuel) (x ∷ rest) m al (suc left) out l f fits a w h =
    elim (dec_lt (suc left) 8) [
      | yes short ↦ one_round short (
          put_byte-some (gather (x ∷ rest) m m (suc left)) al (suc left) (some ([], m + suc left))
            out (ap outputs (sym (last_round fuel (x ∷ rest) m m al left short)) ∙ h))
      | no long ↦ more_rounds (omega arith) (read_loop-Copies fuel rest m al (suc left - 8)) (
          put_byte-some (gather (x ∷ rest) m m (suc left)) al (suc left)
            (read_loop fuel (x ∷ rest) (m + 8) m al (suc left - 8)) out
            (ap outputs (sym (next_round fuel (x ∷ rest) m m al left (omega arith))) ∙ h))
    ]
  where
    less_whole : (al ≡ false) ⊎ (suc left % 8 ≡ 0) → (al ≡ false) ⊎ ((suc left - 8) % 8 ≡ 0)
    less_whole (inl p) = inl p
    less_whole (inr p) = inr (omega arith)

    bits :
        (b : ℕ)
        → gather (x ∷ rest) m m (suc left) ≡ some b
        → take (min (suc left) 8) (byte_bits b)
          ≡ take (min (suc left) 8) (drop m (to_bits (x ∷ rest)))
    bits b g =
        gathered-bits x rest m (suc left) b l a.0 a.1 (sym (gather-head x rest m (suc left) l) ∙ g)

    one_round :
        suc left < 8
        → ((b : ℕ) × (more : Text) × (gather (x ∷ rest) m m (suc left) ≡ some b)
            × (some [] ≡ some more)
            × (out ≡ aligned al (suc left) b ∷ more))
        → Copies (x ∷ rest) m (suc left) out
    one_round short (b, more, g, t, o) =
        let e : out ≡ b ∷ [] = ground (arith, aligned-whole al (suc left) b w) in
        rw e (last_round-Copies x b rest m (suc left) short (bits b g))

    more_rounds :
        8 ≤ suc left
        → ((out : Text)
            → m < 8
            → suc left - 8 ≤ fuel
            → m + (suc left - 8) ≤ length rest * 8
            → All IsByte rest
            → (al ≡ false) ⊎ ((suc left - 8) % 8 ≡ 0)
            → outputs (read_loop fuel rest m m al (suc left - 8)) ≡ some out
            → Copies rest m (suc left - 8) out)
        → ((b : ℕ) × (more : Text) × (gather (x ∷ rest) m m (suc left) ≡ some b)
            × (outputs (read_loop fuel (x ∷ rest) (m + 8) m al (suc left - 8)) ≡ some more)
            × (out ≡ aligned al (suc left) b ∷ more))
        → Copies (x ∷ rest) m (suc left) out
    more_rounds long ih (b, more, g, t, o) =
        let e : out ≡ b ∷ more = ground (arith, aligned-whole al (suc left) b w) in
        let n : suc left ≡ 8 + (suc left - 8) = omega arith in
        let k : min (suc left) 8 ≡ 8 = omega arith in
        let rest_bits =
          ih more l (omega arith) (omega arith) a.1 (less_whole w)
            (sym (read_loop-cons fuel x rest m m al (suc left - 8)) ∙ t) in
        rw e (
          subst (λ i. Copies (x ∷ rest) m i (b ∷ more)) (sym n)
            (next_round-Copies x b rest more m (suc left - 8) (rw k at (bits b g)) rest_bits))

-- The loop from any cursor.
read_loop_from-Copies :
    (q fuel : ℕ) (bytes : Text) (m : ℕ) (al : Bool) (left : ℕ) (out : Text)
    → m < 8
    → left ≤ fuel
    → q * 8 + m + left ≤ length bytes * 8
    → All IsByte bytes
    → (al ≡ false) ⊎ (left % 8 ≡ 0)
    → outputs (read_loop fuel bytes (q * 8 + m) m al left) ≡ some out
    → Copies bytes (q * 8 + m) left out
read_loop_from-Copies zero fuel bytes m al left out l f fits a w h =
    let e : zero * 8 + m ≡ m = omega arith in
    rw e (read_loop-Copies fuel bytes m al left out l f (omega arith) a w (rw e at h))
read_loop_from-Copies (suc q) fuel [] m al left out l f fits a w h = absurd (omega arith)
read_loop_from-Copies (suc q) fuel (x ∷ bytes) m al left out l f fits a w h =
    let e : suc q * 8 + m ≡ q * 8 + m + 8 = omega arith in
    let ih =
      read_loop_from-Copies q fuel bytes m al left out l f (omega arith) a.1 w
        (sym (read_loop-cons fuel x bytes (q * 8 + m) m al left) ∙ (rw e at h)) in
    ih
    ∙ ap (take left) (
        drop-drop (q * 8 + m) 8 (to_bits (x ∷ bytes))
        ∙ ap (λ i. drop i (to_bits (x ∷ bytes))) {x = 8 + (q * 8 + m)} {y = suc q * 8 + m}
            (omega arith))

-- A reader that stands inside its packet and is asked for bits that the packet still has returns
-- true, moves its cursor behind them, and its output begins with just those bits. (With
-- `align_right` this is said of whole bytes, where the alignment does nothing.)
pub read_bits-copies :
    (count : ℕ) (align_right : Bool) (r : BitReader)
    → IsInside r
    → All IsByte r.bytes
    → 0 < count
    → r.offset + count ≤ r.bits
    → (align_right ≡ false) ⊎ (count % 8 ≡ 0)
    → (out : Text) × (read_bits count align_right r
        ≡ done out (record r { offset = r.offset + count }))
      × (take count (to_bits out) ≡ take count (drop r.offset (to_bits r.bytes)))
unfolding read_bits
read_bits-copies count al r s a p fits w =
    finish (read_loop count r.bytes r.offset (r.offset % 8) al count) refl (
      read_loop_total count r.bytes r.offset (r.offset % 8) al count refl (omega arith)
        (omega arith))
  where
    cursor : r.offset / 8 * 8 + r.offset % 8 ≡ r.offset
    cursor = omega arith

    copied :
        (out : Text)
        → outputs (read_loop count r.bytes r.offset (r.offset % 8) al count) ≡ some out
        → take count (to_bits out) ≡ take count (drop r.offset (to_bits r.bytes))
    copied out h =
        subst (λ i. Copies r.bytes i count out) cursor
          (read_loop_from-Copies (r.offset / 8) count r.bytes (r.offset % 8) al count out
            (omega arith) (omega arith) (omega arith) a w
            (subst (λ i. outputs (read_loop count r.bytes i (r.offset % 8) al count) ≡ some out)
              (sym cursor) h))

    finish :
        (t : Option (Text × ℕ))
        → read_loop count r.bytes r.offset (r.offset % 8) al count ≡ t
        → final_offset t ≡ some (r.offset + count)
        → (out : Text) × (read_bits count al r ≡ done out (record r { offset = r.offset + count }))
          × (take count (to_bits out) ≡ take count (drop r.offset (to_bits r.bytes)))
    finish none e h = absurd (ground arith)
    finish (some (out, end)) e h = (out, ground arith, copied out (ap outputs e))
