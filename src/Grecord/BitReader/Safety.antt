-- ===== src/Grecord/BitReader/Safety.antt =====
-- Memory safety of grecord/src/BitReader.cpp.
use gambit_record.Common.{
  ℕ, zero, suc, ◌+◌, ◌-◌, ◌*◌, ◌/◌, ◌%◌, ◌≤◌, ◌<◌, Bool, true, false, refl, ◌≡◌, [], Option, none,
  some, length, get_elem?-ne-none, ap, ◌≢◌, arith, Text, if◌then◌else◌,
}
use gambit_record.Grecord.BitReader.{
  BitReader, reader, Outcome, done, refused, fault, Reads, skip, gather, read_loop, read_bits, read,
  read_bool, compressed_low, compressed_step, compressed_from, read_compressed_u32, read_string,
  payload_body, skip_timestamp, payload_from, extract_rpc_payload,
}

-- The reader's window is the packet, and its cursor stands inside.
pub record IsInside (r : BitReader) : Type 0 where
  pub whole : r.bits ≡ length r.bytes * 8
  pub within : r.offset ≤ r.bits

gather-ne-none :
    (bytes : Text) (offset m left : ℕ)
    → m ≡ offset % 8
    → 0 < left
    → offset + left ≤ length bytes * 8
    → gather bytes offset m left ≢ none
unfolding gather
gather-ne-none bytes offset m left e p h =
    ground (arith, get_elem?-ne-none bytes (offset / 8), get_elem?-ne-none bytes (offset / 8 + 1))

abbrev pub final_offset : Option (Text × ℕ) → Option ℕ
final_offset none = none
final_offset (some (out, end)) = some end

pub read_loop_zero :
    (fuel : ℕ) (bytes : Text) (offset m : ℕ) (align_right : Bool)
    → read_loop fuel bytes offset m align_right 0 ≡ some ([], offset)
unfolding read_loop
read_loop_zero zero bytes offset m al = refl
read_loop_zero (suc fuel) bytes offset m al = refl

-- Enough rounds: the loop ends at the cursor that the caller asked for.
pub read_loop_total :
    (fuel : ℕ) (bytes : Text) (offset m : ℕ) (align_right : Bool) (left : ℕ)
    → m ≡ offset % 8
    → left ≤ fuel
    → offset + left ≤ length bytes * 8
    → final_offset (read_loop fuel bytes offset m align_right left) ≡ some (offset + left)
unfolding read_loop
read_loop_total zero bytes offset m al left e f h = ap some (omega arith)
read_loop_total (suc fuel) bytes offset m al zero e f h = ap some (omega arith)
read_loop_total (suc fuel) bytes offset m al (suc left) e f h = ground (
  arith,
  gather-ne-none bytes offset m (suc left) e,
  read_loop_zero fuel bytes (offset + suc left) m al,
  read_loop_total fuel bytes (offset + 8) m al (suc left - 8),
)

abbrev pub Safe {ℓ} : {A : Type ℓ} → Outcome A → Type 0
Safe (done a r) = IsInside r
Safe (refused r) = IsInside r
Safe fault = ⊥

bind-Safe {ℓ κ} :
    {A : Type ℓ} {B : Type κ} (o : Outcome A) (f : A → Reads B)
    → Safe o
    → ((a : A) (r : BitReader) → IsInside r → Safe (f a r))
    → Safe (elim o [ done a r' ↦ f a r' | refused r' ↦ refused r' | fault ↦ fault ])
bind-Safe (done a r) f s k = k a r s
bind-Safe (refused r) f s k = s
bind-Safe fault f s k = s

read_bits-Safe : (count : ℕ) (al : Bool) (r : BitReader) → IsInside r → Safe (read_bits count al r)
unfolding read_bits
read_bits-Safe count al r s =
    ground (arith, read_loop_total count r.bytes r.offset (r.offset % 8) al count)

pub read-Safe : (size : ℕ) (r : BitReader) → IsInside r → Safe (read size r)
unfolding read
read-Safe size r s =
    bind-Safe (read_bits (size * 8) true r) _ (read_bits-Safe (size * 8) true r s) λ a r' s'. s'

read_bool-Safe : (r : BitReader) → IsInside r → Safe (read_bool r)
unfolding read_bool
read_bool-Safe r s = ground (arith, get_elem?-ne-none r.bytes (r.offset / 8))

skip-Safe : (count : ℕ) (r : BitReader) → IsInside r → Safe (skip count r)
unfolding skip
skip-Safe count r s = ground arith

low_bits-Safe :
    (half : Bool) (r : BitReader)
    → IsInside r
    → Safe ((if half then read_bits 4 true else read_bits 8 true) r)
low_bits-Safe true r s = read_bits-Safe 4 true r s
low_bits-Safe false r s = read_bits-Safe 8 true r s

compressed_step-Safe :
    (current : ℕ) (lower : Reads ℕ)
    → ((r : BitReader) → IsInside r → Safe (lower r))
    → (matched : Bool) (r : BitReader) → IsInside r
    → Safe (compressed_step current lower matched r)
unfolding compressed_step
compressed_step-Safe current lower h true r s = h r s
compressed_step-Safe current lower h false r s =
    bind-Safe (read_bits ((current + 1) * 8) true r) _ (read_bits-Safe ((current + 1) * 8) true r s)
      λ out r' s'. s'

compressed_from-Safe : (current : ℕ) (r : BitReader) → IsInside r → Safe (compressed_from current r)
unfolding compressed_from compressed_low
compressed_from-Safe zero r s = bind-Safe (read_bool r) _ (read_bool-Safe r s) λ half r' s'.
    bind-Safe ((if half then read_bits 4 true else read_bits 8 true) r') _
      (low_bits-Safe half r' s') λ out r'' s''. s''
compressed_from-Safe (suc current) r s =
    bind-Safe (read_bool r) _ (read_bool-Safe r s)
      (compressed_step-Safe (suc current) (compressed_from current) (compressed_from-Safe current))

pub read_string-Safe : (size : ℕ) (r : BitReader) → IsInside r → Safe (read_string size r)
unfolding read_string
read_string-Safe size r s = ground (arith, read_bits-Safe (size * 8) true r)

payload_body-Safe : (id bits : ℕ) (r : BitReader) → IsInside r → Safe (payload_body id bits r)
unfolding payload_body
payload_body-Safe id bits r s = ground (arith, read_bits-Safe bits false r)

skip_timestamp-Safe : (id : ℕ) (r : BitReader) → IsInside r → Safe (skip_timestamp id r)
unfolding skip_timestamp
skip_timestamp-Safe id r s = ground (arith, skip-Safe 40 r)

payload_from-Safe : (r : BitReader) → IsInside r → Safe (payload_from r)
unfolding payload_from read_compressed_u32
payload_from-Safe r s = bind-Safe (read 1 r) _ (read-Safe 1 r s) λ packet_id r₁ s₁.
    bind-Safe (skip_timestamp packet_id r₁) _ (skip_timestamp-Safe packet_id r₁ s₁) λ _ r₂ s₂.
      bind-Safe (read 1 r₂) _ (read-Safe 1 r₂ s₂) λ id r₃ s₃.
        bind-Safe (compressed_from 3 r₃) _ (compressed_from-Safe 3 r₃ s₃)
          λ bits r₄ s₄. payload_body-Safe id bits r₄ s₄

pub reader-IsInside : (packet : Text) → IsInside (reader packet)
unfolding reader
reader-IsInside packet = ground arith

-- Whatever the packet holds, `extract_rpc_payload` never reads a byte outside of it.
pub extract_rpc_payload-Safe : (packet : Option Text) → Safe (extract_rpc_payload packet)
unfolding extract_rpc_payload
extract_rpc_payload-Safe none = reader-IsInside []
extract_rpc_payload-Safe (some packet) =
    ground (arith, payload_from-Safe (reader packet) (reader-IsInside packet))
