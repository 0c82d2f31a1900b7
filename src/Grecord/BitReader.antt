-- ===== src/Grecord/BitReader.antt =====
-- grecord/src/BitReader.cpp and grecord/include/grecord/BitReader.hpp: reading SA-MP bit streams.
-- A packet is its list of bytes. A byte read behind the end of the list is a fault of its own,
-- apart from the `false` that the methods return.
pub mod Safety
pub mod Bits
pub mod Stream
use Prim.Native.Nat.{bit_and, bit_or}
use gambit_record.Common.{
  ℕ, zero, suc, ◌+◌, ◌-◌, ◌*◌, ◌/◌, ◌%◌, ◌^◌, Bool, true, false, ◌&&◌, not, List, [], ◌∷◌, ◌++◌,
  Option, none, some, ltb, leb, ◌==◌, if◌then◌else◌, length, get_elem?, Text, little_endian,
}

pub record BitReader : Type 0 where
  pub bytes : Text
  pub bits : ℕ
  pub offset : ℕ

unfoldable pub reader : Text → BitReader
reader bytes = record { bytes = bytes; bits = length bytes * 8; offset = 0 }

-- What a method does: it returns true with a value, returns false, or reads out of bounds.
pub data Outcome {ℓ} (A : Type ℓ) : Type ℓ where
  done : A → BitReader → Outcome A
  refused : BitReader → Outcome A
  fault : Outcome A

abbrev pub Reads {ℓ} : Type ℓ → Type ℓ
Reads A = BitReader → Outcome A

-- `m && k`, and the statements after an early `return false`.
infixl 5 ◌>>=◌
abbrev pub ◌>>=◌ {ℓ κ} : {A : Type ℓ} {B : Type κ} → Reads A → (A → Reads B) → Reads B
◌>>=◌ m f r = elim (m r) [ done a r' ↦ f a r' | refused r' ↦ refused r' | fault ↦ fault ]

abbrev pub returns {ℓ} : {A : Type ℓ} → A → Reads A
returns a r = done a r

abbrev pub remaining : BitReader → ℕ
remaining r = if ltb r.offset r.bits then r.bits - r.offset else 0

unfoldable pub skip : ℕ → Reads (Unit {0})
skip count r =
    if ltb (remaining r) count then refused r else done tt (record r { offset = r.offset + count })

-- The first of the two terms that the loop of `read_bits` puts into an output byte, as a `uint8_t`.
abbrev pub high_part : ℕ → ℕ → ℕ
high_part x m = x * 2 ^ m % 256

-- One output byte, before the alignment, from the byte under the cursor and the one behind it,
-- which the code looks at only where the bits of the first do not suffice; `m` is `initial_mod`.
unfoldable pub combine : Option ℕ → Option ℕ → ℕ → ℕ → Option ℕ
combine none second m left = none
combine (some x) second m left =
    if not (m == 0) && ltb (8 - m) left
    then elim second [ none ↦ none | some y ↦ some (bit_or (high_part x m) (y / 2 ^ (8 - m))) ]
    else some (high_part x m)

unfoldable pub gather : Text → ℕ → ℕ → ℕ → Option ℕ
unfolding combine
gather bytes offset m left =
    combine (get_elem? bytes (offset / 8)) (get_elem? bytes (offset / 8 + 1)) m left

abbrev pub aligned : Bool → ℕ → ℕ → ℕ
aligned align_right left b = if align_right && ltb left 8 then b / 2 ^ (8 - left) else b

-- The output byte of a round, in front of what the later rounds write.
unfoldable pub put_byte : Option ℕ → Bool → ℕ → Option (Text × ℕ) → Option (Text × ℕ)
put_byte none align_right left more = none
put_byte (some b) align_right left none = none
put_byte (some b) align_right left (some (out, end)) = some (aligned align_right left b ∷ out, end)

-- The `while (left)` loop: the output bytes and the final offset. Each round takes a bit or more,
-- so `left` rounds are enough. `none` is a read out of bounds.
unfoldable pub read_loop : ℕ → Text → ℕ → ℕ → Bool → ℕ → Option (Text × ℕ)
unfolding put_byte
read_loop zero bytes offset m align_right left = some ([], offset)
read_loop (suc fuel) bytes offset m align_right left =
    let last = read_loop fuel bytes (offset + left) m align_right 0 in
    let next = read_loop fuel bytes (offset + 8) m align_right (left - 8) in
    if left == 0
    then some ([], offset)
    else put_byte (gather bytes offset m left) align_right left (if ltb left 8 then last else next)

unfoldable pub read_bits : ℕ → Bool → Reads Text
unfolding read_loop gather
read_bits count align_right r =
    let loop = read_loop count r.bytes r.offset (r.offset % 8) align_right count in
    if count == 0
    then refused r
    else if ltb (remaining r) count
    then refused r
    else elim loop [ none ↦ fault | some (out, end) ↦ done out (record r { offset = end }) ]

-- `read<T>` for an unsigned `T` of `size` bytes.
unfoldable pub read : ℕ → Reads ℕ
unfolding read_bits
read size = read_bits (size * 8) true >>= λ out. returns (little_endian out)

unfoldable pub read_bool : Reads Bool
read_bool r = if remaining r == 0 then refused r else elim (get_elem? r.bytes (r.offset / 8)) [
  | none ↦ fault
  | some x ↦
      done (not (bit_and x (0x80 / 2 ^ (r.offset % 8)) == 0)) (record r { offset = r.offset + 1 })
]

-- The end of `read_compressed_u32`: half a byte or a whole one.
compressed_low : Reads ℕ
unfolding read_bool read_bits
compressed_low = read_bool >>= λ half.
    (if half then read_bits 4 true else read_bits 8 true) >>= λ out. returns (little_endian out)

-- The body of the loop on `current`, after the bit that it reads; `lower` goes on below it.
compressed_step : ℕ → Reads ℕ → Bool → Reads ℕ
unfolding read_bits
compressed_step current lower true = lower
compressed_step current lower false =
    read_bits ((current + 1) * 8) true >>= λ out. returns (little_endian out)

-- The bytes above `current` are 0, and the loop reads those up to it.
compressed_from : ℕ → Reads ℕ
unfolding read_bool compressed_step compressed_low
compressed_from zero = compressed_low
compressed_from (suc current) =
    read_bool >>= compressed_step (suc current) (compressed_from current)

unfoldable pub read_compressed_u32 : Reads ℕ
unfolding compressed_from
read_compressed_u32 = compressed_from 3

-- The empty string for whatever cannot be read.
unfoldable pub read_string : ℕ → Reads Text
unfolding read_bits
read_string size r =
    if ltb (remaining r / 8) size
    then done [] r
    else if size == 0
    then done [] r
    else elim (read_bits (size * 8) true r) [
      | done out r' ↦ done out r'
      | refused r' ↦ done [] r'
      | fault ↦ fault
    ]

pub record RpcPayload : Type 0 where
  pub id : ℕ
  pub bytes : Text
  pub bit_count : ℕ

-- The bits of the payload, once its length is read.
payload_body : ℕ → ℕ → Reads RpcPayload
unfolding read_bits
payload_body id bits r =
    if ltb (remaining r) bits
    then refused r
    else if bits == 0
    then done (record { id = id; bytes = []; bit_count = 0 }) r
    else elim (read_bits bits false r) [
      | done out r' ↦ done (record { id = id; bytes = out; bit_count = bits }) r'
      | refused r' ↦ refused r'
      | fault ↦ fault
    ]

-- ID_TIMESTAMP wraps the packet's id behind an eight-byte timestamp; the code skips five bytes.
skip_timestamp : ℕ → Reads (Unit {0})
unfolding skip
skip_timestamp packet_id = if packet_id == 40 then skip (8 * (4 + 1)) else returns tt

payload_from : Reads RpcPayload
unfolding read skip_timestamp read_compressed_u32 payload_body
payload_from = do
  packet_id ← read 1
  skipped ← skip_timestamp packet_id
  id ← read 1
  bits ← read_compressed_u32
  payload_body id bits

-- `none` for the null pointer; the length is that of the packet, and 0 is refused.
unfoldable pub extract_rpc_payload : Option Text → Outcome RpcPayload
unfolding reader payload_from
extract_rpc_payload none = refused (reader [])
extract_rpc_payload (some packet) =
    if length packet == 0 then refused (reader []) else payload_from (reader packet)
