-- ===== src/Streams/DataInput.antt =====
-- include/xul/io/data_input_stream.hpp over a memory stream, as memory_data_input_stream has it. `host`
-- is the byte order of the machine, as for the output. A value that a call leaves unset is `none`;
-- m_bit_offset, which only ever becomes 0, is left out.
use xul.Prelude.{
  ℕ, zero, suc, ◌*◌, Bool, true, false, not, ◌&&◌, Option, none, some, List, [], ◌∷◌, Bytes, length,
  ◌==◌, if◌then◌else◌,
}
use xul.Prelude.Int.{ℤ, pos, negsuc}
use xul.BitConverter.{to_word, to_dword, to_qword}
use xul.ByteOrder.{convert_word, convert_dword, convert_qword}
use xul.Streams.MemoryInput as memory
use xul.Streams.MemoryInput.{Input, attach_buffer}

pub record DataInput : Type 0 where
  pub input : Input
  pub big_endian : Bool
  pub good : Bool

unfoldable pub create : Bytes → Bool → DataInput
create bytes big_endian = record {
  input = attach_buffer bytes;
  big_endian = big_endian;
  good = true;
}

unfoldable pub set_bad : DataInput → DataInput
set_bad d = record d { good = false }

unfoldable pub available : DataInput → ℕ
available d = if d.good then memory.available d.input else 0

unfoldable pub is_available : ℤ → DataInput → Bool
is_available size d = d.good && memory.is_available size d.input

unfoldable pub skip : ℤ → DataInput → Bool × DataInput
skip (pos zero) d = (d.good, d)
skip (pos (suc n)) d =
    let (done, after) = memory.skip (pos (suc n)) d.input in
    if d.good then (done, record d { input = after; good = done }) else (false, d)
skip (negsuc n) d =
    let (done, after) = memory.skip (negsuc n) d.input in
    if d.good then (done, record d { input = after; good = done }) else (false, d)

unfoldable pub seek : ℤ → DataInput → Bool × DataInput
seek p d =
    let (done, after) = memory.seek p d.input in
    if done
    then (true, record d { input = after; good = true })
    else (false, record d { input = after })

unfoldable pub try_read_bytes : ℕ → DataInput → Bool × DataInput
unfolding is_available
try_read_bytes size d =
    if is_available (pos size) d then (true, d) else (false, record d { good = false })

unfoldable pub read_byte : DataInput → ℤ × DataInput
unfolding set_bad
read_byte d =
    let (ch, after) = memory.read_byte d.input in
    if d.good
    then elim ch [
      | pos n ↦ (pos n, record d { input = after; good = true })
      | negsuc n ↦ (negsuc 0, set_bad (record d { input = after }))
    ]
    else (negsuc 0, d)

unfoldable pub peek_byte : DataInput → ℤ
peek_byte d = if d.good then memory.peek_byte d.input else negsuc 0

-- `read_byte( val )` and `read_uint8`: the value is 255 where there is no byte.
unfoldable pub read_uint8 : DataInput → Bool × Option ℕ × DataInput
read_uint8 d =
    let (ch, after) = memory.read_byte d.input in
    if d.good
    then elim ch [
      | pos n ↦ (true, some n, record d { input = after; good = true })
      | negsuc n ↦ (false, some 255, record d { input = after; good = false })
    ]
    else (false, none, d)

unfoldable pub read : ℕ → DataInput → Bytes × DataInput
read size d =
    let (bytes, after) = memory.read size d.input in
    if not d.good
    then ([], d)
    else if size == 0
    then ([], d)
    else if length bytes == 0
    then ([], record d { input = after; good = false })
    else (bytes, record d { input = after })

-- `read_n`, `read_bytes`, `read_memory` and `read_raw_buffer`.
unfoldable pub read_n : ℕ → DataInput → Option Bytes × DataInput
read_n size d =
    let (bytes, after) = memory.read_n size d.input in
    if not d.good then (none, d) else if size == 0 then (some [], d) else elim bytes [
      | none ↦ (none, record d { input = after; good = false })
      | some copied ↦ (some copied, record d { input = after; good = true })
    ]

abbrev pub converted : (Bytes → ℕ) → Option Bytes × DataInput → Option ℕ × DataInput
converted f (none, d) = (none, d)
converted f (some bytes, d) = (some (f bytes), d)

unfoldable pub read_uint16 : Bool → DataInput → Option ℕ × DataInput
read_uint16 host d = converted (λ x. convert_word host d.big_endian (to_word host x)) (read_n 2 d)

unfoldable pub read_uint32 : Bool → DataInput → Option ℕ × DataInput
read_uint32 host d = converted (λ x. convert_dword host d.big_endian (to_dword host x)) (read_n 4 d)

unfoldable pub read_uint64 : Bool → DataInput → Option ℕ × DataInput
read_uint64 host d = converted (λ x. convert_qword host d.big_endian (to_qword host x)) (read_n 8 d)

unfoldable pub read_bool : DataInput → Option Bool × DataInput
read_bool d =
    let (done, val, after) = read_uint8 d in
    elim val [ none ↦ (none, after) | some n ↦ (if done then some (not (n == 0)) else none, after) ]

-- `read_string` and `read_buffer`.
unfoldable pub read_string : ℕ → DataInput → Option Bytes × DataInput
read_string count d =
    let (enough, after) = try_read_bytes count d in
    if not enough
    then (none, after)
    else if count == 0
    then (some [], after)
    else read_n count after

-- `read_array` of so many elements, by the `read` of an element; what `buf` had before is not kept.
unfoldable pub read_array {ℓ} :
    {A : Type ℓ} → (DataInput → Option A × DataInput) → ℕ → DataInput → Option (List A) × DataInput
read_array read_one zero d = (some [], d)
read_array read_one (suc n) d =
    let (x, after) = read_one d in
    let (xs, last) = read_array read_one n after in
    elim x [
      | none ↦ (none, after)
      | some v ↦ elim xs [ none ↦ (none, last) | some vs ↦ (some (v ∷ vs), last) ]
    ]

-- `read_vector`, where `item_size` 0 asks for the elements one by one, with no look at what is left.
unfoldable pub read_vector {ℓ} :
    {A : Type ℓ}
    → (DataInput → Option A × DataInput)
    → ℕ
    → ℕ
    → DataInput
    → Option (List A) × DataInput
unfolding read_array try_read_bytes
read_vector read_one item_size count d =
    let (items, one_by_one) = read_array read_one count d in
    let (enough, after) = try_read_bytes (count * item_size) d in
    if item_size == 0
    then (if one_by_one.good then items else none, one_by_one)
    else if not enough
    then (none, after)
    else if count == 0
    then (some [], after)
    else read_array read_one count after
