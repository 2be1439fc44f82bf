-- ===== src/Streams/DataOutput.antt =====
-- include/xul/io/data_output_stream.hpp over a memory stream, as memory_data_output_stream has it.
-- `host` is the byte order of the machine: the bytes of an integer in its memory are those that
-- bit_converter gives for that order. Signed integers are written as their bits.
use xul.Prelude.{ℕ, Bool, Option, none, some, List, [], ◌∷◌, Bytes, ◌>>=◌, if◌then◌else◌}
use xul.BitConverter.{from_word, from_dword, from_qword}
use xul.ByteOrder.{convert_word, convert_dword, convert_qword}
use xul.Streams.MemoryOutput as memory
use xul.Streams.MemoryOutput.{Output, write_bytes, write_byte}

pub record DataOutput : Type 0 where
  pub out : Output
  pub big_endian : Bool

unfoldable pub create : Bytes → Bool → DataOutput
unfolding memory.create
create buf big_endian = record { out = memory.create buf; big_endian = big_endian }

unfoldable pub set_big_endian : Bool → DataOutput → DataOutput
set_big_endian b o = record o { big_endian = b }

abbrev with_out : DataOutput → Option Output → Option DataOutput
with_out o none = none
with_out o (some out) = some (record o { out = out })

unfoldable pub write_uint8 : ℕ → DataOutput → Option DataOutput
write_uint8 val o = with_out o (write_byte val o.out)

unfoldable pub write_bool : Bool → DataOutput → Option DataOutput
unfolding write_uint8
write_bool val o = write_uint8 (if val then 1 else 0) o

-- `write_bytes`, `write_string`, `write_buffer` and `write_raw_buffer`.
unfoldable pub write_raw : Bytes → DataOutput → Option DataOutput
write_raw bytes o = with_out o (write_bytes bytes o.out)

unfoldable pub write_uint16 : Bool → ℕ → DataOutput → Option DataOutput
unfolding write_raw
write_uint16 host val o = write_raw (from_word host (convert_word host o.big_endian val)) o

unfoldable pub write_uint32 : Bool → ℕ → DataOutput → Option DataOutput
unfolding write_raw
write_uint32 host val o = write_raw (from_dword host (convert_dword host o.big_endian val)) o

unfoldable pub write_uint64 : Bool → ℕ → DataOutput → Option DataOutput
unfolding write_raw
write_uint64 host val o = write_raw (from_qword host (convert_qword host o.big_endian val)) o

-- `write_array` and `write_vector`, by the `write` of an element.
unfoldable pub write_array {ℓ} :
    {A : Type ℓ} → (A → DataOutput → Option DataOutput) → List A → DataOutput → Option DataOutput
write_array write [] o = some o
write_array write (x ∷ items) o = write x o >>= λ o'. write_array write items o'
