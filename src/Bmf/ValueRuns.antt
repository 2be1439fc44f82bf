-- ===== src/Bmf/ValueRuns.antt =====
-- Concrete runs of the reader and the writer, and their theorems at concrete inputs.
use xul.Prelude.{◌+◌, ◌≤◌, ◌≡◌, ◌⊎◌, refl, some, [], ◌∷◌, length, arith}
use xul.Prelude.Int.{pos, negsuc}
use xul.Bmf.{
  decode, encode_loop, find_pos, flag_at, limit_at, get_flag_bytes, get_byte_limits, magnitude,
  sign_flag, as_byte, decoded, to_signed,
}
use xul.Bmf.RoundTrip.{IsInt64}
use xul.Bmf.Values.{
  Value, integer, text, list, dict, nil, cons, end, field, thrown, returned, read, read_value,
  read_string, try_read_string, next_tag, tag_of, code, less, max_string,
}
use xul.Bmf.Stored.{Storable, Above, write_item, item_bytes, string_bytes, integer_bytes}
use xul.Bmf.Exchange.{read-write_item}
use xul.Bmf.ReadEnds.{read-ends}
use xul.Streams.MemoryInput as memory
use xul.Streams.MemoryInput.{Input, attach_buffer, available, is_available}
use xul.Streams.MemoryOutput.{Output}

-- {"a": 5, "bc": ["x", -1]}
abbrev nested : Value
nested = dict (
    field (97 ∷ []) (integer (pos 5))
      (field (98 ∷ 99 ∷ []) (list (cons (text (120 ∷ [])) (cons (integer (negsuc 0)) nil))) end))

nested-Storable : Storable nested
unfolding Storable Above less max_string IsInt64
nested-Storable = (
  omega arith,
  omega arith,
  (refl, refl, tt),
  (omega arith, (omega arith, (omega arith, tt)), tt, tt),
)

abbrev long_buffer : Output
long_buffer = record {
  buffer =
      0 ∷ 0 ∷ 0 ∷ 0 ∷ 0 ∷ 0 ∷ 0 ∷ 0 ∷ 0 ∷ 0 ∷ 0 ∷ 0 ∷ 0 ∷ 0 ∷ 0 ∷ 0 ∷ 0 ∷ 0 ∷ 0 ∷ 0 ∷ 0 ∷ 0 ∷ 0
      ∷ [];
  position = 1;
}

nested_fits : long_buffer.position + length (item_bytes nested) ≤ length long_buffer.buffer
unfolding item_bytes string_bytes integer_bytes encode_loop flag_at limit_at get_flag_bytes
    get_byte_limits magnitude sign_flag code
nested_fits = omega arith

read-write_item_example :
    (written : Output) × (write_item nested long_buffer ≡ some written)
    × (read (record { buffer = written.buffer; position = long_buffer.position })
        ≡ returned nested (record { buffer = written.buffer; position = written.position }))
read-write_item_example = read-write_item nested long_buffer nested-Storable nested_fits

-- A list that is cut off behind a string of an announced length of -1.
abbrev negative_length : Input
unfolding attach_buffer
negative_length = attach_buffer (10 ∷ 7 ∷ 1 ∷ [])

read-ends_example :
    (read negative_length ≡ thrown)
    ⊎ ((v : Value) × (after : Input) × (read negative_length ≡ returned v after)
        × (after.buffer ≡ negative_length.buffer)
        × (negative_length.position ≤ after.position))
read-ends_example = read-ends negative_length

negative_throws : read negative_length ≡ thrown
unfolding read available attach_buffer read_value next_tag is_available memory.read_byte as_byte
    tag_of code read_string try_read_string decode find_pos flag_at limit_at get_flag_bytes
    get_byte_limits decoded to_signed memory.read_n memory.read
negative_throws = refl
