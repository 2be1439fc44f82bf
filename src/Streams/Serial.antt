-- ===== src/Streams/Serial.antt =====
-- The values that the data streams exchange, with their bytes in the order of the stream.
use xul.Prelude.{
  ℕ, ◌^◌, ◌<◌, Bool, true, false, Option, none, some, List, [], ◌∷◌, ◌++◌, Bytes, length,
  if◌then◌else◌,
}
use xul.BitConverter.{from_word, from_dword, from_qword}
use xul.Streams.DataOutput.{
  DataOutput, write_uint8, write_bool, write_uint16, write_uint32, write_uint64, write_raw,
  write_array,
}
use xul.Streams.DataInput.{
  DataInput, read_uint8, read_bool, read_uint16, read_uint32, read_uint64, read_string,
}

pub data Value : Type 0 where
  uint8 : ℕ → Value
  uint16 : ℕ → Value
  uint32 : ℕ → Value
  uint64 : ℕ → Value
  boolean : Bool → Value
  text : Bytes → Value

unfoldable pub Fits : Value → Type 0
Fits (uint8 n) = n < 2 ^ 8
Fits (uint16 n) = n < 2 ^ 16
Fits (uint32 n) = n < 2 ^ 32
Fits (uint64 n) = n < 2 ^ 64
Fits (boolean b) = Unit
Fits (text s) = Unit

unfoldable pub AllFit : List Value → Type 0
unfolding Fits
AllFit [] = Unit
AllFit (v ∷ vs) = Fits v × AllFit vs

unfoldable pub encoding : Bool → Value → Bytes
encoding big_endian (uint8 n) = n ∷ []
encoding big_endian (uint16 n) = from_word big_endian n
encoding big_endian (uint32 n) = from_dword big_endian n
encoding big_endian (uint64 n) = from_qword big_endian n
encoding big_endian (boolean b) = if b then 1 ∷ [] else 0 ∷ []
encoding big_endian (text s) = s

unfoldable pub encodings : Bool → List Value → Bytes
unfolding encoding
encodings big_endian [] = []
encodings big_endian (v ∷ vs) = encoding big_endian v ++ encodings big_endian vs

unfoldable pub write_value : Bool → Value → DataOutput → Option DataOutput
write_value host (uint8 n) o = write_uint8 n o
write_value host (uint16 n) o = write_uint16 host n o
write_value host (uint32 n) o = write_uint32 host n o
write_value host (uint64 n) o = write_uint64 host n o
write_value host (boolean b) o = write_bool b o
write_value host (text s) o = write_raw s o

unfoldable pub write_values : Bool → List Value → DataOutput → Option DataOutput
unfolding write_value write_array
write_values host vs o = write_array (write_value host) vs o

abbrev tagged {ℓ} : {A : Type ℓ} → (A → Value) → Option A × DataInput → Option Value × DataInput
tagged f (none, d) = (none, d)
tagged f (some x, d) = (some (f x), d)

-- A byte counts as read where the call says so.
abbrev checked : Bool × Option ℕ × DataInput → Option ℕ × DataInput
checked (true, val, d) = (val, d)
checked (false, val, d) = (none, d)

-- Reads a value of the kind of the given one, a text of its length.
unfoldable pub read_like : Bool → Value → DataInput → Option Value × DataInput
read_like host (uint8 n) d = tagged uint8 (checked (read_uint8 d))
read_like host (uint16 n) d = tagged uint16 (read_uint16 host d)
read_like host (uint32 n) d = tagged uint32 (read_uint32 host d)
read_like host (uint64 n) d = tagged uint64 (read_uint64 host d)
read_like host (boolean b) d = tagged boolean (read_bool d)
read_like host (text s) d = tagged text (read_string (length s) d)

unfoldable pub read_all_like : Bool → List Value → DataInput → Option (List Value) × DataInput
unfolding read_like
read_all_like host [] d = (some [], d)
read_all_like host (v ∷ vs) d =
    let (x, after) = read_like host v d in
    let (xs, last) = read_all_like host vs after in
    elim x [
      | none ↦ (none, after)
      | some w ↦ elim xs [ none ↦ (none, last) | some ws ↦ (some (w ∷ ws), last) ]
    ]
