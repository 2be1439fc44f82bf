-- ===== src/Streams/RoundTrip.antt =====
-- What is written to a memory stream is read from it.
use xul.Prelude.{
  ◌+◌, ◌≤◌, ◌≡◌, refl, Bool, Option, some, List, ◌++◌, Bytes, length, drop, ◌>>=◌, arith,
}
use xul.Streams.MemoryInput.{attach_buffer}
use xul.Streams.MemoryOutput as memory
use xul.Streams.DataOutput.{DataOutput}
use xul.Streams.DataOutput as output
use xul.Streams.DataInput as input
use xul.Streams.Serial.{Value, AllFit, encodings, write_values, read_all_like}
use xul.Streams.Writing.{data_wrote, wrote, write_values-fits}
use xul.Streams.Reading.{Ahead, read_all_like-Ahead}

-- The values that `reader` finds in the buffer that `writer` has filled.
unfoldable pub exchanged : Bool → Bool → Bool → List Value → Bytes → Option (Option (List Value))
exchanged writer reader big_endian vs buf =
    write_values writer vs (output.create buf big_endian) >>= λ o.
    some (read_all_like reader vs (input.create o.out.buffer big_endian)).0

-- Integers that fit their width, truth values and texts, written one after another into a buffer
-- that is long enough, are read again from it, whatever the byte orders of the machine that
-- writes, of the machine that reads, and of the stream.
pub read_all_like-write_values :
    (writer reader big_endian : Bool) (vs : List Value) (buf : Bytes)
    → AllFit vs
    → length (encodings big_endian vs) ≤ length buf
    → exchanged writer reader big_endian vs buf ≡ some (some vs)
unfolding exchanged output.create memory.create data_wrote wrote input.create attach_buffer Ahead
read_all_like-write_values writer reader big_endian vs buf fit h =
    let bytes = encodings big_endian vs in
    let written = write_values-fits writer vs (output.create buf big_endian) (omega arith) in
    let rest = drop (0 + length bytes) buf in
    let found =
      read_all_like-Ahead reader big_endian vs rest (input.create (bytes ++ rest) big_endian) refl
        fit (refl, omega arith, refl) in
    simp (written, found)
