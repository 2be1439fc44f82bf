-- ===== src/Streams/Runs.antt =====
-- Concrete runs of the streams, and their theorems at concrete inputs.
use xul.Prelude.{◌≡◌, refl, true, false, some, List, [], ◌∷◌, Bytes, arith}
use xul.Prelude.Int.{pos, negsuc}
use xul.BitConverter.{from_word, from_dword, from_qword, high_byte, low_byte, high_dword, low_dword}
use xul.Streams.MemoryInput as memory
use xul.Streams.MemoryInput.{attach_buffer}
use xul.Streams.MemoryOutput.{Output}
use xul.Streams.Serial.{Value, uint8, uint16, uint32, uint64, boolean, text, AllFit, encodings}
use xul.Streams.RoundTrip.{exchanged, read_all_like-write_values}
use xul.Streams.Bounds.{
  Call, call_read, call_read_n, call_read_byte, call_skip, call_seek, called, called_all, InBounds,
  called_all-InBounds,
}

abbrev message : List Value
message =
    uint16 0x1234 ∷ boolean true ∷ uint64 7 ∷ text (104 ∷ 105 ∷ []) ∷ uint32 0xCAFE ∷ uint8 9 ∷ []

abbrev buffer : Bytes
buffer = 0 ∷ 0 ∷ 0 ∷ 0 ∷ 0 ∷ 0 ∷ 0 ∷ 0 ∷ 0 ∷ 0 ∷ 0 ∷ 0 ∷ 0 ∷ 0 ∷ 0 ∷ 0 ∷ 0 ∷ 0 ∷ 0 ∷ 0 ∷ []

message-AllFit : AllFit message
unfolding AllFit
message-AllFit = (omega arith, (tt, (omega arith, (tt, (omega arith, (omega arith, tt))))))

-- A little-endian machine writes for a big-endian one.
read_all_like-write_values_example : exchanged false true true message buffer ≡ some (some message)
unfolding encodings from_word from_dword from_qword
read_all_like-write_values_example =
    read_all_like-write_values false true true message buffer message-AllFit (omega arith)

bytes_of_message :
    encodings true message
    ≡ 0x12 ∷ 0x34 ∷ 1 ∷ 0 ∷ 0 ∷ 0 ∷ 0 ∷ 0 ∷ 0 ∷ 0 ∷ 7 ∷ 104 ∷ 105 ∷ 0 ∷ 0 ∷ 0xCA ∷ 0xFE ∷ 9 ∷ []
unfolding encodings from_word from_dword from_qword high_byte low_byte high_dword low_dword
bytes_of_message = refl

abbrev calls : List Call
calls =
    call_read 5 ∷ call_seek (pos 21) ∷ call_skip (negsuc 1) ∷ call_read_byte ∷ call_read_n 40 ∷ []

called_all-InBounds_example :
    InBounds (called_all calls (attach_buffer buffer))
    × ((called_all calls (attach_buffer buffer)).buffer ≡ buffer)
unfolding InBounds called_all attach_buffer
called_all-InBounds_example = called_all-InBounds calls (attach_buffer buffer) (omega arith)

position_after : (called_all calls (attach_buffer buffer)).position ≡ 4
unfolding called_all called memory.read memory.read_n memory.read_byte memory.skip memory.seek
    memory.is_available attach_buffer
position_after = refl

abbrev two_left : Output
two_left = record { buffer = 1 ∷ 2 ∷ 3 ∷ []; position = 1 }
