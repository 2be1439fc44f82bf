-- ===== src/Bmf/Runs.antt =====
-- Concrete runs of the integer encoding, and its theorem at a concrete input.
use xul.Prelude.{◌≡◌, refl, none, some, [], ◌∷◌, arith}
use xul.Prelude.Int.{negsuc}
use xul.Bmf.{
  encode, decode, encode_loop, flag_at, limit_at, get_flag_bytes, get_byte_limits, magnitude,
  sign_flag, find_pos, as_byte,
}
use xul.Bmf.RoundTrip.{IsInt64, decode-encode_bmf}
use xul.Streams.MemoryInput.{attach_buffer, is_available, read, read_byte, read_n}
use xul.Streams.MemoryOutput.{Output}

abbrev empty_buffer : Output
empty_buffer = record { buffer = 0 ∷ 0 ∷ 0 ∷ 0 ∷ 0 ∷ 0 ∷ 0 ∷ 0 ∷ 0 ∷ 0 ∷ []; position = 1 }

decode-encode_bmf_example :
    (written : Output) × (encode (negsuc 999) empty_buffer ≡ some written)
    × (decode (record { buffer = written.buffer; position = 1 })
        ≡ (some (negsuc 999), record { buffer = written.buffer; position = written.position }))
unfolding IsInt64
decode-encode_bmf_example = decode-encode_bmf (negsuc 999) empty_buffer (omega arith) (omega arith)

two_bytes :
    encode_loop 9 0 (sign_flag (negsuc 999)) (magnitude (negsuc 999)) [] ≡ some (0x43 ∷ 0xE8 ∷ [])
unfolding encode_loop flag_at limit_at get_flag_bytes get_byte_limits magnitude sign_flag
two_bytes = refl

-- The form with five bytes announced, and one there.
cut_short : (decode (attach_buffer (0xFC ∷ 1 ∷ []))).0 ≡ none
unfolding decode find_pos flag_at limit_at get_flag_bytes get_byte_limits as_byte attach_buffer
    is_available read read_byte read_n
cut_short = refl
