-- ===== src/Hex/RoundTrip.antt =====
-- Decoding what was encoded.
use xul.Prelude.{
  ℕ, ◌*◌, ◌/◌, ◌^◌, ◌<◌, ◌≤◌, ◌≡◌, refl, Bool, true, false, ◌&&◌, [], ◌∷◌, ◌++◌, Bytes, ◌==◌,
  length, drop, bit_and, IsByte, All, arith, append_assoc, append-nil,
}
use xul.Prelude.Ctype.{is_xdigit}
use xul.Prelude.Table.{all_below, all_below_sound}
use xul.Hex.{
  do_encode_bit, encode, decode_hex_byte, do_decode_byte, decode_loop, decode, decode_buffer,
}

-- Whether both letters of a byte are hexadecimal digits, and give the byte back.
reads_back : Bool → ℕ → Bool
reads_back upper ch =
    let high = do_encode_bit upper (ch / 2 ^ 4) in
    let low = do_encode_bit upper (bit_and ch 0x0f) in
    is_xdigit high && is_xdigit low && (do_decode_byte high low == ch)

reads_back_table : (upper : Bool) → all_below 256 (reads_back upper) ≡ true
unfolding all_below reads_back is_xdigit do_encode_bit do_decode_byte decode_hex_byte
reads_back_table true = refl
reads_back_table false = refl

decode_loop-encode :
    (upper : Bool) (bytes out : Bytes)
    → All IsByte bytes
    → decode_loop (encode upper bytes) out ≡ (out ++ bytes, true)
unfolding decode_loop encode reads_back
decode_loop-encode upper [] out h = rw append-nil
decode_loop-encode upper (ch ∷ bytes) out (hc, h) =
    let p = all_below_sound 256 (reads_back upper) (reads_back_table upper) ch hc in
    ground (
      arith,
      p,
      decode_loop-encode upper bytes (out ++ (ch ∷ [])) h,
      append_assoc out (ch ∷ []) bytes,
    )

pub length-encode : (upper : Bool) (bytes : Bytes) → length (encode upper bytes) ≡ 2 * length bytes
unfolding encode
length-encode upper [] = refl
length-encode upper (ch ∷ bytes) = omega (arith, length-encode upper bytes)

-- Decoding the upper-case or the lower-case hexadecimal encoding of a byte string succeeds and
-- gives the bytes back.
pub decode-encode :
    (upper : Bool) (bytes : Bytes) → All IsByte bytes → decode (encode upper bytes) ≡ (bytes, true)
unfolding decode
decode-encode upper bytes h =
    ground (arith, length-encode upper bytes, decode_loop-encode upper bytes [] h)

-- A buffer that is long enough takes the bytes, and keeps what stood behind them.
pub decode_buffer-encode :
    (upper : Bool) (bytes buf : Bytes)
    → All IsByte bytes
    → 0 < length bytes
    → length bytes ≤ length buf
    → decode_buffer buf (encode upper bytes) ≡ (bytes ++ drop (length bytes) buf, true)
unfolding decode_buffer
decode_buffer-encode upper bytes buf h some_bytes fits =
    ground (arith, length-encode upper bytes, decode_loop-encode upper bytes [] h)
