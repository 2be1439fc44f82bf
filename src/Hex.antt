-- ===== src/Hex.antt =====
-- include/xul/text/hex_encoding.hpp: bytes as pairs of hexadecimal letters, and back.
pub mod RoundTrip
pub mod Accepts
mod Runs
use xul.Prelude.{
  ℕ, ◌+◌, ◌-◌, ◌*◌, ◌/◌, ◌%◌, ◌^◌, Bool, true, false, ◌||◌, not, [], ◌∷◌, ◌++◌, Bytes, codes, ltb,
  ◌==◌, if◌then◌else◌, length, get_or, drop, bit_or, bit_and,
}
use xul.Prelude.Ctype.{is_digit, is_upper, is_xdigit}

-- `get_lower_hex_letters` and `get_upper_hex_letters`; the constructor picks one of them.
abbrev lower_hex_letters : Bytes
lower_hex_letters = codes "0123456789abcdef"

abbrev upper_hex_letters : Bytes
upper_hex_letters = codes "0123456789ABCDEF"

abbrev pub letters : Bool → Bytes
letters use_upper_case = if use_upper_case then upper_hex_letters else lower_hex_letters

-- `do_encode_bit`: one letter for four bits.
pub do_encode_bit : Bool → ℕ → ℕ
do_encode_bit upper bit = get_or (letters upper) bit 0

-- The `encode` over a range of iterators.
pub encode : Bool → Bytes → Bytes
encode upper [] = []
encode upper (ch ∷ src) =
    let high_bit = ch / 2 ^ 4 in
    let low_bit = bit_and ch 0x0f in
    do_encode_bit upper high_bit ∷ do_encode_bit upper low_bit ∷ encode upper src

pub decode_hex_byte : ℕ → ℕ
unfolding is_digit is_upper
decode_hex_byte ch =
    if is_digit ch then ch - b'0' else if is_upper ch then ch - b'A' + 10 else ch - b'a' + 10

pub do_decode_byte : ℕ → ℕ → ℕ
do_decode_byte ch1 ch2 = bit_or (decode_hex_byte ch1 * 2 ^ 4) (decode_hex_byte ch2) % 2 ^ 8

-- The loop of the decoders, over what is left of `str`; the first part of the result is what was
-- written, also where the loop stops at a character that is no hexadecimal digit.
pub decode_loop : Bytes → Bytes → Bytes × Bool
decode_loop [] out = (out, true)
decode_loop (ch1 ∷ []) out = (out, false)
decode_loop (ch1 ∷ ch2 ∷ str) out =
    let rest = decode_loop str (out ++ (do_decode_byte ch1 ch2 ∷ [])) in
    if not (is_xdigit ch1) || not (is_xdigit ch2) then (out, false) else rest

-- `decode(std::string& bytes, str)`: the new `bytes`, and whether all of `str` was decoded.
pub decode : Bytes → Bytes × Bool
decode str = if length str % 2 == 0 then decode_loop str [] else ([], false)

-- `decode(str)`: the empty text stands for a failure.
pub decode_or_empty : Bytes → Bytes
decode_or_empty str = let (bytes, done) = decode str in if done then bytes else []

-- `decode(unsigned char* buf, size, str)`: the new content of the buffer, and the result.
pub decode_buffer : Bytes → Bytes → Bytes × Bool
decode_buffer buf str =
    if (length str == 0) || not (length str % 2 == 0)
    then (buf, false)
    else if ltb (length buf) (length str / 2)
    then (buf, false)
    else let (out, done) = decode_loop str [] in (out ++ drop (length out) buf, done)
