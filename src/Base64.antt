-- ===== src/Base64.antt =====
-- include/xul/text/base64_encoding.hpp, with get_delimiter() empty, as it is initialised: then the
-- count of the line's length has no effect. A read past the end of a text is its terminator here.
pub mod RoundTrip
pub mod Bounds
mod Runs
use xul.Prelude.{
  ℕ, zero, suc, ◌+◌, ◌-◌, ◌*◌, ◌/◌, ◌%◌, ◌^◌, ◌||◌, [], ◌∷◌, ◌++◌, Bytes, codes, ◌==◌, ltb,
  if◌then◌else◌, get_or, drop, replicate, length, bit_or, bit_and,
}

unfoldable pub get_encoding_table : Bytes
get_encoding_table = codes "ABCDEFGHIJKLMNOPQRSTUVWXYZabcdefghijklmnopqrstuvwxyz0123456789+/"

-- The numbers from the first one up, so many of them.
unfoldable pub count_up : ℕ → ℕ → Bytes
count_up first zero = []
count_up first (suc n) = first ∷ count_up (first + 1) n

-- The characters after 'z' have 0, the default of a read of this list.
unfoldable pub get_decoding_table : Bytes
unfolding count_up
get_decoding_table =
    replicate 43 0
    ++ (62 ∷ 0 ∷ 62 ∷ 0 ∷ 63 ∷ [])
    ++ count_up 52 10
    ++ replicate 7 0
    ++ count_up 0 26
    ++ (0 ∷ 0 ∷ 0 ∷ 0 ∷ 63 ∷ 0 ∷ [])
    ++ count_up 26 26

unfoldable pub letter : ℕ → ℕ
unfolding get_encoding_table
letter i = get_or get_encoding_table i 0

unfoldable pub six_bits : ℕ → ℕ
unfolding get_decoding_table
six_bits c = get_or get_decoding_table c 0

-- `do_encode`: three bytes at a time, and one or two that are left.
unfoldable pub encode : Bytes → Bytes
encode [] = []
encode (c1 ∷ []) =
    letter (bit_and c1 0xfc / 2 ^ 2) ∷ letter (bit_and c1 0x03 * 2 ^ 4) ∷ b'=' ∷ b'=' ∷ []
encode (c1 ∷ c2 ∷ []) =
    letter (bit_and c1 0xfc / 2 ^ 2)
    ∷ letter (bit_or (bit_and c1 0x03 * 2 ^ 4) (bit_and c2 0xf0 / 2 ^ 4))
    ∷ letter (bit_and c2 0x0f * 2 ^ 2)
    ∷ b'='
    ∷ []
encode (c1 ∷ c2 ∷ c3 ∷ src) =
    letter (c1 / 2 ^ 2)
    ∷ letter (bit_and (bit_or (c1 * 2 ^ 4) (c2 / 2 ^ 4)) 0x3f)
    ∷ letter (bit_and (bit_or (c2 * 2 ^ 2) (c3 / 2 ^ 6)) 0x3f)
    ∷ letter (bit_and c3 0x3f)
    ∷ encode src

-- One round of the loop of `do_decode`: what it writes, the text from `pSrc` on after it, and what is
-- added to `i`.
unfoldable pub decode_step : Bytes → Bytes × Bytes × ℕ
decode_step src =
    let at = λ (i : ℕ). get_or src i 0 in
    let two = six_bits (at 0) * 2 ^ 18 + six_bits (at 1) * 2 ^ 12 in
    let three = two + six_bits (at 2) * 2 ^ 6 in
    let four = three + six_bits (at 3) in
    let first = bit_and two 0xff0000 / 2 ^ 16 % 2 ^ 8 in
    let second = bit_and three 0xff00 / 2 ^ 8 % 2 ^ 8 in
    let third = bit_and four 0xff % 2 ^ 8 in
    if (at 0 == b'\r') || (at 0 == b'\n')
    then ([], drop 1 src, 1)
    else if at 2 == b'='
    then (first ∷ [], drop 2 src, 4)
    else if at 3 == b'='
    then (first ∷ second ∷ [], drop 3 src, 4)
    else (first ∷ second ∷ third ∷ [], drop 4 src, 4)

-- The loop, with `left` bytes up to nSrcLen. Each round adds 1 at least to `i`: nSrcLen rounds do.
unfoldable pub decode_loop : ℕ → ℕ → Bytes → Bytes
decode_loop zero left src = []
decode_loop (suc fuel) left src =
    let (written, after, step) = decode_step src in
    let rest = decode_loop fuel (left - step) after in if left == 0 then [] else written ++ rest

unfoldable pub decode : Bytes → Bytes
decode str = decode_loop (length str) (length str) str

-- The sizes of the buffers.
unfoldable pub calc_enough_encoded_length : ℕ → ℕ
calc_enough_encoded_length n =
    let groups = n / 3 + (if ltb 0 (n % 3) then 1 else 0) in
    let len = groups * 4 in
    let line = len / 72 + (if ltb 0 (len % 72) then 1 else 0) in len + line * 2

unfoldable pub calc_enough_decoded_length : ℕ → ℕ
calc_enough_decoded_length n = n
