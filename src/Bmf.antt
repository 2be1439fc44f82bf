-- ===== src/Bmf.antt =====
-- include/xul/io/bmf_integer_encoding.hpp: integers in as few bytes as they need, over the memory
-- streams. An int64_t is an integer here, its bits a number below 2 ^ 64; where C++ leaves the
-- negation of the least integer open, it wraps.
pub mod Forms
pub mod RoundTrip
pub mod Values
pub mod Stored
pub mod ReadBack
pub mod ReadItems
pub mod Exchange
pub mod Onward
pub mod ReadEnds
mod Runs
mod ValueRuns
use xul.Prelude.{
  ℕ, zero, suc, ◌+◌, ◌-◌, ◌*◌, ◌/◌, ◌%◌, ◌^◌, ◌||◌, not, Option, none, some, [], ◌∷◌, Bytes, get_or,
  length, ltb, leb, ◌==◌, if◌then◌else◌, bit_or, bit_and,
}
use xul.Prelude.Int.{ℤ, pos, negsuc}
use xul.Streams.MemoryInput.{Input, is_available, read_byte, read_n}
use xul.Streams.MemoryOutput.{Output, write_bytes}

unfoldable pub get_flag_bytes : Bytes
get_flag_bytes = 0x0 ∷ 0x40 ∷ 0x60 ∷ 0x70 ∷ 0x78 ∷ 0x7C ∷ 0x7D ∷ 0x7E ∷ 0x7F ∷ []

unfoldable pub get_byte_limits : Bytes
get_byte_limits = 63 ∷ 31 ∷ 15 ∷ 7 ∷ 3 ∷ 0 ∷ 0 ∷ 0 ∷ 0 ∷ []

unfoldable pub flag_at : ℕ → ℕ
unfolding get_flag_bytes
flag_at i = get_or get_flag_bytes i 0

unfoldable pub limit_at : ℕ → ℕ
unfolding get_byte_limits
limit_at i = get_or get_byte_limits i 0

-- The bits of the number without its sign, and the flag of the sign.
unfoldable pub magnitude : ℤ → ℕ
magnitude (pos n) = n % 2 ^ 64
magnitude (negsuc n) = suc n % 2 ^ 64

unfoldable pub sign_flag : ℤ → ℕ
sign_flag (pos n) = 0x80
sign_flag (negsuc n) = 0

-- The rounds from `i`, with the bytes that are in the buffer already, from the first of them. Where
-- the rounds were used up the source would write the whole buffer and a byte in front of it.
unfoldable pub encode_loop : ℕ → ℕ → ℕ → ℕ → Bytes → Option Bytes
encode_loop zero i flag remaining written = none
encode_loop (suc rounds) i flag remaining written =
    let first = bit_or (bit_or flag (remaining % 2 ^ 8)) (flag_at i) in
    let rest =
      encode_loop rounds (i + 1) flag (remaining / 2 ^ 8) (bit_and remaining 0xFF ∷ written) in
    if (remaining == 0) || leb remaining (limit_at i) then some (first ∷ written) else rest

unfoldable pub encode : ℤ → Output → Option Output
encode val os = elim (encode_loop 9 0 (sign_flag val) (magnitude val) []) [
  | none ↦ none
  | some bytes ↦ write_bytes bytes os
]

-- The number of bytes behind the first one.
unfoldable pub find_pos : ℕ → ℕ → ℕ → ℕ
find_pos zero p flag = p
find_pos (suc rounds) p flag =
    let rest = find_pos rounds (p + 1) flag in if ltb flag (flag_at (p + 1)) then p else rest

unfoldable pub joined : ℕ → Bytes → ℕ
joined result [] = result
joined result (b ∷ buf) = joined (bit_or (result * 2 ^ 8 % 2 ^ 64) b) buf

unfoldable pub to_signed : ℕ → ℤ
to_signed n = if ltb n (2 ^ 63) then pos n else negsuc (2 ^ 64 - n - 1)

unfoldable pub decoded : ℕ → ℕ → ℤ
decoded first result =
    if not (bit_and first 0x80 == 0)
    then to_signed result
    else to_signed ((2 ^ 64 - result) % 2 ^ 64)

-- An int as a uint8_t.
unfoldable pub as_byte : ℤ → ℕ
as_byte (pos n) = n % 2 ^ 8
as_byte (negsuc n) = 2 ^ 8 - 1 - n % 2 ^ 8

unfoldable pub decode : Input → Option ℤ × Input
decode is =
    let (ch, after_first) = read_byte is in
    let first = as_byte ch in
    let p = find_pos 8 0 (bit_and first 0x7F) in
    let result = bit_and (bit_and first 0x7F) (limit_at p) in
    let (buf, after) = read_n p after_first in
    if not (is_available (pos 1) is)
    then (none, is)
    else if ltb 0 p
    then elim buf [
      | none ↦ (none, after)
      | some bytes ↦ (some (decoded first (joined result bytes)), after)
    ]
    else (some (decoded first result), after_first)
