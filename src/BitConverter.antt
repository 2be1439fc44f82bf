-- ===== src/BitConverter.antt =====
-- include/xul/data/bit_converter.hpp: words of 16, 32 and 64 bits from bytes of either order, and
-- their bytes. A read beyond the bytes, which the source does not exclude, is 0 here.
pub mod Masks
pub mod RoundTrip
mod Runs
use xul.Prelude.{
  ℕ, ◌+◌, ◌*◌, ◌/◌, ◌%◌, ◌^◌, Bool, Bytes, [], ◌∷◌, get_or, if◌then◌else◌, bit_or, bit_and,
}

unfoldable pub make_word : ℕ → ℕ → ℕ
make_word high low = bit_or (high * 2 ^ 8) low

unfoldable pub high_byte : ℕ → ℕ
high_byte x = x / 2 ^ 8 % 2 ^ 8

unfoldable pub low_byte : ℕ → ℕ
low_byte x = x % 2 ^ 8

unfoldable pub make_dword : ℕ → ℕ → ℕ
make_dword high low = bit_or (high * 2 ^ 16) low

unfoldable pub high_word : ℕ → ℕ
high_word x = x / 2 ^ 16 % 2 ^ 16

unfoldable pub low_word : ℕ → ℕ
low_word x = x % 2 ^ 16

unfoldable pub make_qword : ℕ → ℕ → ℕ
make_qword high low = bit_or (high * 2 ^ 32) low

unfoldable pub high_dword : ℕ → ℕ
high_dword x = x / 2 ^ 32 % 2 ^ 32

unfoldable pub low_dword : ℕ → ℕ
low_dword x = x % 2 ^ 32

-- `m_big_endian` is the first argument of the conversions.
unfoldable pub to_word : Bool → Bytes → ℕ
to_word big_endian bytes =
    let byte = λ (i : ℕ). get_or bytes i 0 in
    if big_endian then bit_or (byte 0 * 2 ^ 8) (byte 1) else bit_or (byte 1 * 2 ^ 8) (byte 0)

unfoldable pub to_dword : Bool → Bytes → ℕ
to_dword big_endian bytes =
    let byte = λ (i : ℕ). get_or bytes i 0 in
    if big_endian
    then bit_or (bit_or (bit_or (byte 0 * 2 ^ 24) (byte 1 * 2 ^ 16)) (byte 2 * 2 ^ 8)) (byte 3)
    else bit_or (bit_or (bit_or (byte 3 * 2 ^ 24) (byte 2 * 2 ^ 16)) (byte 1 * 2 ^ 8)) (byte 0)

unfoldable pub to_qword : Bool → Bytes → ℕ
to_qword big_endian bytes =
    let byte = λ (i : ℕ). get_or bytes i 0 in
    let four = λ (a b c d : ℕ).
      bit_or (bit_or (bit_or (byte a * 2 ^ 56) (byte b * 2 ^ 48)) (byte c * 2 ^ 40))
        (byte d * 2 ^ 32) in
    let all = λ (high e f g h : ℕ).
      bit_or (bit_or (bit_or (bit_or high (byte e * 2 ^ 24)) (byte f * 2 ^ 16)) (byte g * 2 ^ 8))
        (byte h) in
    if big_endian then all (four 0 1 2 3) 4 5 6 7 else all (four 7 6 5 4) 3 2 1 0

unfoldable pub from_word : Bool → ℕ → Bytes
from_word big_endian x =
    if big_endian then high_byte x ∷ low_byte x ∷ [] else low_byte x ∷ high_byte x ∷ []

unfoldable pub from_dword : Bool → ℕ → Bytes
from_dword big_endian x =
    let b3 = bit_and x 0xff000000 / 2 ^ 24 % 2 ^ 8 in
    let b2 = bit_and x 0xff0000 / 2 ^ 16 % 2 ^ 8 in
    let b1 = bit_and x 0xff00 / 2 ^ 8 % 2 ^ 8 in
    let b0 = bit_and x 0xff % 2 ^ 8 in
    if big_endian then b3 ∷ b2 ∷ b1 ∷ b0 ∷ [] else b0 ∷ b1 ∷ b2 ∷ b3 ∷ []

unfoldable pub from_qword : Bool → ℕ → Bytes
from_qword big_endian x =
    let h = high_dword x in
    let l = low_dword x in
    let h3 = bit_and h 0xff000000 / 2 ^ 24 % 2 ^ 8 in
    let h2 = bit_and h 0xff0000 / 2 ^ 16 % 2 ^ 8 in
    let h1 = bit_and h 0xff00 / 2 ^ 8 % 2 ^ 8 in
    let h0 = bit_and h 0xff % 2 ^ 8 in
    let l3 = bit_and l 0xff000000 / 2 ^ 24 % 2 ^ 8 in
    let l2 = bit_and l 0xff0000 / 2 ^ 16 % 2 ^ 8 in
    let l1 = bit_and l 0xff00 / 2 ^ 8 % 2 ^ 8 in
    let l0 = bit_and l 0xff % 2 ^ 8 in
    if big_endian
    then h3 ∷ h2 ∷ h1 ∷ h0 ∷ l3 ∷ l2 ∷ l1 ∷ l0 ∷ []
    else l0 ∷ l1 ∷ l2 ∷ l3 ∷ h0 ∷ h1 ∷ h2 ∷ h3 ∷ []
