-- ===== src/ByteOrder/Reversal.antt =====
-- The bytes of a reversed word, and the words converted twice.
use xul.Prelude.{ℕ, ◌+◌, ◌*◌, ◌/◌, ◌%◌, ◌^◌, ◌<◌, ◌≡◌, refl, ◌∙◌, Bool, true, false, bit_and, arith}
use xul.Prelude.Bits.{bit_and_mask, bit_or_shifted}
use xul.BitConverter.{high_dword, low_dword, make_qword}
use xul.BitConverter.Masks.{shifted_mask, or_byte, or_last}
use xul.ByteOrder.{
  reverse_word, reverse_dword, reverse_qword, convert_word, convert_dword, convert_qword,
}

-- The four bytes of a word in the opposite order, as a number.
pub reverse_dword-value :
    (n : ℕ)
    → reverse_dword n
      ≡ ((n % 256 * 256 + n / 2 ^ 8 % 256) * 256 + n / 2 ^ 16 % 256) * 256 + n / 2 ^ 24 % 256
unfolding reverse_dword
reverse_dword-value n =
    let b0 = n % 256 in
    let b1 = n / 2 ^ 8 % 256 in
    let b2 = n / 2 ^ 16 % 256 in
    let b3 = n / 2 ^ 24 % 256 in
    let e0 : bit_and n 0xff * 2 ^ 24 ≡ b0 * 2 ^ 24 = omega (arith, bit_and_mask 8 n) in
    let e1 : bit_and n 0xff00 * 2 ^ 8 ≡ b1 * 2 ^ 16 =
      omega (arith, shifted_mask 8 n 255, bit_and_mask 8 (n / 2 ^ 8)) in
    let e2 : bit_and n 0xff0000 / 2 ^ 8 ≡ b2 * 2 ^ 8 =
      omega (arith, shifted_mask 16 n 255, bit_and_mask 8 (n / 2 ^ 16)) in
    let e3 : bit_and n 0xff000000 / 2 ^ 24 ≡ b3 =
      omega (arith, shifted_mask 24 n 255, bit_and_mask 8 (n / 2 ^ 24)) in
    rw (e0, e1, e2, e3)
      (or_last _ ((b0 * 256 + b1) * 256 + b2) b3 (omega arith) (
        or_byte 8 _ (b0 * 256 + b1) b2 (omega arith)
          (or_byte 16 _ b0 b1 (omega arith) (omega arith) ∙ omega arith)
        ∙ omega arith))

pub reverse_dword-reverse_dword : (n : ℕ) → n < 2 ^ 32 → reverse_dword (reverse_dword n) ≡ n
reverse_dword-reverse_dword n h =
    reverse_dword-value (reverse_dword n) ∙ omega (arith, reverse_dword-value n)

pub reverse_dword-small : (n : ℕ) → reverse_dword n < 2 ^ 32
reverse_dword-small n = omega (arith, reverse_dword-value n)

pub reverse_qword-value :
    (x : ℕ)
    → reverse_qword x ≡ reverse_dword (x % 2 ^ 32) * 2 ^ 32 + reverse_dword (x / 2 ^ 32 % 2 ^ 32)
unfolding reverse_qword make_qword high_dword low_dword
reverse_qword-value x =
    bit_or_shifted 32 (reverse_dword (x % 2 ^ 32)) (reverse_dword (x / 2 ^ 32 % 2 ^ 32))
      (reverse_dword-small (x / 2 ^ 32 % 2 ^ 32))

pub reverse_qword-reverse_qword : (x : ℕ) → x < 2 ^ 64 → reverse_qword (reverse_qword x) ≡ x
reverse_qword-reverse_qword x h =
    let high = reverse_dword (x % 2 ^ 32) in
    let low = reverse_dword (x / 2 ^ 32 % 2 ^ 32) in
    let small = reverse_dword-small (x / 2 ^ 32 % 2 ^ 32) in
    let large = reverse_dword-small (x % 2 ^ 32) in
    let bottom : (high * 2 ^ 32 + low) % 2 ^ 32 ≡ low = omega arith in
    let top : (high * 2 ^ 32 + low) / 2 ^ 32 % 2 ^ 32 ≡ high = omega arith in
    rw
      (
        reverse_qword-value (reverse_qword x),
        reverse_qword-value x,
        bottom,
        top,
        reverse_dword-reverse_dword (x / 2 ^ 32 % 2 ^ 32) (omega arith),
        reverse_dword-reverse_dword (x % 2 ^ 32) (omega arith),
      )
      (omega arith)

-- Converting a 64-bit number twice gives it back, for a host of either byte order and for either
-- byte order asked for.
pub convert_qword-convert_qword :
    (host big_endian : Bool) (x : ℕ)
    → x < 2 ^ 64
    → convert_qword host big_endian (convert_qword host big_endian x) ≡ x
unfolding convert_qword
convert_qword-convert_qword true true x h = refl
convert_qword-convert_qword true false x h = reverse_qword-reverse_qword x h
convert_qword-convert_qword false true x h = reverse_qword-reverse_qword x h
convert_qword-convert_qword false false x h = refl

pub reverse_word-value : (x : ℕ) → reverse_word x ≡ x % 256 * 256 + x / 256 % 256
unfolding reverse_word
reverse_word-value x =
    let low : bit_and x 0xff * 2 ^ 8 ≡ x % 256 * 2 ^ 8 = omega (arith, bit_and_mask 8 x) in
    let high : bit_and x 0xff00 / 2 ^ 8 ≡ x / 256 % 256 =
      omega (arith, shifted_mask 8 x 255, bit_and_mask 8 (x / 2 ^ 8)) in
    rw (low, high) (or_last _ (x % 256) (x / 256 % 256) (omega arith) (omega arith))

pub convert_word-convert_word :
    (host big_endian : Bool) (x : ℕ)
    → x < 2 ^ 16
    → convert_word host big_endian (convert_word host big_endian x) ≡ x
unfolding convert_word
convert_word-convert_word true true x h = refl
convert_word-convert_word true false x h =
    reverse_word-value (reverse_word x) ∙ omega (arith, reverse_word-value x)
convert_word-convert_word false true x h =
    reverse_word-value (reverse_word x) ∙ omega (arith, reverse_word-value x)
convert_word-convert_word false false x h = refl

pub convert_dword-convert_dword :
    (host big_endian : Bool) (x : ℕ)
    → x < 2 ^ 32
    → convert_dword host big_endian (convert_dword host big_endian x) ≡ x
unfolding convert_dword
convert_dword-convert_dword true true x h = refl
convert_dword-convert_dword true false x h = reverse_dword-reverse_dword x h
convert_dword-convert_dword false true x h = reverse_dword-reverse_dword x h
convert_dword-convert_dword false false x h = refl

pub reverse_qword-small : (x : ℕ) → reverse_qword x < 2 ^ 64
reverse_qword-small x = omega (
  arith,
  reverse_qword-value x,
  reverse_dword-small (x % 2 ^ 32),
  reverse_dword-small (x / 2 ^ 32 % 2 ^ 32),
)
