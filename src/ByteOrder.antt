-- ===== src/ByteOrder.antt =====
-- include/xul/data/byte_order.hpp: the bytes of a word in the opposite order. `host_is_big_endian` is
-- xul_host_byte_order_is_big_endian, which boost finds; the conversion of doubles is left out.
pub mod Reversal
mod Runs
use xul.Prelude.{ℕ, ◌*◌, ◌/◌, ◌^◌, Bool, true, false, if◌then◌else◌, bit_or, bit_and}
use xul.BitConverter.{high_dword, low_dword, make_qword}

unfoldable pub reverse_word : ℕ → ℕ
reverse_word val = bit_or (bit_and val 0xff * 2 ^ 8) (bit_and val 0xff00 / 2 ^ 8)

unfoldable pub reverse_dword : ℕ → ℕ
reverse_dword n =
    bit_or
      (bit_or (bit_or (bit_and n 0xff * 2 ^ 24) (bit_and n 0xff00 * 2 ^ 8))
        (bit_and n 0xff0000 / 2 ^ 8))
      (bit_and n 0xff000000 / 2 ^ 24)

unfoldable pub reverse_qword : ℕ → ℕ
reverse_qword x =
    let low = reverse_dword (high_dword x) in
    let high = reverse_dword (low_dword x) in make_qword high low

-- `xul_host_byte_order_is_big_endian == m_big_endian`.
abbrev same_order : Bool → Bool → Bool
same_order true true = true
same_order true false = false
same_order false true = false
same_order false false = true

unfoldable pub convert_word : Bool → Bool → ℕ → ℕ
convert_word host_is_big_endian big_endian val =
    if same_order host_is_big_endian big_endian then val else reverse_word val

unfoldable pub convert_dword : Bool → Bool → ℕ → ℕ
convert_dword host_is_big_endian big_endian val =
    if same_order host_is_big_endian big_endian then val else reverse_dword val

unfoldable pub convert_qword : Bool → Bool → ℕ → ℕ
convert_qword host_is_big_endian big_endian val =
    if same_order host_is_big_endian big_endian then val else reverse_qword val
