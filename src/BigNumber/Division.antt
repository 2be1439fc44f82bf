-- ===== src/BigNumber/Division.antt =====
-- `bits` and `operator/=` of big_number: long division in base 2 by shift and subtract.
pub mod BitLength
pub mod SetBit
pub mod Quotient
use xul.Prelude.{
  ℕ, zero, suc, ◌+◌, ◌-◌, ◌*◌, ◌/◌, ◌%◌, ◌^◌, Bytes, ltb, ◌==◌, if◌then◌else◌, length, get_or, set,
  bit_or, bit_and,
}
use xul.BigNumber.{clear, at_least, subtract}
use xul.BigNumber.Shift.{shift_left, shift_right}

-- `for (n = 7; n > 0; --n) if (byte & (1 << n)) return ...`: the `n` at which it returns, else 0.
unfoldable pub high_bit : ℕ → ℕ → ℕ
high_bit zero byte = 0
high_bit (suc n) byte =
    let rest = high_bit n byte in if bit_and byte (2 ^ suc n) == 0 then rest else suc n

-- The loop of `bits` from the highest byte down; `pos` bytes are left.
unfoldable pub bits_loop : ℕ → Bytes → ℕ
bits_loop zero a = 0
bits_loop (suc pos) a =
    let rest = bits_loop pos a in
    if get_or a pos 0 == 0 then rest else 8 * pos + high_bit 7 (get_or a pos 0) + 1

unfoldable pub bits : Bytes → ℕ
bits a = bits_loop (length a) a

-- `m_bytes[shift / 8] |= (1 << (shift & 7));`
unfoldable pub set_bit : Bytes → ℕ → Bytes
set_bit q shift = set q (shift / 8) (bit_or (get_or q (shift / 8) 0) (2 ^ (shift % 8)))

-- `while (shift >= 0)`, with `shift + 1` rounds left: `num`, `div` and the bytes of `*this`.
unfoldable pub divide_loop : ℕ → Bytes → Bytes → Bytes → Bytes
divide_loop zero num div q = q
divide_loop (suc shift) num div q =
    let fits = at_least num div in
    divide_loop shift (if fits then subtract num div else num) (shift_right div 1)
      (if fits then set_bit q shift else q)

-- How `operator/=` ends, with the bytes that `*this` then has: `by_zero` is the exception.
pub data Division : Type 0 where
  quotient : Bytes → Division
  by_zero : Bytes → Division

unfoldable pub divide : Bytes → Bytes → Division
divide a b =
    let cleared = clear (length a) in
    let shift = bits a - bits b in
    if bits b == 0
    then by_zero cleared
    else if ltb (bits a) (bits b)
    then quotient cleared
    else quotient (divide_loop (shift + 1) a (shift_left b shift) cleared)
