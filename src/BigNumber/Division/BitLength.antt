-- ===== src/BigNumber/Division/BitLength.antt =====
-- `bits` is the number of binary digits of the value.
use xul.Prelude.{
  ℕ, zero, suc, ◌+◌, ◌-◌, ◌*◌, ◌^◌, ◌<◌, ◌≤◌, ◌≡◌, refl, Bytes, IsByte, All, arith, ◌⊎◌, inl, inr,
  Bool, true, ◌&&◌, ltb, leb, ◌==◌, if◌then◌else◌, length, get_or, take,
}
use xul.Prelude.Table.{all_below, all_below_sound}
use xul.BigNumber.Value.{value, take_all, value-take-suc, value-take-lt, get_or-IsByte}
use xul.BigNumber.Shift.Powers.{two-pow_bytes}
use xul.BigNumber.Division.{high_bit, bits_loop, bits}

brackets : ℕ → Bool
brackets x =
    let n = high_bit 7 x in if x == 0 then true else leb n 7 && leb (2 ^ n) x && ltb x (2 ^ suc n)

brackets_table : all_below 256 brackets ≡ true
unfolding all_below brackets high_bit
brackets_table = refl

high_bit_lem :
    (x : ℕ)
    → 0 < x
    → IsByte x
    → (high_bit 7 x ≤ 7) × (2 ^ high_bit 7 x ≤ x) × (x < 2 ^ suc (high_bit 7 x))
unfolding brackets
high_bit_lem x pos hx = ground (arith, all_below_sound 256 brackets brackets_table x hx)

-- `b` is the length of `v` in binary.
abbrev pub BinaryLength : ℕ → ℕ → Type 0
BinaryLength v b = ((v ≡ 0) × (b ≡ 0)) ⊎ ((0 < b) × (2 ^ (b - 1) ≤ v) × (v < 2 ^ b))

-- A leading byte `x` over a value `v` of `pos` bytes.
leading_byte :
    (pos v x n : ℕ)
    → v < 256 ^ pos
    → 2 ^ n ≤ x
    → x < 2 ^ suc n
    → BinaryLength (v + 256 ^ pos * x) (8 * pos + n + 1)
leading_byte pos v x n hv lo hi = inr (omega arith, below, above)
  where
    below : 2 ^ (8 * pos + n + 1 - 1) ≤ v + 256 ^ pos * x
    below =
        let e : 8 * pos + n + 1 - 1 ≡ pos * 8 + n = omega arith in
        rw (e, two-pow_bytes pos n) (grind arith)

    above : v + 256 ^ pos * x < 2 ^ (8 * pos + n + 1)
    above =
        let e : 8 * pos + n + 1 ≡ pos * 8 + suc n = omega arith in
        rw (e, two-pow_bytes pos (suc n)) (grind arith)

bits_loop_lem :
    (pos : ℕ) (a : Bytes) → All IsByte a → BinaryLength (value (take pos a)) (bits_loop pos a)
unfolding bits_loop value
bits_loop_lem zero a h = inl (refl, refl)
bits_loop_lem (suc pos) a h = ground (
  arith,
  bits_loop_lem pos a h,
  value-take-suc pos a,
  high_bit_lem (get_or a pos 0),
  get_or-IsByte a pos h,
  leading_byte pos (value (take pos a)) (get_or a pos 0) (high_bit 7 (get_or a pos 0))
      (value-take-lt pos a h),
)

-- `bits` answers 0 for the value 0, and otherwise the length of the value in binary.
pub bits_lem : (a : Bytes) → All IsByte a → BinaryLength (value a) (bits a)
unfolding bits
bits_lem a h = rw (take_all a) at (bits_loop_lem (length a) a h)

bits_loop-le : (pos : ℕ) (a : Bytes) → All IsByte a → bits_loop pos a ≤ pos * 8
unfolding bits_loop
bits_loop-le zero a h = omega arith
bits_loop-le (suc pos) a h =
    ground (arith, bits_loop-le pos a h, high_bit_lem (get_or a pos 0), get_or-IsByte a pos h)

pub bits-le : (a : Bytes) → All IsByte a → bits a ≤ length a * 8
unfolding bits
bits-le a h = bits_loop-le (length a) a h
