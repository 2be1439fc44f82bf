-- ===== src/BigNumber/Shift/Powers.antt =====
-- One byte of a shift as arithmetic, and the powers of 2 and of 256 that shifts multiply by.
use xul.Prelude.{
  ℕ, zero, suc, ◌+◌, ◌-◌, ◌*◌, ◌/◌, ◌%◌, ◌^◌, ◌<◌, ◌≡◌, refl, ap, sym, IsByte, bit_or, arith,
}
use xul.Prelude.Bits.{bit_or_shifted, bit_or_comm}
use xul.Prelude.Mod.{pow-add}
use xul.BigNumber.{u8}
use native.Mathlib.Nat.{pow-suc}

-- The bits that leave a byte upwards are its high ones.
split_up : (t x : ℕ) → t < 8 → IsByte x → x * 2 ^ t ≡ u8 (x * 2 ^ t) + 256 * (x / 2 ^ (8 - t))
split_up zero x h hx = omega arith
split_up (suc zero) x h hx = omega arith
split_up (suc (suc zero)) x h hx = omega arith
split_up (suc (suc (suc zero))) x h hx = omega arith
split_up (suc (suc (suc (suc zero)))) x h hx = omega arith
split_up (suc (suc (suc (suc (suc zero))))) x h hx = omega arith
split_up (suc (suc (suc (suc (suc (suc zero)))))) x h hx = omega arith
split_up (suc (suc (suc (suc (suc (suc (suc zero))))))) x h hx = omega arith
split_up (suc (suc (suc (suc (suc (suc (suc (suc t)))))))) x h hx = absurd (omega arith)

carry_up : (t y : ℕ) → t < 8 → IsByte y → y / 2 ^ (8 - t) < 2 ^ t
carry_up zero x h hx = omega arith
carry_up (suc zero) x h hx = omega arith
carry_up (suc (suc zero)) x h hx = omega arith
carry_up (suc (suc (suc zero))) x h hx = omega arith
carry_up (suc (suc (suc (suc zero)))) x h hx = omega arith
carry_up (suc (suc (suc (suc (suc zero))))) x h hx = omega arith
carry_up (suc (suc (suc (suc (suc (suc zero)))))) x h hx = omega arith
carry_up (suc (suc (suc (suc (suc (suc (suc zero))))))) x h hx = omega arith
carry_up (suc (suc (suc (suc (suc (suc (suc (suc t)))))))) x h hx = absurd (omega arith)

-- A carry below 2 ^ t fits into the bits that a shift by `t` clears.
carry_fits : (t x z : ℕ) → t < 8 → z < 2 ^ t → u8 (x * 2 ^ t + z) ≡ u8 (x * 2 ^ t) + z
carry_fits zero x z h hz = omega arith
carry_fits (suc zero) x z h hz = omega arith
carry_fits (suc (suc zero)) x z h hz = omega arith
carry_fits (suc (suc (suc zero))) x z h hz = omega arith
carry_fits (suc (suc (suc (suc zero)))) x z h hz = omega arith
carry_fits (suc (suc (suc (suc (suc zero))))) x z h hz = omega arith
carry_fits (suc (suc (suc (suc (suc (suc zero)))))) x z h hz = omega arith
carry_fits (suc (suc (suc (suc (suc (suc (suc zero))))))) x z h hz = omega arith
carry_fits (suc (suc (suc (suc (suc (suc (suc (suc t)))))))) x z h hz = absurd (omega arith)

pub joined_up_byte :
    (t x y : ℕ)
    → t < 8
    → IsByte x
    → IsByte y
    → u8 (bit_or (x * 2 ^ t) (y / 2 ^ (8 - t))) + 256 * (x / 2 ^ (8 - t))
      ≡ x * 2 ^ t + y / 2 ^ (8 - t)
joined_up_byte t x y h hx hy =
    let c = carry_up t y h hy in
    omega (
      arith,
      ap (λ (s : ℕ). u8 s) (bit_or_shifted t x (y / 2 ^ (8 - t)) c),
      carry_fits t x (y / 2 ^ (8 - t)) h c,
      split_up t x h hx,
    )

pub shifted_byte :
    (t x : ℕ) → t < 8 → IsByte x → u8 (x * 2 ^ t) + 256 * (x / 2 ^ (8 - t)) ≡ x * 2 ^ t
shifted_byte t x h hx = sym (split_up t x h hx)

-- The bits that enter a byte from the one above it, `y` being the lowest byte of `v`.
split_down :
    (t x y v : ℕ)
    → t < 8
    → IsByte x
    → y ≡ v % 256
    → u8 (y * 2 ^ (8 - t)) + x / 2 ^ t + 256 * (v / 2 ^ t) ≡ (x + 256 * v) / 2 ^ t
split_down zero x y v h hx e = omega (arith, e)
split_down (suc zero) x y v h hx e = omega (arith, e)
split_down (suc (suc zero)) x y v h hx e = omega (arith, e)
split_down (suc (suc (suc zero))) x y v h hx e = omega (arith, e)
split_down (suc (suc (suc (suc zero)))) x y v h hx e = omega (arith, e)
split_down (suc (suc (suc (suc (suc zero))))) x y v h hx e = omega (arith, e)
split_down (suc (suc (suc (suc (suc (suc zero)))))) x y v h hx e = omega (arith, e)
split_down (suc (suc (suc (suc (suc (suc (suc zero))))))) x y v h hx e = omega (arith, e)
split_down (suc (suc (suc (suc (suc (suc (suc (suc t)))))))) x y v h hx e = absurd (omega arith)

low_part_lt : (t x : ℕ) → t < 8 → IsByte x → x / 2 ^ t < 2 ^ (8 - t)
low_part_lt zero x h hx = omega arith
low_part_lt (suc zero) x h hx = omega arith
low_part_lt (suc (suc zero)) x h hx = omega arith
low_part_lt (suc (suc (suc zero))) x h hx = omega arith
low_part_lt (suc (suc (suc (suc zero)))) x h hx = omega arith
low_part_lt (suc (suc (suc (suc (suc zero))))) x h hx = omega arith
low_part_lt (suc (suc (suc (suc (suc (suc zero)))))) x h hx = omega arith
low_part_lt (suc (suc (suc (suc (suc (suc (suc zero))))))) x h hx = omega arith
low_part_lt (suc (suc (suc (suc (suc (suc (suc (suc t)))))))) x h hx = absurd (omega arith)

low_part_fits :
    (t x z : ℕ)
    → t < 8
    → IsByte x
    → u8 (z * 2 ^ (8 - t) + x / 2 ^ t) ≡ u8 (z * 2 ^ (8 - t)) + x / 2 ^ t
low_part_fits zero x z h hx = omega arith
low_part_fits (suc zero) x z h hx = omega arith
low_part_fits (suc (suc zero)) x z h hx = omega arith
low_part_fits (suc (suc (suc zero))) x z h hx = omega arith
low_part_fits (suc (suc (suc (suc zero)))) x z h hx = omega arith
low_part_fits (suc (suc (suc (suc (suc zero))))) x z h hx = omega arith
low_part_fits (suc (suc (suc (suc (suc (suc zero)))))) x z h hx = omega arith
low_part_fits (suc (suc (suc (suc (suc (suc (suc zero))))))) x z h hx = omega arith
low_part_fits (suc (suc (suc (suc (suc (suc (suc (suc t)))))))) x z h hx = absurd (omega arith)

pub joined_down_byte :
    (t x y v : ℕ)
    → t < 8
    → IsByte x
    → y ≡ v % 256
    → u8 (bit_or (x / 2 ^ t) (y * 2 ^ (8 - t))) + 256 * (v / 2 ^ t) ≡ (x + 256 * v) / 2 ^ t
joined_down_byte t x y v h hx e = omega (
  arith,
  ap (λ (s : ℕ). u8 s) (bit_or_comm (x / 2 ^ t) (y * 2 ^ (8 - t))),
  ap (λ (s : ℕ). u8 s) (bit_or_shifted (8 - t) y (x / 2 ^ t) (low_part_lt t x h hx)),
  low_part_fits t x y h hx,
  split_down t x y v h hx e,
)

pow-bytes : (b : ℕ) → 2 ^ (b * 8) ≡ 256 ^ b
pow-bytes zero = refl
pow-bytes (suc b) =
    let e : suc b * 8 ≡ b * 8 + 8 = omega arith in
    rw (e, pow-add 2 (b * 8) 8, pow-bytes b) (sym (pow-suc 256 b))

pub two-pow_bytes : (b t : ℕ) → 2 ^ (b * 8 + t) ≡ 256 ^ b * 2 ^ t
two-pow_bytes b t = rw (pow-add 2 (b * 8) t, pow-bytes b)
