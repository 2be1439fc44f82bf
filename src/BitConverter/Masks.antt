-- ===== src/BitConverter/Masks.antt =====
-- Masks of eight ones above a shift, and disjoint disjunctions as sums.
use xul.Prelude.{ℕ, zero, suc, ◌+◌, ◌*◌, ◌/◌, ◌%◌, ◌^◌, ◌<◌, ◌≡◌, ap, ◌∙◌, bit_or, bit_and, arith}
use xul.Prelude.Mod.{pow-add}
use xul.Prelude.Bits.{bit_and_unroll, bit_and_mask, bit_or_shifted}
use native.Mathlib.Nat.{pow-suc, mul_comm, div-div-eq-div-mul, one-le-pow, mul-lt-mul_of_pos_right}

-- The bits under a shifted mask.
pub shifted_mask : (s x m : ℕ) → bit_and x (m * 2 ^ s) ≡ bit_and (x / 2 ^ s) m * 2 ^ s
shifted_mask zero x m =
    let e : m * 2 ^ 0 ≡ m = omega arith in
    let d : x / 2 ^ 0 ≡ x = omega arith in rw (e, d) (omega arith)
shifted_mask (suc s) x m = omega (
  arith,
  bit_and_unroll x (m * 2 ^ suc s),
  half,
  shifted_mask s (x / 2) m,
  twice,
  ap (λ (t : ℕ). bit_and t m * 2 ^ s) shifted_twice,
  ap (λ (t : ℕ). bit_and (x / 2 ^ suc s) m * t) (pow-suc 2 s),
)
  where
    shifted_twice : x / 2 / 2 ^ s ≡ x / 2 ^ suc s
    shifted_twice = rw (pow-suc 2 s, mul_comm (2 ^ s) 2) (div-div-eq-div-mul x 2 (2 ^ s))

    twice : m * 2 ^ suc s ≡ 2 * (m * 2 ^ s)
    twice = omega (arith, ap (λ (t : ℕ). m * t) (pow-suc 2 s))

    half : bit_and (x / 2) (m * 2 ^ suc s / 2) ≡ bit_and (x / 2) (m * 2 ^ s)
    half = ap (λ (t : ℕ). bit_and (x / 2) t) (omega (arith, twice))

pub byte_at_24 : (x : ℕ) → bit_and x 0xff000000 / 2 ^ 24 % 2 ^ 8 ≡ x / 2 ^ 24 % 2 ^ 8
byte_at_24 x = omega (arith, shifted_mask 24 x 255, bit_and_mask 8 (x / 2 ^ 24))

pub byte_at_16 : (x : ℕ) → bit_and x 0xff0000 / 2 ^ 16 % 2 ^ 8 ≡ x / 2 ^ 16 % 2 ^ 8
byte_at_16 x = omega (arith, shifted_mask 16 x 255, bit_and_mask 8 (x / 2 ^ 16))

pub byte_at_8 : (x : ℕ) → bit_and x 0xff00 / 2 ^ 8 % 2 ^ 8 ≡ x / 2 ^ 8 % 2 ^ 8
byte_at_8 x = omega (arith, shifted_mask 8 x 255, bit_and_mask 8 (x / 2 ^ 8))

pub byte_at_0 : (x : ℕ) → bit_and x 0xff % 2 ^ 8 ≡ x % 2 ^ 8
byte_at_0 x = omega (arith, bit_and_mask 8 x)

-- One more byte under those that are there.
pub or_byte :
    (s p a b : ℕ) → b < 256 → p ≡ a * 256 * 2 ^ s → bit_or p (b * 2 ^ s) ≡ (a * 256 + b) * 2 ^ s
or_byte s p a b h e =
    rw (e ∙ whole) (bit_or_shifted (8 + s) a (b * 2 ^ s) fits ∙ omega (arith, whole))
  where
    whole : a * 256 * 2 ^ s ≡ a * 2 ^ (8 + s)
    whole = omega (arith, ap (λ (t : ℕ). a * t) (pow-add 2 8 s))

    fits : b * 2 ^ s < 2 ^ (8 + s)
    fits = omega (arith, mul-lt-mul_of_pos_right h (one-le-pow s 2 (omega arith)), pow-add 2 8 s)

pub or_last : (p a b : ℕ) → b < 256 → p ≡ a * 256 → bit_or p b ≡ a * 256 + b
or_last p a b h e = rw e (bit_or_shifted 8 a b h)
