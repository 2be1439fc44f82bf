-- ===== src/Prelude/Bits.antt =====
-- `|`, `&` and shifts at variables, from the digits of the operands in base 2.
use Prim.Native.Nat.{ℕ, zero, suc, ◌+◌, ◌-◌, ◌*◌, ◌/◌, ◌%◌, ◌^◌, ◌≤◌, ◌<◌, min, max}
use Prim.Native.Nat.{bit_and, bit_or, digits, bit_and-bitwise, bit_or-bitwise}
use mathlib.Core.Path.{◌≡◌, refl, sym, ap, ◌∙◌}
use native.Mathlib.Omega.{arith}
use native.Mathlib.Nat.{pow-suc, one-le-pow}
use xul.Prelude.Mod.{mod_double}

module _ (base : ℕ → ℕ) (digit : ℕ → ℕ → ℕ) where
  -- Fuel beyond the first number changes nothing.
  one_more : (b a n : ℕ) → a ≤ n → digits base digit (suc n) a b ≡ digits base digit n a b
  one_more b zero zero h = refl
  one_more b zero (suc n) h = refl
  one_more b (suc a) zero h = elim h [ ]
  one_more b (suc a) (suc n) h =
      ap (λ (t : ℕ). t * 2 + digit (suc a % 2) (b % 2))
        (one_more (b / 2) (suc a / 2) n (omega arith))

  surplus : (k b a : ℕ) → digits base digit (k + a) a b ≡ digits base digit a a b
  surplus zero b a = let e : zero + a ≡ a = omega arith in rw e
  surplus (suc k) b a =
      let e : suc k + a ≡ suc (k + a) = omega arith in
      rw e (one_more b a (k + a) (omega arith) ∙ surplus k b a)

  -- The lowest digit of the result, and the others.
  unroll :
      ((b : ℕ) → base b ≡ base (b / 2) * 2 + digit 0 (b % 2))
      → (a b : ℕ)
      → digits base digit a a b
        ≡ digits base digit (a / 2) (a / 2) (b / 2) * 2 + digit (a % 2) (b % 2)
  unroll at_end zero b = at_end b
  unroll at_end (suc a) b =
      let split : a - suc a / 2 + suc a / 2 ≡ a = omega arith in
      ap (λ (t : ℕ). t * 2 + digit (suc a % 2) (b % 2))
        (rw split at (surplus (a - suc a / 2) (b / 2) (suc a / 2)))

pub bit_or_unroll : (a b : ℕ) → bit_or a b ≡ bit_or (a / 2) (b / 2) * 2 + max (a % 2) (b % 2)
bit_or_unroll a b =
    rw (bit_or-bitwise a b, bit_or-bitwise (a / 2) (b / 2))
      (unroll (λ y. y) max (λ y. omega arith) a b)

pub bit_and_unroll : (a b : ℕ) → bit_and a b ≡ bit_and (a / 2) (b / 2) * 2 + min (a % 2) (b % 2)
bit_and_unroll a b =
    rw (bit_and-bitwise a b, bit_and-bitwise (a / 2) (b / 2))
      (unroll (λ y. 0) min (λ y. omega arith) a b)

zero-bit_or : (b : ℕ) → bit_or 0 b ≡ b
zero-bit_or = bit_or-bitwise 0

or_nothing : (n a : ℕ) → a ≤ n → digits (λ y. y) max n a 0 ≡ a
or_nothing zero zero h = refl
or_nothing (suc n) zero h = refl
or_nothing zero (suc a) h = elim h [ ]
or_nothing (suc n) (suc a) h = omega (arith, or_nothing n (suc a / 2) (omega arith))

and_nothing : (n a : ℕ) → a ≤ n → digits (λ y. 0) min n a 0 ≡ 0
and_nothing zero zero h = refl
and_nothing (suc n) zero h = refl
and_nothing zero (suc a) h = elim h [ ]
and_nothing (suc n) (suc a) h = omega (arith, and_nothing n (suc a / 2) (omega arith))

pub bit_or-zero : (a : ℕ) → bit_or a 0 ≡ a
bit_or-zero a = bit_or-bitwise a 0 ∙ or_nothing a a (omega arith)

bit_and-zero : (a : ℕ) → bit_and a 0 ≡ 0
bit_and-zero a = bit_and-bitwise a 0 ∙ and_nothing a a (omega arith)

bit_or_comm_fuel : (n a b : ℕ) → a ≤ n → bit_or a b ≡ bit_or b a
bit_or_comm_fuel n zero b h = zero-bit_or b ∙ sym (bit_or-zero b)
bit_or_comm_fuel zero (suc a) b h = absurd (omega arith)
bit_or_comm_fuel (suc n) (suc a) b h = omega (
  arith,
  bit_or_unroll (suc a) b,
  bit_or_unroll b (suc a),
  bit_or_comm_fuel n (suc a / 2) (b / 2) (omega arith),
)

pub bit_or_comm : (a b : ℕ) → bit_or a b ≡ bit_or b a
bit_or_comm a b = bit_or_comm_fuel a a b (omega arith)

-- `(x << s) | y` is a sum where `y` has only bits below the shift.
pub bit_or_shifted : (s x y : ℕ) → y < 2 ^ s → bit_or (x * 2 ^ s) y ≡ x * 2 ^ s + y
bit_or_shifted zero x y h = let e : y ≡ 0 = omega arith in rw e (bit_or-zero _ ∙ omega arith)
bit_or_shifted (suc s) x y h = omega (
  arith,
  bit_or_unroll (x * 2 ^ suc s) y,
  half,
  pow-suc 2 s,
  twice,
  bit_or_shifted s x (y / 2) (omega (arith, pow-suc 2 s)),
)
  where
    twice : x * 2 ^ suc s ≡ 2 * (x * 2 ^ s)
    twice = omega (arith, ap (λ (t : ℕ). x * t) (pow-suc 2 s))

    half : bit_or (x * 2 ^ suc s / 2) (y / 2) ≡ bit_or (x * 2 ^ s) (y / 2)
    half = ap (λ (t : ℕ). bit_or t (y / 2)) (omega (arith, twice))

-- A mask of `s` ones keeps the low `s` bits.
pub bit_and_mask : (s x : ℕ) → bit_and x (2 ^ s - 1) ≡ x % 2 ^ s
bit_and_mask zero x = bit_and-zero x ∙ omega arith
bit_and_mask (suc s) x = omega (
  arith,
  bit_and_unroll x (2 ^ suc s - 1),
  ones,
  bit_and_mask s (x / 2),
  mod_double x (2 ^ s) pos_power,
  half,
  ap (λ (t : ℕ). x % t) (pow-suc 2 s),
)
  where
    pos_power : 0 < 2 ^ s
    pos_power = one-le-pow s 2 (omega arith)

    ones : (2 ^ suc s - 1) % 2 ≡ 1
    ones = omega (arith, pow-suc 2 s, pos_power)

    half : bit_and (x / 2) ((2 ^ suc s - 1) / 2) ≡ bit_and (x / 2) (2 ^ s - 1)
    half = ap (λ (t : ℕ). bit_and (x / 2) t) (omega (arith, pow-suc 2 s, pos_power))
