-- ===== src/BigNumber/Division/SetBit.antt =====
-- Setting a bit of the quotient that is still clear, as are all below it.
use xul.Prelude.{
  ℕ, zero, suc, ◌+◌, ◌-◌, ◌*◌, ◌/◌, ◌%◌, ◌^◌, ◌<◌, ◌≡◌, ap, ◌∙◌, sym, Bytes, [], ◌∷◌, IsByte, All,
  arith, length, get_or, set, drop, length-set, bit_or,
}
use xul.Prelude.Bits.{bit_or_shifted}
use xul.BigNumber.Value.{value}
use xul.BigNumber.Shift.Powers.{two-pow_bytes}
use xul.BigNumber.Shift.Cells.{set-IsByte}
use xul.BigNumber.Shift.Right.{value-drop, get_or-drop, low_byte, drop-IsByte}
use xul.BigNumber.Division.{set_bit}
use native.Mathlib.Nat.{pow-suc, one-le-pow, div-eq_of_eq-mul_right}

-- A write changes the value by the difference of the two bytes at that position.
value-set :
    (q : Bytes) (p v : ℕ)
    → p < length q
    → value (set q p v) + 256 ^ p * get_or q p 0 ≡ value q + 256 ^ p * v
unfolding value
value-set [] p v h = elim h [ ]
value-set (x ∷ q) zero v h = omega arith
value-set (x ∷ q) (suc p) v h = omega (
  arith,
  value-set q p v (omega arith),
  ap (λ (t : ℕ). t * get_or q p 0) (pow-suc 256 p),
  ap (λ (t : ℕ). t * v) (pow-suc 256 p),
)

get_or-value :
    (q : Bytes) (p : ℕ) → All IsByte q → p < length q → get_or q p 0 ≡ value q / 256 ^ p % 256
get_or-value q p h hp =
    sym (get_or-drop p q 0 ∙ ap (λ (i : ℕ). get_or q i 0) (start p))
    ∙ low_byte (drop p q) (drop-IsByte p q h)
    ∙ rw (value-drop p q h (omega arith))
  where
    start : (i : ℕ) → 0 + i ≡ i
    start i = omega arith

-- A byte whose lowest `t + 1` bits are clear.
clear_below : (t w : ℕ) → t < 8 → w * 2 ^ suc t % 256 ≡ w % 2 ^ (7 - t) * 2 ^ suc t
clear_below zero w h = omega arith
clear_below (suc zero) w h = omega arith
clear_below (suc (suc zero)) w h = omega arith
clear_below (suc (suc (suc zero))) w h = omega arith
clear_below (suc (suc (suc (suc zero)))) w h = omega arith
clear_below (suc (suc (suc (suc (suc zero))))) w h = omega arith
clear_below (suc (suc (suc (suc (suc (suc zero)))))) w h = omega arith
clear_below (suc (suc (suc (suc (suc (suc (suc zero))))))) w h = omega arith
clear_below (suc (suc (suc (suc (suc (suc (suc (suc t)))))))) w h = absurd (omega arith)

room : (t w : ℕ) → t < 8 → w * 2 ^ suc t % 256 + 2 ^ t < 256
room zero w h = omega arith
room (suc zero) w h = omega arith
room (suc (suc zero)) w h = omega arith
room (suc (suc (suc zero))) w h = omega arith
room (suc (suc (suc (suc zero)))) w h = omega arith
room (suc (suc (suc (suc (suc zero))))) w h = omega arith
room (suc (suc (suc (suc (suc (suc zero)))))) w h = omega arith
room (suc (suc (suc (suc (suc (suc (suc zero))))))) w h = omega arith
room (suc (suc (suc (suc (suc (suc (suc (suc t)))))))) w h = absurd (omega arith)

or_bit : (t w : ℕ) → t < 8 → bit_or (w * 2 ^ suc t % 256) (2 ^ t) ≡ w * 2 ^ suc t % 256 + 2 ^ t
or_bit t w h = rw (clear_below t w h) (
    bit_or_shifted (suc t) (w % 2 ^ (7 - t)) (2 ^ t)
      (omega (arith, pow-suc 2 t, one-le-pow t 2 (omega arith))))

module _ (q : Bytes) (h : All IsByte q) (k w : ℕ) (hk : k < length q * 8)
    (e : value q ≡ w * 2 ^ suc k) where
  -- The byte that holds the bit.
  cell : get_or q (k / 8) 0 ≡ w * 2 ^ suc (k % 8) % 256
  cell =
      get_or-value q (k / 8) h (omega arith)
      ∙ ap (λ (t : ℕ). t % 256)
          (div-eq_of_eq-mul_right (one-le-pow (k / 8) 256 (omega arith))
            (e ∙ ap (λ (t : ℕ). w * t) power ∙ omega arith))
    where
      power : 2 ^ suc k ≡ 256 ^ (k / 8) * 2 ^ suc (k % 8)
      power =
          let s : suc k ≡ k / 8 * 8 + suc (k % 8) = omega arith in
          rw s (two-pow_bytes (k / 8) (suc (k % 8)))

  pub value-set_bit : value (set_bit q k) ≡ value q + 2 ^ k
  unfolding set_bit
  value-set_bit =
      let t8 : k % 8 < 8 = omega arith in
      let byte : bit_or (get_or q (k / 8) 0) (2 ^ (k % 8)) ≡ get_or q (k / 8) 0 + 2 ^ (k % 8) =
        rw cell (or_bit (k % 8) w t8) in
      omega (
        arith,
        value-set q (k / 8) (bit_or (get_or q (k / 8) 0) (2 ^ (k % 8))) (omega arith),
        ap (λ (x : ℕ). 256 ^ (k / 8) * x) byte,
        power,
      )
    where
      power : 2 ^ k ≡ 256 ^ (k / 8) * 2 ^ (k % 8)
      power =
          let s : k ≡ k / 8 * 8 + k % 8 = omega arith in
          ap (λ (x : ℕ). 2 ^ x) s ∙ two-pow_bytes (k / 8) (k % 8)

  pub set_bit-IsByte : All IsByte (set_bit q k)
  unfolding set_bit
  set_bit-IsByte =
      set-IsByte q (k / 8) _ h
        (rw (cell, or_bit (k % 8) w (omega arith)) (room (k % 8) w (omega arith)))

pub length-set_bit : (q : Bytes) (k : ℕ) → length (set_bit q k) ≡ length q
unfolding set_bit
length-set_bit q k = length-set q _ _
