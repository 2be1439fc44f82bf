-- ===== src/BigNumber/Division/Quotient.antt =====
-- `operator/=` computes the quotient of the values, and throws exactly at a zero divisor.
use xul.Prelude.{
  ℕ, zero, suc, ◌+◌, ◌-◌, ◌*◌, ◌/◌, ◌^◌, ◌<◌, ◌≤◌, ◌≡◌, refl, ap, ◌∙◌, sym, Bytes, ◌↔◌, IsByte, All,
  arith, length, true, false, ◌==◌, ltb, inl, inr, Bool-cases, length-replicate, replicate,
}
use xul.BigNumber.{clear, at_least, subtract}
use xul.BigNumber.Value.{value, range, value-lt-range, value-replicate, replicate-IsByte}
use xul.BigNumber.Sums.{value-subtract, subtract-IsByte, length-subtract}
use xul.BigNumber.Order.{at_least_iff}
use xul.BigNumber.Shift.{shift_left, shift_right}
use xul.BigNumber.Shift.Left.{value-shift_left, length-shift_left, shift_left-IsByte}
use xul.BigNumber.Shift.Right.{value-shift_right, length-shift_right, shift_right-IsByte}
use xul.BigNumber.Division.{bits, set_bit, divide_loop, quotient, by_zero, divide}
use xul.BigNumber.Division.BitLength.{bits_lem, bits-le}
use xul.BigNumber.Division.SetBit.{value-set_bit, set_bit-IsByte, length-set_bit}
use xul.BigNumber.Shift.Powers.{two-pow_bytes}
use native.Mathlib.Nat.{
  pow-suc, one-le-pow, pow-le-pow_right, mod-eq_of_lt, div-eq_of_lt-le, div-eq_of_lt,
}
use xul.Prelude.Mod.{pow-add, mod_of_sum}

-- Without a borrow the difference is the exact one.
subtract_exact :
    (a b : Bytes)
    → All IsByte a
    → All IsByte b
    → length a ≡ length b
    → value b ≤ value a
    → value (subtract a b) + value b ≡ value a
subtract_exact a b ha hb e le =
    let small = value-lt-range a ha in
    omega (
      arith,
      value-subtract a b ha hb e,
      sym (
          mod_of_sum (value a - value b) 1 (range a) (value a + (range a - value b))
            (omega (arith, small)) (omega (arith, small, le))),
      small,
    )

-- What the loop keeps, with `k` rounds left: `num` is a remainder of `whole`, `q` a multiple of 2 ^ k.
record Inv (k whole d : ℕ) (num div q : Bytes) (n w : ℕ) : Type 0 where
  num_bytes : All IsByte num
  div_bytes : All IsByte div
  q_bytes : All IsByte q
  num_length : length num ≡ n
  div_length : length div ≡ n
  q_length : length q ≡ n
  parts : value num + value q * d ≡ whole
  bound : value num < d * 2 ^ k
  multiple : value q ≡ w * 2 ^ k
  aligned : (j : ℕ) → k ≡ suc j → value div ≡ d * 2 ^ j
  room : k ≤ n * 8

halved : (d k : ℕ) → d * 2 ^ suc k / 2 ≡ d * 2 ^ k
halved d k = omega (arith, ap (λ (x : ℕ). d * x) (pow-suc 2 k))

next_aligned :
    (div : Bytes) (d k : ℕ)
    → All IsByte div
    → value div ≡ d * 2 ^ k
    → (j : ℕ) → k ≡ suc j
    → value (shift_right div 1) ≡ d * 2 ^ j
next_aligned div d k h e j s =
    value-shift_right div 1 h ∙ ap (λ (x : ℕ). x / 2) (e ∙ ap (λ (x : ℕ). d * 2 ^ x) s) ∙ halved d j

module _ (k whole d : ℕ) (num div q : Bytes) (n w : ℕ) (v : Inv (suc k) whole d num div q n w) where
  divisor : value div ≡ d * 2 ^ k
  divisor = v.aligned k refl

  order : (at_least num div ≡ true) ↔ (value div ≤ value num)
  order = at_least_iff num div v.num_bytes v.div_bytes (v.num_length ∙ sym v.div_length)

  -- The divisor fits: it is taken off, and its bit is set.
  taken :
      at_least num div ≡ true
      → Inv k whole d (subtract num div) (shift_right div 1) (set_bit q k) n (2 * w + 1)
  taken fits =
      let exact =
        subtract_exact num div v.num_bytes v.div_bytes (v.num_length ∙ sym v.div_length)
          (order.0 fits) in
      let k_room : k < length q * 8 = omega (arith, v.room, v.q_length) in
      let bit = value-set_bit q v.q_bytes k w k_room v.multiple in
      record {
        num_bytes = subtract-IsByte num div;
        div_bytes = shift_right-IsByte div 1 v.div_bytes;
        q_bytes = set_bit-IsByte q v.q_bytes k w k_room v.multiple;
        num_length = length-subtract num div (v.num_length ∙ sym v.div_length) ∙ v.num_length;
        div_length = length-shift_right div 1 ∙ v.div_length;
        q_length = length-set_bit q k ∙ v.q_length;
        parts = omega (arith, exact, v.parts, divisor, ap (λ (x : ℕ). x * d) bit);
        bound = omega (arith, exact, v.bound, divisor, ap (λ (x : ℕ). d * x) (pow-suc 2 k));
        multiple = omega (arith, bit, v.multiple, ap (λ (x : ℕ). w * x) (pow-suc 2 k));
        aligned = next_aligned div d k v.div_bytes divisor;
        room = omega (arith, v.room);
      }

  kept : at_least num div ≡ false → Inv k whole d num (shift_right div 1) q n (2 * w)
  kept less =
      let below : value num < value div = ground (arith, order, less) in
      record {
        num_bytes = v.num_bytes;
        div_bytes = shift_right-IsByte div 1 v.div_bytes;
        q_bytes = v.q_bytes;
        num_length = v.num_length;
        div_length = length-shift_right div 1 ∙ v.div_length;
        q_length = v.q_length;
        parts = v.parts;
        bound = omega (arith, below, divisor);
        multiple = omega (arith, v.multiple, ap (λ (x : ℕ). w * x) (pow-suc 2 k));
        aligned = next_aligned div d k v.div_bytes divisor;
        room = omega (arith, v.room);
      }

loop_quotient :
    (k whole d : ℕ) (num div q : Bytes) (n w : ℕ)
    → Inv k whole d num div q n w
    → (r : ℕ) × (r + value (divide_loop k num div q) * d ≡ whole) × (r < d)
unfolding divide_loop
loop_quotient zero whole d num div q n w v = (value num, v.parts, omega (arith, v.bound))
loop_quotient (suc k) whole d num div q n w v = elim (Bool-cases (at_least num div)) [
  | inl fits ↦ rw fits (
      loop_quotient k whole d (subtract num div) (shift_right div 1) (set_bit q k) n (2 * w + 1)
        (taken k whole d num div q n w v fits))
  | inr less ↦ rw less (
      loop_quotient k whole d num (shift_right div 1) q n (2 * w)
        (kept k whole d num div q n w v less))
]

-- The shifted divisor does not overflow, and the dividend is below twice of it.
start_bounds :
    (x y n s t : ℕ)
    → 0 < t
    → t ≤ s
    → s ≤ n * 8
    → x < 2 ^ s
    → 2 ^ (t - 1) ≤ y
    → y < 2 ^ t
    → (y * 2 ^ (s - t) < 256 ^ n) × (x < y * 2 ^ (s - t + 1))
start_bounds x y n s t ht hts hs hx lo hi = (low, high)
  where
    width : 2 ^ (n * 8) ≡ 256 ^ n
    width = let e : n * 8 + 0 ≡ n * 8 = omega arith in rw e at (two-pow_bytes n 0) ∙ omega arith

    total : 2 ^ t * 2 ^ (s - t) ≡ 2 ^ s
    total = let e : t + (s - t) ≡ s = omega arith in rw e at (sym (pow-add 2 t (s - t)))

    total' : 2 ^ (t - 1) * 2 ^ (s - t + 1) ≡ 2 ^ s
    total' =
        let e : t - 1 + (s - t + 1) ≡ s = omega arith in
        rw e at (sym (pow-add 2 (t - 1) (s - t + 1)))

    grows : 2 ^ s ≤ 2 ^ (n * 8)
    grows = pow-le-pow_right (omega arith) hs

    low : y * 2 ^ (s - t) < 256 ^ n
    low = grind (arith, width, total, grows, one-le-pow (s - t) 2 (omega arith))

    high : x < y * 2 ^ (s - t + 1)
    high = grind (arith, total')

module _ (a b : Bytes) (ha : All IsByte a) (hb : All IsByte b) (e : length a ≡ length b) where
  -- Where the value of the divisor is 0, a /= b throws, and *this has been cleared by then.
  pub divide-by_zero : value b ≡ 0 → divide a b ≡ by_zero (clear (length a))
  unfolding divide
  divide-by_zero z = ground (arith, bits_lem b hb, one-le-pow (bits b - 1) 2 (omega arith))

  -- The lengths in binary of a nonzero divisor and of a dividend that is at least as long.
  bounds :
      0 < value b
      → bits b ≤ bits a
      → (value b * 2 ^ (bits a - bits b) < 256 ^ length a)
        × (value a < value b * 2 ^ (bits a - bits b + 1))
  bounds some_b le =
      let (pos_b, lo, hi) = nonzero in
      start_bounds (value a) (value b) (length a) (bits a) (bits b) pos_b le (bits-le a ha) below lo
        hi
    where
      nonzero : (0 < bits b) × (2 ^ (bits b - 1) ≤ value b) × (value b < 2 ^ bits b)
      nonzero = ground (arith, bits_lem b hb)

      below : value a < 2 ^ bits a
      below = ground (arith, bits_lem a ha, one-le-pow (bits a) 2 (omega arith))

  start :
      0 < value b
      → bits b ≤ bits a
      → Inv
          (bits a - bits b + 1)
          (value a)
          (value b)
          a
          (shift_left b (bits a - bits b))
          (clear (length a))
          (length a)
          0
  unfolding clear
  start some_b le =
      let (low, high) = bounds some_b le in
      let shifted : value (shift_left b (bits a - bits b)) ≡ value b * 2 ^ (bits a - bits b) =
        value-shift_left b (bits a - bits b) hb ∙ mod-eq_of_lt (rw e at low) in
      let zero_q : value (replicate (length a) 0) ≡ 0 = value-replicate (length a) in
      record {
        num_bytes = ha;
        div_bytes = shift_left-IsByte b (bits a - bits b) hb;
        q_bytes = replicate-IsByte (length a);
        num_length = refl;
        div_length = length-shift_left b (bits a - bits b) ∙ sym e;
        q_length = length-replicate (length a) 0;
        parts = omega (arith, ap (λ (x : ℕ). x * value b) zero_q);
        bound = high;
        multiple = omega (arith, zero_q);
        aligned = λ j s. shifted ∙ ap (λ (x : ℕ). value b * 2 ^ x) (omega (arith, s));
        room = omega (arith, bits-le a ha, some_bits);
      }
    where
      some_bits : 0 < bits b
      some_bits = ground (arith, bits_lem b hb)

  -- For two numbers of the same number of bytes, where the value of the divisor is positive, a /=
  -- b does not throw and leaves bytes whose value is the quotient of the values, rounded down.
  pub value-divide :
      0 < value b → (q : Bytes) × (divide a b ≡ quotient q) × (value q ≡ value a / value b)
  unfolding divide clear
  value-divide some_b = elim (Bool-cases (ltb (bits a) (bits b))) [
    | inl short ↦ (
      replicate (length a) 0,
      rw (nonzero, short),
      value-replicate (length a) ∙ sym (div-eq_of_lt (shorter (ground arith))),
    )
    | inr long ↦
        let shift : ℕ = bits a - bits b in
        let q : Bytes = divide_loop (shift + 1) a (shift_left b shift) (replicate (length a) 0) in
        let (r, sum, small) =
          loop_quotient (shift + 1) (value a) (value b) a (shift_left b shift)
            (replicate (length a) 0) (length a) 0 (start some_b (ground arith)) in
        (
          q,
          rw (nonzero, long),
          sym (div-eq_of_lt-le (value b) (omega (arith, sum)) (omega (arith, sum, small))),
        )
  ]
    where
      nonzero : (bits b == 0) ≡ false
      nonzero = ground (arith, bits_lem b hb)

      shorter : bits a < bits b → value a < value b
      shorter h =
          let mono : 2 ^ bits a ≤ 2 ^ (bits b - 1) = pow-le-pow_right (omega arith) (omega arith) in
          ground (arith, mono, bits_lem a ha, bits_lem b hb)
