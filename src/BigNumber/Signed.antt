-- ===== src/BigNumber/Signed.antt =====
-- The assignments from machine integers.
use xul.Prelude.{
  ℕ, zero, suc, ◌+◌, ◌-◌, ◌*◌, ◌/◌, ◌%◌, ◌^◌, ◌<◌, ◌≤◌, ◌≡◌, refl, ap, ◌∙◌, IsByte, All, All-append,
  arith, length, replicate, length-append, length-replicate,
}
use xul.Prelude.Int.{ℤ, pos, negsuc}
use xul.BigNumber.{le_bytes, assign, assign_signed, minus, negate}
use xul.BigNumber.Value.{
  value, range, value-append, value-replicate, replicate-IsByte, value-lt_of_length,
}
use xul.BigNumber.Sums.{value-minus}
use native.Mathlib.Nat.{pow-suc, mod-eq_of_lt}

length-le_bytes : (w v : ℕ) → length (le_bytes w v) ≡ w
unfolding le_bytes
length-le_bytes zero v = refl
length-le_bytes (suc w) v = ap suc (length-le_bytes w (v / 256))

le_bytes-IsByte : (w v : ℕ) → All IsByte (le_bytes w v)
unfolding le_bytes
le_bytes-IsByte zero v = tt
le_bytes-IsByte (suc w) v = (omega arith, le_bytes-IsByte w (v / 256))

value-le_bytes : (w v : ℕ) → v < 256 ^ w → value (le_bytes w v) ≡ v
unfolding le_bytes value
value-le_bytes zero v h = omega arith
value-le_bytes (suc w) v h =
    omega (arith, value-le_bytes w (v / 256) (omega (arith, pow-suc 256 w)))

assign-IsByte : (n w v : ℕ) → All IsByte (assign n w v)
unfolding assign
assign-IsByte n w v =
    All-append IsByte (le_bytes w v) _ (le_bytes-IsByte w v) (replicate-IsByte (n - w))

pub length-assign : (n w v : ℕ) → w ≤ n → length (assign n w v) ≡ n
unfolding assign
length-assign n w v h = omega (
  arith,
  length-append (le_bytes w v) (replicate (n - w) 0),
  length-le_bytes w v,
  length-replicate {A = ℕ} (n - w) 0,
)

pub value-assign : (n w v : ℕ) → v < 256 ^ w → value (assign n w v) ≡ v
unfolding assign
value-assign n w v h =
    let padding : range (le_bytes w v) * value (replicate (n - w) 0) ≡ 0 =
      ap (λ (t : ℕ). range (le_bytes w v) * t) (value-replicate (n - w)) ∙ omega arith in
    omega (arith, value-append (le_bytes w v) (replicate (n - w) 0), value-le_bytes w v h, padding)

-- The two's complement of an integer in `n` bytes.
abbrev pub twos_complement : ℕ → ℤ → ℕ
twos_complement n (pos v) = v
twos_complement n (negsuc v) = 256 ^ n - (v + 1)

abbrev pub magnitude : ℤ → ℕ
magnitude (pos v) = v
magnitude (negsuc v) = v + 1

-- Assigning a signed integer of w bytes, with w at most byte_count and the magnitude below 256 ^
-- w, stores its two's complement in byte_count bytes.
pub value-assign_signed :
    (n w : ℕ) (z : ℤ)
    → w ≤ n
    → magnitude z < 256 ^ w
    → value (assign_signed n w z) ≡ twos_complement n z
unfolding assign_signed
value-assign_signed n w (pos v) h fits = value-assign n w v fits
value-assign_signed n w (negsuc v) h fits =
    let l : length (assign n w (v + 1)) ≡ n = length-assign n w (v + 1) h in
    let same = value-assign n w (v + 1) fits in
    let small : 256 ^ n - (v + 1) < 256 ^ n =
      omega (arith, value-lt_of_length (assign n w (v + 1)) (assign-IsByte n w (v + 1)) l, same) in
    negated ∙ rw (l, same) (mod-eq_of_lt small)
  where
    negated :
        value (negate (assign n w (v + 1)))
        ≡ (range (assign n w (v + 1)) - value (assign n w (v + 1))) % range (assign n w (v + 1))
    negated = unfold negate minus in value-minus (assign n w (v + 1)) (assign-IsByte n w (v + 1))
