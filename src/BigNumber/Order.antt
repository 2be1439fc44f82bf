-- ===== src/BigNumber/Order.antt =====
-- `compare` and the relational operators on big_number.
use xul.Prelude.{
  ℕ, zero, suc, ◌+◌, ◌*◌, ◌^◌, ◌≤◌, ◌<◌, ◌≡◌, refl, ap, [], ◌∷◌, Bytes, IsByte, All, arith, length,
  take, get_or, ◌⊎◌, ◌↔◌, inl, inr, true,
}
use xul.Prelude.Int.{ℤ, pos, negsuc}
use xul.BigNumber.{compare_loop, compare, less, at_least, equals, is_zero}
use xul.BigNumber.Value.{value, value_injective, take_all, value-take-suc, value-take-lt}

-- A higher digit decides, whatever stands below it.
digit_decides : (p v w x y : ℕ) → v < p → x < y → v + p * x < w + p * y
digit_decides p v w x y hv h = grind arith

-- The sign of the comparison of two numbers.
abbrev pub Sign : ℕ → ℕ → ℤ → Type 0
Sign m n s = ((m < n) × (s ≡ negsuc 0)) ⊎ (((m ≡ n) × (s ≡ pos 0)) ⊎ ((n < m) × (s ≡ pos 1)))

compare_loop-Sign :
    (i : ℕ) (a b : Bytes)
    → All IsByte a
    → All IsByte b
    → Sign (value (take i a)) (value (take i b)) (compare_loop i a b)
unfolding compare_loop
compare_loop-Sign zero a b ha hb = inr (inl (refl, refl))
compare_loop-Sign (suc i) a b ha hb = ground (
  arith,
  compare_loop-Sign i a b ha hb,
  value-take-suc i a,
  value-take-suc i b,
  digit_decides (256 ^ i) (value (take i a)) (value (take i b)) (get_or a i 0) (get_or b i 0)
      (value-take-lt i a ha),
  digit_decides (256 ^ i) (value (take i b)) (value (take i a)) (get_or b i 0) (get_or a i 0)
      (value-take-lt i b hb),
)

-- For two numbers of the same number of bytes, compare answers -1, 0 or 1 exactly as the value of
-- the left number is below, equal to or above that of the right one.
pub compare-Sign :
    (a b : Bytes)
    → All IsByte a
    → All IsByte b
    → length a ≡ length b
    → Sign (value a) (value b) (compare a b)
unfolding compare
compare-Sign a b ha hb e =
    let all_of_b : take (length a) b ≡ b = rw e (take_all b) in
    ground (arith, compare_loop-Sign (length a) a b ha hb, ap value (take_all a), ap value all_of_b)

-- `a < b`, `a >= b` and `a == b` decide the order and the equality of the values.
pub less_iff :
    (a b : Bytes)
    → All IsByte a
    → All IsByte b
    → length a ≡ length b
    → (less a b ≡ true) ↔ (value a < value b)
unfolding less
less_iff a b ha hb e = ground (arith, compare-Sign a b ha hb e)

pub at_least_iff :
    (a b : Bytes)
    → All IsByte a
    → All IsByte b
    → length a ≡ length b
    → (at_least a b ≡ true) ↔ (value b ≤ value a)
unfolding at_least
at_least_iff a b ha hb e = ground (arith, compare-Sign a b ha hb e)

-- For two numbers of the same number of bytes, a == b holds exactly if their bytes are the same.
pub equals_iff :
    (a b : Bytes)
    → All IsByte a
    → All IsByte b
    → length a ≡ length b
    → (equals a b ≡ true) ↔ (a ≡ b)
unfolding equals
equals_iff a b ha hb e = (
  λ h. value_injective a b ha hb e (ground (arith, compare-Sign a b ha hb e)),
  λ h. ground (arith, compare-Sign a b ha hb e, ap value h),
)

pub is_zero_iff : (a : Bytes) → (is_zero a ≡ true) ↔ (value a ≡ 0)
unfolding is_zero value
is_zero_iff [] = (λ _. refl, λ _. refl)
is_zero_iff (x ∷ a) = ground (arith, is_zero_iff a)
