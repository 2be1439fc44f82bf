-- ===== src/BigNumber/Product.antt =====
-- Multiplication on big_number, as arithmetic modulo 256 ^ byte_count.
use xul.Prelude.{
  ℕ, suc, ◌+◌, ◌*◌, ◌/◌, ◌%◌, ◌^◌, ◌≤◌, ◌≡◌, refl, ap, ◌∙◌, [], ◌∷◌, Bytes, IsByte, All, arith,
  length, replicate, length-replicate,
}
use xul.BigNumber.{u16, multiply_row, multiply_rows, multiply, clear}
use xul.BigNumber.Value.{value, range, value-lt_of_length, value-replicate, replicate-IsByte}
use xul.Prelude.Mod.{mod_of_sum}
use native.Mathlib.Nat.{pow-suc}

pub length-multiply_row : (m c : ℕ) (t b : Bytes) → length (multiply_row m c t b) ≡ length t
unfolding multiply_row
length-multiply_row m c [] b = refl
length-multiply_row m c (x ∷ t) [] = refl
length-multiply_row m c (x ∷ t) (y ∷ b) =
    ap suc (length-multiply_row m (u16 (c + x + m * y) / 2 ^ 8) t b)

pub multiply_row-IsByte : (m c : ℕ) (t b : Bytes) → All IsByte t → All IsByte (multiply_row m c t b)
unfolding multiply_row
multiply_row-IsByte m c [] b h = tt
multiply_row-IsByte m c (x ∷ t) [] h = h
multiply_row-IsByte m c (x ∷ t) (y ∷ b) (hx, h) =
    (omega arith, multiply_row-IsByte m (u16 (c + x + m * y) / 2 ^ 8) t b h)

product_le : (m y : ℕ) → IsByte m → IsByte y → m * y ≤ 255 * 255
product_le m y hm hy = grind arith

-- The 16-bit accumulator of a row never wraps, so a row adds `m * b` to the digits that it covers;
-- what passes the highest of them is lost.
multiply_row-value :
    (m c : ℕ) (t b : Bytes)
    → IsByte m
    → IsByte c
    → All IsByte t
    → All IsByte b
    → length t ≤ length b
    → (q : ℕ) × (value (multiply_row m c t b) + q * range t ≡ c + value t + m * value b)
unfolding multiply_row value
multiply_row-value m c [] b hm hc _ _ _ = (c + m * value b, omega arith)
multiply_row-value m c (x ∷ t) [] hm hc _ _ e = absurd (omega arith)
multiply_row-value m c (x ∷ t) (y ∷ b) hm hc (hx, ht) (hy, hb) e =
    let small = product_le m y hm hy in
    let (q, eq) =
      multiply_row-value m (u16 (c + x + m * y) / 2 ^ 8) t b hm (omega arith) ht hb (omega arith) in
    (q, omega (arith, small, eq, ap (λ (s : ℕ). q * s) (pow-suc 256 (length t))))

multiply_rows-value :
    (a t b : Bytes)
    → All IsByte a
    → All IsByte t
    → All IsByte b
    → length a ≡ length t
    → length t ≤ length b
    → (q : ℕ) × (value (multiply_rows a t b) + q * range t ≡ value t + value a * value b)
unfolding multiply_rows multiply_row value
multiply_rows-value [] [] b _ _ _ _ _ = (0, omega arith)
multiply_rows-value [] (y ∷ t) b _ _ _ e _ = absurd (omega arith)
multiply_rows-value (x ∷ a) [] b _ _ _ e _ = absurd (omega arith)
multiply_rows-value (x ∷ a) (y ∷ t) [] _ _ _ _ e = absurd (omega arith)
multiply_rows-value (x ∷ a) (y ∷ t) (z ∷ b) (hx, ha) (hy, ht) (hz, hb) e l =
    let c : ℕ = u16 (0 + y + x * z) / 2 ^ 8 in
    let row : Bytes = multiply_row x c t b in
    let same : length row ≡ length t = length-multiply_row x c t b in
    let (q, eq) = multiply_row-value x 0 (y ∷ t) (z ∷ b) hx (omega arith) (hy, ht) (hz, hb) l in
    let (r, er) =
      multiply_rows-value a row (z ∷ b) ha (multiply_row-IsByte x c t b ht) (hz, hb)
        (omega (arith, same)) (omega (arith, same)) in
    (
      q + r,
      omega (
        arith,
        eq,
        er,
        ap (λ (s : ℕ). r * 256 ^ s) same,
        ap (λ (s : ℕ). q * s) (pow-suc 256 (length t)),
        ap (λ (s : ℕ). r * s) (pow-suc 256 (length t)),
      ),
    )

pub multiply_rows-IsByte : (a t b : Bytes) → All IsByte t → All IsByte (multiply_rows a t b)
unfolding multiply_rows multiply_row
multiply_rows-IsByte [] t b h = h
multiply_rows-IsByte (x ∷ a) [] b h = multiply_rows-IsByte a [] b tt
multiply_rows-IsByte (x ∷ a) (y ∷ t) [] (hy, h) = (hy, multiply_rows-IsByte a t [] h)
multiply_rows-IsByte (x ∷ a) (y ∷ t) (z ∷ b) (hy, h) = (
  omega arith,
  multiply_rows-IsByte a _ (z ∷ b) (multiply_row-IsByte x (u16 (0 + y + x * z) / 2 ^ 8) t b h),
)

pub length-multiply_rows : (a t b : Bytes) → length (multiply_rows a t b) ≡ length t
unfolding multiply_rows multiply_row
length-multiply_rows [] t b = refl
length-multiply_rows (x ∷ a) [] b = length-multiply_rows a [] b
length-multiply_rows (x ∷ a) (y ∷ t) [] = ap suc (length-multiply_rows a t [])
length-multiply_rows (x ∷ a) (y ∷ t) (z ∷ b) =
    let c : ℕ = u16 (0 + y + x * z) / 2 ^ 8 in
    ap suc (length-multiply_rows a (multiply_row x c t b) (z ∷ b) ∙ length-multiply_row x c t b)

pub length-multiply : (a b : Bytes) → length (multiply a b) ≡ length a
unfolding multiply clear
length-multiply a b = length-multiply_rows a _ b ∙ length-replicate (length a) 0

pub multiply-IsByte : (a b : Bytes) → All IsByte (multiply a b)
unfolding multiply clear
multiply-IsByte a b = multiply_rows-IsByte a _ b (replicate-IsByte (length a))

-- For two numbers of the same number of bytes that are different objects, a *= b leaves the
-- product of the values modulo 256 ^ byte_count.
pub value-multiply :
    (a b : Bytes)
    → All IsByte a
    → All IsByte b
    → length a ≡ length b
    → value (multiply a b) ≡ (value a * value b) % range a
unfolding multiply clear
value-multiply a b ha hb e =
    let zeros = length-replicate {A = ℕ} (length a) 0 in
    let (q, eq) =
      multiply_rows-value a (replicate (length a) 0) b ha (replicate-IsByte (length a)) hb
        (omega (arith, zeros)) (omega (arith, zeros, e)) in
    mod_of_sum _ q (range a) (value a * value b)
      (value-lt_of_length _ (multiply-IsByte a b) (length-multiply a b))
      (omega (arith, eq, value-replicate (length a), ap (λ (s : ℕ). q * 256 ^ s) zeros))
