-- ===== src/BigNumber/Sums.antt =====
-- Addition, negation and counting on big_number, as arithmetic modulo 256 ^ byte_count.
use xul.Prelude.{
  ℕ, suc, ◌+◌, ◌-◌, ◌*◌, ◌/◌, ◌%◌, ◌^◌, ◌≤◌, ◌≡◌, refl, sym, ap, ◌∙◌, [], ◌∷◌, Bytes, IsByte, All,
  arith, length, ◌⊎◌, inl, inr,
}
use xul.BigNumber.{u16, add_loop, add, flip, increment, decrement, minus, subtract}
use xul.BigNumber.Value.{value, range, value-lt_of_length}
use xul.Prelude.Mod.{mod_of_sum, mod_add_right}
use native.Mathlib.Nat.{pow-suc}

pub add_loop-IsByte : (c : ℕ) (a b : Bytes) → All IsByte (add_loop c a b)
unfolding add_loop
add_loop-IsByte c [] b = tt
add_loop-IsByte c (x ∷ a) [] = tt
add_loop-IsByte c (x ∷ a) (y ∷ b) = (omega arith, add_loop-IsByte (u16 (c + x + y) / 2 ^ 8) a b)

pub length-add_loop :
    (c : ℕ) (a b : Bytes) → length a ≡ length b → length (add_loop c a b) ≡ length a
unfolding add_loop
length-add_loop c [] b e = refl
length-add_loop c (x ∷ a) [] e = absurd (omega arith)
length-add_loop c (x ∷ a) (y ∷ b) e =
    ap suc (length-add_loop (u16 (c + x + y) / 2 ^ 8) a b (omega arith))

-- The carry that leaves the highest byte is what the sum loses.
add_loop-value :
    (c : ℕ) (a b : Bytes)
    → All IsByte a
    → All IsByte b
    → length a ≡ length b
    → c ≤ 1
    → (q : ℕ) × (value (add_loop c a b) + q * range a ≡ c + value a + value b)
unfolding add_loop value
add_loop-value c [] [] _ _ _ hc = (c, omega arith)
add_loop-value c [] (y ∷ b) _ _ e hc = absurd (omega arith)
add_loop-value c (x ∷ a) [] _ _ e hc = absurd (omega arith)
add_loop-value c (x ∷ a) (y ∷ b) (hx, ha) (hy, hb) e hc =
    let (q, eq) = add_loop-value (u16 (c + x + y) / 2 ^ 8) a b ha hb (omega arith) (omega arith) in
    (q, omega (arith, eq, ap (λ (t : ℕ). q * t) (pow-suc 256 (length a))))

pub add-IsByte : (a b : Bytes) → All IsByte (add a b)
unfolding add
add-IsByte a b = add_loop-IsByte 0 a b

pub length-add : (a b : Bytes) → length a ≡ length b → length (add a b) ≡ length a
unfolding add
length-add a b e = length-add_loop 0 a b e

-- For two numbers of the same number of bytes, a += b leaves the sum of the values modulo 256 ^
-- byte_count.
pub value-add :
    (a b : Bytes)
    → All IsByte a
    → All IsByte b
    → length a ≡ length b
    → value (add a b) ≡ (value a + value b) % range a
unfolding add
value-add a b ha hb e =
    let (q, eq) = add_loop-value 0 a b ha hb e (omega arith) in
    mod_of_sum _ q (range a) (value a + value b)
      (value-lt_of_length _ (add_loop-IsByte 0 a b) (length-add_loop 0 a b e)) (omega (arith, eq))

pub flip-IsByte : (a : Bytes) → All IsByte (flip a)
unfolding flip
flip-IsByte [] = tt
flip-IsByte (x ∷ a) = (omega arith, flip-IsByte a)

pub length-flip : (a : Bytes) → length (flip a) ≡ length a
unfolding flip
length-flip [] = refl
length-flip (x ∷ a) = ap suc (length-flip a)

-- Complementing every byte subtracts from the largest value.
pub value-flip : (a : Bytes) → All IsByte a → value (flip a) + value a + 1 ≡ range a
unfolding flip value
value-flip [] h = omega arith
value-flip (x ∷ a) (hx, h) = omega (arith, value-flip a h, pow-suc 256 (length a))

pub increment-IsByte : (a : Bytes) → All IsByte a → All IsByte (increment a)
unfolding increment
increment-IsByte [] h = tt
increment-IsByte (x ∷ a) (hx, h) = ground (arith, increment-IsByte a h)

pub length-increment : (a : Bytes) → length (increment a) ≡ length a
unfolding increment
length-increment [] = refl
length-increment (x ∷ a) = ground (arith, length-increment a)

-- What the loop of `increment` leaves: the successor, or 0 past the largest value.
increment-value :
    (a : Bytes)
    → All IsByte a
    → (value (increment a) ≡ value a + 1) ⊎ ((value a + 1 ≡ range a) × (value (increment a) ≡ 0))
unfolding increment value
increment-value [] h = inr (refl, refl)
increment-value (x ∷ a) (hx, h) = ground (arith, increment-value a h, pow-suc 256 (length a))

decrement-value :
    (a : Bytes)
    → All IsByte a
    → (value (decrement a) + 1 ≡ value a) ⊎ ((value a ≡ 0) × (value (decrement a) + 1 ≡ range a))
unfolding decrement value
decrement-value [] h = inr (refl, refl)
decrement-value (x ∷ a) (hx, h) = ground (arith, decrement-value a h, pow-suc 256 (length a))

-- `++a` is the successor modulo 256 ^ byte_count.
pub value-increment : (a : Bytes) → All IsByte a → value (increment a) ≡ (value a + 1) % range a
value-increment a h = elim (increment-value a h) [
  | inl e ↦
      mod_of_sum _ 0 (range a) (value a + 1)
        (value-lt_of_length _ (increment-IsByte a h) (length-increment a)) (omega (arith, e))
  | inr (e, z) ↦ mod_of_sum _ 1 (range a) (value a + 1) (omega (arith, z, e)) (omega (arith, e, z))
]

pub decrement-IsByte : (a : Bytes) → All IsByte a → All IsByte (decrement a)
unfolding decrement
decrement-IsByte [] h = tt
decrement-IsByte (x ∷ a) (hx, h) = ground (arith, decrement-IsByte a h)

pub length-decrement : (a : Bytes) → length (decrement a) ≡ length a
unfolding decrement
length-decrement [] = refl
length-decrement (x ∷ a) = ground (arith, length-decrement a)

-- --a after ++a gives the bytes back, for every number of every width, the one with all bits set
-- included.
pub decrement-increment : (a : Bytes) → All IsByte a → decrement (increment a) ≡ a
unfolding decrement increment
decrement-increment [] h = refl
decrement-increment (x ∷ a) (hx, h) = ground (arith, decrement-increment a h)

pub increment-decrement : (a : Bytes) → All IsByte a → increment (decrement a) ≡ a
unfolding decrement increment
increment-decrement [] h = refl
increment-decrement (x ∷ a) (hx, h) = ground (arith, increment-decrement a h)

pub minus-IsByte : (a : Bytes) → All IsByte (minus a)
unfolding minus
minus-IsByte a = increment-IsByte _ (flip-IsByte a)

pub length-minus : (a : Bytes) → length (minus a) ≡ length a
unfolding minus
length-minus a = length-increment _ ∙ length-flip a

-- Two's complement: the negation is what is missing to 256 ^ byte_count.
pub value-minus : (a : Bytes) → All IsByte a → value (minus a) ≡ (range a - value a) % range a
unfolding minus
value-minus a h =
    value-increment (flip a) (flip-IsByte a)
    ∙ rw (length-flip a) (ap (λ (t : ℕ). t % range a) (omega (arith, value-flip a h)))

-- For two numbers of the same number of bytes, a -= b leaves the difference of the values modulo
-- 256 ^ byte_count.
pub value-subtract :
    (a b : Bytes)
    → All IsByte a
    → All IsByte b
    → length a ≡ length b
    → value (subtract a b) ≡ (value a + (range a - value b)) % range a
unfolding subtract
value-subtract a b ha hb e =
    value-add a (minus b) ha (minus-IsByte b) (e ∙ sym (length-minus b))
    ∙ rw (value-minus b hb, ← e) (mod_add_right (value a) (range a - value b) (range a))

pub subtract-IsByte : (a b : Bytes) → All IsByte (subtract a b)
unfolding subtract
subtract-IsByte a b = add-IsByte a (minus b)

pub length-subtract : (a b : Bytes) → length a ≡ length b → length (subtract a b) ≡ length a
unfolding subtract
length-subtract a b e = length-add a (minus b) (e ∙ sym (length-minus b))
