-- ===== src/BigNumber/Value.antt =====
-- The number that the bytes of a big_number stand for, and its bounds.
use xul.Prelude.{
  ℕ, zero, suc, ◌+◌, ◌*◌, ◌^◌, ◌≤◌, ◌<◌, ◌≡◌, refl, sym, ap, ◌∙◌, [], ◌∷◌, ◌++◌, Bytes, IsByte, All,
  arith, length, replicate, take, drop, get_or, take-append-drop, length-take,
}
use native.Mathlib.Nat.{pow-suc}

-- Base 256, lowest digit first.
unfoldable pub value : Bytes → ℕ
value [] = 0
value (x ∷ xs) = x + 256 * value xs

-- How many values fit as many bytes.
abbrev pub range : Bytes → ℕ
range a = 256 ^ length a

pub value-lt-range : (a : Bytes) → All IsByte a → value a < range a
unfolding value
value-lt-range [] h = omega arith
value-lt-range (x ∷ xs) (hx, h) = omega (arith, value-lt-range xs h, pow-suc 256 (length xs))

-- The same, where the length is known by an equation.
pub value-lt_of_length : (a : Bytes) {n : ℕ} → All IsByte a → length a ≡ n → value a < 256 ^ n
value-lt_of_length a h e = rw (← e) (value-lt-range a h)

pub value-append : (a b : Bytes) → value (a ++ b) ≡ value a + range a * value b
unfolding value
value-append [] b = omega arith
value-append (x ∷ a) b =
    omega (arith, value-append a b, ap (λ (t : ℕ). t * value b) (pow-suc 256 (length a)))

pub value-replicate : (n : ℕ) → value (replicate n 0) ≡ 0
unfolding value
value-replicate zero = refl
value-replicate (suc n) = omega (arith, value-replicate n)

pub get_or-IsByte : (a : Bytes) (i : ℕ) → All IsByte a → IsByte (get_or a i 0)
get_or-IsByte [] i h = omega arith
get_or-IsByte (x ∷ a) zero (hx, h) = hx
get_or-IsByte (x ∷ a) (suc i) (hx, h) = get_or-IsByte a i h

pub take_all : (a : Bytes) → take (length a) a ≡ a
take_all [] = refl
take_all (x ∷ a) = ap (λ (t : Bytes). x ∷ t) (take_all a)

-- The value of the lowest `i` bytes, digit by digit from below.
pub value-take-suc :
    (i : ℕ) (a : Bytes) → value (take (suc i) a) ≡ value (take i a) + 256 ^ i * get_or a i 0
unfolding value
value-take-suc zero [] = omega arith
value-take-suc (suc i) [] = omega arith
value-take-suc zero (x ∷ a) = omega arith
value-take-suc (suc i) (x ∷ a) =
    omega (arith, value-take-suc i a, ap (λ (t : ℕ). t * get_or a i 0) (pow-suc 256 i))

pub value-take-lt : (i : ℕ) (a : Bytes) → All IsByte a → value (take i a) < 256 ^ i
unfolding value
value-take-lt zero a h = omega arith
value-take-lt (suc i) [] h = omega (arith, value-take-lt i [] tt, pow-suc 256 i)
value-take-lt (suc i) (x ∷ a) (hx, h) = omega (arith, value-take-lt i a h, pow-suc 256 i)

pub replicate-IsByte : (n : ℕ) → All IsByte (replicate n 0)
replicate-IsByte zero = tt
replicate-IsByte (suc n) = (omega arith, replicate-IsByte n)

-- The low `m` bytes and the others.
pub value_split :
    (m : ℕ) (a : Bytes) → m ≤ length a → value a ≡ value (take m a) + 256 ^ m * value (drop m a)
value_split m a h =
    let e : length (take m a) ≡ m = omega (arith, length-take m a) in
    ap value (sym (take-append-drop m a)) ∙ value-append (take m a) (drop m a) ∙ rw e

-- Two numbers of the same length with the same value are the same bytes.
pub value_injective :
    (a b : Bytes) → All IsByte a → All IsByte b → length a ≡ length b → value a ≡ value b → a ≡ b
unfolding value
value_injective [] [] _ _ _ _ = refl
value_injective [] (y ∷ b) _ _ e _ = absurd (omega arith)
value_injective (x ∷ a) [] _ _ e _ = absurd (omega arith)
value_injective (x ∷ a) (y ∷ b) (hx, ha) (hy, hb) e v =
    cc (value_injective a b ha hb (omega arith) (omega arith), heads)
  where
    heads : x ≡ y
    heads = omega arith
