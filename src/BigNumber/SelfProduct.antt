-- ===== src/BigNumber/SelfProduct.antt =====
-- `operator*=` where the argument is the object itself. `clear()` then clears the argument too,
-- and the loops read what they have just written.
use xul.Prelude.{
  ℕ, zero, suc, ◌+◌, ◌-◌, ◌*◌, ◌/◌, ◌%◌, ◌^◌, ◌<◌, ◌≡◌, ◌≢◌, refl, ap, ◌∙◌, Bytes, ◌∷◌, arith,
  length, get_or, set, replicate,
}
use xul.BigNumber.{u8, u16, clear}
use xul.BigNumber.Value.{value, range, value-replicate}

-- The inner loop at position `j`, with `k` rounds from `i` on; `t` is `this->m_bytes` and `b.m_bytes`.
self_row : ℕ → ℕ → ℕ → ℕ → ℕ → Bytes → Bytes
self_row zero i j m carry t = t
self_row (suc k) i j m carry t =
    let n = u16 (carry + get_or t (i + j) 0 + m * get_or t i 0) in
    self_row k (i + 1) j m (n / 2 ^ 8) (set t (i + j) (u8 n))

self_rows : ℕ → ℕ → Bytes → Bytes → Bytes
self_rows zero j a t = t
self_rows (suc k) j a t = self_rows k (j + 1) a (self_row (length a - j) 0 j (get_or a j 0) 0 t)

pub multiply_self : Bytes → Bytes
unfolding self_rows self_row
multiply_self a = self_rows (length a) 0 a (clear (length a))

get_or-zeros : (n i : ℕ) → get_or {A = ℕ} (replicate n 0) i 0 ≡ 0
get_or-zeros zero i = refl
get_or-zeros (suc n) zero = refl
get_or-zeros (suc n) (suc i) = get_or-zeros n i

set-zeros : (n i : ℕ) → set {A = ℕ} (replicate n 0) i 0 ≡ replicate n 0
set-zeros zero i = refl
set-zeros (suc n) zero = refl
set-zeros (suc n) (suc i) = ap (λ (t : Bytes). 0 ∷ t) (set-zeros n i)

self_row-zeros : (k i j m n : ℕ) → self_row k i j m 0 (replicate n 0) ≡ replicate n 0
unfolding self_row
self_row-zeros zero i j m n = refl
self_row-zeros (suc k) i j m n =
    rw (get_or-zeros n (i + j), get_or-zeros n i, product, set-zeros n (i + j))
      (self_row-zeros k (i + 1) j m n)
  where
    product : m * 0 ≡ 0
    product = omega arith

self_rows-zeros : (k j n : ℕ) (a : Bytes) → self_rows k j a (replicate n 0) ≡ replicate n 0
unfolding self_rows
self_rows-zeros zero j n a = refl
self_rows-zeros (suc k) j n a =
    rw (self_row-zeros (length a - j) 0 j (get_or a j 0) n) (self_rows-zeros k (j + 1) n a)

-- a *= a on one object leaves 0, and so not the product, for every number whose square is not 0
-- modulo 256 ^ byte_count.
pub multiply_self_loses :
    (a : Bytes)
    → 0 < (value a * value a) % range a
    → (value (multiply_self a) ≡ 0) × (value (multiply_self a) ≢ (value a * value a) % range a)
unfolding multiply_self clear
multiply_self_loses a h =
    let z : value (multiply_self a) ≡ 0 =
      ap value (self_rows-zeros (length a) 0 (length a) a) ∙ value-replicate (length a) in
    (z, omega (arith, z))
