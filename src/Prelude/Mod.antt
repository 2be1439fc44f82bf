-- ===== src/Prelude/Mod.antt =====
-- Remainders and powers, where the numbers are no literals.
use Prim.Native.Nat.{ℕ, zero, suc, ◌^◌, ◌+◌, ◌*◌, ◌/◌, ◌%◌, ◌<◌}
use mathlib.Core.Path.{◌≡◌, sym}
use native.Mathlib.Omega.{arith}
use native.Mathlib.Nat.{
  add_comm, mod-add-mod, add-mul-mod_self_right, mod-eq_of_lt, mod-lt, mod-add-div', add-zero,
  pow-zero, pow-suc, mul-one, mul_assoc,
}

-- A remainder is known from any multiple that is added to it.
pub mod_of_sum : (r q p v : ℕ) → r < p → r + q * p ≡ v → r ≡ v % p
mod_of_sum r q p v h e = rw (← e, add-mul-mod_self_right r q p) (sym (mod-eq_of_lt h))

pub mod_add_right : (n k m : ℕ) → (n + k % m) % m ≡ (n + k) % m
mod_add_right n k m = rw (add_comm n (k % m), mod-add-mod k m n, add_comm k n)

pub mod_double : (x p : ℕ) → 0 < p → x % (p * 2) ≡ x % 2 + x / 2 % p * 2
mod_double x p h = sym (
    mod_of_sum (x % 2 + x / 2 % p * 2) (x / 2 / p) (p * 2) x (omega (arith, mod-lt (x / 2) h))
      (omega (arith, mod-add-div' (x / 2) p)))

pub pow-add : (p m n : ℕ) → p ^ (m + n) ≡ p ^ m * p ^ n
pow-add p m zero = rw (add-zero m, pow-zero p) (sym (mul-one (p ^ m)))
pow-add p m (suc n) =
    let e : m + suc n ≡ suc (m + n) = omega arith in
    rw (e, pow-suc p (m + n), pow-add p m n, pow-suc p n) (mul_assoc (p ^ m) (p ^ n) p)
