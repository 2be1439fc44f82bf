-- ===== src/Prelude/Search.antt =====
-- `std::search` of the standard library: the place of the first occurrence of a pattern, or the end.
use Prim.Native.Nat.{ℕ, zero, suc, ◌+◌, ◌≤◌, ◌<◌}
use mathlib.Core.Path.{◌≡◌, refl, ap, ◌∙◌}
use mathlib.Core.Bool.{Bool, true, false, ◌&&◌}
use mathlib.Core.Logic.{inl, inr}
use mathlib.Core.List.{[], ◌∷◌, ◌++◌}
use native.Mathlib.Omega.{arith}
use xul.Prelude.Tests.{◌==◌, if◌then◌else◌, Bool-cases}
use xul.Prelude.Lists.{length, take}
use xul.Prelude.Predicates.{Bytes}

unfoldable pub starts_with : Bytes → Bytes → Bool
starts_with [] bytes = true
starts_with (p ∷ pattern) [] = false
starts_with (p ∷ pattern) (c ∷ bytes) = (p == c) && starts_with pattern bytes

unfoldable pub search : Bytes → Bytes → ℕ
search [] pattern = 0
search (c ∷ bytes) pattern =
    let rest = search bytes pattern in if starts_with pattern (c ∷ bytes) then 0 else suc rest

pub starts_with-length :
    (pattern bytes : Bytes) → starts_with pattern bytes ≡ true → length pattern ≤ length bytes
unfolding starts_with
starts_with-length [] bytes h = omega arith
starts_with-length (p ∷ pattern) [] h = ground arith
starts_with-length (p ∷ pattern) (c ∷ bytes) h = ground (arith, starts_with-length pattern bytes)

pub starts_with-append :
    (pattern bytes more : Bytes)
    → length pattern ≤ length bytes
    → starts_with pattern (bytes ++ more) ≡ starts_with pattern bytes
unfolding starts_with
starts_with-append [] bytes more h = refl
starts_with-append (p ∷ pattern) [] more h = absurd (omega arith)
starts_with-append (p ∷ pattern) (c ∷ bytes) more h =
    ap (λ (t : Bool). (p == c) && t) (starts_with-append pattern bytes more (omega arith))

pub search-le_length : (bytes pattern : Bytes) → search bytes pattern ≤ length bytes
unfolding search
search-le_length [] pattern = omega arith
search-le_length (c ∷ bytes) pattern = ground (arith, search-le_length bytes pattern)

-- An occurrence lies within the data.
pub search-fits :
    (bytes pattern : Bytes)
    → search bytes pattern < length bytes
    → search bytes pattern + length pattern ≤ length bytes
unfolding search
search-fits [] pattern h = elim h [ ]
search-fits (c ∷ bytes) pattern h =
    ground (arith, search-fits bytes pattern, starts_with-length pattern (c ∷ bytes))

-- What comes later does not move an occurrence that is there.
pub search-append :
    (bytes more pattern : Bytes)
    → search bytes pattern < length bytes
    → search (bytes ++ more) pattern ≡ search bytes pattern
unfolding search
search-append [] more pattern h = elim h [ ]
search-append (c ∷ bytes) more pattern h = ground (
  arith,
  search-append bytes more pattern,
  search-fits (c ∷ bytes) pattern h,
  search-fits bytes pattern,
  starts_with-length pattern (c ∷ bytes),
  starts_with-append pattern (c ∷ bytes) more,
)

starts_with-take :
    (pattern bytes : Bytes) (n : ℕ)
    → length pattern ≤ n
    → starts_with pattern (take n bytes) ≡ starts_with pattern bytes
unfolding starts_with
starts_with-take [] bytes n h = refl
starts_with-take (p ∷ pattern) bytes zero h = absurd (omega arith)
starts_with-take (p ∷ pattern) [] (suc n) h = refl
starts_with-take (p ∷ pattern) (c ∷ bytes) (suc n) h =
    ap (λ (t : Bool). (p == c) && t) (starts_with-take pattern bytes n (omega arith))

search_here :
    (c : ℕ) (bytes pattern : Bytes)
    → starts_with pattern (c ∷ bytes) ≡ true
    → search (c ∷ bytes) pattern ≡ 0
unfolding search
search_here c bytes pattern e = rw e refl

search_later :
    (c : ℕ) (bytes pattern : Bytes)
    → starts_with pattern (c ∷ bytes) ≡ false
    → search (c ∷ bytes) pattern ≡ suc (search bytes pattern)
unfolding search
search_later c bytes pattern e = rw e refl

take_cons :
    (n : ℕ) (c : ℕ) (bytes : Bytes) (m : ℕ) → n ≡ suc m → take n (c ∷ bytes) ≡ c ∷ take m bytes
take_cons n c bytes m e = rw e refl

-- Up to the end of the first occurrence, the first occurrence is at the end.
pub search-take :
    (bytes pattern : Bytes)
    → search bytes pattern < length bytes
    → search (take (search bytes pattern + length pattern) bytes) pattern ≡ search bytes pattern
unfolding search starts_with
search-take [] pattern h = elim h [ ]
search-take (c ∷ bytes) [] h = refl
search-take (c ∷ bytes) (p ∷ pattern) h =
    elim (Bool-cases (starts_with (p ∷ pattern) (c ∷ bytes))) [
      | inl e ↦
          let at_0 : search (c ∷ bytes) (p ∷ pattern) ≡ 0 = search_here c bytes (p ∷ pattern) e in
          rw (at_0, take_cons (0 + length (p ∷ pattern)) c bytes (length pattern) (omega arith))
            (search_here c (take (length pattern) bytes) (p ∷ pattern)
              (starts_with-take (p ∷ pattern) (c ∷ bytes) (suc (length pattern)) (omega arith) ∙ e))
      | inr e ↦
          let later : search (c ∷ bytes) (p ∷ pattern) ≡ suc (search bytes (p ∷ pattern)) =
            search_later c bytes (p ∷ pattern) e in
          let n = search bytes (p ∷ pattern) + length (p ∷ pattern) in
          rw
            (
              later,
              take_cons (suc (search bytes (p ∷ pattern)) + length (p ∷ pattern)) c bytes n
                  (omega arith),
            )
            (search_later c (take n bytes) (p ∷ pattern)
                (starts_with-take (p ∷ pattern) (c ∷ bytes) (suc n) (omega arith) ∙ e)
              ∙ ap suc (search-take bytes (p ∷ pattern) (omega (arith, later))))
    ]
