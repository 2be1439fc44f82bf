-- ===== src/BigNumber.antt =====
-- include/xul/data/big_number.hpp: a fixed-width unsigned number, as the list of its bytes
-- `m_bytes`, lowest first. `byte_count` is the length of that list. An operator that changes
-- `*this` is a function that returns the new bytes; a loop from 0 to `byte_count` recurs on them.
pub mod Value
pub mod Sums
pub mod Product
pub mod Shift
pub mod Text
mod Runs
pub mod SelfProduct
pub mod Signed
pub mod Division
pub mod Order
use xul.Prelude.{
  ℕ, zero, suc, ◌+◌, ◌-◌, ◌*◌, ◌/◌, ◌%◌, ◌^◌, Bool, true, false, List, [], ◌∷◌, ◌++◌, Bytes, ltb,
  ◌==◌, if◌then◌else◌, length, get_or, replicate, not, take, drop,
}
use xul.Prelude.Int.{ℤ, pos, negsuc, ltb_ℤ}

-- The low byte that a store to `uint8_t` keeps, and the range of the `uint16_t` accumulators.
abbrev u8 : ℕ → ℕ
u8 n = n % 2 ^ 8

abbrev u16 : ℕ → ℕ
u16 n = n % 2 ^ 16

-- `clear`: `memset` with 0.
pub clear : ℕ → Bytes
clear n = replicate n 0

-- The bytes that `memcpy` takes from a little-endian integer of `w` bytes.
pub le_bytes : ℕ → ℕ → Bytes
le_bytes zero v = []
le_bytes (suc w) v = u8 v ∷ le_bytes w (v / 256)

-- `assign(uint32_t)` and `assign(uint64_t)`, with `w` the size of the argument's type.
pub assign : ℕ → ℕ → ℕ → Bytes
unfolding le_bytes
assign n w v = le_bytes w v ++ replicate (n - w) 0

-- `flip`, and `operator~`: `~` on a byte, cut to eight bits.
pub flip : Bytes → Bytes
flip [] = []
flip (x ∷ xs) = (255 - x) ∷ flip xs

-- `while (i < byte_count && ++m_bytes[i] == 0) i++;`
pub increment : Bytes → Bytes
increment [] = []
increment (x ∷ xs) = let y = u8 (x + 1) in if y == 0 then y ∷ increment xs else y ∷ xs

-- `while (i < byte_count && --m_bytes[i] == 0xFF) i++;`
pub decrement : Bytes → Bytes
decrement [] = []
decrement (x ∷ xs) = let y = u8 (x + 255) in if y == 0xff then y ∷ decrement xs else y ∷ xs

pub negate : Bytes → Bytes
negate a = increment (flip a)

-- `assign(int32_t)` and `assign(int64_t)`; the branch on `val >= 0` is the constructor.
pub assign_signed : ℕ → ℕ → ℤ → Bytes
assign_signed n w (pos v) = assign n w v
assign_signed n w (negsuc v) = negate (assign n w (v + 1))

-- The loop of `operator+=`: `n = carry + m_bytes[i] + b.m_bytes[i]` in 16 bits.
pub add_loop : ℕ → Bytes → Bytes → Bytes
add_loop carry [] b = []
add_loop carry (x ∷ a) [] = []
add_loop carry (x ∷ a) (y ∷ b) = let n = u16 (carry + x + y) in u8 n ∷ add_loop (n / 2 ^ 8) a b

pub add : Bytes → Bytes → Bytes
add a b = add_loop 0 a b

-- `operator-()`, and `operator-=`, which adds the negated argument.
pub minus : Bytes → Bytes
minus a = increment (flip a)

pub subtract : Bytes → Bytes → Bytes
subtract a b = add a (minus b)

-- The inner loop of `operator*=`, on the bytes of `*this` from position `j` on.
pub multiply_row : ℕ → ℕ → Bytes → Bytes → Bytes
multiply_row m carry [] b = []
multiply_row m carry (t ∷ ts) [] = t ∷ ts
multiply_row m carry (t ∷ ts) (y ∷ b) =
    let n = u16 (carry + t + m * y) in u8 n ∷ multiply_row m (n / 2 ^ 8) ts b

-- The outer loop: `a` holds the bytes of the multiplier that are still to be read, `t` the bytes of
-- `*this` from the same position on. A row leaves the bytes before its position alone.
pub multiply_rows : Bytes → Bytes → Bytes → Bytes
multiply_rows [] t b = t
multiply_rows (x ∷ a) t b =
    let row = multiply_row x 0 t b in take 1 row ++ multiply_rows a (drop 1 row) b

-- `operator*=`: `a = *this; clear();` and the two loops, for an argument that is another object.
pub multiply : Bytes → Bytes → Bytes
multiply a b = multiply_rows a (clear (length a)) b

-- The loop of `compare`, from the highest byte down; `i` bytes are left.
pub compare_loop : ℕ → Bytes → Bytes → ℤ
compare_loop zero a b = pos 0
compare_loop (suc i) a b =
    let rest = compare_loop i a b in
    if ltb (get_or a i 0) (get_or b i 0)
    then negsuc 0
    else if ltb (get_or b i 0) (get_or a i 0)
    then pos 1
    else rest

pub compare : Bytes → Bytes → ℤ
compare a b = compare_loop (length a) a b

-- `operator<`, `operator>=` and `operator==`; the other three negate or swap these.
pub less : Bytes → Bytes → Bool
less a b = ltb_ℤ (compare a b) (pos 0)

pub at_least : Bytes → Bytes → Bool
at_least a b = not (ltb_ℤ (compare a b) (pos 0))

pub equals : Bytes → Bytes → Bool
equals a b = elim (compare a b) [ pos n ↦ n == 0 | negsuc n ↦ false ]

pub is_zero : Bytes → Bool
is_zero [] = true
is_zero (x ∷ xs) = if x == 0 then is_zero xs else false
