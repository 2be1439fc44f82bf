-- ===== src/BigNumber/Shift/Cells.antt =====
-- Each byte that the loops of the shifts leave, by its position.
use xul.Prelude.{
  ℕ, zero, suc, ◌+◌, ◌-◌, ◌*◌, ◌/◌, ◌^◌, ◌<◌, ◌≤◌, ◌≡◌, refl, ◌∙◌, Bytes, Bool, true, false, [],
  ◌∷◌, ltb, leb, ◌==◌, ◌&&◌, if◌then◌else◌, length, get_or, set, bit_or, arith, length-set, IsByte,
  All,
}
use xul.BigNumber.{u8}
use xul.BigNumber.Value.{get_or-IsByte}
use native.Mathlib.Nat.{div-le_self}
use xul.BigNumber.Shift.{move_up, merge_up, zero_range, move_down, merge_down}

pub get_or-set :
    (a : Bytes) (p v j : ℕ)
    → p < length a
    → get_or (set a p v) j 0 ≡ (if j == p then v else get_or a j 0)
get_or-set [] p v j h = elim h [ ]
get_or-set (x ∷ a) zero v zero h = refl
get_or-set (x ∷ a) zero v (suc j) h = ground arith
get_or-set (x ∷ a) (suc p) v zero h = ground arith
get_or-set (x ∷ a) (suc p) v (suc j) h = get_or-set a p v j (omega arith) ∙ ground arith

pub length-move_up : (k s : ℕ) (a : Bytes) → length (move_up k s a) ≡ length a
unfolding move_up
length-move_up zero s a = refl
length-move_up (suc i) s a = length-move_up i s _ ∙ length-set a _ _

pub length-merge_up : (k s t : ℕ) (a : Bytes) → length (merge_up k s t a) ≡ length a
unfolding merge_up
length-merge_up zero s t a = refl
length-merge_up (suc i) s t a = length-merge_up i s t _ ∙ length-set a _ _

pub length-zero_range : (k i : ℕ) (a : Bytes) → length (zero_range k i a) ≡ length a
unfolding zero_range
length-zero_range zero i a = refl
length-zero_range (suc k) i a = length-zero_range k (i + 1) _ ∙ length-set a _ _

pub length-move_down : (k i s : ℕ) (a : Bytes) → length (move_down k i s a) ≡ length a
unfolding move_down
length-move_down zero i s a = refl
length-move_down (suc k) i s a = length-move_down k (i + 1) s _ ∙ length-set a _ _

pub length-merge_down : (k i s t : ℕ) (a : Bytes) → length (merge_down k i s t a) ≡ length a
unfolding merge_down
length-merge_down zero i s t a = refl
length-merge_down (suc k) i s t a = length-merge_down k (i + 1) s t _ ∙ length-set a _ _

pub get_or-zero_range :
    (k i : ℕ) (a : Bytes) (j : ℕ)
    → i + k ≤ length a
    → get_or (zero_range k i a) j 0 ≡ (if leb i j && ltb j (i + k) then 0 else get_or a j 0)
unfolding zero_range
get_or-zero_range zero i a j h = ground arith
get_or-zero_range (suc k) i a j h =
    ground (arith, get_or-zero_range k (i + 1) (set a i 0) j, get_or-set a i 0 j, length-set a i 0)

pub get_or-move_up :
    (k s : ℕ) (a : Bytes) (j : ℕ)
    → k + s ≤ length a
    → get_or (move_up k s a) j 0
      ≡ (if leb s j && ltb j (k + s) then get_or a (j - s) 0 else get_or a j 0)
unfolding move_up
get_or-move_up zero s a j h = ground arith
get_or-move_up (suc i) s a j h =
    let b : Bytes = set a (i + s) (get_or a i 0) in
    ground (
      arith,
      get_or-move_up i s b j,
      get_or-set a (i + s) (get_or a i 0) j,
      get_or-set a (i + s) (get_or a i 0) (j - s),
      length-set a (i + s) (get_or a i 0),
    )

-- A byte joined from two neighbours, for a shift of `t` bits up or down.
abbrev pub joined_up : Bytes → ℕ → ℕ → ℕ
joined_up a t j = u8 (bit_or (get_or a j 0 * 2 ^ t) (get_or a (j - 1) 0 / 2 ^ (8 - t)))

abbrev pub joined_down : Bytes → ℕ → ℕ → ℕ
joined_down a t j = u8 (bit_or (get_or a j 0 / 2 ^ t) (get_or a (suc j) 0 * 2 ^ (8 - t)))

pub get_or-merge_up :
    (k s t : ℕ) (a : Bytes) (j : ℕ)
    → k + s < length a
    → get_or (merge_up k s t a) j 0
      ≡ (if ltb s j && leb j (k + s) then joined_up a t (j - s) else get_or a j 0)
unfolding merge_up
get_or-merge_up zero s t a j h = ground arith
get_or-merge_up (suc i) s t a j h =
    let v : ℕ = u8 (bit_or (get_or a (suc i) 0 * 2 ^ t) (get_or a i 0 / 2 ^ (8 - t))) in
    ground (
      arith,
      get_or-merge_up i s t (set a (suc i + s) v) j,
      get_or-set a (suc i + s) v j,
      get_or-set a (suc i + s) v (j - s),
      get_or-set a (suc i + s) v (j - s - 1),
      length-set a (suc i + s) v,
    )

pub get_or-move_down :
    (k i s : ℕ) (a : Bytes) (j : ℕ)
    → i + k + s ≤ length a
    → get_or (move_down k i s a) j 0
      ≡ (if leb i j && ltb j (i + k) then get_or a (j + s) 0 else get_or a j 0)
unfolding move_down
get_or-move_down zero i s a j h = ground arith
get_or-move_down (suc k) i s a j h =
    let v : ℕ = get_or a (i + s) 0 in
    ground (
      arith,
      get_or-move_down k (i + 1) s (set a i v) j,
      get_or-set a i v j,
      get_or-set a i v (j + s),
      length-set a i v,
    )

pub get_or-merge_down :
    (k i s t : ℕ) (a : Bytes) (j : ℕ)
    → i + k + s < length a
    → get_or (merge_down k i s t a) j 0
      ≡ (if leb i j && ltb j (i + k) then joined_down a t (j + s) else get_or a j 0)
unfolding merge_down
get_or-merge_down zero i s t a j h = ground arith
get_or-merge_down (suc k) i s t a j h =
    let v : ℕ = u8 (bit_or (get_or a (i + s) 0 / 2 ^ t) (get_or a (i + s + 1) 0 * 2 ^ (8 - t))) in
    ground (
      arith,
      get_or-merge_down k (i + 1) s t (set a i v) j,
      get_or-set a i v j,
      get_or-set a i v (j + s),
      get_or-set a i v (j + s + 1),
      length-set a i v,
    )

pub set-IsByte : (a : Bytes) (i v : ℕ) → All IsByte a → IsByte v → All IsByte (set a i v)
set-IsByte [] i v h hv = tt
set-IsByte (x ∷ a) zero v (hx, h) hv = (hv, h)
set-IsByte (x ∷ a) (suc i) v (hx, h) hv = (hx, set-IsByte a i v h hv)

pub set-u8-IsByte : (a : Bytes) (i v : ℕ) → All IsByte a → All IsByte (set a i (u8 v))
set-u8-IsByte a i v h = set-IsByte a i (u8 v) h (omega arith)

pub zero_range-IsByte : (k i : ℕ) (a : Bytes) → All IsByte a → All IsByte (zero_range k i a)
unfolding zero_range
zero_range-IsByte zero i a h = h
zero_range-IsByte (suc k) i a h =
    zero_range-IsByte k (i + 1) (set a i 0) (set-IsByte a i 0 h (omega arith))

pub move_up-IsByte : (k s : ℕ) (a : Bytes) → All IsByte a → All IsByte (move_up k s a)
unfolding move_up
move_up-IsByte zero s a h = h
move_up-IsByte (suc i) s a h =
    move_up-IsByte i s (set a (i + s) (get_or a i 0))
      (set-IsByte a (i + s) _ h (get_or-IsByte a i h))

pub merge_up-IsByte : (k s t : ℕ) (a : Bytes) → All IsByte a → All IsByte (merge_up k s t a)
unfolding merge_up
merge_up-IsByte zero s t a h = h
merge_up-IsByte (suc i) s t a h =
    let v : ℕ = bit_or (get_or a (suc i) 0 * 2 ^ t) (get_or a i 0 / 2 ^ (8 - t)) in
    merge_up-IsByte i s t (set a (suc i + s) (u8 v)) (set-u8-IsByte a (suc i + s) v h)

pub move_down-IsByte : (k i s : ℕ) (a : Bytes) → All IsByte a → All IsByte (move_down k i s a)
unfolding move_down
move_down-IsByte zero i s a h = h
move_down-IsByte (suc k) i s a h =
    move_down-IsByte k (i + 1) s (set a i (get_or a (i + s) 0))
      (set-IsByte a i _ h (get_or-IsByte a (i + s) h))

pub merge_down-IsByte : (k i s t : ℕ) (a : Bytes) → All IsByte a → All IsByte (merge_down k i s t a)
unfolding merge_down
merge_down-IsByte zero i s t a h = h
merge_down-IsByte (suc k) i s t a h =
    let v : ℕ = bit_or (get_or a (i + s) 0 / 2 ^ t) (get_or a (i + s + 1) 0 * 2 ^ (8 - t)) in
    merge_down-IsByte k (i + 1) s t (set a i (u8 v)) (set-u8-IsByte a i v h)

-- A choice between two texts of bytes is one.
pub choice-IsByte :
    (c : Bool) (a b : Bytes) → All IsByte a → All IsByte b → All IsByte (if c then a else b)
choice-IsByte true a b ha hb = ha
choice-IsByte false a b ha hb = hb

pub set_quotient-IsByte :
    (a b : Bytes) (i j t : ℕ)
    → All IsByte a
    → All IsByte b
    → All IsByte (set a i (get_or b j 0 / 2 ^ t))
set_quotient-IsByte a b i j t ha hb =
    set-IsByte a i _ ha (omega (arith, div-le_self (get_or b j 0) (2 ^ t), get_or-IsByte b j hb))
