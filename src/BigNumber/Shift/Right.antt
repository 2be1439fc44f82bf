-- ===== src/BigNumber/Shift/Right.antt =====
-- `operator>>=` divides by a power of 2.
use xul.Prelude.{
  ℕ, zero, suc, ◌+◌, ◌-◌, ◌*◌, ◌/◌, ◌%◌, ◌^◌, ◌<◌, ◌≤◌, ◌≡◌, refl, ap, ◌∙◌, sym, Bytes, [], ◌∷◌,
  IsByte, All, bit_or, arith, leb, ◌==◌, length, get_or, set, take, drop, length-set,
  length-replicate, Bool-cases, inl, inr,
}
use native.Mathlib.Nat.{div-eq_of_lt, one-le-pow, add-mul-div_left, div-div-eq-div-mul}
use xul.BigNumber.{u8, clear}
use xul.BigNumber.Value.{
  value, value-replicate, value-lt-range, value-take-lt, value_split, replicate-IsByte,
  get_or-IsByte,
}
use xul.BigNumber.Shift.{move_down, merge_down, zero_range, shift_right}
use xul.BigNumber.Shift.Cells.{
  get_or-set, get_or-move_down, get_or-merge_down, get_or-zero_range, length-move_down,
  length-merge_down, length-zero_range, joined_down, choice-IsByte, zero_range-IsByte,
  move_down-IsByte, merge_down-IsByte, set_quotient-IsByte,
}
use xul.BigNumber.Shift.Powers.{joined_down_byte, two-pow_bytes}

get_or_beyond : (a : Bytes) (j : ℕ) → length a ≤ j → get_or a j 0 ≡ 0
get_or_beyond [] j h = refl
get_or_beyond (x ∷ a) zero h = absurd (omega arith)
get_or_beyond (x ∷ a) (suc j) h = get_or_beyond a j (omega arith)

pub get_or-drop : (s : ℕ) (a : Bytes) (j : ℕ) → get_or (drop s a) j 0 ≡ get_or a (j + s) 0
get_or-drop zero a j = ap (λ (i : ℕ). get_or a i 0) (omega arith)
get_or-drop (suc s) [] j = refl
get_or-drop (suc s) (x ∷ a) j =
    let e : j + suc s ≡ suc (j + s) = omega arith in get_or-drop s a j ∙ rw e

-- Bytes that agree at every position, zeros beyond the end included, have the same value.
value_cells : (a b : Bytes) → ((j : ℕ) → get_or a j 0 ≡ get_or b j 0) → value a ≡ value b
unfolding value
value_cells [] [] e = refl
value_cells [] (y ∷ b) e = omega (arith, e 0, value_cells [] b (λ j. e (suc j)))
value_cells (x ∷ a) [] e = omega (arith, e 0, value_cells a [] (λ j. e (suc j)))
value_cells (x ∷ a) (y ∷ b) e = omega (arith, e 0, value_cells a b (λ j. e (suc j)))

joined_zeros : (t : ℕ) → u8 (bit_or (0 / 2 ^ t) (0 * 2 ^ (8 - t))) ≡ 0
joined_zeros t =
    let e : 0 / 2 ^ t ≡ 0 = div-eq_of_lt (one-le-pow t 2 (omega arith)) in
    let z : 0 * 2 ^ (8 - t) ≡ 0 = omega arith in rw (e, z)

-- Every byte with the bits that come down from the next one.
all_joined : ℕ → Bytes → Bytes
all_joined t [] = []
all_joined t (x ∷ a) = u8 (bit_or (x / 2 ^ t) (get_or a 0 0 * 2 ^ (8 - t))) ∷ all_joined t a

get_or-all_joined : (t : ℕ) (a : Bytes) (j : ℕ) → get_or (all_joined t a) j 0 ≡ joined_down a t j
unfolding all_joined
get_or-all_joined t [] j = sym (joined_zeros t)
get_or-all_joined t (x ∷ a) zero = refl
get_or-all_joined t (x ∷ a) (suc j) = get_or-all_joined t a j

pub low_byte : (a : Bytes) → All IsByte a → get_or a 0 0 ≡ value a % 256
unfolding value
low_byte [] h = refl
low_byte (x ∷ a) (hx, h) = omega arith

value-all_joined :
    (t : ℕ) (a : Bytes) → t < 8 → All IsByte a → value (all_joined t a) ≡ value a / 2 ^ t
unfolding all_joined value
value-all_joined t [] ht h = sym (div-eq_of_lt (one-le-pow t 2 (omega arith)))
value-all_joined t (x ∷ a) ht (hx, h) = omega (
  arith,
  value-all_joined t a ht h,
  joined_down_byte t x (get_or a 0 0) (value a) ht hx (low_byte a h),
)

pub value-drop :
    (s : ℕ) (a : Bytes) → All IsByte a → s ≤ length a → value (drop s a) ≡ value a / 256 ^ s
value-drop s a h hs = sym (
    rw
      (
        value_split s a hs,
        add-mul-div_left (value (take s a)) (value (drop s a)) (one-le-pow s 256 (omega arith)),
        div-eq_of_lt (value-take-lt s a h),
      )
      (omega arith))

pub drop-IsByte : (s : ℕ) (a : Bytes) → All IsByte a → All IsByte (drop s a)
drop-IsByte zero a h = h
drop-IsByte (suc s) [] h = tt
drop-IsByte (suc s) (x ∷ a) (hx, h) = drop-IsByte s a h

-- The result is known from its cells.
value_of_cells :
    (r a : Bytes) (s t : ℕ)
    → All IsByte a
    → s ≤ length a
    → t < 8
    → ((j : ℕ) → get_or r j 0 ≡ joined_down a t (j + s))
    → value r ≡ value a / 2 ^ (s * 8 + t)
value_of_cells r a s t h hs ht cell =
    value_cells r (all_joined t (drop s a)) cells
    ∙ value-all_joined t (drop s a) ht (drop-IsByte s a h)
    ∙ rw (value-drop s a h hs, div-div-eq-div-mul (value a) (256 ^ s) (2 ^ t), two-pow_bytes s t)
  where
    cells : (j : ℕ) → get_or r j 0 ≡ get_or (all_joined t (drop s a)) j 0
    cells j =
        let e : suc j + s ≡ suc (j + s) = omega arith in
        cell j
        ∙ rw (get_or-all_joined t (drop s a) j, get_or-drop s a j, get_or-drop s a (suc j), e)

-- A byte that stands alone, at the top or in a shift by whole bytes.
alone : (t x : ℕ) → t < 8 → IsByte x → u8 (bit_or (x / 2 ^ t) (0 * 2 ^ (8 - t))) ≡ x / 2 ^ t
alone t x ht hx =
    let e : x + 256 * 0 ≡ x = omega arith in
    omega (
      arith,
      ap (λ (k : ℕ). k / 2 ^ t) e,
      joined_down_byte t x 0 0 ht hx refl,
      div-eq_of_lt (one-le-pow t 2 (omega arith)),
    )

whole : (x y : ℕ) → IsByte x → IsByte y → u8 (bit_or (x / 2 ^ 0) (y * 2 ^ (8 - 0))) ≡ x
whole x y hx hy = omega (arith, joined_down_byte 0 x y y (omega arith) hx (omega arith))

module _ (a : Bytes) (h : All IsByte a) (s : ℕ) (hs : s < length a) where
  by_bytes-cell :
      (j : ℕ)
      → get_or (zero_range s (length a - s) (move_down (length a - s) 0 s a)) j 0
        ≡ joined_down a 0 (j + s)
  by_bytes-cell j = ground (
    arith,
    get_or-zero_range s (length a - s) (move_down (length a - s) 0 s a) j,
    get_or-move_down (length a - s) 0 s a j,
    length-move_down (length a - s) 0 s a,
    whole (get_or a (j + s) 0) (get_or a (suc (j + s)) 0) (get_or-IsByte a (j + s) h)
        (get_or-IsByte a (suc (j + s)) h),
    get_or_beyond a j,
    get_or_beyond a (j + s),
  )

  module _ (t : ℕ) (ht : t < 8) where
    by_bits-cell :
        (j : ℕ)
        → get_or
            (zero_range s (length a - s) (
              set
                (merge_down (length a - s - 1) 0 s t a)
                (length a - s - 1)
                (get_or (merge_down (length a - s - 1) 0 s t a) (length a - 1) 0 / 2 ^ t)))
            j
            0
          ≡ joined_down a t (j + s)
    by_bits-cell j =
        let merged : Bytes = merge_down (length a - s - 1) 0 s t a in
        let v : ℕ = get_or merged (length a - 1) 0 / 2 ^ t in
        ground (
          arith,
          get_or-zero_range s (length a - s) (set merged (length a - s - 1) v) j,
          get_or-set merged (length a - s - 1) v j,
          get_or-merge_down (length a - s - 1) 0 s t a j,
          get_or-merge_down (length a - s - 1) 0 s t a (length a - 1),
          length-merge_down (length a - s - 1) 0 s t a,
          length-set merged (length a - s - 1) v,
          alone t (get_or a (j + s) 0) ht (get_or-IsByte a (j + s) h),
          get_or_beyond a (j + s),
          get_or_beyond a (suc (j + s)),
          joined_zeros t,
          get_or_beyond a j,
        )

-- a >>= shift leaves the quotient of the value by 2 ^ shift, for every shift, those of the whole
-- width and more included.
pub value-shift_right :
    (a : Bytes) (shift : ℕ) → All IsByte a → value (shift_right a shift) ≡ value a / 2 ^ shift
unfolding shift_right clear
value-shift_right a shift h = elim (Bool-cases (shift == 0)) [
  | inl zero_shift ↦ rw zero_shift (let e : shift ≡ 0 = ground arith in rw e (omega arith))
  | inr some_shift ↦ elim (Bool-cases (leb (length a * 8) shift)) [
    | inl far ↦
        rw (some_shift, far)
          (value-replicate (length a) ∙ sym (div-eq_of_lt (too_far (ground arith))))
    | inr near ↦
        let s : ℕ = shift / 8 in
        let t : ℕ = shift % 8 in
        let hs : s < length a = ground arith in
        let e : s * 8 + t ≡ shift = omega arith in
        elim (Bool-cases (shift % 8 == 0)) [
          | inl no_bits ↦
              let e' : s * 8 + 0 ≡ shift = ground arith in
              rw (some_shift, near, no_bits)
                (rw e' at
                  (value_of_cells _ a s 0 h (omega arith) (omega arith) (by_bytes-cell a h s hs)))
          | inr some_bits ↦
              rw (some_shift, near, some_bits)
                (rw e at (
                  value_of_cells _ a s t h (omega arith) (omega arith)
                    (by_bits-cell a h s hs t (omega arith))))
        ]
  ]
]
  where
    too_far : length a * 8 ≤ shift → value a < 2 ^ shift
    too_far far =
        let e : shift ≡ length a * 8 + (shift - length a * 8) = omega arith in
        rw (e, two-pow_bytes (length a) (shift - length a * 8))
          (grind (arith, value-lt-range a h, one-le-pow (shift - length a * 8) 2 (omega arith)))

pub length-shift_right : (a : Bytes) (shift : ℕ) → length (shift_right a shift) ≡ length a
unfolding shift_right clear
length-shift_right a shift =
    let s : ℕ = shift / 8 in
    let t : ℕ = shift % 8 in
    let merged : Bytes = merge_down (length a - s - 1) 0 s t a in
    let v : ℕ = get_or merged (length a - 1) 0 / 2 ^ t in
    ground (
      arith,
      length-replicate {A = ℕ} (length a) 0,
      length-zero_range s (length a - s) (move_down (length a - s) 0 s a),
      length-move_down (length a - s) 0 s a,
      length-zero_range s (length a - s) (set merged (length a - s - 1) v),
      length-set merged (length a - s - 1) v,
      length-merge_down (length a - s - 1) 0 s t a,
    )

pub shift_right-IsByte : (a : Bytes) (shift : ℕ) → All IsByte a → All IsByte (shift_right a shift)
unfolding shift_right clear
shift_right-IsByte a shift h =
    let s : ℕ = shift / 8 in
    let t : ℕ = shift % 8 in
    let merged = merge_down (length a - s - 1) 0 s t a in
    choice-IsByte (shift == 0) a _ h (
      choice-IsByte (leb (length a * 8) shift) (clear (length a)) _ (replicate-IsByte (length a)) (
        choice-IsByte (t == 0) _ _
          (zero_range-IsByte s (length a - s) _ (move_down-IsByte (length a - s) 0 s a h))
          (zero_range-IsByte s (length a - s)
            (set merged (length a - s - 1) (get_or merged (length a - 1) 0 / 2 ^ t))
            (set_quotient-IsByte merged merged (length a - s - 1) (length a - 1) t
              (merge_down-IsByte (length a - s - 1) 0 s t a h)
              (merge_down-IsByte (length a - s - 1) 0 s t a h)))))
