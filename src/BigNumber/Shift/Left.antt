-- ===== src/BigNumber/Shift/Left.antt =====
-- `operator<<=` multiplies by a power of 2, modulo 256 ^ byte_count.
use xul.Prelude.{
  ℕ, zero, suc, ◌+◌, ◌-◌, ◌*◌, ◌/◌, ◌%◌, ◌^◌, ◌<◌, ◌≤◌, ◌≡◌, refl, ap, ◌∙◌, Bytes, IsByte, All,
  bit_or, arith, ltb, leb, ◌==◌, if◌then◌else◌, length, get_or, set, take, drop, length-set,
  length-replicate, Bool-cases, inl, inr,
}
use xul.Prelude.Mod.{mod_of_sum, pow-add}
use xul.BigNumber.{u8, clear}
use xul.BigNumber.Value.{
  value, range, value-lt-range, value-replicate, value-lt_of_length, value-take-suc, value_split,
  replicate-IsByte, get_or-IsByte, take_all,
}
use xul.BigNumber.Shift.{move_up, merge_up, zero_range, shift_left}
use xul.BigNumber.Shift.Cells.{
  get_or-set, get_or-move_up, get_or-merge_up, get_or-zero_range, length-move_up, length-merge_up,
  length-zero_range, joined_up, zero_range-IsByte, move_up-IsByte, merge_up-IsByte, set-u8-IsByte,
  choice-IsByte,
}
use native.Mathlib.Nat.{pow-suc, one-le-pow}
use xul.BigNumber.Shift.Powers.{joined_up_byte, shifted_byte, two-pow_bytes}

-- What a shift up by `s` bytes and `t` bits leaves at each position.
abbrev shifted_cell : Bytes → ℕ → ℕ → ℕ → ℕ
shifted_cell a s t j =
    if ltb j s then 0 else if j == s then u8 (get_or a 0 0 * 2 ^ t) else joined_up a t (j - s)

module _ (a : Bytes) (h : All IsByte a) (s t : ℕ) (fits : s < length a) where
  abbrev by_bytes : Bytes
  by_bytes = zero_range s 0 (move_up (length a - s) s a)

  abbrev by_bits : Bytes
  by_bits =
      let merged = merge_up (length a - s - 1) s t a in
      zero_range s 0 (set merged s (u8 (get_or merged 0 0 * 2 ^ t)))

  length-by_bytes : length by_bytes ≡ length a
  length-by_bytes = length-zero_range s 0 _ ∙ length-move_up (length a - s) s a

  length-by_bits : length by_bits ≡ length a
  length-by_bits =
      length-zero_range s 0 _ ∙ length-set _ s _ ∙ length-merge_up (length a - s - 1) s t a

  get_or-by_bytes :
      (j : ℕ) → j < length a → get_or by_bytes j 0 ≡ (if ltb j s then 0 else get_or a (j - s) 0)
  get_or-by_bytes j hj = ground (
    arith,
    get_or-zero_range s 0 (move_up (length a - s) s a) j,
    get_or-move_up (length a - s) s a j,
    length-move_up (length a - s) s a,
  )

  get_or-by_bits : (j : ℕ) → j < length a → get_or by_bits j 0 ≡ shifted_cell a s t j
  get_or-by_bits j hj =
      let merged : Bytes = merge_up (length a - s - 1) s t a in
      let v : ℕ = u8 (get_or merged 0 0 * 2 ^ t) in
      ground (
        arith,
        get_or-zero_range s 0 (set merged s v) j,
        get_or-set merged s v j,
        get_or-merge_up (length a - s - 1) s t a j,
        get_or-merge_up (length a - s - 1) s t a 0,
        length-merge_up (length a - s - 1) s t a,
        length-set merged s v,
      )

-- With no bits to shift, a joined byte is the byte itself.
whole_byte : (x y : ℕ) → IsByte x → IsByte y → u8 (bit_or (x * 2 ^ 0) (y / 2 ^ (8 - 0))) ≡ x
whole_byte x y hx hy = omega (arith, joined_up_byte 0 x y (omega arith) hx hy)

regroup :
    (v c low high p q u n : ℕ)
    → v + c * n ≡ p * q * low
    → n ≡ u * p
    → v + (c + q * high) * n ≡ (low + u * high) * (p * q)
regroup v c low high p q u n e f = omega (arith, e, ap (λ (x : ℕ). q * high * x) f)

module _ (a : Bytes) (h : All IsByte a) (s t : ℕ) (r : Bytes) where
  module _ (t8 : t < 8) (cell : (j : ℕ) → j < length a → get_or r j 0 ≡ shifted_cell a s t j) where
    low_zero : (k : ℕ) → k ≤ s → s < length a → value (take k r) ≡ 0
    unfolding value
    low_zero zero hk hs = refl
    low_zero (suc k) hk hs =
        ground (arith, value-take-suc k r, cell k (omega arith), low_zero k (omega arith) hs)

    -- The bits that have left byte `m - 1` upwards.
    carry : ℕ → ℕ
    carry zero = 0
    carry (suc m) = get_or a m 0 / 2 ^ (8 - t)

    cell_value :
        (m : ℕ)
        → m + s < length a
        → get_or r (m + s) 0 + 256 * carry (suc m) ≡ get_or a m 0 * 2 ^ t + carry m
    unfolding carry
    cell_value zero hm =
        ground (arith, cell (zero + s) hm, shifted_byte t (get_or a 0 0) t8 (get_or-IsByte a 0 h))
    cell_value (suc m) hm =
        let e : suc m + s - s ≡ suc m = omega arith in
        let e' : suc m - 1 ≡ m = omega arith in
        ground (
          arith,
          cell (suc m + s) hm,
          ap (joined_up a t) e,
          ap (λ (i : ℕ). get_or a i 0) e',
          joined_up_byte t (get_or a (suc m) 0) (get_or a m 0) t8 (get_or-IsByte a (suc m) h)
              (get_or-IsByte a m h),
        )

    climb :
        (m : ℕ)
        → s < length a
        → m + s ≤ length a
        → value (take (m + s) r) + carry m * 256 ^ (m + s) ≡ 256 ^ s * 2 ^ t * value (take m a)
    unfolding carry value
    climb zero hs hm =
        let e : zero + s ≡ s = omega arith in rw e (omega (arith, low_zero s (omega arith) hs))
    climb (suc m) hs hm =
        let e : suc m + s ≡ suc (m + s) = omega arith in
        rw e (
          omega (
            arith,
            value-take-suc (m + s) r,
            pow-suc 256 (m + s),
            climb m hs (omega arith),
            ap (λ (x : ℕ). 256 ^ (m + s) * x) (cell_value m (omega arith)),
            ap (λ (x : ℕ). x * (get_or a m 0 * 2 ^ t)) (pow-add 256 m s),
            ap (λ (x : ℕ). 256 ^ s * 2 ^ t * x) (value-take-suc m a),
            ap (λ (x : ℕ). get_or a m 0 / 2 ^ (8 - t) * x) (pow-suc 256 (m + s)),
          ))

    -- All bytes together: what passes the highest byte is lost.
    shifted_value :
        length r ≡ length a
        → s < length a
        → value r < range a
        → value r ≡ (value a * 2 ^ (s * 8 + t)) % range a
    shifted_value same hs small =
        mod_of_sum (value r) (carry (length a - s) + 2 ^ t * value (drop (length a - s) a))
          (range a) (value a * 2 ^ (s * 8 + t)) small
          (rw (value_split (length a - s) a (omega arith), two-pow_bytes s t)
            (regroup (value r) (carry (length a - s)) (value (take (length a - s) a))
              (value (drop (length a - s) a)) (256 ^ s) (2 ^ t) (256 ^ (length a - s)) (range a)
              (top (length a - s) (omega arith)) powers))
      where
        powers : range a ≡ 256 ^ (length a - s) * 256 ^ s
        powers =
            let e : length a - s + s ≡ length a = omega arith in
            rw e at (pow-add 256 (length a - s) s)

        top :
            (m : ℕ)
            → m + s ≡ length a
            → value r + carry m * range a ≡ 256 ^ s * 2 ^ t * value (take m a)
        top m e =
            let whole : value (take (m + s) r) ≡ value r = rw (e, ← same) (ap value (take_all r)) in
            let power : carry m * 256 ^ (m + s) ≡ carry m * range a = rw e in
            omega (arith, climb m hs (omega arith), whole, power)

module _ (a : Bytes) (h : All IsByte a) (s t : ℕ) (fits : s < length a) where
  by_bytes-cell : (j : ℕ) → j < length a → get_or (by_bytes a h s t fits) j 0 ≡ shifted_cell a s 0 j
  by_bytes-cell j hj = ground (
    arith,
    get_or-by_bytes a h s t fits j hj,
    whole_byte (get_or a (j - s) 0) (get_or a (j - s - 1) 0) (get_or-IsByte a (j - s) h)
        (get_or-IsByte a (j - s - 1) h),
    get_or-IsByte a 0 h,
    ap (λ (i : ℕ). get_or a i 0) (at_start j),
  )
    where
      at_start : (i : ℕ) → (if i == s then i - s else 0) ≡ 0
      at_start i = ground arith

  by_bytes-IsByte : All IsByte (by_bytes a h s t fits)
  by_bytes-IsByte = zero_range-IsByte s 0 _ (move_up-IsByte (length a - s) s a h)

  by_bits-IsByte : All IsByte (by_bits a h s t fits)
  by_bits-IsByte =
      zero_range-IsByte s 0 _ (set-u8-IsByte _ s _ (merge_up-IsByte (length a - s - 1) s t a h))

pub length-shift_left : (a : Bytes) (shift : ℕ) → length (shift_left a shift) ≡ length a
unfolding shift_left clear
length-shift_left a shift =
    let s : ℕ = shift / 8 in
    let t : ℕ = shift % 8 in
    ground (
      arith,
      length-replicate {A = ℕ} (length a) 0,
      length-zero_range s 0 (move_up (length a - s) s a),
      length-move_up (length a - s) s a,
      length-zero_range s 0 (
          set (merge_up (length a - s - 1) s t a) s
            (u8 (get_or (merge_up (length a - s - 1) s t a) 0 0 * 2 ^ t))),
      length-set (merge_up (length a - s - 1) s t a) s
          (u8 (get_or (merge_up (length a - s - 1) s t a) 0 0 * 2 ^ t)),
      length-merge_up (length a - s - 1) s t a,
    )

-- A shift by the whole width or more leaves nothing.
all_lost : (a : Bytes) (shift : ℕ) → length a * 8 ≤ shift → 0 ≡ (value a * 2 ^ shift) % range a
all_lost a shift h =
    let e : shift ≡ length a * 8 + (shift - length a * 8) = omega arith in
    mod_of_sum 0 (value a * 2 ^ (shift - length a * 8)) (range a) (value a * 2 ^ shift)
      (omega (arith, one-le-pow (length a) 256 (omega arith)))
      (omega (
        arith,
        ap (λ (x : ℕ). value a * 2 ^ x) e,
        ap (λ (x : ℕ). value a * x) (two-pow_bytes (length a) (shift - length a * 8)),
      ))

value-by_bytes :
    (a : Bytes) (shift : ℕ) (h : All IsByte a) (fits : shift < length a * 8)
    → shift % 8 ≡ 0
    → value (zero_range (shift / 8) 0 (move_up (length a - shift / 8) (shift / 8) a))
      ≡ (value a * 2 ^ shift) % range a
value-by_bytes a shift h fits whole =
    let s : ℕ = shift / 8 in
    let hs : s < length a = omega arith in
    let e : s * 8 + 0 ≡ shift = omega arith in
    rw e at (
      shifted_value a h s 0 (by_bytes a h s 0 hs) (omega arith) (by_bytes-cell a h s 0 hs)
        (length-by_bytes a h s 0 hs) hs
        (value-lt_of_length _ (by_bytes-IsByte a h s 0 hs) (length-by_bytes a h s 0 hs)))

value-by_bits :
    (a : Bytes) (shift : ℕ) (h : All IsByte a) (fits : shift < length a * 8)
    → value (by_bits a h (shift / 8) (shift % 8) (omega arith)) ≡ (value a * 2 ^ shift) % range a
value-by_bits a shift h fits =
    let s : ℕ = shift / 8 in
    let t : ℕ = shift % 8 in
    let hs : s < length a = omega arith in
    let e : s * 8 + t ≡ shift = omega arith in
    rw e at (
      shifted_value a h s t (by_bits a h s t hs) (omega arith) (get_or-by_bits a h s t hs)
        (length-by_bits a h s t hs) hs
        (value-lt_of_length _ (by_bits-IsByte a h s t hs) (length-by_bits a h s t hs)))

-- a <<= shift leaves the product of the value and 2 ^ shift modulo 256 ^ byte_count, for every
-- shift, those of the whole width and more included.
pub value-shift_left :
    (a : Bytes) (shift : ℕ)
    → All IsByte a
    → value (shift_left a shift) ≡ (value a * 2 ^ shift) % range a
unfolding shift_left clear
value-shift_left a shift h = elim (Bool-cases (shift == 0)) [
  | inl zero_shift ↦ rw zero_shift (
      let e : shift ≡ 0 = ground arith in
      rw e (mod_of_sum (value a) 0 (range a) (value a * 2 ^ 0) (value-lt-range a h) (omega arith)))
  | inr some_shift ↦ elim (Bool-cases (leb (length a * 8) shift)) [
    | inl far ↦ rw (some_shift, far) (value-replicate (length a) ∙ all_lost a shift (ground arith))
    | inr near ↦ elim (Bool-cases (shift % 8 == 0)) [
      | inl whole ↦
          rw (some_shift, near, whole) (value-by_bytes a shift h (ground arith) (ground arith))
      | inr part ↦ rw (some_shift, near, part) (value-by_bits a shift h (ground arith))
    ]
  ]
]

pub shift_left-IsByte : (a : Bytes) (shift : ℕ) → All IsByte a → All IsByte (shift_left a shift)
unfolding shift_left clear
shift_left-IsByte a shift h =
    let s : ℕ = shift / 8 in
    let t : ℕ = shift % 8 in
    let merged = merge_up (length a - s - 1) s t a in
    choice-IsByte (shift == 0) a _ h (
      choice-IsByte (leb (length a * 8) shift) (clear (length a)) _ (replicate-IsByte (length a)) (
        choice-IsByte (t == 0) _ _ (zero_range-IsByte s 0 _ (move_up-IsByte (length a - s) s a h)) (
          zero_range-IsByte s 0 (set merged s (u8 (get_or merged 0 0 * 2 ^ t)))
            (set-u8-IsByte merged s _ (merge_up-IsByte (length a - s - 1) s t a h)))))
