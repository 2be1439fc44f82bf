-- ===== src/HandleMap/Handles.antt =====
-- The handles that `add` gives out, and what they stand for.
use xul.Prelude.{
  ℕ, zero, suc, ◌+◌, ◌≤◌, ◌<◌, ◌≡◌, refl, sym, ◌∙◌, ◌⊎◌, inl, inr, true, false, none, some, [], ◌∷◌,
  ltb, ◌==◌, arith, Bool-cases, Option-cases,
}
use mathlib.Core.Path.{subst}
use xul.Prelude.Int.{ℤ, pos, negsuc}
use xul.HandleMap.{Handles, lookup, max_key, first_free, add}

module _ {ℓ} {A : Type ℓ} where
  first_free-none :
      (rounds i : ℕ) (m : Handles A) (j : ℕ)
      → first_free rounds i m ≡ some j
      → (lookup j m ≡ none) × (i ≤ j) × (j < i + rounds)
  unfolding first_free
  first_free-none zero i m j h = ground arith
  first_free-none (suc rounds) i m j h = ground (arith, first_free-none rounds (suc i) m j)

  lookup_above : (j : ℕ) (m : Handles A) → max_key m < j → lookup j m ≡ none
  unfolding lookup max_key
  lookup_above j [] h = refl
  lookup_above j ((key, obj) ∷ m) h = ground (arith, lookup_above j m)

  add_small :
      (obj : A) (m : Handles A) (i : ℕ)
      → first_free 99 1 m ≡ some i
      → add obj m ≡ (pos i, (i, obj) ∷ m)
  unfolding add
  add_small obj m i e = rw (add, e) refl

  add_large :
      (obj : A) (m : Handles A)
      → first_free 99 1 m ≡ none
      → max_key m < 1000000
      → add obj m ≡ (pos (max_key m + 1), (max_key m + 1, obj) ∷ m)
  unfolding add
  add_large obj m e h =
      let small : ltb 1000000 (max_key m + 1) ≡ false = ground arith in rw (add, e, small) refl

  add_full :
      (obj : A) (m : Handles A)
      → first_free 99 1 m ≡ none
      → 1000000 ≤ max_key m
      → add obj m ≡ (negsuc 0, m)
  unfolding add
  add_full obj m e h =
      let large : ltb 1000000 (max_key m + 1) ≡ true = ground arith in rw (add, e, large) refl

  pub lookup_first : (obj : A) (m : Handles A) (h : ℕ) → lookup h ((h, obj) ∷ m) ≡ some obj
  unfolding lookup
  lookup_first obj m h = let this : (h == h) ≡ true = ground arith in rw (this) refl

  -- A handle that stands for an object.
  abbrev pub IsTaken : ℕ → Handles A → Type ℓ
  IsTaken i m = (held : A) × (lookup i m ≡ some held)

  -- Every handle from 1 up to this one, which is not counted.
  abbrev pub AllTaken : ℕ → Handles A → Type ℓ
  AllTaken n m = (i : ℕ) → 1 ≤ i → i < n → IsTaken i m

  first_free-free :
      (rounds i : ℕ) (m : Handles A) → lookup i m ≡ none → first_free (suc rounds) i m ≡ some i
  unfolding first_free
  first_free-free rounds i m e = rw (first_free, e) refl

  first_free-taken :
      (rounds i : ℕ) (m : Handles A)
      → IsTaken i m
      → first_free (suc rounds) i m ≡ first_free rounds (suc i) m
  unfolding first_free
  first_free-taken rounds i m (held, e) = rw (first_free, e) refl

  -- The handles that the search leaves behind are taken.
  first_free-passes :
      (rounds i : ℕ) (m : Handles A) (k : ℕ)
      → i ≤ k
      → ((j : ℕ) × (first_free rounds i m ≡ some j) × (k < j))
        ⊎ ((first_free rounds i m ≡ none) × (k < i + rounds))
      → IsTaken k m
  first_free-passes zero i m k low (inl (j, e, h)) = absurd (unfold first_free in ground (arith, e))
  first_free-passes zero i m k low (inr (e, h)) = absurd (omega arith)
  first_free-passes (suc rounds) i m k low result = elim (Option-cases (lookup i m)) [
    | inl free ↦ absurd (stops (first_free-free rounds i m free) result)
    | inr taken ↦ elim (here_or_later i k low) [
      | inl e ↦ subst (λ (t : ℕ). IsTaken t m) e taken
      | inr later ↦
          first_free-passes rounds (suc i) m k later
            (goes_on (sym (first_free-taken rounds i m taken)) result)
    ]
  ]
    where
      here_or_later : (i k : ℕ) → i ≤ k → (i ≡ k) ⊎ (suc i ≤ k)
      here_or_later i k h = omega arith

      stops :
          first_free (suc rounds) i m ≡ some i
          → ((j : ℕ) × (first_free (suc rounds) i m ≡ some j) × (k < j))
            ⊎ ((first_free (suc rounds) i m ≡ none) × (k < i + suc rounds))
          → ⊥
      stops at (inl (j, e, h)) = ground (arith, sym at ∙ e)
      stops at (inr (e, h)) = ground (arith, sym at ∙ e)

      goes_on :
          first_free rounds (suc i) m ≡ first_free (suc rounds) i m
          → ((j : ℕ) × (first_free (suc rounds) i m ≡ some j) × (k < j))
            ⊎ ((first_free (suc rounds) i m ≡ none) × (k < i + suc rounds))
          → ((j : ℕ) × (first_free rounds (suc i) m ≡ some j) × (k < j))
            ⊎ ((first_free rounds (suc i) m ≡ none) × (k < suc i + rounds))
      goes_on same (inl (j, e, h)) = inl (j, same ∙ e, h)
      goes_on same (inr (e, h)) = inr (same ∙ e, omega arith)

  IsTaken-more :
      (key : ℕ) (obj : A) (m : Handles A) (k : ℕ) → IsTaken k m → IsTaken k ((key, obj) ∷ m)
  unfolding lookup
  IsTaken-more key obj m k (held, e) = elim (Bool-cases (key == k)) [
    | inl this ↦ rw this (obj, refl)
    | inr other ↦ rw other (held, e)
  ]

  IsTaken-first : (key : ℕ) (obj : A) (m : Handles A) → IsTaken key ((key, obj) ∷ m)
  IsTaken-first key obj m = (obj, lookup_first obj m key)

  max_key-first :
      (key : ℕ) (obj : A) (m : Handles A)
      → ltb (max_key m) key ≡ true
      → max_key ((key, obj) ∷ m) ≡ key
  unfolding max_key
  max_key-first key obj m e = rw (max_key, e) refl

  max_key-more :
      (key : ℕ) (obj : A) (m : Handles A)
      → ltb (max_key m) key ≡ false
      → max_key ((key, obj) ∷ m) ≡ max_key m
  unfolding max_key
  max_key-more key obj m e = rw (max_key, e) refl

  -- The greatest key stands for an object, and no key above it does.
  max_key-IsTaken : (m : Handles A) → 0 < max_key m → IsTaken (max_key m) m
  max_key-IsTaken [] h = unfold max_key in elim h [ ]
  max_key-IsTaken ((key, obj) ∷ m) h = elim (Bool-cases (ltb (max_key m) key)) [
    | inl above ↦
        subst (λ (t : ℕ). IsTaken t ((key, obj) ∷ m)) (sym (max_key-first key obj m above))
          (IsTaken-first key obj m)
    | inr below ↦
        let same = max_key-more key obj m below in
        subst (λ (t : ℕ). IsTaken t ((key, obj) ∷ m)) (sym same)
          (IsTaken-more key obj m (max_key m) (max_key-IsTaken m (subst (λ (t : ℕ). 0 < t) same h)))
  ]

  IsTaken-le_max : (m : Handles A) (k : ℕ) → IsTaken k m → k ≤ max_key m
  IsTaken-le_max m k (held, e) = elim (le-or_lt k (max_key m)) [
    | inl h ↦ h
    | inr h ↦ absurd (ground (arith, sym (lookup_above k m h) ∙ e))
  ]
    where
      le-or_lt : (k n : ℕ) → (k ≤ n) ⊎ (n < k)
      le-or_lt k n = omega arith

  -- A new handle: the least free one where that is below 100, or else the one after the greatest
  -- that is taken.
  abbrev pub IsNext : ℕ → Handles A → Type ℓ
  IsNext h m =
      ((h < 100) × AllTaken h m)
      ⊎ (AllTaken 100 m × ((g : ℕ) × (h ≡ g + 1) × IsTaken g m × ((k : ℕ) → IsTaken k m → k ≤ g)))

  -- How a call of `add` ends: with a handle, or with -1.
  abbrev pub Added : A → Handles A → ℤ × Handles A → Type ℓ
  Added obj m result =
      ((h : ℕ) × (lookup h m ≡ none)
        × (1 ≤ h)
        × (h ≤ 1000000)
        × IsNext h m
        × (result ≡ (pos h, (h, obj) ∷ m)))
      ⊎ (AllTaken 100 m × ((g : ℕ) × (1000000 ≤ g) × IsTaken g m) × (result ≡ (negsuc 0, m)))

  -- A call of add either makes a handle from 1 to 1000000 that stood for no object stand for the
  -- object and gives it: the least of the handles below 100 that stand for none, or, where these
  -- 99 are all taken, the one after the greatest handle that is taken. Or it gives -1 and changes
  -- nothing, where these 99 are all taken and a handle of 1000000 or more is.
  pub add-Added : (obj : A) (m : Handles A) → Added obj m (add obj m)
  add-Added obj m = elim (Option-cases (first_free 99 1 m)) [
    | inr t ↦
        let (i, e) = t in
        let (fresh, low, high) = first_free-none 99 1 m i e in
        let least : AllTaken i m =
          λ k from below. first_free-passes 99 1 m k from (inl (i, e, below)) in
        inl (i, fresh, low, omega arith, inl (omega arith, least), add_small obj m i e)
    | inl e ↦
        let all : AllTaken 100 m =
          λ k from below. first_free-passes 99 1 m k from (inr (e, below)) in
        let some_key : 0 < max_key m =
          omega (arith, IsTaken-le_max m 1 (all 1 (omega arith) (omega arith))) in
        let greatest = max_key-IsTaken m some_key in
        elim (lt-or_le (max_key m)) [
          | inl h ↦ inl (
            max_key m + 1,
            lookup_above (max_key m + 1) m (omega arith),
            omega arith,
            omega arith,
            inr (all, (max_key m, refl, greatest, λ k taken. IsTaken-le_max m k taken)),
            add_large obj m e h,
          )
          | inr h ↦ inr (all, (max_key m, h, greatest), add_full obj m e h)
        ]
  ]
    where
      lt-or_le : (k : ℕ) → (k < 1000000) ⊎ (1000000 ≤ k)
      lt-or_le k = omega arith
