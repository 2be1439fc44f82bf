-- ===== src/HandleMap/Calls.antt =====
-- What find and remove give after add and remove.
use xul.Prelude.{
  ℕ, ◌≡◌, ◌≢◌, refl, sym, ap, ◌∙◌, inl, inr, true, false, some, [], ◌∷◌, ◌==◌, if◌then◌else◌, arith,
  Bool-cases, Option-cases,
}
use xul.Prelude.Int.{ℤ, pos}
use xul.HandleMap.{Handles, lookup, erase, add, find, remove}
use xul.HandleMap.Handles.{add-Added, lookup_first}

module _ {ℓ} {A : Type ℓ} where
  lookup-erase_other : (h k : ℕ) (m : Handles A) → h ≢ k → lookup k (erase h m) ≡ lookup k m
  unfolding lookup erase
  lookup-erase_other h k [] ne = refl
  lookup-erase_other h k ((key, obj) ∷ m) ne = ground (arith, lookup-erase_other h k m ne)

  added_as :
      (obj : A) (m : Handles A) (h : ℕ) → (add obj m).0 ≡ pos h → (add obj m).1 ≡ (h, obj) ∷ m
  added_as obj m h e = elim (add-Added obj m) [
    | inl t ↦
        let (i, fresh, low, high, next, same) = t in
        let which : i ≡ h = ground (arith, sym (ap (λ (t : ℤ × Handles A). t.0) same) ∙ e) in
        ap (λ (t : ℤ × Handles A). t.1) same ∙ ap (λ (t : ℕ). (t, obj) ∷ m) which
    | inr t ↦
        let (full, large, same) = t in
        absurd (ground (arith, sym (ap (λ (t : ℤ × Handles A). t.0) same) ∙ e))
  ]

  erase_first : (obj : A) (m : Handles A) (h : ℕ) → erase h ((h, obj) ∷ m) ≡ m
  unfolding erase
  erase_first obj m h = let this : (h == h) ≡ true = ground arith in rw (this) refl

  remove_first : (null obj : A) (m : Handles A) (h : ℕ) → remove null h ((h, obj) ∷ m) ≡ (obj, m)
  unfolding remove
  remove_first null obj m h =
      let here : lookup h ((h, obj) ∷ m) ≡ some obj = lookup_first obj m h in
      rw (remove, here, erase_first obj m h) refl

  find_first :
      (null obj : A) (m : Handles A) (h k : ℕ)
      → find null k ((h, obj) ∷ m) ≡ (if k == h then obj else find null k m)
  unfolding find lookup
  find_first null obj m h k = elim (Bool-cases (k == h)) [
    | inl e ↦ let that : (h == k) ≡ true = ground arith in rw (e, find, lookup, that) refl
    | inr e ↦ let that : (h == k) ≡ false = ground arith in rw (e, find, lookup, that) refl
  ]

  -- Removing the handle that add just gave returns the object and leaves the handles as they were
  -- before add.
  pub remove-add :
      (null obj : A) (m : Handles A) (h : ℕ)
      → (add obj m).0 ≡ pos h
      → remove null h (add obj m).1 ≡ (obj, m)
  remove-add null obj m h e = rw (added_as obj m h e) (remove_first null obj m h)

  -- After add gave the handle h, find gives the object at h and what it gave before at every other
  -- handle.
  pub find-add :
      (null obj : A) (m : Handles A) (h k : ℕ)
      → (add obj m).0 ≡ pos h
      → find null k (add obj m).1 ≡ (if k == h then obj else find null k m)
  find-add null obj m h k e = rw (added_as obj m h e) (find_first null obj m h k)

  -- Removing a handle does not change what find gives at any other handle.
  pub find-remove_other :
      (null : A) (m : Handles A) (h k : ℕ) → h ≢ k → find null k (remove null h m).1 ≡ find null k m
  unfolding find remove
  find-remove_other null m h k ne = elim (Option-cases (lookup h m)) [
    | inl e ↦ rw (remove, e) refl
    | inr t ↦ let (obj, e) = t in rw (remove, find, e, lookup-erase_other h k m ne) refl
  ]
