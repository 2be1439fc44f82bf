-- ===== src/StringTable/Fresh.antt =====
-- Entries with new keys, put into a table one after another.
use xul.Prelude.{◌≡◌, refl, Bool, false, List, [], ◌∷◌, ◌++◌, Bytes, inl, inr, Bool-cases, arith}
use xul.StringTable.{Entry, contains, set}

module _ (compare : Bytes → Bytes → Bool) where
  -- The keys of the entries are different from each other and from those that are there.
  unfoldable pub Fresh : List Entry → List Entry → Type 0
  Fresh before [] = Unit
  Fresh before (e ∷ items) =
      (contains compare before e.key ≡ false) × Fresh (before ++ (e ∷ [])) items

  pub set-Fresh :
      (before : List Entry) (e : Entry)
      → contains compare before e.key ≡ false
      → set compare before e.key e.value ≡ before ++ (e ∷ [])
  unfolding contains set
  set-Fresh [] e h = refl
  set-Fresh (b ∷ before) e h = elim (Bool-cases (compare b.key e.key)) [
    | inl same ↦ absurd (ground (arith, h, same))
    | inr other ↦ rw (other, set-Fresh before e (rw other at h)) refl
  ]
