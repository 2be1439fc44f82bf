-- ===== src/HandleMap.antt =====
-- include/xul/util/handle_map.hpp: handles, numbers from 1 on, for objects. The map is a list of the
-- keys and their values in the order of insertion; its greatest key is what `rbegin` gives.
pub mod Handles
pub mod Calls
mod Runs
use xul.Prelude.{
  ℕ, zero, suc, ◌+◌, ◌-◌, Bool, true, false, Option, none, some, List, [], ◌∷◌, ltb, ◌==◌,
  if◌then◌else◌,
}
use xul.Prelude.Int.{ℤ, pos, negsuc}

abbrev pub Handles {ℓ} : Type ℓ → Type ℓ
Handles A = List (ℕ × A)

unfoldable pub lookup {ℓ} : {A : Type ℓ} → ℕ → Handles A → Option A
lookup handle [] = none
lookup handle ((key, obj) ∷ handles) =
    let rest = lookup handle handles in if key == handle then some obj else rest

unfoldable pub max_key {ℓ} : {A : Type ℓ} → Handles A → ℕ
max_key [] = 0
max_key ((key, obj) ∷ handles) = let rest = max_key handles in if ltb rest key then key else rest

unfoldable pub erase {ℓ} : {A : Type ℓ} → ℕ → Handles A → Handles A
erase handle [] = []
erase handle ((key, obj) ∷ handles) =
    let rest = erase handle handles in if key == handle then handles else (key, obj) ∷ rest

-- `for (i = ...; i < 100; ++i)` with so many rounds left: the first `i` that is no key.
unfoldable pub first_free {ℓ} : {A : Type ℓ} → ℕ → ℕ → Handles A → Option ℕ
first_free zero i handles = none
first_free (suc rounds) i handles =
    let rest = first_free rounds (suc i) handles in
    elim (lookup i handles) [ none ↦ some i | some _ ↦ rest ]

unfoldable pub add {ℓ} : {A : Type ℓ} → A → Handles A → ℤ × Handles A
add obj handles =
    let handle = max_key handles + 1 in
    elim (first_free 99 1 handles) [
      | some i ↦ (pos i, (i, obj) ∷ handles)
      | none ↦
          if ltb 1000000 handle then (negsuc 0, handles) else (pos handle, (handle, obj) ∷ handles)
    ]

-- `null` is the `T()` that stands for no object.
unfoldable pub find {ℓ} : {A : Type ℓ} → A → ℕ → Handles A → A
find null handle handles = elim (lookup handle handles) [ none ↦ null | some obj ↦ obj ]

unfoldable pub remove {ℓ} : {A : Type ℓ} → A → ℕ → Handles A → A × Handles A
remove null handle handles = elim (lookup handle handles) [
  | none ↦ (null, handles)
  | some obj ↦ (obj, erase handle handles)
]
