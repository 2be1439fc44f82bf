-- ===== src/StringTable.antt =====
-- include/xul/data/associative_string_array.hpp: keys and values in the order of insertion, looked up
-- by `compare`, the template argument CompareT: `compare k key` is m_compare(iter->key, key). Null keys
-- and values, which the source asserts against, do not occur.
pub mod Updates
pub mod Fresh
pub mod CaseInsensitive
mod Runs
use xul.Prelude.{ℕ, Bool, true, false, List, [], ◌∷◌, ◌++◌, Bytes, length, if◌then◌else◌}

pub record Entry : Type 0 where
  pub key : Bytes
  pub value : Bytes

unfoldable pub clear : List Entry → List Entry
clear items = []

unfoldable pub size : List Entry → ℕ
size items = length items

module _ (compare : Bytes → Bytes → Bool) where
  unfoldable pub contains : List Entry → Bytes → Bool
  contains [] key = false
  contains (e ∷ items) key =
      let rest = contains items key in if compare e.key key then true else rest

  unfoldable pub get : List Entry → Bytes → Bytes → Bytes
  get [] key default_value = default_value
  get (e ∷ items) key default_value =
      let rest = get items key default_value in if compare e.key key then e.value else rest

  unfoldable pub set : List Entry → Bytes → Bytes → List Entry
  set [] key val = record { key = key; value = val } ∷ []
  set (e ∷ items) key val =
      let rest = set items key val in
      if compare e.key key then record e { value = val } ∷ items else e ∷ rest

  -- The result of `remove`, and the items after it.
  unfoldable pub remove : List Entry → Bytes → Bool × List Entry
  remove [] key = (false, [])
  remove (e ∷ items) key =
      let rest = remove items key in
      if compare e.key key then (true, items) else (rest.0, e ∷ rest.1)
