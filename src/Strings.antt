-- ===== src/Strings.antt =====
-- include/xul/std/strings.hpp: texts cut at delimiters and put together again. `std::string::find` is
-- the first occurrence, and a `maxSplit` below 1, a negative one included, is 0 here.
pub mod Pieces
pub mod Parts
pub mod Comparison
pub mod Cuts
pub mod Pairs
mod Runs
use xul.Prelude.{
  ℕ, zero, suc, ◌+◌, ◌-◌, Bool, true, false, ◌&&◌, Option, none, some, List, [], ◌∷◌, ◌++◌, Bytes,
  length, take, drop, ltb, leb, ◌==◌, if◌then◌else◌,
}
use xul.Prelude.Search.{search, starts_with}
use xul.Prelude.Ctype.{to_lower}

-- `src.find(delimiter, startPos)`, with the part of `src` from `startPos` on: the place in that part.
unfoldable pub find : Bytes → Bytes → Option ℕ
find rest delimiter =
    let pos = search rest delimiter in
    if starts_with delimiter (drop pos rest) then some pos else none

-- The loop of `split`: `count` pieces are cut off, and `rest` starts at `startPos`.
unfoldable pub split_loop : Bytes → ℕ → ℕ → ℕ → Bytes → List Bytes
split_loop delimiter max_split zero count rest = []
split_loop delimiter max_split (suc fuel) count rest =
    if ltb 0 max_split && leb max_split (count + 1) then rest ∷ [] else elim (find rest delimiter) [
      | none ↦ rest ∷ []
      | some pos ↦
          take pos rest
          ∷ split_loop delimiter max_split fuel (count + 1) (drop (pos + length delimiter) rest)
    ]

-- The delimiter that is a string. Every round but the last takes the delimiter at least.
unfoldable pub split : Bytes → Bytes → ℕ → List Bytes
split src delimiter max_split = split_loop delimiter max_split (length src + 1) 0 src

-- The delimiter that is a character.
unfoldable pub split_char : Bytes → ℕ → ℕ → List Bytes
unfolding split
split_char [] delimiter max_split = []
split_char (c ∷ src) delimiter max_split = split (c ∷ src) (delimiter ∷ []) max_split

unfoldable pub join_more : Bytes → List Bytes → Bytes
join_more sep [] = []
join_more sep (s ∷ strs) = sep ++ (s ++ join_more sep strs)

unfoldable pub join : Bytes → List Bytes → Bytes
join sep [] = []
join sep (s ∷ strs) = s ++ join_more sep strs

unfoldable pub split_pair : Bytes → Bytes → Bytes × Bytes
split_pair src delimiter = elim (find src delimiter) [
  | none ↦ (src, [])
  | some pos ↦ (take pos src, drop (pos + length delimiter) src)
]

-- `to_lower_copy(x) == to_lower_copy(y)`, character by character.
unfoldable pub string_iequal_to : Bytes → Bytes → Bool
string_iequal_to [] [] = true
string_iequal_to [] (y ∷ s2) = false
string_iequal_to (x ∷ s1) [] = false
string_iequal_to (x ∷ s1) (y ∷ s2) = (to_lower x == to_lower y) && string_iequal_to s1 s2
