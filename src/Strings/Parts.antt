-- ===== src/Strings/Parts.antt =====
-- More of include/xul/std/strings.hpp: cutting at any of some characters, parts, and letters of either case.
-- `none` is the exception of substr past the end of the text.
use xul.Prelude.{
  ℕ, zero, suc, ◌+◌, ◌-◌, Bool, true, false, ◌&&◌, ◌||◌, Option, none, some, List, [], ◌∷◌, Bytes,
  map, length, take, drop, ltb, leb, ◌==◌, if◌then◌else◌,
}
use xul.Prelude.Int.{ℤ, pos, negsuc}
use xul.Prelude.Ctype.{to_lower, to_upper}
use xul.Strings.{find}

unfoldable pub is_one_of : ℕ → Bytes → Bool
is_one_of c [] = false
is_one_of c (x ∷ characters) = (c == x) || is_one_of c characters

abbrev pub next : Option ℕ → Option ℕ
next none = none
next (some n) = some (suc n)

-- `src.find_first_of(delimiter, startPos)`, with the part of `src` from `startPos` on.
unfoldable pub find_first_of : Bytes → Bytes → Option ℕ
unfolding is_one_of
find_first_of [] delimiter = none
find_first_of (c ∷ rest) delimiter =
    if is_one_of c delimiter then some 0 else next (find_first_of rest delimiter)

unfoldable pub split_of_loop : Bytes → ℕ → ℕ → ℕ → Bytes → List Bytes
unfolding find_first_of
split_of_loop delimiter max_split zero count rest = []
split_of_loop delimiter max_split (suc fuel) count rest =
    if ltb 0 max_split && leb max_split (count + 1)
    then rest ∷ []
    else elim (find_first_of rest delimiter) [
      | none ↦ rest ∷ []
      | some p ↦
          take p rest ∷ split_of_loop delimiter max_split fuel (count + 1) (drop (p + 1) rest)
    ]

-- Every round but the last takes a character at least.
unfoldable pub split_of : Bytes → Bytes → ℕ → List Bytes
unfolding split_of_loop
split_of src delimiter max_split = split_of_loop delimiter max_split (length src + 1) 0 src

unfoldable pub split_pair_char : Bytes → ℕ → Bytes × Bytes
split_pair_char src delimiter = elim (find src (delimiter ∷ [])) [
  | none ↦ (src, [])
  | some p ↦ (take p src, drop (p + 1) src)
]

-- As many characters as the delimiter has are passed, though one of them was found.
unfoldable pub split_pair_of : Bytes → Bytes → Option (Bytes × Bytes)
unfolding find_first_of
split_pair_of src delimiter = elim (find_first_of src delimiter) [
  | none ↦ some (src, [])
  | some p ↦
      if leb (p + length delimiter) (length src)
      then some (take p src, drop (p + length delimiter) src)
      else none
]

unfoldable pub split_at : Bytes → ℕ → Option (Bytes × Bytes)
split_at src p = if leb p (length src) then some (take p src, drop p src) else none

-- `none` for `end` is npos; an end before the start makes a large count of the characters.
unfoldable pub extract_string : Bytes → ℕ → Option ℕ → Option Bytes
extract_string s start none = if leb start (length s) then some (drop start s) else none
extract_string s start (some end) =
    if leb start (length s)
    then if leb start end then some (take (end - start) (drop start s)) else some (drop start s)
    else none

unfoldable pub make_upper : Bytes → Bytes
make_upper s = map to_upper s

unfoldable pub make_lower : Bytes → Bytes
make_lower s = map to_lower s

-- `x1 == y1`, and `x1 > y1` by the bytes.
unfoldable pub same_text : Bytes → Bytes → Bool
same_text [] [] = true
same_text [] (y ∷ t) = false
same_text (x ∷ s) [] = false
same_text (x ∷ s) (y ∷ t) = (x == y) && same_text s t

unfoldable pub after : Bytes → Bytes → Bool
after [] t = false
after (x ∷ s) [] = true
after (x ∷ s) (y ∷ t) = let rest = after s t in if x == y then rest else ltb y x

unfoldable pub icompare : Bytes → Bytes → ℤ
unfolding make_lower same_text after
icompare x y =
    let x1 = make_lower x in
    let y1 = make_lower y in
    if same_text x1 y1 then pos 0 else if after x1 y1 then pos 1 else negsuc 0
