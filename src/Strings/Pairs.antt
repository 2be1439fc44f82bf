-- ===== src/Strings/Pairs.antt =====
-- Cutting a text at a character that is only where it is looked for.
use xul.Prelude.{
  ℕ, suc, ◌+◌, ◌<◌, ◌≡◌, refl, sym, ap, ◌∙◌, true, false, none, some, List, [], ◌∷◌, ◌++◌, Bytes,
  All, length, length-append, drop, drop-drop, take-length_append, drop-length_append, leb, ◌==◌,
  arith,
}
use xul.Prelude.Search.{search, starts_with}
use xul.Strings.{find}
use xul.Strings.Parts.{is_one_of, find_first_of, split_of, split_of_loop, split_pair_char}

-- The character is not among these.
abbrev pub NoChar : ℕ → Bytes → Type 0
NoChar c s = All (λ (x : ℕ). (c == x) ≡ false) s

search-NoChar : (c : ℕ) (xs ys : Bytes) → NoChar c xs → search (xs ++ c ∷ ys) (c ∷ []) ≡ length xs
unfolding search starts_with
search-NoChar c [] ys h = let same : (c == c) ≡ true = ground arith in rw same refl
search-NoChar c (x ∷ xs) ys (h, hs) = rw (h, search-NoChar c xs ys hs) refl

pub find-NoChar :
    (c : ℕ) (xs ys : Bytes) → NoChar c xs → find (xs ++ c ∷ ys) (c ∷ []) ≡ some (length xs)
unfolding find starts_with
find-NoChar c xs ys h =
    let place = search-NoChar c xs ys h in
    let behind = drop-length_append xs (c ∷ ys) in
    let same : (c == c) ≡ true = ground arith in rw (find, place, behind, same) refl

search-nowhere : (c : ℕ) (xs : Bytes) → NoChar c xs → search xs (c ∷ []) ≡ length xs
unfolding search starts_with
search-nowhere c [] h = refl
search-nowhere c (x ∷ xs) (h, hs) = rw (h, search-nowhere c xs hs) refl

drop-all : (xs : Bytes) → drop (length xs) xs ≡ []
drop-all [] = refl
drop-all (x ∷ xs) = drop-all xs

pub find-nowhere : (c : ℕ) (xs : Bytes) → NoChar c xs → find xs (c ∷ []) ≡ none
unfolding find starts_with
find-nowhere c xs h =
    let place = search-nowhere c xs h in let behind = drop-all xs in rw (find, place, behind) refl

-- Behind the first part and the character that ends it.
pub drop-behind : (c : ℕ) (xs ys : Bytes) → drop (length xs + 1) (xs ++ c ∷ ys) ≡ ys
drop-behind c xs ys =
    sym (drop-drop (length xs) 1 (xs ++ c ∷ ys))
    ∙ ap (λ (t : Bytes). drop 1 t) (drop-length_append xs (c ∷ ys))

pub split_pair_char-NoChar :
    (c : ℕ) (xs ys : Bytes) → NoChar c xs → split_pair_char (xs ++ c ∷ ys) c ≡ (xs, ys)
unfolding split_pair_char
split_pair_char-NoChar c xs ys h =
    let front = take-length_append xs (c ∷ ys) in
    rw (split_pair_char, find-NoChar c xs ys h, front, drop-behind c xs ys) refl

-- None of the characters of the delimiter is among these.
abbrev pub NoneOf : Bytes → Bytes → Type 0
NoneOf delimiter s = All (λ (x : ℕ). is_one_of x delimiter ≡ false) s

find_first_of-NoneOf :
    (delimiter : Bytes) (c : ℕ) (xs ys : Bytes)
    → NoneOf delimiter xs
    → is_one_of c delimiter ≡ true
    → find_first_of (xs ++ c ∷ ys) delimiter ≡ some (length xs)
unfolding find_first_of
find_first_of-NoneOf delimiter c [] ys h e = rw e refl
find_first_of-NoneOf delimiter c (x ∷ xs) ys (h, hs) e =
    rw (h, find_first_of-NoneOf delimiter c xs ys hs e) refl

piece-NoneOf :
    (delimiter : Bytes) (fuel count : ℕ) (c : ℕ) (xs ys : Bytes)
    → count + 1 < 3
    → is_one_of c delimiter ≡ true
    → NoneOf delimiter xs
    → split_of_loop delimiter 3 (suc fuel) count (xs ++ c ∷ ys)
      ≡ xs ∷ split_of_loop delimiter 3 fuel (count + 1) ys
unfolding split_of_loop
piece-NoneOf delimiter fuel count c xs ys h e hx =
    let few : leb 3 (count + 1) ≡ false = ground arith in
    let there = find_first_of-NoneOf delimiter c xs ys hx e in
    let front = take-length_append xs (c ∷ ys) in
    let behind = drop-behind c xs ys in rw (few, split_of_loop, there, front, behind) refl

last-piece :
    (delimiter : Bytes) (fuel : ℕ) (zs : Bytes)
    → split_of_loop delimiter 3 (suc fuel) 2 zs ≡ zs ∷ []
unfolding split_of_loop
last-piece delimiter fuel zs = refl

-- Three parts: the last may hold the characters of the delimiter.
pub split_of-three :
    (delimiter : Bytes) (c d : ℕ) (xs ys zs : Bytes)
    → is_one_of c delimiter ≡ true
    → is_one_of d delimiter ≡ true
    → NoneOf delimiter xs
    → NoneOf delimiter ys
    → split_of (xs ++ c ∷ (ys ++ d ∷ zs)) delimiter 3 ≡ xs ∷ ys ∷ zs ∷ []
unfolding split_of
split_of-three delimiter c d xs ys zs ec ed hx hy =
    let n = length xs + length ys + length zs in
    let enough : length (xs ++ c ∷ (ys ++ d ∷ zs)) + 1 ≡ suc (suc (suc n)) =
      omega (arith, length-append xs (c ∷ (ys ++ d ∷ zs)), length-append ys (d ∷ zs)) in
    ap (λ (fuel : ℕ). split_of_loop delimiter 3 fuel 0 (xs ++ c ∷ (ys ++ d ∷ zs))) enough
    ∙ piece-NoneOf delimiter (suc (suc n)) 0 c xs (ys ++ d ∷ zs) (omega arith) ec hx
    ∙ ap (λ (t : List Bytes). xs ∷ t) (piece-NoneOf delimiter (suc n) 1 d ys zs (omega arith) ed hy)
    ∙ ap (λ (t : List Bytes). xs ∷ ys ∷ t) (last-piece delimiter n zs)
