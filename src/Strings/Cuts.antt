-- ===== src/Strings/Cuts.antt =====
-- Cutting at any of some characters, against a definition character by character.
use xul.Prelude.{
  ℕ, zero, suc, ◌+◌, ◌<◌, ◌≡◌, ◌≢◌, refl, sym, Option, none, some, List, [], ◌∷◌, Bytes, length,
  length-drop, take, drop, if◌then◌else◌, inl, inr, Bool-cases, Option-cases, arith,
}
use xul.Strings.Parts.{is_one_of, find_first_of, next, split_of_loop, split_of}

-- A character in front of the first piece.
unfoldable pub in_front : ℕ → List Bytes → List Bytes
in_front c [] = (c ∷ []) ∷ []
in_front c (piece ∷ pieces) = (c ∷ piece) ∷ pieces

-- The pieces between the characters of the delimiter.
unfoldable pub pieces : Bytes → Bytes → List Bytes
unfolding in_front
pieces delimiter [] = [] ∷ []
pieces delimiter (c ∷ src) =
    if is_one_of c delimiter then [] ∷ pieces delimiter src else in_front c (pieces delimiter src)

pub next-some : (o : Option ℕ) (p : ℕ) → next o ≡ some (suc p) → o ≡ some p
next-some none p e = ground (arith, e)
next-some (some q) p e = ground (arith, e)

pub next-none : (o : Option ℕ) → next o ≡ none → o ≡ none
next-none none e = refl
next-none (some q) e = ground (arith, e)

pub next-zero : (o : Option ℕ) → next o ≢ some 0
next-zero none e = ground (arith, e)
next-zero (some q) e = ground (arith, e)

pieces-none :
    (delimiter rest : Bytes)
    → find_first_of rest delimiter ≡ none
    → pieces delimiter rest ≡ rest ∷ []
unfolding find_first_of pieces
pieces-none delimiter [] e = refl
pieces-none delimiter (c ∷ rest) e = elim (Bool-cases (is_one_of c delimiter)) [
  | inl is_there ↦ absurd (ground (arith, e, is_there))
  | inr other ↦
      let further =
        pieces-none delimiter rest (next-none (find_first_of rest delimiter) (rw other at e)) in
      rw (other, further) refl
]

pieces-some :
    (delimiter rest : Bytes) (p : ℕ)
    → find_first_of rest delimiter ≡ some p
    → (pieces delimiter rest ≡ take p rest ∷ pieces delimiter (drop (suc p) rest))
      × (p < length rest)
unfolding find_first_of pieces
pieces-some delimiter [] p e = absurd (ground (arith, e))
pieces-some delimiter (c ∷ rest) zero e = elim (Bool-cases (is_one_of c delimiter)) [
  | inl is_there ↦ (rw is_there refl, omega arith)
  | inr other ↦ absurd (next-zero (find_first_of rest delimiter) (rw other at e))
]
pieces-some delimiter (c ∷ rest) (suc p) e = elim (Bool-cases (is_one_of c delimiter)) [
  | inl is_there ↦ absurd (ground (arith, e, is_there))
  | inr other ↦
      let (further, within) =
        pieces-some delimiter rest p (next-some (find_first_of rest delimiter) p (rw other at e)) in
      (rw (other, further) refl, omega (arith, within))
]

loop-pieces :
    (delimiter : Bytes) (fuel count : ℕ) (rest : Bytes)
    → length rest < fuel
    → split_of_loop delimiter 0 fuel count rest ≡ pieces delimiter rest
unfolding split_of_loop
loop-pieces delimiter zero count rest h = elim h [ ]
loop-pieces delimiter (suc fuel) count rest h = elim (Option-cases (find_first_of rest delimiter)) [
  | inl nothing ↦ rw nothing (sym (pieces-none delimiter rest nothing))
  | inr t ↦
      let (p, e) = t in
      let (further, within) = pieces-some delimiter rest p e in
      let place : p + 1 ≡ suc p = omega arith in
      let more =
        loop-pieces delimiter fuel (count + 1) (drop (suc p) rest)
          (omega (arith, within, length-drop (suc p) rest)) in
      rw (e, place, more, further) refl
]

-- With no limit the loop of split_of ends, and its pieces are what stands between the characters
-- of the delimiter, the empty pieces included.
pub split_of-pieces : (src delimiter : Bytes) → split_of src delimiter 0 ≡ pieces delimiter src
unfolding split_of
split_of-pieces src delimiter = loop-pieces delimiter (length src + 1) 0 src (omega arith)
