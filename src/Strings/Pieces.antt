-- ===== src/Strings/Pieces.antt =====
-- The pieces of a text.
use xul.Prelude.{
  ℕ, zero, suc, ◌+◌, ◌≤◌, ◌<◌, ◌≡◌, refl, ap, true, false, ◌&&◌, none, some, [], ◌∷◌, ◌++◌,
  append-nil, Bytes, length, take, drop, ltb, leb, arith, length-drop, drop-drop, take-append-drop,
  Option-cases, Bool-cases, inl, inr, ◌⊎◌,
}
use xul.Prelude.Search.{starts_with, starts_with-length}
use xul.Strings.{find, split_loop, split, join, join_more, split_pair}

starts_with-drop :
    (pattern bytes : Bytes)
    → starts_with pattern bytes ≡ true
    → pattern ++ drop (length pattern) bytes ≡ bytes
unfolding starts_with
starts_with-drop [] bytes h = refl
starts_with-drop (p ∷ pattern) [] h = ground arith
starts_with-drop (p ∷ pattern) (c ∷ bytes) h = ground (arith, starts_with-drop pattern bytes)

find-some :
    (rest delimiter : Bytes) (pos : ℕ)
    → find rest delimiter ≡ some pos
    → starts_with delimiter (drop pos rest) ≡ true
unfolding find
find-some rest delimiter pos h = ground arith

pub found_parts :
    (rest delimiter : Bytes) (pos : ℕ)
    → find rest delimiter ≡ some pos
    → take pos rest ++ (delimiter ++ drop (pos + length delimiter) rest) ≡ rest
found_parts rest delimiter pos h =
    rw
      (
        ← drop-drop pos (length delimiter) rest,
        starts_with-drop delimiter (drop pos rest) (find-some rest delimiter pos h),
      )
      (take-append-drop pos rest)

module _ (delimiter : Bytes) (max_split : ℕ) (some_delimiter : 0 < length delimiter) where
  loop_stop :
      (fuel count : ℕ) (rest : Bytes)
      → (ltb 0 max_split && leb max_split (count + 1)) ≡ true
      → split_loop delimiter max_split (suc fuel) count rest ≡ rest ∷ []
  unfolding split_loop
  loop_stop fuel count rest h = rw h refl

  loop_last :
      (fuel count : ℕ) (rest : Bytes)
      → (ltb 0 max_split && leb max_split (count + 1)) ≡ false
      → find rest delimiter ≡ none
      → split_loop delimiter max_split (suc fuel) count rest ≡ rest ∷ []
  unfolding split_loop
  loop_last fuel count rest h e = rw (h, e) refl

  loop_cut :
      (fuel count : ℕ) (rest : Bytes) (pos : ℕ)
      → (ltb 0 max_split && leb max_split (count + 1)) ≡ false
      → find rest delimiter ≡ some pos
      → split_loop delimiter max_split (suc fuel) count rest
        ≡ take pos rest
          ∷ split_loop delimiter max_split fuel (count + 1) (drop (pos + length delimiter) rest)
  unfolding split_loop
  loop_cut fuel count rest pos h e = rw (h, e) refl

  -- How a round ends: with the last piece, or with a piece and another round.
  abbrev Round : ℕ → ℕ → Bytes → Type 0
  Round fuel count rest =
      (split_loop delimiter max_split (suc fuel) count rest ≡ rest ∷ [])
      ⊎ ((pos : ℕ) × ((ltb 0 max_split && leb max_split (count + 1)) ≡ false)
          × (find rest delimiter ≡ some pos)
          × (length (drop (pos + length delimiter) rest) < length rest)
          × (split_loop delimiter max_split (suc fuel) count rest
              ≡ take pos rest
                ∷ split_loop delimiter max_split fuel (count + 1)
                    (drop (pos + length delimiter) rest)))

  loop-Round : (fuel count : ℕ) (rest : Bytes) → Round fuel count rest
  loop-Round fuel count rest = elim (Bool-cases (ltb 0 max_split && leb max_split (count + 1))) [
    | inl stops ↦ inl (loop_stop fuel count rest stops)
    | inr goes ↦ elim (Option-cases (find rest delimiter)) [
      | inl e ↦ inl (loop_last fuel count rest goes e)
      | inr t ↦
          let (pos, e) = t in inr (pos, goes, e, shorter pos e, loop_cut fuel count rest pos goes e)
    ]
  ]
    where
      shorter :
          (pos : ℕ)
          → find rest delimiter ≡ some pos
          → length (drop (pos + length delimiter) rest) < length rest
      shorter pos e = omega (
        arith,
        length-drop (pos + length delimiter) rest,
        length-drop pos rest,
        starts_with-length delimiter (drop pos rest) (find-some rest delimiter pos e),
      )

  join_more-loop :
      (fuel count : ℕ) (rest : Bytes)
      → length rest < fuel
      → join_more delimiter (split_loop delimiter max_split fuel count rest) ≡ delimiter ++ rest
  unfolding join_more
  join_more-loop zero count rest h = elim h [ ]
  join_more-loop (suc fuel) count rest h = elim (loop-Round fuel count rest) [
    | inl e ↦ rw e (ap (λ (t : Bytes). delimiter ++ t) (append-nil rest))
    | inr t ↦
        let (pos, goes, found, shorter, e) = t in
        let later =
          join_more-loop fuel (count + 1) (drop (pos + length delimiter) rest) (omega arith) in
        rw (e, later) (ap (λ (t : Bytes). delimiter ++ t) (found_parts rest delimiter pos found))
  ]

  join-loop :
      (fuel count : ℕ) (rest : Bytes)
      → length rest < fuel
      → join delimiter (split_loop delimiter max_split fuel count rest) ≡ rest
  unfolding join
  join-loop zero count rest h = elim h [ ]
  join-loop (suc fuel) count rest h = elim (loop-Round fuel count rest) [
    | inl e ↦ rw e (unfold join_more in append-nil rest)
    | inr t ↦
        let (pos, goes, found, shorter, e) = t in
        let later =
          join_more-loop fuel (count + 1) (drop (pos + length delimiter) rest) (omega arith) in
        rw (e, later) (found_parts rest delimiter pos found)
  ]

  length-loop :
      (fuel count : ℕ) (rest : Bytes)
      → count < max_split
      → length (split_loop delimiter max_split fuel count rest) + count ≤ max_split
  length-loop zero count rest h = unfold split_loop in omega arith
  length-loop (suc fuel) count rest h = elim (loop-Round fuel count rest) [
    | inl e ↦ rw e (omega arith)
    | inr t ↦
        let (pos, goes, found, shorter, e) = t in
        let room : count + 1 < max_split = ground arith in
        rw e (omega (arith, length-loop fuel (count + 1) (drop (pos + length delimiter) rest) room))
  ]

  -- For a delimiter that is not empty and any limit of pieces, joining with the delimiter the
  -- pieces that split gives of a text gives the text back.
  pub join-split : (src : Bytes) → join delimiter (split src delimiter max_split) ≡ src
  unfolding split
  join-split src = join-loop (length src + 1) 0 src (omega arith)

  -- For a delimiter that is not empty and a positive limit, split gives no more pieces than the
  -- limit.
  pub length-split :
      (src : Bytes) → 0 < max_split → length (split src delimiter max_split) ≤ max_split
  unfolding split
  length-split src h = omega (arith, length-loop (length src + 1) 0 src h)

pub split_pair-parts :
    (src delimiter : Bytes)
    → ((find src delimiter ≡ none) × (split_pair src delimiter ≡ (src, [])))
      ⊎ ((split_pair src delimiter).0 ++ (delimiter ++ (split_pair src delimiter).1) ≡ src)
unfolding split_pair
split_pair-parts src delimiter = elim (Option-cases (find src delimiter)) [
  | inl e ↦ inl (e, rw (split_pair, e) refl)
  | inr t ↦ let (pos, e) = t in inr (rw (split_pair, e) (found_parts src delimiter pos e))
]
