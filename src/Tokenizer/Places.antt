-- ===== src/Tokenizer/Places.antt =====
-- Where std::search finds a delimiter, told without it: a text is what comes before the delimiter, the
-- delimiter and what comes after.
use xul.Prelude.{
  ℕ, suc, ◌+◌, ◌≤◌, ◌<◌, ◌≡◌, refl, ap, true, [], ◌∷◌, ◌++◌, Bytes, length, take, drop, ◌==◌, inl,
  inr, Bool-cases, arith,
}
use xul.Prelude.Search.{search, starts_with}

-- The delimiter stands in the text between these two.
abbrev pub StandsIn : Bytes → Bytes → Bytes → Bytes → Type 0
StandsIn delimiter text before later = text ≡ before ++ (delimiter ++ later)

starts_with-first : (pattern later : Bytes) → starts_with pattern (pattern ++ later) ≡ true
unfolding starts_with
starts_with-first [] later = refl
starts_with-first (p ∷ pattern) later =
    let same : (p == p) ≡ true = ground arith in rw (same, starts_with-first pattern later) refl

search-nil : (text pattern : Bytes) → starts_with pattern text ≡ true → search text pattern ≡ 0
unfolding search
search-nil [] pattern e = refl
search-nil (c ∷ text) pattern e = rw e refl

search-cons_le :
    (c : ℕ) (text pattern : Bytes) → search (c ∷ text) pattern ≤ suc (search text pattern)
unfolding search
search-cons_le c text pattern = ground arith

-- The search goes no further than any place where the pattern stands.
pub search-le_before :
    (pattern before later : Bytes) → search (before ++ (pattern ++ later)) pattern ≤ length before
search-le_before pattern [] later =
    omega (arith, search-nil (pattern ++ later) pattern (starts_with-first pattern later))
search-le_before pattern (c ∷ before) later = omega (
  arith,
  search-cons_le c (before ++ (pattern ++ later)) pattern,
  search-le_before pattern before later,
)

starts_with-StandsIn :
    (pattern text : Bytes)
    → starts_with pattern text ≡ true
    → text ≡ pattern ++ drop (length pattern) text
unfolding starts_with
starts_with-StandsIn [] text e = refl
starts_with-StandsIn (p ∷ pattern) [] e = ground (arith, e)
starts_with-StandsIn (p ∷ pattern) (c ∷ text) e =
    let head : p ≡ c = ground (arith, e) in
    let tail : starts_with pattern text ≡ true = ground (arith, e) in
    rw head (ap (λ (t : Bytes). c ∷ t) (starts_with-StandsIn pattern text tail))

-- Where the search stops before the end, the pattern stands.
pub search-StandsIn :
    (pattern text : Bytes)
    → search text pattern < length text
    → StandsIn pattern text
        (take (search text pattern) text)
        (drop (search text pattern + length pattern) text)
unfolding search
search-StandsIn pattern [] h = elim h [ ]
search-StandsIn pattern (c ∷ text) h = elim (Bool-cases (starts_with pattern (c ∷ text))) [
  | inl here ↦
      let size : 0 + length pattern ≡ length pattern = omega arith in
      rw (here, size) (starts_with-StandsIn pattern (c ∷ text) here)
  | inr later ↦
      let size : suc (search text pattern) + length pattern
          ≡ suc (search text pattern + length pattern) =
        omega arith in
      rw (later, size)
        (ap (λ (t : Bytes). c ∷ t) (search-StandsIn pattern text (omega (arith, rw later at h))))
]
