-- ===== src/HttpMessage/Lines.antt =====
-- The lines of a message in memory.
use xul.Prelude.{
  ℕ, suc, ◌+◌, ◌-◌, ◌≤◌, ◌≡◌, refl, sym, ap, ◌∙◌, Bool, true, false, some, List, [], ◌∷◌, ◌++◌,
  Bytes, codes, length, length-append, take, drop, drop-drop, take-length_append,
  drop-length_append, ◌==◌, arith,
}
use xul.Prelude.Int.{ℤ, pos}
use xul.Prelude.Search.{search, starts_with}
use xul.Strings.Pairs.{NoChar}
use xul.HttpMessage.{Response}
use xul.HttpMessage.Parser.{find_line_end, parse_header, parse_line, parse_loop}

-- No carriage return is among these characters.
abbrev pub NoCr : Bytes → Type 0
NoCr s = NoChar 13 s

search-line :
    (line more : Bytes) → NoCr line → search (line ++ 13 ∷ 10 ∷ more) (codes "\r\n") ≡ length line
unfolding search starts_with
search-line [] more h = refl
search-line (x ∷ line) more (h, hs) = rw (h, search-line line more hs) refl

pub take-past : (n : ℕ) (xs ys : Bytes) → take (length xs + n) (xs ++ ys) ≡ xs ++ take n ys
take-past n [] ys = ap (λ (t : ℕ). take t ys) (omega arith)
take-past n (x ∷ xs) ys =
    let e : suc (length xs) + n ≡ suc (length xs + n) = omega arith in
    rw e (ap (λ (t : Bytes). x ∷ t) (take-past n xs ys))

-- The first line, where the bytes that may be looked at reach over its end.
pub find_line_end-line :
    (size : ℕ) (line more : Bytes)
    → NoCr line
    → length line + 2 ≤ size
    → find_line_end (take size (line ++ 13 ∷ 10 ∷ more)) ≡ some (length line)
unfolding find_line_end
find_line_end-line size line more h fits =
    let k = size - (length line + 2) in
    let e : size ≡ length line + suc (suc k) = omega arith in
    let seen : take size (line ++ 13 ∷ 10 ∷ more) ≡ line ++ 13 ∷ 10 ∷ take k more =
      ap (λ (t : ℕ). take t (line ++ 13 ∷ 10 ∷ more)) e
      ∙ take-past (suc (suc k)) line (13 ∷ 10 ∷ more) in
    let place = search-line line (take k more) h in
    let within : (length line == length (line ++ 13 ∷ 10 ∷ take k more)) ≡ false =
      ground (arith, length-append line (13 ∷ 10 ∷ take k more)) in
    rw (seen, place, within) refl

pub drop-line : (line more : Bytes) → drop (length line + 2) (line ++ 13 ∷ 10 ∷ more) ≡ more
drop-line line more =
    sym (drop-drop (length line) 2 (line ++ 13 ∷ 10 ∷ more))
    ∙ ap (λ (t : Bytes). drop 2 t) (drop-length_append line (13 ∷ 10 ∷ more))

module _ (split_slash : Bytes → List Bytes) (trim_copy : Bytes → Bytes)
    (parse_int : Bytes → ℤ → ℤ) where
  -- A line that is taken: the loop goes on behind it.
  pub parse_loop-line :
      (fuel : ℕ) (first_line : Bool) (size : ℕ) (line more : Bytes) (r after : Response)
      → NoCr line
      → length line + 2 ≤ size
      → parse_line split_slash trim_copy parse_int first_line line r ≡ (pos 0, after)
      → parse_loop split_slash trim_copy parse_int
          (suc fuel)
          first_line
          size
          (line ++ 13 ∷ 10 ∷ more)
          r
        ≡ parse_loop split_slash trim_copy parse_int fuel false size more after
  unfolding parse_loop
  parse_loop-line fuel first_line size line more r after h fits e =
      let there = find_line_end-line size line more h fits in
      let front = take-length_append line (13 ∷ 10 ∷ more) in
      let behind = drop-line line more in simp (parse_loop, there, front, behind, e)

  -- The empty line ends the loop.
  pub parse_loop-empty :
      (fuel size : ℕ) (more : Bytes) (r : Response)
      → 2 ≤ size
      → parse_loop split_slash trim_copy parse_int (suc fuel) false size (13 ∷ 10 ∷ more) r
        ≡ (true, r)
  unfolding parse_loop parse_line parse_header
  parse_loop-empty fuel size more r fits =
      let there = find_line_end-line size [] more tt fits in simp (parse_loop, there)
