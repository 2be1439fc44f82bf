-- ===== src/HttpRange.antt =====
-- include/xul/net/http/http_range.hpp: the Range header of a request, with numerics::parse for int64_t of
-- include/xul/data/numerics.hpp. `decimal` is the format "%lld" of a number that is not negative, `scan` is
-- sscanf with that format: the number that it stores, `none` where it does not answer 1. A length of 2 ^ 63,
-- which leaves int64_t, is not wrapped around.
pub mod Headers
mod Runs
use xul.Prelude.{
  ℕ, ◌+◌, Bool, true, false, Option, none, some, ◌||◌, not, [], ◌∷◌, ◌++◌, Bytes, codes, length,
  ◌==◌, if◌then◌else◌,
}
use xul.Prelude.Int.{ℤ, pos, negsuc, ◌-ℤ◌}
use xul.Strings.Parts.{split_pair_char, same_text}

pub record HttpRange : Type 0 where
  pub start : ℤ
  pub end : ℤ

unfoldable pub clear : HttpRange
clear = record { start = negsuc 0; end = negsuc 0 }

abbrev negative : ℤ → Bool
negative (pos n) = false
negative (negsuc n) = true

unfoldable pub is_valid : HttpRange → Bool
is_valid r = not (negative r.start) || not (negative r.end)

abbrev length_of : ℤ → ℤ → ℤ
length_of (pos a) (pos b) = pos (b + 1) -ℤ pos a
length_of (pos a) (negsuc b) = negsuc 0
length_of (negsuc a) b = negsuc 0

unfoldable pub get_length : HttpRange → ℤ
get_length r = length_of r.start r.end

unfoldable pub get_real_start : HttpRange → ℤ
get_real_start r = if negative r.start then pos 0 else r.start

module _ (decimal : ℕ → Bytes) where
  unfoldable pub range_text : ℤ → ℤ → Bytes
  range_text (negsuc a) (negsuc b) = codes "bytes=-"
  range_text (negsuc a) (pos b) = codes "bytes=-" ++ decimal b
  range_text (pos a) (negsuc b) = codes "bytes=" ++ (decimal a ++ b'-' ∷ [])
  range_text (pos a) (pos b) = codes "bytes=" ++ (decimal a ++ b'-' ∷ decimal b)

  unfoldable pub str : HttpRange → Bytes
  unfolding range_text
  str r = range_text r.start r.end

module _ (scan : Bytes → Option ℤ) where
  -- The answer, and `val` after the call.
  unfoldable pub try_parse : Bytes → ℤ → Bool × ℤ
  try_parse s val = elim (scan s) [ none ↦ (false, val) | some n ↦ (true, n) ]

  unfoldable pub parse_number : Bytes → ℤ → ℤ
  unfolding try_parse
  parse_number s default_val =
      let (parsed, val) = try_parse s default_val in if parsed then val else default_val

  unfoldable pub parse : Bytes → HttpRange → Bool × HttpRange
  unfolding parse_number
  parse s r =
      let (unit_name, range) = split_pair_char s b'=' in
      let (first, second) = split_pair_char range b'-' in
      if (length unit_name == 0) || (length range == 0)
      then (false, r)
      else if not (same_text unit_name (codes "bytes"))
      then (false, r)
      else (
        true,
        record { start = parse_number first (negsuc 0); end = parse_number second (negsuc 0) },
      )
