-- ===== src/HttpRange/Headers.antt =====
-- A range is read from its text.
use xul.Prelude.{
  ℕ, ◌<◌, ◌^◌, Option, none, some, ◌≡◌, refl, true, false, [], ◌∷◌, ◌++◌, Bytes, codes, length,
  length-append, ◌==◌, arith,
}
use xul.Prelude.Int.{ℤ, pos, negsuc}
use xul.Prelude.Search.{search, starts_with}
use xul.Strings.{find}
use xul.Strings.Parts.{split_pair_char, same_text}
use xul.Strings.Pairs.{NoChar, split_pair_char-NoChar}
use xul.HttpRange.{HttpRange, range_text, str, try_parse, parse_number, parse}

-- No dash is among these characters.
abbrev pub NoDash : Bytes → Type 0
NoDash s = NoChar b'-' s

split_pair_char-unit :
    (range : Bytes) → split_pair_char (codes "bytes=" ++ range) b'=' ≡ (codes "bytes", range)
unfolding split_pair_char find search starts_with
split_pair_char-unit range = refl

-- A part is a number that is not negative and that int64_t holds, or -1, as the constructor asks for.
unfoldable pub IsPart : ℤ → Type 0
IsPart (pos n) = n < 2 ^ 63
IsPart (negsuc n) = n ≡ 0

module _ (decimal : ℕ → Bytes) (scan : Bytes → Option ℤ) (no_dash : (n : ℕ) → NoDash (decimal n))
    (reads : (n : ℕ) → n < 2 ^ 63 → scan (decimal n) ≡ some (pos n))
    (nothing : scan [] ≡ none) where
  parse_number-decimal : (n : ℕ) (d : ℤ) → n < 2 ^ 63 → parse_number scan (decimal n) d ≡ pos n
  unfolding parse_number try_parse
  parse_number-decimal n d h = ground (arith, reads n h)

  parse_number-nil : (d : ℤ) → parse_number scan [] d ≡ d
  unfolding parse_number try_parse
  parse_number-nil d = ground (arith, nothing)

  parse_parts :
      (xs ys : Bytes) (r : HttpRange)
      → NoDash xs
      → parse scan (codes "bytes=" ++ (xs ++ b'-' ∷ ys)) r ≡ (
        true,
        record { start = parse_number scan xs (negsuc 0); end = parse_number scan ys (negsuc 0) },
      )
  unfolding parse same_text
  parse_parts xs ys r h =
      let unit_part = split_pair_char-unit (xs ++ b'-' ∷ ys) in
      let parts = split_pair_char-NoChar b'-' xs ys h in
      let long : (length (xs ++ b'-' ∷ ys) == 0) ≡ false =
        ground (arith, length-append xs (b'-' ∷ ys)) in
      rw (parse, unit_part, parts, long) refl

  parse-range_text :
      (start end : ℤ) (r : HttpRange)
      → IsPart start
      → IsPart end
      → parse scan (range_text decimal start end) r ≡ (true, record { start = start; end = end })
  unfolding range_text IsPart
  parse-range_text (pos a) (pos b) r h k =
      rw
        (
          parse_parts (decimal a) (decimal b) r (no_dash a),
          parse_number-decimal a (negsuc 0) h,
          parse_number-decimal b (negsuc 0) k,
        )
        refl
  parse-range_text (pos a) (negsuc b) r h k =
      rw
        (
          parse_parts (decimal a) [] r (no_dash a),
          parse_number-decimal a (negsuc 0) h,
          parse_number-nil (negsuc 0),
          k,
        )
        refl
  parse-range_text (negsuc a) (pos b) r h k =
      rw
        (
          parse_parts [] (decimal b) r tt,
          parse_number-decimal b (negsuc 0) k,
          parse_number-nil (negsuc 0),
          h,
        )
        refl
  parse-range_text (negsuc a) (negsuc b) r h k =
      rw (parse_parts [] [] r tt, parse_number-nil (negsuc 0), h, k) refl

  -- A range whose parts are numbers from 0 to 2 ^ 63 - 1, or -1 where they are open, is read back
  -- from its text, whatever range is overwritten.
  pub parse-str :
      (range r : HttpRange)
      → IsPart range.start
      → IsPart range.end
      → parse scan (str decimal range) r ≡ (true, range)
  unfolding str
  parse-str range r h k = parse-range_text range.start range.end r h k
