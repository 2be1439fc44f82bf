-- ===== src/HttpRange/Runs.antt =====
-- Concrete runs of the range, and its theorem at a concrete input.
use xul.Prelude.{
  ℕ, ◌<◌, ◌^◌, Option, none, some, arith, zero, suc, ◌≡◌, refl, ap, true, [], ◌∷◌, Bytes, codes,
  length, replicate, length-replicate,
}
use xul.Prelude.Int.{ℤ, pos, negsuc}
use xul.HttpRange.{HttpRange, str, range_text, parse, clear}
use xul.HttpRange.Headers.{NoDash, IsPart, parse-str}

-- Numbers as strokes, one more than the number.
abbrev strokes : ℕ → Bytes
strokes n = replicate (suc n) b'1'

abbrev count_strokes : Bytes → Option ℤ
count_strokes [] = none
count_strokes (x ∷ text) = some (pos (length text))

strokes-NoDash : (n : ℕ) → NoDash (strokes n)
strokes-NoDash zero = (refl, tt)
strokes-NoDash (suc n) = (refl, strokes-NoDash n)

count_strokes-strokes : (n : ℕ) → n < 2 ^ 63 → count_strokes (strokes n) ≡ some (pos n)
count_strokes-strokes n h = ap (λ (t : ℕ). some (pos t)) (length-replicate n b'1')

abbrev from_three : HttpRange
from_three = record { start = pos 3; end = negsuc 0 }

parse-str_example : parse count_strokes (str strokes from_three) clear ≡ (true, from_three)
unfolding IsPart
parse-str_example =
    parse-str strokes count_strokes strokes-NoDash count_strokes-strokes refl from_three clear
      (omega arith) refl

the_text : str strokes from_three ≡ codes "bytes=1111-"
unfolding str range_text
the_text = refl
