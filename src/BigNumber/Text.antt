-- ===== src/BigNumber/Text.antt =====
-- `format`, `str`, `try_parse` and `parse` of big_number: hexadecimal, highest byte first.
use xul.Prelude.{
  ℕ, zero, suc, ◌*◌, ◌<◌, ◌≤◌, ◌≡◌, refl, ap, Bool, true, false, [], ◌∷◌, ◌++◌, Bytes, ◌==◌, not,
  if◌then◌else◌, length, drop, reverse, IsByte, All, All-append, arith, append-nil,
}
use xul.Hex
use xul.Hex.RoundTrip
use xul.BigNumber.{clear}
use mathlib.Core.List.{reverse-cons, reverse-reverse}

-- `encode(rbegin(), rend())`
pub format : Bool → Bytes → Bytes
format use_uppercase a = Hex.encode use_uppercase (reverse a)

pub str : Bytes → Bytes
str a = format false a

-- `try_parse`: the new bytes, and the result. A text of the wrong length leaves the number alone,
-- and so does one that the decoder refuses before the first byte; otherwise the decoder has
-- written a first part of the bytes, which stay, not reversed.
pub try_parse : Bytes → Bytes → Bytes × Bool
try_parse a s =
    let (bytes, done) = Hex.decode_buffer a s in
    if not (length s == length a * 2)
    then (a, false)
    else if not done
    then (bytes, false)
    else (reverse bytes, true)

-- `parse`: the number 0 where the text is no number of this width.
pub parse : ℕ → Bytes → Bytes
parse n s = let (bytes, done) = try_parse (clear n) s in if done then bytes else clear n

length-snoc : (a : Bytes) (x : ℕ) → length (a ++ (x ∷ [])) ≡ suc (length a)
length-snoc [] x = refl
length-snoc (y ∷ a) x = ap suc (length-snoc a x)

length-reverse : (a : Bytes) → length (reverse a) ≡ length a
length-reverse [] = refl
length-reverse (x ∷ a) =
    rw (reverse-cons x a, length-snoc (reverse a) x) (ap suc (length-reverse a))

reverse-IsByte : (a : Bytes) → All IsByte a → All IsByte (reverse a)
reverse-IsByte [] h = tt
reverse-IsByte (x ∷ a) (hx, h) =
    rw (reverse-cons x a) (All-append IsByte (reverse a) (x ∷ []) (reverse-IsByte a h) (hx, tt))

drop_all : (a : Bytes) (n : ℕ) → length a ≤ n → drop n a ≡ []
drop_all [] zero h = refl
drop_all [] (suc n) h = refl
drop_all (x ∷ a) zero h = absurd (omega arith)
drop_all (x ∷ a) (suc n) h = drop_all a n (omega arith)

-- Every number of at least one byte is read back by try_parse from its upper-case and from its
-- lower-case print, whatever number of the same width is overwritten.
pub try_parse-format :
    (upper : Bool) (a old : Bytes)
    → All IsByte a
    → 0 < length a
    → length old ≡ length a
    → try_parse old (format upper a) ≡ (a, true)
unfolding try_parse format
try_parse-format upper a old h some_bytes same =
    let n : length (reverse a) ≡ length a = length-reverse a in
    ground (
      arith,
      RoundTrip.length-encode upper (reverse a),
      n,
      decoded,
      append-nil (reverse a),
      drop_all old (length (reverse a)) (omega (arith, n)),
      reverse-reverse a,
    )
  where
    decoded :
        Hex.decode_buffer old (Hex.encode upper (reverse a))
        ≡ (reverse a ++ drop (length (reverse a)) old, true)
    decoded =
        RoundTrip.decode_buffer-encode upper (reverse a) old (reverse-IsByte a h)
          (omega (arith, length-reverse a)) (omega (arith, length-reverse a))
