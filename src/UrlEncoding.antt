-- ===== src/UrlEncoding.antt =====
-- include/xul/net/url_encoding.hpp: percent encoding of NUL-terminated texts. The end of a list is
-- the terminator, and so is a byte 0 within it.
pub mod RoundTrip
pub mod Bounds
mod Runs
use xul.Prelude.{
  ℕ, ◌+◌, ◌-◌, ◌*◌, ◌/◌, ◌%◌, ◌^◌, Bool, true, false, ◌||◌, [], ◌∷◌, ◌++◌, Bytes, codes, ◌==◌,
  if◌then◌else◌, get_or, bit_or, bit_and,
}
use xul.Prelude.Ctype.{is_digit, is_alnum, to_lower}

-- `from_hex`, as the eight bits of its `char` result; no test is made that `ch` is a digit.
pub from_hex : ℕ → ℕ
unfolding is_digit to_lower
from_hex ch = if is_digit ch then ch - b'0' else (to_lower ch + 256 - b'a' + 10) % 2 ^ 8

-- `to_hex`: the table named `upper_hex` holds the lower-case letters, and the other the upper-case ones.
pub to_hex : Bool → ℕ → ℕ
to_hex upper_case code =
    get_or (if upper_case then codes "0123456789abcdef" else codes "0123456789ABCDEF")
      (bit_and code 15) 0

pub is_plain : ℕ → Bool
unfolding is_alnum
is_plain ch =
    is_alnum ch
    || (ch == b'-')
    || (ch == b'_')
    || (ch == b'.')
    || (ch == b'~')
    || (ch == b',')
    || (ch == b';')

pub encode : Bool → Bytes → Bytes
encode upper_case [] = []
encode upper_case (ch ∷ str) =
    let rest = encode upper_case str in
    if ch == 0
    then []
    else if is_plain ch
    then ch ∷ rest
    else b'%' ∷ to_hex upper_case (ch / 2 ^ 4) ∷ to_hex upper_case (bit_and ch 15) ∷ rest

-- What a character that begins no escape stands for.
pub plain : ℕ → ℕ
plain ch = if ch == b'+' then b' ' else ch

pub escaped : ℕ → ℕ → ℕ
escaped high low = bit_or (from_hex high * 2 ^ 4) (from_hex low) % 2 ^ 8

-- `decode`: two characters follow a `%` that is an escape; any other `%` is dropped.
pub decode : Bytes → Bytes
decode [] = []
decode (c ∷ []) = if (c == 0) || (c == b'%') then [] else plain c ∷ []
decode (c ∷ d ∷ []) =
    let next = decode (d ∷ []) in if c == 0 then [] else if c == b'%' then next else plain c ∷ next
decode (c ∷ d ∷ e ∷ str) =
    let after = decode str in
    let next = decode (d ∷ e ∷ str) in
    if c == 0
    then []
    else if c == b'%'
    then if (d == 0) || (e == 0) then next else escaped d e ∷ after
    else plain c ∷ next
