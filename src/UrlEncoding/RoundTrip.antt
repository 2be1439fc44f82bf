-- ===== src/UrlEncoding/RoundTrip.antt =====
-- Decoding an encoded text.
use xul.Prelude.{
  ℕ, ◌/◌, ◌^◌, ◌<◌, ◌≡◌, refl, Bool, true, false, ◌&&◌, not, [], ◌∷◌, Bytes, ◌==◌, if◌then◌else◌,
  bit_and, All, arith,
}
use xul.Prelude.Table.{all_below, all_below_sound}
use xul.UrlEncoding.{to_hex, from_hex, is_plain, encode, plain, escaped, decode}

-- A byte of a text: not the terminator.
abbrev pub IsTextByte : ℕ → Type 0
IsTextByte c = (0 < c) × (c < 256)

-- One byte comes back: an escape by its two digits, which are no NUL, and any other as it is.
comes_back : Bool → ℕ → Bool
comes_back upper c =
    let high = to_hex upper (c / 2 ^ 4) in
    let low = to_hex upper (bit_and c 15) in
    if is_plain c
    then (plain c == c) && not (c == b'%') && not (c == 0)
    else (escaped high low == c) && not (high == 0) && not (low == 0)

comes_back_table : (upper : Bool) → all_below 256 (comes_back upper) ≡ true
unfolding all_below comes_back is_plain plain escaped to_hex from_hex
comes_back_table true = refl
comes_back_table false = refl

byte_comes_back : (upper : Bool) (c : ℕ) → IsTextByte c → comes_back upper c ≡ true
byte_comes_back upper c h = all_below_sound 256 (comes_back upper) (comes_back_table upper) c h.1

decode-escape :
    (d e : ℕ) (str : Bytes)
    → (d == 0) ≡ false
    → (e == 0) ≡ false
    → decode (b'%' ∷ d ∷ e ∷ str) ≡ escaped d e ∷ decode str
unfolding decode
decode-escape d e str hd he = rw (hd, he)

decode-plain :
    (c : ℕ) (str : Bytes)
    → (c == 0) ≡ false
    → (c == b'%') ≡ false
    → decode (c ∷ str) ≡ plain c ∷ decode str
unfolding decode
decode-plain c [] h p = rw (h, p)
decode-plain c (d ∷ []) h p = rw (h, p)
decode-plain c (d ∷ e ∷ str) h p = rw (h, p)

-- Percent-decoding the percent-encoding of a text of bytes other than NUL gives the text back,
-- with digits of either case.
pub decode-encode_url :
    (upper : Bool) (str : Bytes) → All IsTextByte str → decode (encode upper str) ≡ str
unfolding encode comes_back
decode-encode_url upper [] h = unfold decode in refl
decode-encode_url upper (c ∷ str) (hc, h) = ground (
  arith,
  byte_comes_back upper c hc,
  decode-encode_url upper str h,
  decode-plain c (encode upper str),
  decode-escape (to_hex upper (c / 2 ^ 4)) (to_hex upper (bit_and c 15)) (encode upper str),
)
