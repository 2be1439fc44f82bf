-- ===== src/UrlEncoding/Bounds.antt =====
-- The buffers that the callers give, and the characters that are written.
use xul.Prelude.{
  ℕ, ◌*◌, ◌/◌, ◌^◌, ◌<◌, ◌≤◌, ◌≡◌, refl, Bool, true, false, ◌||◌, [], ◌∷◌, Bytes, ◌==◌, bit_and,
  All, arith, IsByte, length,
}
use xul.Prelude.Table.{all_below, all_below_sound}
use xul.Prelude.Bits.{bit_and_mask}
use xul.UrlEncoding.{to_hex, is_plain, encode, decode}

-- The percent-encoding of a text takes at most three times its length, which is the buffer that
-- the string overload allocates.
pub length-encode_url : (upper : Bool) (str : Bytes) → length (encode upper str) ≤ 3 * length str
unfolding encode
length-encode_url upper [] = omega arith
length-encode_url upper (c ∷ str) = ground (arith, length-encode_url upper str)

pub length-decode_url : (str : Bytes) → length (decode str) ≤ length str
unfolding decode
length-decode_url [] = omega arith
length-decode_url (c ∷ []) = ground arith
length-decode_url (c ∷ d ∷ []) = ground (arith, length-decode_url (d ∷ []))
length-decode_url (c ∷ d ∷ e ∷ str) =
    ground (arith, length-decode_url str, length-decode_url (d ∷ e ∷ str))

abbrev pub IsUrlSafe : ℕ → Type 0
IsUrlSafe c = (is_plain c || (c == b'%')) ≡ true

hex_is_plain : Bool → ℕ → Bool
hex_is_plain upper c = is_plain (to_hex upper c)

hex_table : (upper : Bool) → all_below 256 (hex_is_plain upper) ≡ true
unfolding all_below hex_is_plain is_plain to_hex
hex_table true = refl
hex_table false = refl

hex_IsUrlSafe : (upper : Bool) (c : ℕ) → c < 256 → IsUrlSafe (to_hex upper c)
unfolding hex_is_plain
hex_IsUrlSafe upper c h =
    ground (arith, all_below_sound 256 (hex_is_plain upper) (hex_table upper) c h)

-- Every character of the percent-encoding of a text of bytes is a percent sign or one of the
-- characters that are not escaped.
pub encode-IsUrlSafe :
    (upper : Bool) (str : Bytes) → All IsByte str → All IsUrlSafe (encode upper str)
unfolding encode
encode-IsUrlSafe upper [] h = tt
encode-IsUrlSafe upper (c ∷ str) (hc, h) = ground (
  arith,
  encode-IsUrlSafe upper str h,
  hex_IsUrlSafe upper (c / 2 ^ 4),
  hex_IsUrlSafe upper (bit_and c 15),
  bit_and_mask 4 c,
)
