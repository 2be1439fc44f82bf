-- ===== src/Hex/Accepts.antt =====
-- What the hexadecimal decoder accepts, and what it makes of it.
use xul.Prelude.{
  ℕ, ◌+◌, ◌*◌, ◌/◌, ◌%◌, ◌^◌, ◌<◌, ◌≡◌, ◌↔◌, refl, ap, Bool, true, false, ◌||◌, ◌&&◌, not, [], ◌∷◌,
  ◌++◌, Bytes, ltb, ◌==◌, length, bit_and, All, arith, append_assoc, append-nil, map,
}
use xul.Prelude.Ctype.{is_xdigit, to_lower}
use xul.Prelude.Table.{all_below, all_below_sound}
use xul.Prelude.Bits.{bit_or_shifted, bit_and_mask}
use xul.Hex.{do_encode_bit, encode, decode_hex_byte, do_decode_byte, decode_loop, decode}

abbrev pub IsXdigit : ℕ → Type 0
IsXdigit c = is_xdigit c ≡ true

IsXdigit-lt : (c : ℕ) → IsXdigit c → c < 128
unfolding is_xdigit
IsXdigit-lt c h = ground arith

-- The four bits of a digit, and the lower-case letter that they are printed as.
prints_lower : ℕ → Bool
prints_lower c =
    not (is_xdigit c)
    || (ltb (decode_hex_byte c) 16 && (do_encode_bit false (decode_hex_byte c) == to_lower c))

prints_lower_table : all_below 128 prints_lower ≡ true
unfolding all_below prints_lower is_xdigit do_encode_bit decode_hex_byte to_lower
prints_lower_table = refl

digit_bits :
    (c : ℕ)
    → IsXdigit c
    → (decode_hex_byte c < 16) × (do_encode_bit false (decode_hex_byte c) ≡ to_lower c)
unfolding prints_lower
digit_bits c h =
    ground (arith, all_below_sound 128 prints_lower prints_lower_table c (IsXdigit-lt c h))

-- A decoded byte is made of the four bits of each of its digits.
do_decode_byte_bits :
    (ch1 ch2 : ℕ)
    → decode_hex_byte ch1 < 16
    → decode_hex_byte ch2 < 16
    → do_decode_byte ch1 ch2 ≡ decode_hex_byte ch1 * 16 + decode_hex_byte ch2
unfolding do_decode_byte
do_decode_byte_bits ch1 ch2 h l =
    omega (arith, bit_or_shifted 4 (decode_hex_byte ch1) (decode_hex_byte ch2) l)

encode_decoded :
    (ch1 ch2 : ℕ)
    → IsXdigit ch1
    → IsXdigit ch2
    → encode false (do_decode_byte ch1 ch2 ∷ []) ≡ to_lower ch1 ∷ to_lower ch2 ∷ []
unfolding encode
encode_decoded ch1 ch2 h l = ground (
  arith,
  digit_bits ch1 h,
  digit_bits ch2 l,
  do_decode_byte_bits ch1 ch2,
  bit_and_mask 4 (do_decode_byte ch1 ch2),
  high,
  low,
)
  where
    byte : do_decode_byte ch1 ch2 ≡ decode_hex_byte ch1 * 16 + decode_hex_byte ch2
    byte = do_decode_byte_bits ch1 ch2 (digit_bits ch1 h).0 (digit_bits ch2 l).0

    high :
        do_encode_bit false (do_decode_byte ch1 ch2 / 2 ^ 4)
        ≡ do_encode_bit false (decode_hex_byte ch1)
    high = ap (do_encode_bit false) (omega (arith, byte, (digit_bits ch2 l).0))

    low :
        do_encode_bit false (bit_and (do_decode_byte ch1 ch2) 0x0f)
        ≡ do_encode_bit false (decode_hex_byte ch2)
    low =
        ap (do_encode_bit false)
          (omega (arith, bit_and_mask 4 (do_decode_byte ch1 ch2), byte, (digit_bits ch2 l).0))

encode-append :
    (upper : Bool) (xs ys : Bytes) → encode upper (xs ++ ys) ≡ encode upper xs ++ encode upper ys
unfolding encode
encode-append upper [] ys = refl
encode-append upper (x ∷ xs) ys = rw (encode-append upper xs ys)

decode_loop_accepts :
    (str out : Bytes) → length str % 2 ≡ 0 → ((decode_loop str out).1 ≡ true) ↔ All IsXdigit str
unfolding decode_loop
decode_loop_accepts [] out e = (λ _. tt, λ _. refl)
decode_loop_accepts (ch1 ∷ []) out e = absurd (omega arith)
decode_loop_accepts (ch1 ∷ ch2 ∷ str) out e =
    ground (arith, decode_loop_accepts str (out ++ (do_decode_byte ch1 ch2 ∷ [])) (omega arith))

decode_loop_canonical :
    (str out : Bytes)
    → All IsXdigit str
    → length str % 2 ≡ 0
    → encode false (decode_loop str out).0 ≡ encode false out ++ map to_lower str
unfolding decode_loop
decode_loop_canonical [] out h e = rw append-nil
decode_loop_canonical (ch1 ∷ []) out h e = absurd (omega arith)
decode_loop_canonical (ch1 ∷ ch2 ∷ str) out (h1, (h2, h)) e =
    let byte : Bytes = do_decode_byte ch1 ch2 ∷ [] in
    ground (
      arith,
      decode_loop_canonical str (out ++ byte) h (omega arith),
      encode-append false out byte,
      encode_decoded ch1 ch2 h1 h2,
      append_assoc (encode false out) (to_lower ch1 ∷ to_lower ch2 ∷ []) (map to_lower str),
    )

-- The hexadecimal decoder succeeds on a text exactly if its length is even and every character is
-- a hexadecimal digit.
pub decode_accepts :
    (str : Bytes) → ((decode str).1 ≡ true) ↔ ((length str % 2 ≡ 0) × All IsXdigit str)
unfolding decode
decode_accepts str = ground (arith, decode_loop_accepts str [])

decode_even : (str : Bytes) → length str % 2 ≡ 0 → decode str ≡ decode_loop str []
unfolding decode
decode_even str e = ground (arith, e)

-- Where the hexadecimal decoder succeeds, encoding its result in lower case gives the text in
-- lower case.
pub encode-decode :
    (str : Bytes) → (decode str).1 ≡ true → encode false (decode str).0 ≡ map to_lower str
unfolding encode
encode-decode str done =
    let (e, h) = (decode_accepts str).0 done in
    rw (decode_even str e) (decode_loop_canonical str [] h e)
