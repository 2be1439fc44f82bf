-- ===== src/Hex/Runs.antt =====
-- Concrete runs of the hexadecimal codec, and its theorems at concrete inputs.
use xul.Prelude.{◌≡◌, refl, [], ◌∷◌, arith, true, false, codes}
use xul.Prelude.Ctype.{is_xdigit}
use xul.Hex.{encode, decode, decode_loop, do_decode_byte, decode_hex_byte}
use xul.Hex.RoundTrip.{decode-encode}

decode-encode_example : decode (encode true (0 ∷ 0x7f ∷ 0xff ∷ [])) ≡ (0 ∷ 0x7f ∷ 0xff ∷ [], true)
decode-encode_example = decode-encode true (0 ∷ 0x7f ∷ 0xff ∷ []) (omega arith)

upper_digits : (decode (codes "0aFF")).1 ≡ true
unfolding decode decode_loop is_xdigit
upper_digits = refl

-- A bad digit leaves what stood before it, and the whole fails.
bad_digit : decode (codes "41zz42") ≡ (b'A' ∷ [], false)
unfolding decode decode_loop do_decode_byte decode_hex_byte is_xdigit
bad_digit = refl
