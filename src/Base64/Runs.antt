-- ===== src/Base64/Runs.antt =====
-- Concrete runs of the base64 encoding, and its theorems at concrete inputs.
use xul.Prelude.{◌+◌, ◌≡◌, refl, codes, length, arith}
use xul.Base64.{
  encode, decode, decode_loop, decode_step, letter, six_bits, get_encoding_table,
  get_decoding_table, count_up, calc_enough_decoded_length,
}
use xul.Base64.RoundTrip.{decode-encode_base64}

decode-encode_base64_example : decode (encode (codes "light w")) ≡ codes "light w"
decode-encode_base64_example = decode-encode_base64 (codes "light w") (omega arith)

with_padding : encode (codes "light w") ≡ codes "bGlnaHQgdw=="
unfolding encode letter get_encoding_table
with_padding = refl

-- Of one letter three bytes are written, into a buffer of one.
past_the_buffer : length (decode (codes "A")) ≡ calc_enough_decoded_length (length (codes "A")) + 2
unfolding decode decode_loop decode_step six_bits get_decoding_table count_up
    calc_enough_decoded_length
past_the_buffer = refl
