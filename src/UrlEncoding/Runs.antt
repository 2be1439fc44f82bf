-- ===== src/UrlEncoding/Runs.antt =====
-- Concrete runs of the percent encoding, and its theorems at concrete inputs.
use xul.Prelude.{◌≤◌, ◌≡◌, refl, arith, true, length, codes}
use xul.UrlEncoding.{encode, decode, is_plain, to_hex}
use xul.UrlEncoding.RoundTrip.{decode-encode_url}
use xul.UrlEncoding.Bounds.{length-decode_url}

decode-encode_url_example : decode (encode true (codes "a b+c%")) ≡ codes "a b+c%"
decode-encode_url_example = decode-encode_url true (codes "a b+c%") (omega arith)

length-decode_url_example : length (decode (codes "a%20b")) ≤ 5
length-decode_url_example = length-decode_url (codes "a%20b")

-- The encoder of `upper_case()` writes lower-case digits.
upper_case_is_lower : encode true (codes "/") ≡ codes "%2f"
unfolding encode is_plain to_hex
upper_case_is_lower = refl
