-- ===== src/BitConverter/Runs.antt =====
-- Concrete runs of the conversions, and their theorems at concrete inputs.
use xul.Prelude.{◌≡◌, refl, arith, [], ◌∷◌, true, false}
use xul.BitConverter.{to_word, from_word, make_word}
use xul.BitConverter.RoundTrip.{to_word-from_word}

to_word-from_word_example : to_word true (from_word true 0x1234) ≡ 0x1234
to_word-from_word_example = to_word-from_word true 0x1234 (omega arith)

little_word : to_word false (0x12 ∷ 0x34 ∷ []) ≡ 0x3412
unfolding to_word
little_word = refl

two_bytes : make_word 0x34 0x12 ≡ 0x3412
unfolding make_word
two_bytes = refl
