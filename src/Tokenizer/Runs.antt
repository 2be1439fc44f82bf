-- ===== src/Tokenizer/Runs.antt =====
-- Concrete runs of the tokenizer, and its theorems at concrete inputs.
use xul.Prelude.{◌≡◌, refl, true, some, codes}
use xul.Prelude.Search.{search, starts_with}
use xul.Tokenizer.{
  Tokenizer, create, set_delimiter, set_include_delimiter, feed, remains, next_token,
}

abbrev two_lines : Tokenizer
two_lines = feed (codes "b\nc") (feed (codes "a\n") (set_delimiter (codes "\n") create))

abbrev with_ends : Tokenizer
with_ends = set_include_delimiter true two_lines

first_line : (next_token with_ends).0 ≡ some (codes "a\n")
unfolding next_token remains feed set_delimiter set_include_delimiter create search starts_with
first_line = refl
