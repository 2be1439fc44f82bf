-- ===== src/Strings/Runs.antt =====
-- Concrete runs of the cuts, and their theorems at concrete inputs.
use xul.Prelude.{some, ◌≡◌, refl, [], ◌∷◌, codes, arith}
use xul.Prelude.Search.{search, starts_with}
use xul.Strings.{split, split_char, split_loop, join, find}
use xul.Strings.Parts.{split_of, split_pair_of, find_first_of, is_one_of}
use xul.Strings.Cuts.{pieces, split_of-pieces}
use xul.Strings.Pieces.{join-split}

join-split_example : join (codes ", ") (split (codes "a, b, c") (codes ", ") 2) ≡ codes "a, b, c"
join-split_example = join-split (codes ", ") 2 (omega arith) (codes "a, b, c")

three_pieces : split_char (codes "a;b;c") b';' 0 ≡ codes "a" ∷ codes "b" ∷ codes "c" ∷ []
unfolding split_char split split_loop find search starts_with
three_pieces = refl

at_most_two : split (codes "a, b, c") (codes ", ") 2 ≡ codes "a" ∷ codes "b, c" ∷ []
unfolding split split_loop find search starts_with
at_most_two = refl

split_of-pieces_example :
    split_of (codes "a;b,,c") (codes ",;") 0 ≡ pieces (codes ",;") (codes "a;b,,c")
split_of-pieces_example = split_of-pieces (codes "a;b,,c") (codes ",;")

-- Of two delimiter characters one was there, and the character behind it is lost.
pair_loses : split_pair_of (codes "a;bc") (codes ",;") ≡ some (codes "a", codes "c")
unfolding split_pair_of find_first_of is_one_of
pair_loses = refl
