-- ===== src/StringTable/CaseInsensitive.antt =====
-- The comparison of associative_istring_array.
use xul.Prelude.{◌≡◌, refl, true, [], ◌∷◌, Bytes, arith}
use xul.Strings.{string_iequal_to}
use xul.StringTable.Updates.{IsEquivalence}

string_iequal_to-reflexive : (a : Bytes) → string_iequal_to a a ≡ true
unfolding string_iequal_to
string_iequal_to-reflexive [] = refl
string_iequal_to-reflexive (x ∷ a) = ground (arith, string_iequal_to-reflexive a)

string_iequal_to-symmetric :
    (a b : Bytes) → string_iequal_to a b ≡ true → string_iequal_to b a ≡ true
unfolding string_iequal_to
string_iequal_to-symmetric [] [] h = refl
string_iequal_to-symmetric [] (y ∷ b) h = ground arith
string_iequal_to-symmetric (x ∷ a) [] h = ground arith
string_iequal_to-symmetric (x ∷ a) (y ∷ b) h = ground (arith, string_iequal_to-symmetric a b)

string_iequal_to-transitive :
    (a b c : Bytes)
    → string_iequal_to a b ≡ true
    → string_iequal_to b c ≡ true
    → string_iequal_to a c ≡ true
unfolding string_iequal_to
string_iequal_to-transitive [] [] c h k = k
string_iequal_to-transitive [] (y ∷ b) c h k = ground arith
string_iequal_to-transitive (x ∷ a) [] c h k = ground arith
string_iequal_to-transitive (x ∷ a) (y ∷ b) [] h k = ground arith
string_iequal_to-transitive (x ∷ a) (y ∷ b) (z ∷ c) h k =
    ground (arith, string_iequal_to-transitive a b c)

pub string_iequal_to-IsEquivalence : IsEquivalence string_iequal_to
string_iequal_to-IsEquivalence = record {
  reflexive = string_iequal_to-reflexive;
  symmetric = string_iequal_to-symmetric;
  transitive = string_iequal_to-transitive;
}
