-- ===== src/Strings/Comparison.antt =====
-- The comparisons without regard to case.
use xul.Prelude.{
  zero, suc, ◌≡◌, refl, ◌↔◌, ap, Bool, true, false, ◌&&◌, [], ◌∷◌, Bytes, ◌==◌, if◌then◌else◌,
  arith,
}
use xul.Prelude.Int.{ℤ, pos, negsuc}
use xul.Prelude.Ctype.{to_lower}
use xul.Strings.{string_iequal_to}
use xul.Strings.Parts.{icompare, make_lower, same_text, after}

same_text-make_lower :
    (x y : Bytes) → same_text (make_lower x) (make_lower y) ≡ string_iequal_to x y
unfolding same_text make_lower string_iequal_to
same_text-make_lower [] [] = refl
same_text-make_lower [] (b ∷ y) = refl
same_text-make_lower (a ∷ x) [] = refl
same_text-make_lower (a ∷ x) (b ∷ y) =
    ap (λ (t : Bool). (to_lower a == to_lower b) && t) (same_text-make_lower x y)

-- Of two texts that differ just one comes after the other.
after_one : (x y : Bytes) → same_text x y ≡ false → after y x ≡ (if after x y then false else true)
unfolding same_text after
after_one [] [] h = absurd (ground (arith, h))
after_one [] (b ∷ y) h = refl
after_one (a ∷ x) [] h = refl
after_one (a ∷ x) (b ∷ y) h = ground (arith, h, after_one x y)

same_text_comm : (x y : Bytes) → same_text x y ≡ same_text y x
unfolding same_text
same_text_comm [] [] = refl
same_text_comm [] (b ∷ y) = refl
same_text_comm (a ∷ x) [] = refl
same_text_comm (a ∷ x) (b ∷ y) = ground (arith, same_text_comm x y)

unfoldable pub opposite : ℤ → ℤ
opposite (pos zero) = pos 0
opposite (pos (suc n)) = negsuc n
opposite (negsuc n) = pos (suc n)

-- icompare answers 0 exactly for the texts that string_iequal_to takes for equal, and with its
-- arguments exchanged it answers the opposite.
pub icompare-opposite :
    (x y : Bytes)
    → ((icompare x y ≡ pos 0) ↔ (string_iequal_to x y ≡ true))
      × (icompare y x ≡ opposite (icompare x y))
unfolding icompare opposite
icompare-opposite x y =
    let same = same_text-make_lower x y in
    let back = same_text_comm (make_lower y) (make_lower x) in
    let one = after_one (make_lower x) (make_lower y) in ground (arith, same, back, one)
