-- ===== src/HandleMap/Runs.antt =====
-- Concrete runs of the handles, and their theorems at concrete inputs.
use xul.Prelude.{ℕ, ◌≡◌, refl, [], ◌∷◌}
use xul.Prelude.Int.{pos}
use xul.HandleMap.{Handles, add, lookup, first_free, max_key}
use xul.HandleMap.Handles.{add-Added, Added}

abbrev two_objects : Handles ℕ
two_objects = (3, 30) ∷ (1, 10) ∷ []

add-Added_example : Added 20 two_objects (add 20 two_objects)
add-Added_example = add-Added 20 two_objects

takes_the_gap : (add 20 two_objects).0 ≡ pos 2
unfolding add first_free lookup max_key
takes_the_gap = refl
