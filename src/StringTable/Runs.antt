-- ===== src/StringTable/Runs.antt =====
-- Concrete runs of the string array, and its theorems at concrete inputs.
use xul.Prelude.{◌≡◌, refl, List, [], ◌∷◌, codes, if◌then◌else◌}
use xul.Prelude.Ctype.{to_lower}
use xul.Strings.{string_iequal_to}
use xul.StringTable.{Entry, contains, get, set, remove}
use xul.StringTable.Updates.{IsUnique, get-remove, remove-IsUnique}
use xul.StringTable.CaseInsensitive.{string_iequal_to-IsEquivalence}

abbrev headers : List Entry
headers =
    record { key = codes "Host"; value = codes "a" }
    ∷ record { key = codes "Accept"; value = codes "b" }
    ∷ []

headers-IsUnique : IsUnique string_iequal_to string_iequal_to-IsEquivalence headers
unfolding string_iequal_to contains to_lower
headers-IsUnique = (refl, (refl, tt))

get-remove_example :
    ((remove string_iequal_to headers (codes "host")).0
      ≡ contains string_iequal_to headers (codes "host"))
    × (get string_iequal_to (remove string_iequal_to headers (codes "host")).1 (codes "HOST") [] ≡ (
        if string_iequal_to (codes "host") (codes "HOST")
        then []
        else get string_iequal_to headers (codes "HOST") []))
get-remove_example =
    get-remove string_iequal_to string_iequal_to-IsEquivalence headers (codes "host") (codes "HOST")
      [] headers-IsUnique

remove-IsUnique_example :
    IsUnique string_iequal_to string_iequal_to-IsEquivalence
      (remove string_iequal_to headers (codes "host")).1
remove-IsUnique_example =
    remove-IsUnique string_iequal_to string_iequal_to-IsEquivalence headers (codes "host")
      headers-IsUnique

keeps_the_spelling :
    set string_iequal_to headers (codes "HOST") (codes "c")
    ≡ record { key = codes "Host"; value = codes "c" }
      ∷ record { key = codes "Accept"; value = codes "b" }
      ∷ []
unfolding string_iequal_to set to_lower
keeps_the_spelling = refl
