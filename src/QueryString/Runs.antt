-- ===== src/QueryString/Runs.antt =====
-- Concrete runs of the parameters, and their theorem at a concrete input.
use xul.Prelude.{◌≡◌, refl, [], ◌∷◌, List, codes, arith}
use xul.Strings.Parts.{same_text}
use xul.StringTable.{Entry, contains}
use xul.StringTable.Fresh.{Fresh}
use xul.Streams.MemoryOutput.{text_of}
use xul.QueryString.{assemble_query, assemble_more, parse}
use xul.QueryString.RoundTrip.{IsParam, AreParams, parse-assemble_query}

abbrev two_params : List Entry
two_params =
    (record { key = codes "id"; value = codes "a=b" })
    ∷ (record { key = codes "q"; value = [] })
    ∷ []

two_params-AreParams : AreParams two_params
unfolding AreParams IsParam text_of
two_params-AreParams = (
  (omega arith, (refl, (refl, tt)), (refl, (refl, tt)), (refl, (refl, (refl, tt))), refl, refl),
  ((omega arith, (refl, tt), (refl, tt), tt, refl, refl), tt),
)

two_params-Fresh : Fresh same_text [] two_params
unfolding Fresh contains same_text
two_params-Fresh = (refl, (refl, tt))

parse-assemble_query_example :
    parse same_text [] (assemble_query two_params) b'&' b'=' ≡ (2, two_params)
parse-assemble_query_example =
    parse-assemble_query same_text two_params two_params-AreParams two_params-Fresh

the_query : assemble_query two_params ≡ codes "id=a=b&q="
unfolding assemble_query assemble_more
the_query = refl
