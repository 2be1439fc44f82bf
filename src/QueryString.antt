-- ===== src/QueryString.antt =====
-- The parameters of an address: string_dicts::parse of include/xul/std/maps.hpp into a string_table, and
-- assemble_query, set_param and remove_param of include/xul/net/simple_uri.hpp. `compare` is the comparison
-- of the keys of the table.
pub mod RoundTrip
mod Runs
use xul.Prelude.{ℕ, suc, Bool, List, [], ◌∷◌, ◌++◌, Bytes, length, ltb, if◌then◌else◌}
use xul.Strings.{split_char}
use xul.Strings.Parts.{split_pair_char}
use xul.StringTable.{Entry, set, remove}
use xul.Streams.MemoryOutput.{text_of}

abbrev pair_text : Entry → Bytes
pair_text e = e.key ++ b'=' ∷ e.value

unfoldable pub assemble_more : List Entry → Bytes
assemble_more [] = []
assemble_more (e ∷ params) = b'&' ∷ (pair_text e ++ assemble_more params)

unfoldable pub assemble_query : List Entry → Bytes
assemble_query [] = []
assemble_query (e ∷ params) = pair_text e ++ assemble_more params

-- `assemble_full_path`.
unfoldable pub full_path : Bytes → Bytes → Bytes
full_path path [] = path
full_path path (c ∷ query) = path ++ b'?' ∷ (c ∷ query)

module _ (compare : Bytes → Bytes → Bool) where
  -- The pieces that are not entered have no key. The number of those that are, and the table.
  unfoldable pub enter_all : ℕ → ℕ → List Bytes → List Entry → ℕ × List Entry
  enter_all second_key count [] dict = (count, dict)
  enter_all second_key count (s ∷ strs) dict =
      let (key, val) = split_pair_char s second_key in
      let entered = set compare dict (text_of key) (text_of val) in
      if ltb 0 (length key)
      then enter_all second_key (suc count) strs entered
      else enter_all second_key count strs dict

  unfoldable pub parse : List Entry → Bytes → ℕ → ℕ → ℕ × List Entry
  parse dict src first_key second_key = enter_all second_key 0 (split_char src first_key 0) dict

  -- The parameters, the query and the full path after the call, with the path of the address.
  unfoldable pub set_param : Bytes → Bytes → Bytes → List Entry → List Entry × Bytes × Bytes
  set_param path name val params =
      let after = set compare params name val in
      (after, assemble_query after, full_path path (assemble_query after))

  unfoldable pub remove_param : Bytes → Bytes → List Entry → List Entry × Bytes × Bytes
  remove_param path name params =
      let after = (remove compare params name).1 in
      (after, assemble_query after, full_path path (assemble_query after))
