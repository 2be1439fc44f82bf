-- ===== src/XmlEscape.antt =====
-- include/xul/text/xml_escape_sequence.hpp: what is written to the stream.
pub mod Texts
mod Runs
use xul.Prelude.{
  ℕ, zero, suc, ◌+◌, Option, none, some, List, [], ◌∷◌, ◌++◌, Bytes, codes, length, take, drop,
  get_or, ◌==◌, if◌then◌else◌,
}
use xul.Strings.Parts.{find_first_of}

-- escape_table.
unfoldable pub characters : Bytes
characters = codes "<>&'\""

unfoldable pub mapping : List (ℕ × Bytes)
mapping =
    (b'<', codes "&lt;")
    ∷ (b'>', codes "&gt;")
    ∷ (b'&', codes "&amp;")
    ∷ (b'\'', codes "&apos;")
    ∷ (b'"', codes "&quot;")
    ∷ []

abbrev look_up : List (ℕ × Bytes) → ℕ → Bytes
look_up [] ch = []
look_up ((c, sequence) ∷ entries) ch =
    let rest = look_up entries ch in if c == ch then sequence else rest

unfoldable pub escape_char : ℕ → Bytes
escape_char ch = look_up mapping ch

-- The rounds of `write` on the part of the text from `offset` on.
unfoldable pub write_loop : ℕ → Bytes → Bytes
write_loop zero rest = []
write_loop (suc fuel) rest = elim (find_first_of rest characters) [
  | none ↦ rest
  | some p ↦ take p rest ++ (escape_char (get_or rest p 0) ++ write_loop fuel (drop (p + 1) rest))
]

-- `write` and `escape`: every round but the last passes a character at least.
unfoldable pub escape : Bytes → Bytes
escape s = write_loop (length s + 1) s
