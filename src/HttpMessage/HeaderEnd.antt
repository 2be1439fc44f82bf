-- ===== src/HttpMessage/HeaderEnd.antt =====
-- The place of the empty line in a printed response.
use xul.Prelude.{
  ℕ, ◌+◌, ◌<◌, ◌≡◌, refl, ◌∙◌, false, none, some, List, [], ◌∷◌, ◌++◌, append_assoc, Bytes, length,
  length-append, ◌==◌, Bool-cases, inl, inr, arith,
}
use xul.Prelude.Search.{search, starts_with, search-append, search-fits, search-le_length}
use xul.StringTable.{Entry}
use xul.HttpMessage.{header_line, header_lines}
use xul.HttpMessage.Parser.{find_header_end}
use xul.HttpMessage.Lines.{NoCr}
use xul.HttpMessage.Headers.{
  IsHeader, AreHeaders, line_of, header_line-line, length-header_line, line_of-NoCr,
}

abbrev pub two_ends : Bytes
two_ends = 13 ∷ 10 ∷ 13 ∷ 10 ∷ []

search-one_line :
    (line more : Bytes)
    → NoCr line
    → starts_with (13 ∷ 10 ∷ []) more ≡ false
    → search (line ++ 13 ∷ 10 ∷ more) two_ends ≡ length line + 2 + search more two_ends
unfolding search starts_with
search-one_line [] more h e = rw e (omega arith)
search-one_line (x ∷ line) more (h, hs) e = rw (h, search-one_line line more hs e) (omega arith)

search-last_line :
    (line rest : Bytes)
    → NoCr line
    → search (line ++ 13 ∷ 10 ∷ 13 ∷ 10 ∷ rest) two_ends ≡ length line
unfolding search starts_with
search-last_line [] rest h = refl
search-last_line (x ∷ line) rest (h, hs) = rw (h, search-last_line line rest hs) refl

starts-key :
    (key tail more : Bytes)
    → 0 < length key
    → NoCr key
    → starts_with (13 ∷ 10 ∷ []) (key ++ tail ++ more) ≡ false
unfolding starts_with
starts-key [] tail more some_key h = absurd (omega arith)
starts-key (x ∷ key) tail more some_key (h, hs) = rw h refl

module _ (trim_copy : Bytes → Bytes) where
  starts-line_of :
      (e : Entry) (more : Bytes)
      → IsHeader trim_copy e
      → starts_with (13 ∷ 10 ∷ []) (line_of e ++ more) ≡ false
  unfolding IsHeader line_of
  starts-line_of e more h = starts-key e.key (b':' ∷ b' ' ∷ e.value) more h.2 h.0

  -- The empty line is where the header ends, and not before.
  pub search-header_lines :
      (headers : List Entry) (line rest : Bytes)
      → NoCr line
      → AreHeaders trim_copy headers
      → search (line ++ 13 ∷ 10 ∷ (header_lines headers ++ rest)) two_ends + 4
        ≡ length line + 2 + length (header_lines headers)
  unfolding header_lines AreHeaders
  search-header_lines [] line rest cr h = omega (arith, search-last_line line rest cr)
  search-header_lines (e ∷ headers) line rest cr (he, h) =
      let more = header_lines headers ++ rest in
      let shape =
        append_assoc (header_line e) (header_lines headers) rest ∙ header_line-line e more in
      let first : starts_with (13 ∷ 10 ∷ []) (line_of e ++ 13 ∷ 10 ∷ more) ≡ false =
        starts-line_of e (13 ∷ 10 ∷ more) he in
      let here = search-one_line line (line_of e ++ 13 ∷ 10 ∷ more) cr first in
      let later = search-header_lines headers (line_of e) rest (line_of-NoCr trim_copy e he) h in
      rw shape (
        omega (
          arith,
          here,
          later,
          length-append (header_line e) (header_lines headers),
          length-header_line e,
        ))

-- No part in front of the end of the empty line has one.
pub find_header_end-prefix :
    (bytes more : Bytes) (n : ℕ)
    → search (bytes ++ more) two_ends + 4 ≡ n
    → length bytes < n
    → find_header_end bytes ≡ none
unfolding find_header_end
find_header_end-prefix bytes more n e h =
    elim (Bool-cases (search bytes two_ends == length bytes)) [
      | inl none_there ↦ rw none_there refl
      | inr there ↦
          let within : search bytes two_ends < length bytes =
            ground (arith, there, search-le_length bytes two_ends) in
          absurd (
            omega (
              arith,
              e,
              h,
              search-append bytes more two_ends within,
              search-fits bytes two_ends within,
            ))
    ]

pub find_header_end-whole :
    (bytes : Bytes) (p : ℕ)
    → search bytes two_ends ≡ p
    → p < length bytes
    → find_header_end bytes ≡ some p
unfolding find_header_end
find_header_end-whole bytes p e h =
    let there : (p == length bytes) ≡ false = ground arith in rw (e, there) refl
