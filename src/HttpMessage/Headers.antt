-- ===== src/HttpMessage/Headers.antt =====
-- The headers of a message, printed and parsed.
use xul.Prelude.{
  ℕ, zero, suc, ◌+◌, ◌≤◌, ◌<◌, ◌≡◌, refl, sym, ap, ◌∙◌, true, false, List, [], ◌∷◌, ◌++◌,
  append-nil, append_assoc, Bytes, All-append, length, length-append, ◌==◌, Bool-cases, inl, inr,
  arith,
}
use xul.Prelude.Int.{ℤ, pos}
use xul.Strings.{string_iequal_to}
use xul.Strings.Pairs.{NoChar, split_pair_char-NoChar}
use xul.StringTable.{Entry, contains}
use xul.StringTable.Fresh.{Fresh, set-Fresh}
use xul.Streams.MemoryOutput.{text_of}
use xul.HttpMessage.{
  Response, set_header, header_line, header_lines, set_status_code, set_status_description,
  get_description,
}
use xul.HttpMessage.Parser.{parse_header, parse_line, parse_loop}
use xul.HttpMessage.Lines.{NoCr, parse_loop-line, parse_loop-empty}

pub description_set :
    (n : ℕ) (description : Bytes) (r : Response)
    → set_status_description description (set_status_code n r)
      ≡ record r { status_code = n; status_description = description }
unfolding set_status_description set_status_code
description_set n description r = elim (Bool-cases (length (get_description n) == 0)) [
  | inl e ↦ rw e refl
  | inr e ↦ rw e refl
]

abbrev pub with_headers : List Entry → Response → Response
with_headers headers r = record r { message = record r.message { headers = headers } }

unfoldable pub line_of : Entry → Bytes
line_of e = e.key ++ (b':' ∷ b' ' ∷ e.value)

pub header_line-line :
    (e : Entry) (more : Bytes) → header_line e ++ more ≡ line_of e ++ 13 ∷ 10 ∷ more
unfolding header_line line_of
header_line-line e more =
    append_assoc e.key (b':' ∷ b' ' ∷ (e.value ++ 13 ∷ 10 ∷ [])) more
    ∙ ap (λ (t : Bytes). e.key ++ (b':' ∷ b' ' ∷ t)) (append_assoc e.value (13 ∷ 10 ∷ []) more)
    ∙ sym (append_assoc e.key (b':' ∷ b' ' ∷ e.value) (13 ∷ 10 ∷ more))

pub length-header_line : (e : Entry) → length (header_line e) ≡ length (line_of e) + 2
unfolding header_line line_of
length-header_line e = omega (
  arith,
  length-append e.key (b':' ∷ b' ' ∷ (e.value ++ 13 ∷ 10 ∷ [])),
  length-append e.value (13 ∷ 10 ∷ []),
  length-append e.key (b':' ∷ b' ' ∷ e.value),
)

module _ (trim_copy : Bytes → Bytes) where
  -- A header whose key and value are whole lines' parts that the parser keeps as they are.
  unfoldable pub IsHeader : Entry → Type 0
  IsHeader e =
      NoCr e.key
      × NoChar b':' e.key
      × (0 < length e.key)
      × (text_of (trim_copy e.key) ≡ e.key)
      × NoCr e.value
      × (text_of (trim_copy (b' ' ∷ e.value)) ≡ e.value)

  unfoldable pub AreHeaders : List Entry → Type 0
  unfolding IsHeader
  AreHeaders [] = Unit
  AreHeaders (e ∷ headers) = IsHeader e × AreHeaders headers

  pub line_of-NoCr : (e : Entry) → IsHeader e → NoCr (line_of e)
  unfolding IsHeader line_of
  line_of-NoCr e h =
      All-append (λ (x : ℕ). (13 == x) ≡ false) e.key (b':' ∷ b' ' ∷ e.value) h.0
        (refl, (refl, h.4))

module _ (split_slash : Bytes → List Bytes) (trim_copy : Bytes → Bytes)
    (parse_int : Bytes → ℤ → ℤ) where
  parse_line-header :
      (e : Entry) (r : Response)
      → IsHeader trim_copy e
      → contains string_iequal_to r.message.headers e.key ≡ false
      → parse_line split_slash trim_copy parse_int false (line_of e) r
        ≡ (pos 0, with_headers (r.message.headers ++ (e ∷ [])) r)
  unfolding parse_line parse_header IsHeader line_of set_header
  parse_line-header e r (_, colon, some_key, key, _, val) fresh =
      let parts = split_pair_char-NoChar b':' e.key (b' ' ∷ e.value) colon in
      let total = length-append e.key (b':' ∷ b' ' ∷ e.value) in
      let some_line : (length (e.key ++ (b':' ∷ b' ' ∷ e.value)) == 0) ≡ false =
        ground (arith, total) in
      let named : (length e.key == 0) ≡ false = ground arith in
      let cut : (length e.key == length (e.key ++ (b':' ∷ b' ' ∷ e.value))) ≡ false =
        ground (arith, total) in
      let entered = set-Fresh string_iequal_to r.message.headers e fresh in
      simp (parse_header, parts, some_line, named, cut, key, val, entered)

  pub parse_loop-headers :
      (headers : List Entry) (fuel size : ℕ) (beyond : Bytes) (r : Response)
      → AreHeaders trim_copy headers
      → Fresh string_iequal_to r.message.headers headers
      → length headers < fuel
      → length (header_lines headers) ≤ size
      → parse_loop split_slash trim_copy parse_int fuel false size
          (header_lines headers ++ beyond)
          r
        ≡ (true, with_headers (r.message.headers ++ headers) r)
  unfolding AreHeaders Fresh header_lines
  parse_loop-headers headers zero size beyond r h fresh f fits = absurd (omega arith)
  parse_loop-headers [] (suc fuel) size beyond r h fresh f fits =
      parse_loop-empty split_slash trim_copy parse_int fuel size beyond r fits
      ∙ ap (λ (hs : List Entry). (true, with_headers hs r)) (sym (append-nil r.message.headers))
  parse_loop-headers (e ∷ headers) (suc fuel) size beyond r (he, h) (fe, fresh) f fits =
      let more = header_lines headers ++ beyond in
      let total = length-append (header_line e) (header_lines headers) in
      let long = length-header_line e in
      let after = with_headers (r.message.headers ++ (e ∷ [])) r in
      let shape =
        append_assoc (header_line e) (header_lines headers) beyond ∙ header_line-line e more in
      let taken =
        parse_loop-line split_slash trim_copy parse_int fuel false size (line_of e) more r after
          (line_of-NoCr trim_copy e he) (omega (arith, total, long))
          (parse_line-header e r he fe) in
      let later =
        parse_loop-headers headers fuel size beyond after h fresh (omega arith)
          (omega (arith, total)) in
      ap (λ (t : Bytes). parse_loop split_slash trim_copy parse_int (suc fuel) false size t r) shape
      ∙ taken
      ∙ later
      ∙ ap (λ (hs : List Entry). (true, with_headers hs r))
          (append_assoc r.message.headers (e ∷ []) headers)

pub length-header_lines : (headers : List Entry) → length headers < length (header_lines headers)
unfolding header_lines
length-header_lines [] = omega arith
length-header_lines (e ∷ headers) = omega (
  arith,
  length-header_lines headers,
  length-append (header_line e) (header_lines headers),
  length-header_line e,
)
