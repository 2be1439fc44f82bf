-- ===== src/HttpMessage/RoundTrip.antt =====
-- A response that is printed is parsed.
use xul.Prelude.{
  ℕ, suc, ◌+◌, ◌-◌, ◌^◌, ◌≤◌, ◌<◌, ◌≡◌, refl, ap, ◌∙◌, true, false, List, [], ◌∷◌, ◌++◌,
  append_assoc, Bytes, All, All-append, codes, length, length-append, ◌==◌, arith,
}
use xul.Prelude.Int.{ℤ, pos, negsuc}
use xul.Prelude.Ctype.{is_digit}
use xul.Strings.Parts.{is_one_of}
use xul.Strings.Pairs.{NoChar, NoneOf, split_of-three}
use xul.StringTable.{Entry}
use xul.Streams.MemoryOutput.{text_of}
use xul.HttpMessage.{Response, header_line, header_lines, write_headers, print}
use xul.HttpMessage.Parser.{
  parse_protocol, with_status, parse_first_line, parse_line, parse_loop, parse,
}
use xul.HttpMessage.Lines.{NoCr, parse_loop-line}
use xul.Strings.{string_iequal_to}
use xul.StringTable.Fresh.{Fresh}
use xul.HttpMessage.Headers.{
  AreHeaders, with_headers, description_set, parse_loop-headers, length-header_lines,
}

-- A name without blanks, slashes and line ends, that a C string keeps.
unfoldable pub IsToken : Bytes → Type 0
IsToken s = NoneOf (codes " \t") s × NoCr s × NoChar b'/' s × (text_of s ≡ s)

module _ (trim_copy : Bytes → Bytes) where
  -- What the parser can tell apart.
  unfoldable pub IsPrintable : Response → Type 0
  unfolding IsToken AreHeaders Fresh
  IsPrintable r =
      IsToken r.message.protocol_name
      × IsToken r.message.protocol_version
      × (r.status_code < 2 ^ 31)
      × NoCr r.status_description
      × (text_of r.status_description ≡ r.status_description)
      × AreHeaders trim_copy r.message.headers
      × Fresh string_iequal_to [] r.message.headers

module _ (split_slash : Bytes → List Bytes) (trim_copy : Bytes → Bytes)
    (parse_int : Bytes → ℤ → ℤ) where
  module _ (decimal : ℕ → Bytes)
      (splits : (a b : Bytes)
        → NoChar b'/' a
        → NoChar b'/' b
        → split_slash (a ++ b'/' ∷ b) ≡ a ∷ b ∷ [])
      (reads : (n : ℕ) → n < 2 ^ 31 → parse_int (decimal n) (negsuc 0) ≡ pos n)
      (digits : (n : ℕ) → All (λ (c : ℕ). is_digit c ≡ true) (decimal n)) where
    unfoldable pub protocol : Response → Bytes
    protocol r = r.message.protocol_name ++ b'/' ∷ r.message.protocol_version

    unfoldable pub first_text : Response → Bytes
    first_text r = protocol r ++ b' ' ∷ (decimal r.status_code ++ b' ' ∷ r.status_description)

    pub print-lines :
        (r : Response) (beyond : Bytes)
        → print decimal r ++ beyond
          ≡ first_text r ++ 13 ∷ 10 ∷ (header_lines r.message.headers ++ beyond)
    unfolding print first_text protocol write_headers
    print-lines r beyond = simp append_assoc

    digit-plain :
        (c : ℕ) → is_digit c ≡ true → (is_one_of c (codes " \t") ≡ false) × ((13 == c) ≡ false)
    unfolding is_digit is_one_of
    digit-plain c h = ground (arith, h)

    digits-plain :
        (s : Bytes) → All (λ (c : ℕ). is_digit c ≡ true) s → NoneOf (codes " \t") s × NoCr s
    digits-plain [] h = (tt, tt)
    digits-plain (c ∷ s) (h, hs) =
        let (blank, cr) = digit-plain c h in
        let (blanks, crs) = digits-plain s hs in ((blank, blanks), (cr, crs))

    parse_first_line-text :
        (r before : Response)
        → IsPrintable trim_copy r
        → parse_first_line split_slash trim_copy parse_int (first_text r) before ≡ (
          pos 0,
          record {
            message = record r.message { headers = before.message.headers };
            status_code = r.status_code;
            status_description = r.status_description;
          },
        )
    unfolding parse_first_line parse_protocol with_status IsPrintable IsToken first_text protocol
        is_one_of
    parse_first_line-text r before
          (
            (blank1, cr1, slash1, kept1),
            (blank2, cr2, slash2, kept2),
            small,
            cr3,
            kept3,
            h,
            fresh,
          ) =
        let (blank4, cr4) = digits-plain (decimal r.status_code) (digits r.status_code) in
        let parts =
          split_of-three (codes " \t") b' ' b' ' (protocol r) (decimal r.status_code)
            r.status_description refl refl
            (All-append (λ (x : ℕ). is_one_of x (codes " \t") ≡ false) r.message.protocol_name
              (b'/' ∷ r.message.protocol_version) blank1 (refl, blank2))
            blank4 in
        let names = splits r.message.protocol_name r.message.protocol_version slash1 slash2 in
        let number = reads r.status_code small in
        let described = description_set r.status_code r.status_description in
        simp
          (parse_first_line, parts, parse_protocol, names, kept1, kept2, number, kept3, described)

    pub first_text-NoCr : (r : Response) → IsPrintable trim_copy r → NoCr (first_text r)
    unfolding IsPrintable IsToken first_text protocol
    first_text-NoCr r ((_, cr1, _, _), (_, cr2, _, _), small, cr3, kept3, hs, fresh) =
        let cr4 = (digits-plain (decimal r.status_code) (digits r.status_code)).1 in
        All-append (λ (x : ℕ). (13 == x) ≡ false) (protocol r)
          (b' ' ∷ (decimal r.status_code ++ b' ' ∷ r.status_description))
          (All-append (λ (x : ℕ). (13 == x) ≡ false) r.message.protocol_name
            (b'/' ∷ r.message.protocol_version) cr1 (refl, cr2))
          (
            refl,
            All-append (λ (x : ℕ). (13 == x) ≡ false) (decimal r.status_code)
                (b' ' ∷ r.status_description) cr4 (refl, cr3),
          )

    two_lines : (headers : List Entry) → 2 ≤ length (header_lines headers)
    unfolding header_lines
    two_lines [] = omega arith
    two_lines (e ∷ headers) =
        omega (arith, two_lines headers, length-append (header_line e) (header_lines headers))

    -- The loop, where the bytes that may be looked at at each line reach over the longest part.
    parse-sized :
        (r before : Response) (beyond : Bytes) (size : ℕ)
        → IsPrintable trim_copy r
        → before.message.headers ≡ []
        → length (first_text r) + 2 ≤ size
        → length (header_lines r.message.headers) ≤ size
        → parse split_slash trim_copy parse_int size (print decimal r ++ beyond) before ≡ (true, r)
    unfolding parse IsPrintable parse_line
    parse-sized r before beyond size h none_there fits fits' =
        let headers = r.message.headers in
        let shape = print-lines r beyond in
        let more = header_lines headers ++ beyond in
        let after = with_headers before.message.headers r in
        let fuel = length (print decimal r ++ beyond) in
        let start : fuel + 1 ≡ suc fuel = omega arith in
        ap
          (λ (n : ℕ).
            parse_loop split_slash trim_copy parse_int n true size (print decimal r ++ beyond)
              before)
          start
        ∙ ap
            (λ (t : Bytes).
              parse_loop split_slash trim_copy parse_int (suc fuel) true size t before)
            shape
        ∙ parse_loop-line split_slash trim_copy parse_int fuel true size (first_text r) more before
            after (first_text-NoCr r h) fits (parse_first_line-text r before h)
        ∙ ap (λ (t : Response). parse_loop split_slash trim_copy parse_int fuel false size more t)
            (ap (λ (hs : List Entry). with_headers hs r) none_there)
        ∙ parse_loop-headers split_slash trim_copy parse_int headers fuel size beyond
            (with_headers [] r) h.5 h.6
            (omega (
              arith,
              ap (λ (t : Bytes). length t) shape,
              length-append (first_text r) (13 ∷ 10 ∷ more),
              length-append (header_lines headers) beyond,
              length-header_lines headers,
            ))
            fits'

    pub length-print :
        (r : Response)
        → length (print decimal r)
          ≡ length (first_text r) + 2 + length (header_lines r.message.headers)
    length-print r = omega (
      arith,
      ap (λ (t : Bytes). length t) (print-lines r []),
      length-append (print decimal r) [],
      length-append (first_text r) (13 ∷ 10 ∷ (header_lines r.message.headers ++ [])),
      length-append (header_lines r.message.headers) [],
    )

    -- A response that can be told apart in text, printed and parsed into a response without
    -- headers, is read again with its protocol, its status, its description and its headers in
    -- their order, whatever memory stands behind the text.
    pub parse-print :
        (r before : Response) (beyond : Bytes)
        → IsPrintable trim_copy r
        → before.message.headers ≡ []
        → parse split_slash trim_copy parse_int
            (length (print decimal r))
            (print decimal r ++ beyond)
            before
          ≡ (true, r)
    parse-print r before beyond h none_there =
        parse-sized r before beyond (length (print decimal r)) h none_there
          (omega (arith, length-print r)) (omega (arith, length-print r))

    -- parse reads beyond its bytes: given the text of a printed response without the empty line at
    -- its end, it answers that the header is complete, from an empty line that stands behind these
    -- bytes in memory.
    pub parse-print_unfinished :
        (r before : Response) (beyond : Bytes)
        → IsPrintable trim_copy r
        → before.message.headers ≡ []
        → parse split_slash trim_copy parse_int
            (length (print decimal r) - 2)
            (print decimal r ++ beyond)
            before
          ≡ (true, r)
    parse-print_unfinished r before beyond h none_there =
        let two = two_lines r.message.headers in
        parse-sized r before beyond (length (print decimal r) - 2) h none_there
          (omega (arith, length-print r, two)) (omega (arith, length-print r))
