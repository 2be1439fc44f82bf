-- ===== src/HttpMessage/Pieces.antt =====
-- A response that comes in pieces.
use xul.Prelude.{
  ℕ, zero, suc, ◌+◌, ◌-◌, ◌^◌, ◌≤◌, ◌<◌, ◌≡◌, refl, sym, ap, ◌∙◌, true, false, List, [], ◌∷◌, ◌++◌,
  append-nil, append_assoc, Bytes, All, length, length-append, none, some, ltb, ◌==◌, arith,
}
use xul.Prelude.Int.{ℤ, pos, negsuc, ◌-ℤ◌}
use xul.Prelude.Ctype.{is_digit}
use xul.Prelude.Search.{search}
use xul.Strings.Pairs.{NoChar}
use xul.HttpMessage.{Response, print, create_url_response, clear, clear_message}
use xul.HttpMessage.Parser.{find_header_end, parse}
use xul.HttpMessage.Extractor.{Extractor, create, reset, try_parse, consumed, feed}
use xul.HttpMessage.RoundTrip.{IsPrintable, parse-print, print-lines, length-print, first_text-NoCr}
use xul.HttpMessage.HeaderEnd.{
  two_ends, search-header_lines, find_header_end-prefix, find_header_end-whole,
}

-- The bytes of the pieces, each of which has some memory behind it.
unfoldable pub joined : List (Bytes × Bytes) → Bytes
joined [] = []
joined ((bytes, _) ∷ pieces) = bytes ++ joined pieces

abbrev pub sizes : List (Bytes × Bytes) → List ℤ
sizes [] = []
sizes ((bytes, _) ∷ pieces) = pos (length bytes) ∷ sizes pieces

-- An extractor that has kept these bytes.
abbrev pub waiting : ℕ → Bytes → Extractor
waiting max bytes = record {
  buffer = bytes;
  max_buffer_size = max;
  header_finished = false;
  response = create_url_response;
}

module _ (split_slash : Bytes → List Bytes) (trim_copy : Bytes → Bytes)
    (parse_int : Bytes → ℤ → ℤ) where
  -- The results of the calls, and the extractor after them.
  unfoldable pub feed_each : List (Bytes × Bytes) → Extractor → List ℤ × Extractor
  feed_each [] e = ([], e)
  feed_each ((bytes, beyond) ∷ pieces) e =
      let (taken, after) = feed split_slash trim_copy parse_int bytes beyond e in
      let (others, last) = feed_each pieces after in (taken ∷ others, last)

  feed-waiting :
      (max : ℕ) (kept bytes beyond : Bytes)
      → find_header_end (kept ++ bytes) ≡ none
      → length (kept ++ bytes) ≤ max
      → feed split_slash trim_copy parse_int bytes beyond (waiting max kept)
        ≡ (pos (length bytes), waiting max (kept ++ bytes))
  unfolding feed try_parse consumed
  feed-waiting max [] bytes beyond e h = simp (try_parse, e)
  feed-waiting max (c ∷ kept) bytes beyond e h =
      let room : ltb max (suc (length kept) + length bytes) ≡ false =
        ground (arith, length-append kept bytes) in
      let some_kept : (suc (length kept) == 0) ≡ false = ground arith in
      simp (some_kept, room, try_parse, e)

  feed_each-waiting :
      (pieces : List (Bytes × Bytes)) (max : ℕ) (kept last : Bytes) (n : ℕ)
      → search (kept ++ joined pieces ++ last) two_ends + 4 ≡ n
      → length (kept ++ joined pieces) < n
      → length (kept ++ joined pieces) ≤ max
      → feed_each pieces (waiting max kept) ≡ (sizes pieces, waiting max (kept ++ joined pieces))
  unfolding feed_each joined
  feed_each-waiting [] max kept last n e short room =
      ap (λ (t : Bytes). ([], waiting max t)) (sym (append-nil kept))
  feed_each-waiting ((bytes, beyond) ∷ pieces) max kept last n e short room =
      let shape = append_assoc kept bytes (joined pieces) in
      let whole = length-append kept (bytes ++ joined pieces) in
      let part = length-append bytes (joined pieces) in
      let front = length-append kept bytes in
      let seen : search (kept ++ bytes ++ (joined pieces ++ last)) two_ends + 4 ≡ n =
        ap (λ (t : Bytes). search t two_ends + 4)
          (sym (append_assoc (kept ++ bytes) (joined pieces) last)
            ∙ ap (λ (t : Bytes). t ++ last) shape)
        ∙ e in
      let later_seen : search (kept ++ bytes ++ joined pieces ++ last) two_ends + 4 ≡ n =
        ap (λ (t : Bytes). search (t ++ last) two_ends + 4) shape ∙ e in
      let none_there : find_header_end (kept ++ bytes) ≡ none =
        find_header_end-prefix (kept ++ bytes) (joined pieces ++ last) n seen
          (omega (arith, whole, part, front)) in
      let first =
        feed-waiting max kept bytes beyond none_there (omega (arith, whole, part, front)) in
      let same = length-append (kept ++ bytes) (joined pieces) in
      let later =
        feed_each-waiting pieces max (kept ++ bytes) last n later_seen
          (omega (arith, whole, part, front, same)) (omega (arith, whole, part, front, same)) in
      simp (feed_each, first, later, shape)

  consumed-some :
      (size previous n : ℕ) (e : Extractor)
      → previous < n
      → consumed split_slash trim_copy parse_int size previous (pos n, e) ≡ (pos (n - previous), e)
  unfolding consumed ◌-ℤ◌
  consumed-some size previous zero e h = absurd (omega arith)
  consumed-some size previous (suc n) e h = ground arith

  feed-last :
      (max : ℕ) (kept last beyond : Bytes) (p n : ℕ) (r : Response)
      → p + 4 ≡ n
      → find_header_end (kept ++ last) ≡ some p
      → parse split_slash trim_copy parse_int n (kept ++ last ++ beyond) create_url_response
        ≡ (true, r)
      → length (kept ++ last) ≤ max
      → length kept < n
      → feed split_slash trim_copy parse_int last beyond (waiting max kept) ≡ (
        pos (n - length kept),
        record { buffer = []; max_buffer_size = max; header_finished = true; response = r },
      )
  unfolding feed try_parse
  feed-last max [] last beyond p n r size e done room h =
      let all =
        consumed-some (length last) 0 n
          (record { buffer = []; max_buffer_size = max; header_finished = true; response = r }) h in
      simp (try_parse, e, size, done, all)
  feed-last max (c ∷ kept) last beyond p n r size e done room h =
      let fits : ltb max (suc (length kept) + length last) ≡ false =
        ground (arith, length-append kept last) in
      let some_kept : (suc (length kept) == 0) ≡ false = ground arith in
      let all =
        consumed-some (length last) (suc (length kept)) n
          (record { buffer = []; max_buffer_size = max; header_finished = true; response = r }) h in
      simp (some_kept, fits, try_parse, e, size, done, all)

  module _ (decimal : ℕ → Bytes)
      (splits : (a b : Bytes)
        → NoChar b'/' a
        → NoChar b'/' b
        → split_slash (a ++ b'/' ∷ b) ≡ a ∷ b ∷ [])
      (reads : (n : ℕ) → n < 2 ^ 31 → parse_int (decimal n) (negsuc 0) ≡ pos n)
      (digits : (n : ℕ) → All (λ (c : ℕ). is_digit c ≡ true) (decimal n)) where
    pub search-print :
        (r : Response) (rest : Bytes)
        → IsPrintable trim_copy r
        → search (print decimal r ++ rest) two_ends + 4 ≡ length (print decimal r)
    unfolding IsPrintable
    search-print r rest h =
        let shape =
          print-lines split_slash trim_copy parse_int decimal splits reads digits r rest in
        let plain =
          first_text-NoCr split_slash trim_copy parse_int decimal splits reads digits r h in
        ap (λ (t : Bytes). search t two_ends + 4) shape
        ∙ search-header_lines trim_copy r.message.headers _ rest plain h.5
        ∙ sym (length-print split_slash trim_copy parse_int decimal splits reads digits r)

    -- A printed response that comes to a new extractor in any pieces, the last of which holds the
    -- end of the header and may hold more, is read once: each piece before the last is taken whole
    -- and kept, and the last call takes what belongs to the header, no more, and leaves the
    -- response that was printed and an empty buffer. The pieces fit in the buffer, and boost and
    -- numerics keep their promises on the parts of the response.
    pub feed_each-print :
        (r : Response) (pieces : List (Bytes × Bytes)) (last beyond rest : Bytes) (max : ℕ)
        → IsPrintable trim_copy r
        → joined pieces ++ last ≡ print decimal r ++ rest
        → length (joined pieces) < length (print decimal r)
        → length (joined pieces ++ last) ≤ max
        → (feed_each pieces (create max) ≡ (sizes pieces, waiting max (joined pieces)))
          × (feed split_slash trim_copy parse_int last beyond (waiting max (joined pieces)) ≡ (
            pos (length (print decimal r) - length (joined pieces)),
            record { buffer = []; max_buffer_size = max; header_finished = true; response = r },
          ))
    unfolding create reset create_url_response clear clear_message
    feed_each-print r pieces last beyond rest max h e short room =
        let n = length (print decimal r) in
        let whole = joined pieces ++ last in
        let p = search whole two_ends in
        let size : p + 4 ≡ n =
          ap (λ (t : Bytes). search t two_ends + 4) e ∙ search-print r rest h in
        let long = ap (λ (t : Bytes). length t) e in
        let parts = length-append (print decimal r) rest in
        let front = length-append (joined pieces) last in
        let memory =
          ap (λ (t : Bytes). t ++ beyond) e ∙ append_assoc (print decimal r) rest beyond in
        let done =
          ap (λ (t : Bytes). parse split_slash trim_copy parse_int n t create_url_response) memory
          ∙ parse-print split_slash trim_copy parse_int decimal splits reads digits r
              create_url_response (rest ++ beyond) h refl in
        (
          feed_each-waiting pieces max [] last n size short (omega (arith, front, room)),
          feed-last max (joined pieces) last beyond p n r size
              (find_header_end-whole whole p refl (omega (arith, size, long, parts))) done room
              short,
        )
