-- ===== src/HttpMessage/Bodies.antt =====
-- A response with its body, in pieces.
use xul.Prelude.{
  ℕ, suc, ◌+◌, ◌-◌, ◌^◌, ◌≤◌, ◌<◌, ◌≡◌, refl, sym, ap, ◌∙◌, Bool, true, false, ◌&&◌, none, some,
  List, [], ◌∷◌, ◌++◌, append-nil, append_assoc, Bytes, All, length, length-append, drop,
  drop-length_append, ltb, ◌==◌, Bool-cases, inl, inr, arith,
}
use xul.Prelude.Int.{ℤ, pos, negsuc}
use xul.Prelude.Ctype.{is_digit}
use xul.Prelude.Search.{search}
use xul.Strings.Pairs.{NoChar}
use xul.HttpMessage.{Response, print, create_url_response, clear, clear_message}
use xul.HttpMessage.Heard.{
  headers_of, body_of, headers_of-append, body_of-append, bodies, bodies-parts, tail_of,
  tail_of-parts,
}
use xul.HttpMessage.Parser.{find_header_end, parse}
use xul.HttpMessage.Decoder.{Event, header, body, Decoder, create, tell, do_decode, feed}
use xul.HttpMessage.RoundTrip.{IsPrintable, parse-print}
use xul.HttpMessage.HeaderEnd.{two_ends, find_header_end-prefix, find_header_end-whole}
use xul.HttpMessage.Pieces.{joined, search-print}

-- A decoder that has kept these bytes of the header, and one that is in the body.
abbrev holding : ℕ → Bytes → Decoder
holding max bytes = record {
  buffer = bytes;
  max_buffer_size = max;
  aborted = false;
  receiving_header = true;
  heard = [];
}

abbrev streaming : ℕ → List Event → Decoder
streaming max events = record {
  buffer = [];
  max_buffer_size = max;
  aborted = false;
  receiving_header = false;
  heard = events;
}

new_response : create_url_response.message.headers ≡ []
unfolding create_url_response clear clear_message
new_response = refl

module _ (split_slash : Bytes → List Bytes) (trim_copy : Bytes → Bytes)
    (parse_int : Bytes → ℤ → ℤ) where
  -- Whether every call has answered true, and the decoder after them.
  unfoldable pub feed_all : List (Bytes × Bytes) → Decoder → Bool × Decoder
  feed_all [] d = (true, d)
  feed_all ((bytes, beyond) ∷ pieces) d =
      let (taken, after) = feed split_slash trim_copy parse_int bytes beyond d in
      let (others, last) = feed_all pieces after in (taken && others, last)

  feed_all-streaming :
      (pieces : List (Bytes × Bytes)) (max : ℕ) (events : List Event)
      → feed_all pieces (streaming max events) ≡ (true, streaming max (events ++ bodies pieces))
  unfolding feed_all bodies feed do_decode tell
  feed_all-streaming [] max events =
      ap (λ (t : List Event). (true, streaming max t)) (sym (append-nil events))
  feed_all-streaming ((bytes, beyond) ∷ pieces) max events =
      let later = feed_all-streaming pieces max (events ++ (body bytes ∷ [])) in
      let shape = append_assoc events (body bytes ∷ []) (bodies pieces) in simp (later, shape)

  feed-holding :
      (max : ℕ) (kept bytes beyond : Bytes)
      → find_header_end (kept ++ bytes) ≡ none
      → length (kept ++ bytes) ≤ max
      → feed split_slash trim_copy parse_int bytes beyond (holding max kept)
        ≡ (true, holding max (kept ++ bytes))
  unfolding feed do_decode
  feed-holding max [] bytes beyond e h = simp (do_decode, e)
  feed-holding max (c ∷ kept) bytes beyond e h =
      let room : ltb max (suc (length kept) + length bytes) ≡ false =
        ground (arith, length-append kept bytes) in
      let some_kept : (suc (length kept) == 0) ≡ false = ground arith in
      simp (some_kept, room, do_decode, e)

  feed_all-holding :
      (pieces others : List (Bytes × Bytes)) (max : ℕ) (kept last : Bytes) (n : ℕ)
      → search (kept ++ joined pieces ++ last) two_ends + 4 ≡ n
      → length (kept ++ joined pieces) < n
      → length (kept ++ joined pieces) ≤ max
      → feed_all (pieces ++ others) (holding max kept)
        ≡ feed_all others (holding max (kept ++ joined pieces))
  unfolding feed_all joined
  feed_all-holding [] others max kept last n e short room =
      ap (λ (t : Bytes). feed_all others (holding max t)) (sym (append-nil kept))
  feed_all-holding ((bytes, beyond) ∷ pieces) others max kept last n e short room =
      let shape = append_assoc kept bytes (joined pieces) in
      let sizes : length (kept ++ bytes ++ joined pieces)
          ≡ length (kept ++ (bytes ++ joined pieces)) =
        ap (λ (t : Bytes). length t) shape in
      let front = length-append (kept ++ bytes) (joined pieces) in
      let later_seen : search (kept ++ bytes ++ joined pieces ++ last) two_ends + 4 ≡ n =
        ap (λ (t : Bytes). search (t ++ last) two_ends + 4) shape ∙ e in
      let seen : search (kept ++ bytes ++ (joined pieces ++ last)) two_ends + 4 ≡ n =
        ap (λ (t : Bytes). search t two_ends + 4)
          (sym (append_assoc (kept ++ bytes) (joined pieces) last))
        ∙ later_seen in
      let none_there : find_header_end (kept ++ bytes) ≡ none =
        find_header_end-prefix (kept ++ bytes) (joined pieces ++ last) n seen
          (omega (arith, sizes, front)) in
      let first = feed-holding max kept bytes beyond none_there (omega (arith, sizes, front)) in
      let later =
        feed_all-holding pieces others max (kept ++ bytes) last n later_seen (omega (arith, sizes))
          (omega (arith, sizes)) in
      simp (first, later, shape)

  do_decode-ending :
      (max : ℕ) (whole beyond rest : Bytes) (p n : ℕ) (r : Response)
      → p + 4 ≡ n
      → find_header_end whole ≡ some p
      → parse split_slash trim_copy parse_int n (whole ++ beyond) create_url_response ≡ (true, r)
      → drop n whole ≡ rest
      → length whole - n ≡ length rest
      → (do_decode split_slash trim_copy parse_int whole beyond (holding max [])).1
        ≡ streaming max (header r ∷ tail_of rest)
  unfolding do_decode tail_of tell
  do_decode-ending max whole beyond rest p n r size e done behind left =
      elim (Bool-cases (ltb 0 (length rest))) [
        | inl more ↦ simp (e, size, done, left, behind, more)
        | inr nothing ↦ simp (e, size, done, left, behind, nothing)
      ]

  feed-ending :
      (max : ℕ) (kept last beyond rest : Bytes) (p n : ℕ) (r : Response)
      → p + 4 ≡ n
      → find_header_end (kept ++ last) ≡ some p
      → parse split_slash trim_copy parse_int n (kept ++ last ++ beyond) create_url_response
        ≡ (true, r)
      → drop n (kept ++ last) ≡ rest
      → length (kept ++ last) - n ≡ length rest
      → length (kept ++ last) ≤ max
      → feed split_slash trim_copy parse_int last beyond (holding max kept)
        ≡ (true, streaming max (header r ∷ tail_of rest))
  unfolding feed
  feed-ending max [] last beyond rest p n r size e done behind left room =
      let told = do_decode-ending max last beyond rest p n r size e done behind left in simp told
  feed-ending max (c ∷ kept) last beyond rest p n r size e done behind left room =
      let fits : ltb max (suc (length kept) + length last) ≡ false =
        ground (arith, length-append kept last) in
      let some_kept : (suc (length kept) == 0) ≡ false = ground arith in
      let told =
        do_decode-ending max (c ∷ kept ++ last) beyond rest p n r size e done behind left in
      simp (some_kept, fits, told)

  module _ (decimal : ℕ → Bytes)
      (splits : (a b : Bytes)
        → NoChar b'/' a
        → NoChar b'/' b
        → split_slash (a ++ b'/' ∷ b) ≡ a ∷ b ∷ [])
      (reads : (n : ℕ) → n < 2 ^ 31 → parse_int (decimal n) (negsuc 0) ≡ pos n)
      (digits : (n : ℕ) → All (λ (c : ℕ). is_digit c ≡ true) (decimal n)) where
    -- A printed response and what follows it, fed to a new decoder in any pieces, are heard as
    -- that response, once, and as the bytes that follow it, all of them and in their order, and
    -- every call answers true. What comes up to the piece with the end of the header fits in the
    -- buffer, and boost and numerics keep their promises on the parts of the response.
    pub feed_all-print :
        (r : Response) (before after : List (Bytes × Bytes)) (last beyond rest : Bytes) (max : ℕ)
        → IsPrintable trim_copy r
        → joined before ++ last ≡ print decimal r ++ rest
        → length (joined before) < length (print decimal r)
        → length (joined before ++ last) ≤ max
        → (d : Decoder) × (feed_all (before ++ (last, beyond) ∷ after) (create max) ≡ (true, d))
          × (headers_of d.heard ≡ r ∷ [])
          × (body_of d.heard ≡ rest ++ joined after)
    unfolding create headers_of body_of feed_all
    feed_all-print r before after last beyond rest max h e short room =
        let n = length (print decimal r) in
        let whole = joined before ++ last in
        let p = search whole two_ends in
        let size : p + 4 ≡ n =
          ap (λ (t : Bytes). search t two_ends + 4) e
          ∙ search-print split_slash trim_copy parse_int decimal splits reads digits r rest h in
        let long = ap (λ (t : Bytes). length t) e in
        let parts = length-append (print decimal r) rest in
        let front = length-append (joined before) last in
        let done =
          ap (λ (t : Bytes). parse split_slash trim_copy parse_int n t create_url_response)
            (ap (λ (t : Bytes). t ++ beyond) e ∙ append_assoc (print decimal r) rest beyond)
          ∙ parse-print split_slash trim_copy parse_int decimal splits reads digits r
              create_url_response (rest ++ beyond) h new_response in
        let behind = ap (λ (t : Bytes). drop n t) e ∙ drop-length_append (print decimal r) rest in
        let held =
          feed_all-holding before ((last, beyond) ∷ after) max [] last n size short
            (omega (arith, front, room)) in
        let told =
          feed-ending max (joined before) last beyond rest p n r size
            (find_header_end-whole whole p refl (omega (arith, size, long, parts))) done behind
            (omega (arith, long, parts)) room in
        let streamed = feed_all-streaming after max (header r ∷ tail_of rest) in
        let (t1, t2) = tail_of-parts rest in
        let (b1, b2) = bodies-parts after in
        let events = header r ∷ tail_of rest ++ bodies after in
        (
          streaming max events,
          held ∙ simp (told, streamed),
          simp (headers_of-append (tail_of rest) (bodies after), t1, b1),
          simp (body_of-append (tail_of rest) (bodies after), t2, b2),
        )
