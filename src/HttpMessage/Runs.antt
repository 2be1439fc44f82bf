-- ===== src/HttpMessage/Runs.antt =====
-- Concrete runs of the parser and the extractor, and their theorems at concrete inputs.
use xul.Prelude.{
  ℕ, zero, suc, ◌-◌, ◌^◌, ◌≤◌, ◌<◌, ◌≡◌, refl, ap, true, take, drop, List, [], ◌∷◌, ◌++◌, Bytes,
  All, codes, length, replicate, length-replicate, ◌==◌, if◌then◌else◌, arith,
}
use xul.Prelude.Int.{ℤ, pos, negsuc}
use xul.Prelude.Ctype.{is_digit, is_upper, to_lower}
use xul.Strings.{string_iequal_to}
use xul.Strings.Parts.{split_pair_char, is_one_of}
use xul.Strings.Pairs.{NoChar, split_pair_char-NoChar}
use xul.StringTable.{contains}
use xul.Streams.MemoryOutput.{text_of}
use xul.HttpMessage.{
  Response, create_url_response, clear, clear_message, print, write_headers, header_lines,
  header_line,
}
use xul.HttpMessage.Parser.{parse}
use xul.HttpMessage.Extractor.{create, feed}
use xul.HttpMessage.Decoder.{Decoder}
use xul.HttpMessage.Decoder as decoder
use xul.HttpMessage.Heard.{headers_of, body_of}
use xul.HttpMessage.Bodies.{feed_all, feed_all-print}
use xul.StringTable.Fresh.{Fresh}
use xul.HttpMessage.Headers.{IsHeader, AreHeaders}
use xul.HttpMessage.RoundTrip.{IsToken, IsPrintable, parse-print, parse-print_unfinished}
use xul.HttpMessage.Pieces.{joined, sizes, waiting, feed_each, feed_each-print}

-- Numbers as strokes, one more than the number.
abbrev strokes : ℕ → Bytes
strokes n = replicate (suc n) b'1'

abbrev count_strokes : Bytes → ℤ → ℤ
count_strokes [] d = d
count_strokes (x ∷ text) d = pos (length text)

count_strokes-strokes : (n : ℕ) → n < 2 ^ 31 → count_strokes (strokes n) (negsuc 0) ≡ pos n
count_strokes-strokes n h = ap (λ (t : ℕ). pos t) (length-replicate n b'1')

strokes-digits : (n : ℕ) → All (λ (c : ℕ). is_digit c ≡ true) (strokes n)
unfolding is_digit
strokes-digits zero = (refl, tt)
strokes-digits (suc n) = (refl, strokes-digits n)

-- At the first slash.
abbrev cut_at_slash : Bytes → List Bytes
cut_at_slash s = let (first, second) = split_pair_char s b'/' in first ∷ second ∷ []

cut_at_slash-parts :
    (a b : Bytes) → NoChar b'/' a → NoChar b'/' b → cut_at_slash (a ++ b'/' ∷ b) ≡ a ∷ b ∷ []
cut_at_slash-parts a b h k = let parts = split_pair_char-NoChar b'/' a b h in rw parts refl

-- Spaces in front.
abbrev skip_spaces : Bytes → Bytes
skip_spaces [] = []
skip_spaces (c ∷ s) = let rest = skip_spaces s in if c == b' ' then rest else c ∷ s

abbrev not_found : Response
not_found = record {
  message = record {
    headers =
        (record { key = codes "Age"; value = codes "5" })
        ∷ (record { key = codes "Via"; value = codes "a b" })
        ∷ [];
    protocol_name = codes "HTTP";
    protocol_version = codes "1.1";
  };
  status_code = 4;
  status_description = codes "Not Found";
}

not_found-IsPrintable : IsPrintable skip_spaces not_found
unfolding IsPrintable IsToken AreHeaders IsHeader Fresh contains string_iequal_to text_of is_one_of
    to_lower is_upper
not_found-IsPrintable = (
  (
    (refl, (refl, (refl, (refl, tt)))),
    (refl, (refl, (refl, (refl, tt)))),
    (refl, (refl, (refl, (refl, tt)))),
    refl,
  ),
  ((refl, (refl, (refl, tt))), (refl, (refl, (refl, tt))), (refl, (refl, (refl, tt))), refl),
  omega arith,
  (refl, (refl, (refl, (refl, (refl, (refl, (refl, (refl, (refl, tt))))))))),
  refl,
  (
    ((refl, (refl, (refl, tt))), (refl, (refl, (refl, tt))), omega arith, refl, (refl, tt), refl),
    (
      (
        (refl, (refl, (refl, tt))),
        (refl, (refl, (refl, tt))),
        omega arith,
        refl,
        (refl, (refl, (refl, tt))),
        refl,
      ),
      tt,
    ),
  ),
  (refl, (refl, tt)),
)

parse-print_example :
    parse cut_at_slash skip_spaces count_strokes
      (length (print strokes not_found))
      (print strokes not_found ++ codes "rest")
      create_url_response
    ≡ (true, not_found)
unfolding create_url_response clear clear_message
parse-print_example =
    parse-print cut_at_slash skip_spaces count_strokes strokes cut_at_slash-parts
      count_strokes-strokes strokes-digits not_found create_url_response (codes "rest")
      not_found-IsPrintable refl

-- Cut behind 5 and 14 bytes, with the body and other memory behind the last piece.
abbrev all_bytes : Bytes
all_bytes = codes "HTTP/1.1 11111 Not Found\r\nAge: 5\r\nVia: a b\r\n\r\nbody"

abbrev two_pieces : List (Bytes × Bytes)
two_pieces = (take 5 all_bytes, codes "x") ∷ (take 9 (drop 5 all_bytes), []) ∷ []

whole : joined two_pieces ++ drop 14 all_bytes ≡ print strokes not_found ++ codes "body"
unfolding joined print write_headers header_lines header_line
whole = refl

shorter : length (joined two_pieces) < length (print strokes not_found)
unfolding joined print write_headers header_lines header_line
shorter = omega arith

fitting : length (joined two_pieces ++ drop 14 all_bytes) ≤ 100
unfolding joined
fitting = omega arith

feed_each-print_example :
    (feed_each cut_at_slash skip_spaces count_strokes two_pieces (create 100)
      ≡ (sizes two_pieces, waiting 100 (joined two_pieces)))
    × (feed cut_at_slash skip_spaces count_strokes
          (drop 14 all_bytes)
          []
          (waiting 100 (joined two_pieces))
        ≡ (
          pos (length (print strokes not_found) - length (joined two_pieces)),
          record {
            buffer = [];
            max_buffer_size = 100;
            header_finished = true;
            response = not_found;
          },
        ))
feed_each-print_example =
    feed_each-print cut_at_slash skip_spaces count_strokes strokes cut_at_slash-parts
      count_strokes-strokes strokes-digits not_found two_pieces (drop 14 all_bytes) []
      (codes "body") 100 not_found-IsPrintable whole shorter fitting

parse-print_unfinished_example :
    parse cut_at_slash skip_spaces count_strokes
      (length (print strokes not_found) - 2)
      (print strokes not_found ++ [])
      create_url_response
    ≡ (true, not_found)
unfolding create_url_response clear clear_message
parse-print_unfinished_example =
    parse-print_unfinished cut_at_slash skip_spaces count_strokes strokes cut_at_slash-parts
      count_strokes-strokes strokes-digits not_found create_url_response [] not_found-IsPrintable
      refl

feed_all-print_example :
    (d : Decoder) × (feed_all cut_at_slash skip_spaces count_strokes
        (two_pieces ++ (drop 14 all_bytes, codes "x") ∷ (codes " text", []) ∷ [])
        (decoder.create 100)
      ≡ (true, d))
    × (headers_of d.heard ≡ not_found ∷ [])
    × (body_of d.heard ≡ codes "body" ++ joined ((codes " text", []) ∷ []))
feed_all-print_example =
    feed_all-print cut_at_slash skip_spaces count_strokes strokes cut_at_slash-parts
      count_strokes-strokes strokes-digits not_found two_pieces ((codes " text", []) ∷ [])
      (drop 14 all_bytes) (codes "x") (codes "body") 100 not_found-IsPrintable whole shorter fitting
