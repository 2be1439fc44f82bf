-- ===== src/HttpMessage/Parser.antt =====
-- include/xul/net/http/http_message_parser.hpp and http_response_parser.hpp. boost's `split` at slashes and
-- `trim_copy`, and numerics::parse for int, with the value for a text that it does not read, are
-- parameters. The parser goes through memory: the bytes it is given and whatever stands behind them.
use xul.Prelude.{
  ℕ, zero, suc, ◌+◌, Bool, true, false, ◌||◌, Option, none, some, List, [], ◌∷◌, Bytes, codes,
  length, take, drop, ◌==◌, if◌then◌else◌,
}
use xul.Prelude.Int.{ℤ, pos, negsuc}
use xul.Prelude.Search.{search}
use xul.Strings.Parts.{split_of, split_pair_char}
use xul.Streams.MemoryOutput.{text_of}
use xul.HttpMessage.{Message, Response, set_header, set_status_code, set_status_description}

-- The place of the empty line at the end of the headers.
unfoldable pub find_header_end : Bytes → Option ℕ
find_header_end bytes =
    let p = search bytes (codes "\r\n\r\n") in if p == length bytes then none else some p

unfoldable pub find_line_end : Bytes → Option ℕ
find_line_end bytes =
    let p = search bytes (codes "\r\n") in if p == length bytes then none else some p

unfoldable pub error_invalid_header_line : ℤ
error_invalid_header_line = negsuc 0

unfoldable pub error_invalid_protocol_part : ℤ
error_invalid_protocol_part = negsuc 1

unfoldable pub error_invalid_status_line : ℤ
error_invalid_status_line = negsuc 2

unfoldable pub error_invalid_status_code : ℤ
error_invalid_status_code = negsuc 3

module _ (split_slash : Bytes → List Bytes) (trim_copy : Bytes → Bytes)
    (parse_int : Bytes → ℤ → ℤ) where
  -- A name and a value as C strings, up to a NUL.
  unfoldable pub parse_header : Bytes → Message → ℤ × Message
  parse_header line m =
      let (name, val) = split_pair_char line b':' in
      if length line == 0
      then (pos 1, m)
      else if (length name == 0) || (length name == length line)
      then (error_invalid_header_line, m)
      else (pos 0, set_header (text_of (trim_copy name)) (text_of (trim_copy val)) m)

  unfoldable pub parse_protocol : Bytes → Message → ℤ × Message
  parse_protocol s m = elim (split_slash s) [
    | name ∷ version ∷ [] ↦
        (pos 0, record m { protocol_name = text_of name; protocol_version = text_of version })
    | _ ↦ (error_invalid_protocol_part, m)
  ]

  unfoldable pub with_status : ℤ → Bytes → Response → ℤ × Response
  with_status (negsuc n) description r = (error_invalid_status_code, r)
  with_status (pos n) description r =
      (pos 0, set_status_description (text_of description) (set_status_code n r))

  unfoldable pub parse_first_line : Bytes → Response → ℤ × Response
  parse_first_line line r = elim (split_of line (codes " \t") 3) [
    | protocol ∷ status ∷ description ∷ [] ↦
        let (ret, m) = parse_protocol protocol r.message in
        elim ret [
          | negsuc n ↦ (negsuc n, record r { message = m })
          | pos n ↦ with_status (parse_int status (negsuc 0)) description (record r { message = m })
        ]
    | _ ↦ (error_invalid_status_line, r)
  ]

  -- The first line of the message, and any other.
  unfoldable pub parse_line : Bool → Bytes → Response → ℤ × Response
  parse_line true line r = parse_first_line line r
  parse_line false line r =
      let (ret, m) = parse_header line r.message in (ret, record r { message = m })

  -- The loop from an address on: `size` stays what it was at the first line.
  unfoldable pub parse_loop : ℕ → Bool → ℕ → Bytes → Response → Bool × Response
  parse_loop zero first_line size memory r = (false, r)
  parse_loop (suc fuel) first_line size memory r = elim (find_line_end (take size memory)) [
    | none ↦ (false, r)
    | some p ↦
        let (ret, after) = parse_line first_line (take p memory) r in
        elim ret [
          | pos (suc n) ↦ (true, after)
          | negsuc n ↦ (false, after)
          | pos zero ↦ parse_loop fuel false size (drop (p + 2) memory) after
        ]
  ]

  -- Every round passes two bytes of the memory.
  unfoldable pub parse : ℕ → Bytes → Response → Bool × Response
  parse size memory r = parse_loop (length memory + 1) true size memory r
