-- ===== src/HttpMessage/Decoder.antt =====
-- http_response_decoder of include/xul/net/http/http_response_decoder.hpp, with what its listener hears.
-- `beyond` is the memory behind the bytes of a call.
use xul.Prelude.{
  ℕ, ◌+◌, ◌-◌, Bool, true, false, not, none, some, List, [], ◌∷◌, ◌++◌, Bytes, length, drop, ltb,
  ◌==◌, if◌then◌else◌,
}
use xul.Prelude.Int.{ℤ, pos, negsuc}
use xul.HttpMessage.{Response, create_url_response}
use xul.HttpMessage.Parser.{find_header_end, parse}

-- on_decoder_message with a header or with data, and on_decoder_error.
pub data Event : Type 0 where
  header : Response → Event
  body : Bytes → Event
  failure : ℤ → Event

pub record Decoder : Type 0 where
  pub buffer : Bytes
  pub max_buffer_size : ℕ
  pub aborted : Bool
  pub receiving_header : Bool
  pub heard : List Event

unfoldable pub create : ℕ → Decoder
create max_buffer_size = record {
  buffer = [];
  max_buffer_size = max_buffer_size;
  aborted = false;
  receiving_header = true;
  heard = [];
}

unfoldable pub abort : Decoder → Decoder
abort d = record d { aborted = true }

unfoldable pub get_remaining_data : Decoder → Bytes
get_remaining_data d = d.buffer

unfoldable pub get_remaining_size : Decoder → ℕ
get_remaining_size d = length d.buffer

unfoldable pub reset : Decoder → Decoder
reset d = record d { aborted = false; receiving_header = true; buffer = [] }

unfoldable pub tell : Event → Decoder → Decoder
tell event d = record d { heard = d.heard ++ (event ∷ []) }

module _ (split_slash : Bytes → List Bytes) (trim_copy : Bytes → Bytes)
    (parse_int : Bytes → ℤ → ℤ) where
  unfoldable pub do_decode : Bytes → Bytes → Decoder → ℤ × Decoder
  unfolding tell abort
  do_decode bytes beyond d =
      if d.receiving_header
      then elim (find_header_end bytes) [
        | none ↦ (pos 0, record d { buffer = bytes })
        | some p ↦
            let header_size = p + 4 in
            let (done, response) =
              parse split_slash trim_copy parse_int header_size (bytes ++ beyond)
                create_url_response in
            let told = tell (header response) (record d { receiving_header = false }) in
            if not done
            then (negsuc 0, tell (failure (negsuc 0)) (abort d))
            else if ltb 0 (length bytes - header_size)
            then (pos header_size, tell (body (drop header_size bytes)) told)
            else (pos header_size, told)
      ]
      else (pos (length bytes), tell (body bytes) d)

  unfoldable pub feed : Bytes → Bytes → Decoder → Bool × Decoder
  unfolding do_decode
  feed bytes beyond d =
      if length d.buffer == 0
      then (true, (do_decode bytes beyond d).1)
      else if ltb d.max_buffer_size (length d.buffer + length bytes)
      then (false, d)
      else (true, (do_decode (d.buffer ++ bytes) beyond (record d { buffer = [] })).1)
