-- ===== src/HttpMessage/Extractor.antt =====
-- http_response_extractor of include/xul/net/http/http_response_decoder.hpp. `beyond` is the memory behind the
-- bytes of a call.
use xul.Prelude.{
  ℕ, zero, suc, ◌+◌, Bool, true, false, none, some, List, [], ◌++◌, Bytes, length, ltb, ◌==◌,
  if◌then◌else◌,
}
use xul.Prelude.Int.{ℤ, pos, negsuc, ◌-ℤ◌}
use xul.HttpMessage.{Response, create_url_response}
use xul.HttpMessage.Parser.{find_header_end, parse}

pub record Extractor : Type 0 where
  pub buffer : Bytes
  pub max_buffer_size : ℕ
  pub header_finished : Bool
  pub response : Response

unfoldable pub reset : Extractor → Extractor
reset e = record e { header_finished = false; response = create_url_response; buffer = [] }

unfoldable pub create : ℕ → Extractor
unfolding reset
create max_buffer_size = reset (record {
  buffer = [];
  max_buffer_size = max_buffer_size;
  header_finished = false;
  response = create_url_response;
})

module _ (split_slash : Bytes → List Bytes) (trim_copy : Bytes → Bytes)
    (parse_int : Bytes → ℤ → ℤ) where
  unfoldable pub try_parse : Bytes → Bytes → Extractor → ℤ × Extractor
  try_parse bytes beyond e = elim (find_header_end bytes) [
    | none ↦ (pos 0, record e { buffer = bytes })
    | some p ↦
        let (done, response) =
          parse split_slash trim_copy parse_int (p + 4) (bytes ++ beyond) e.response in
        if done
        then (pos (p + 4), record e { response = response; header_finished = true })
        else (negsuc 0, record e { response = response })
  ]

  -- The result of `feed`, by the size of the header and the size of the buffer before the call.
  unfoldable pub consumed : ℕ → ℕ → ℤ × Extractor → ℤ × Extractor
  consumed size previous (negsuc n, e) = (negsuc 0, e)
  consumed size previous (pos zero, e) = (pos size, e)
  consumed size previous (pos (suc n), e) = (pos (suc n) -ℤ pos previous, e)

  unfoldable pub feed : Bytes → Bytes → Extractor → ℤ × Extractor
  feed bytes beyond e =
      let previous = length e.buffer in
      if e.header_finished
      then (pos 0, e)
      else if previous == 0
      then consumed (length bytes) previous (try_parse bytes beyond e)
      else if ltb e.max_buffer_size (previous + length bytes)
      then (negsuc 0, e)
      else consumed (length bytes) previous
          (try_parse (e.buffer ++ bytes) beyond (record e { buffer = [] }))
