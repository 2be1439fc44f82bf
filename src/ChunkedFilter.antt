-- ===== src/ChunkedFilter.antt =====
-- include/xul/net/http/detail/chunked_http_filter.hpp: the chunked transfer coding is taken off a body.
-- The calls of the next filter are the list `sent`. `scan` is sscanf with the format "%llx": the number
-- that it stores, `none` where it stores nothing. m_buffer stays empty and m_content_length -1: they are
-- left out. The size of a piece is an `int`, so that a piece is shorter than 2 ^ 31 bytes.
pub mod Soundness
pub mod Bodies
pub mod Rounds
mod Runs
use xul.Prelude.{
  ℕ, zero, suc, ◌+◌, ◌-◌, ◌%◌, ◌^◌, Bool, true, false, ◌&&◌, not, Option, none, some, List, [], ◌∷◌,
  ◌++◌, Bytes, length, take, drop, get_or, ltb, leb, ◌==◌, if◌then◌else◌,
}
use xul.Prelude.Int.{ℤ, pos, negsuc}
use xul.Prelude.Search.{search}

-- A call of the next filter. `undefined` is none: it marks that the source has no defined behaviour.
pub data Sent : Type 0 where
  processed : Bytes → Sent
  finished : Bytes → Sent
  failed : ℤ → Sent
  initialised : Sent
  undefined : Sent

pub record Filter : Type 0 where
  pub received_size : ℕ
  pub last_chunk_size : ℤ
  pub current_chunk_size : ℤ
  pub received_chunk_size : ℕ
  pub sent : List Sent

unfoldable pub create : Filter
create = record {
  received_size = 0;
  last_chunk_size = negsuc 0;
  current_chunk_size = negsuc 0;
  received_chunk_size = 0;
  sent = [];
}

unfoldable pub reset_state : Filter → Filter
reset_state f = record f {
  received_size = 0;
  last_chunk_size = negsuc 0;
  current_chunk_size = negsuc 0;
  received_chunk_size = 0;
}

unfoldable pub send : Sent → Filter → Filter
send call f = record f { sent = f.sent ++ call ∷ [] }

-- `next_init` is the result of the next filter.
unfoldable pub init : Bool → Filter → Bool × Filter
unfolding reset_state send
init next_init f = (next_init, send initialised (reset_state f))

unfoldable pub handle_error : ℤ → Filter → Filter
unfolding reset_state send
handle_error errcode f = send (failed errcode) (reset_state f)

unfoldable pub finish : Bool → Bytes → Filter → Bool × Filter
unfolding send
finish next_finish bytes f = (next_finish, send (finished bytes) f)

unfoldable pub crln : Bytes
crln = b'\r' ∷ b'\n' ∷ []

-- Of a chunk of `current` bytes: what is there is sent on, where its end is there, or is not to come.
-- remaining_size is an `int`, written as its 32 bits. From 2 ^ 31 on it is negative, and the source reads
-- before the piece; of the two numbers below that, the sum with 2 overflows.
unfoldable pub decode_chunk_data : ℕ → Bytes → Filter → ℤ × Filter
unfolding send
decode_chunk_data current bytes f =
    let remaining = (current - f.received_chunk_size) % 2 ^ 32 in
    let whole = send (processed (take remaining bytes)) (record f {
      last_chunk_size = f.current_chunk_size;
      current_chunk_size = negsuc 0;
      received_chunk_size = 0;
    }) in
    let part =
      send (processed bytes)
        (record f { received_chunk_size = f.received_chunk_size + length bytes }) in
    if leb (2 ^ 31 - 2) remaining
    then (negsuc 0, send undefined f)
    else if leb (remaining + 2) (length bytes)
    then if (get_or bytes remaining 0 == b'\r') && (get_or bytes (remaining + 1) 0 == b'\n')
      then (pos (remaining + 2), whole)
      else (negsuc 0, f)
    else if ltb (length bytes) remaining
    then (pos (length bytes), part)
    else (pos 0, f)

-- After the last chunk. The result is the size from the empty line on, as the source has it.
unfoldable pub decode_chunk_trailer : Bytes → Filter → ℤ × Filter
unfolding send crln
decode_chunk_trailer bytes f =
    let place = search bytes (crln ++ crln) in
    if ltb (length bytes) 2
    then (pos 0, f)
    else if (get_or bytes 0 0 == b'\r') && (get_or bytes 1 0 == b'\n')
    then (pos 2, send (finished []) f)
    else (pos (length bytes - place), send (processed []) f)

module _ (scan : Bytes → Option ℤ) where
  unfoldable pub decode_chunk_start : Bytes → Filter → ℤ × Filter
  unfolding crln
  decode_chunk_start bytes f =
      let place = search bytes crln in
      if place == length bytes then (pos 0, f) else elim (scan (take place bytes)) [
        | none ↦ (negsuc 0, f)
        | some chunksize ↦ (pos (place + 2), record f { current_chunk_size = chunksize })
      ]

  -- `decode_once`, by m_current_chunk_size.
  unfoldable pub dispatch : ℤ → Bytes → Filter → ℤ × Filter
  unfolding decode_chunk_start decode_chunk_data decode_chunk_trailer
  dispatch (pos zero) bytes f = decode_chunk_trailer bytes f
  dispatch (pos (suc n)) bytes f = decode_chunk_data (suc n) bytes f
  dispatch (negsuc n) bytes f = decode_chunk_start bytes f

  unfoldable pub decode_once : Bytes → Filter → ℤ × Filter
  unfolding dispatch
  decode_once bytes f = dispatch f.current_chunk_size bytes f

  -- The loop of `process`, whose result is always true. A round that goes on takes a byte, so that the
  -- length of the data is fuel enough.
  unfoldable pub process_loop : ℕ → Bytes → Filter → Filter
  process_loop zero bytes f = f
  process_loop (suc fuel) bytes f =
      let (ret, after) = decode_once bytes f in
      if length bytes == 0 then f else elim ret [
        | negsuc n ↦ after
        | pos zero ↦ after
        | pos (suc n) ↦
            process_loop fuel (drop (suc n) bytes)
              (record after { received_size = after.received_size + suc n })
      ]

  unfoldable pub process : Bytes → Filter → Filter
  unfolding process_loop
  process bytes f = process_loop (length bytes) bytes f
