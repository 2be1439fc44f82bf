-- ===== src/MessageDecoder.antt =====
-- include/xul/io/codec/buffered_message_decoder.hpp: the bytes that a subclass has not decoded yet are
-- kept for the next call. `do_decode` is the virtual function of the subclass: what it returns, the
-- messages that it hands to the listener, and whether the listener calls `abort` meanwhile. The calls
-- of the listener are the list `events`. `m_failed`, which nothing reads, is left out.
pub mod Splitter
pub mod Loop
pub mod Stream
pub mod Chunks
pub mod Lines
pub mod DataCodec
pub mod Pieces
mod Runs
use xul.Prelude.{
  ℕ, zero, suc, ◌+◌, ◌-◌, Bool, true, false, not, Option, none, some, List, [], ◌∷◌, ◌++◌, Bytes,
  map, length, drop, ltb, leb, if◌then◌else◌,
}
use xul.Prelude.Int.{ℤ, pos, negsuc}

pub data Event : Type 0 where
  message : Bytes → Event
  error : ℕ → Event

pub record Reply : Type 0 where
  pub ret : ℤ
  pub messages : List Bytes
  pub aborts : Bool

pub record Decoder : Type 0 where
  pub buffer : Bytes
  pub position : ℕ
  pub max_buffer_size : ℕ
  pub aborted : Bool
  pub events : List Event

unfoldable pub create : ℕ → Decoder
create max = record {
  buffer = [];
  position = 0;
  max_buffer_size = max;
  aborted = false;
  events = [];
}

unfoldable pub set_max_buffer_size : ℤ → Decoder → Decoder
set_max_buffer_size (negsuc n) d = d
set_max_buffer_size (pos zero) d = d
set_max_buffer_size (pos (suc n)) d = record d { max_buffer_size = suc n }

unfoldable pub reset : Decoder → Decoder
reset d = record d { buffer = []; position = 0; aborted = false }

unfoldable pub abort : Decoder → Decoder
unfolding reset
abort d = record (reset d) { aborted = true }

-- `on_decoder_error(this, 1)` after `abort()`.
unfoldable pub fail : Decoder → Decoder
unfolding abort reset
fail d = record (abort d) { events = d.events ++ error 1 ∷ [] }

-- The part of `do_decode` that the decoder can see.
unfoldable pub notify : Reply → Decoder → Decoder
notify reply d =
    let told = record d { events = d.events ++ map message reply.messages } in
    if reply.aborts then abort told else told

unfoldable pub get_remaining_size : Decoder → ℕ
get_remaining_size d = length d.buffer - d.position

unfoldable pub get_remaining_data : Decoder → Option Bytes
get_remaining_data d =
    if leb (length d.buffer) d.position then none else some (drop d.position d.buffer)

unfoldable pub check_buffer : Decoder → Decoder
check_buffer d =
    if ltb 0 d.position
    then record d {
      buffer = (if leb d.position (length d.buffer) then drop d.position d.buffer else d.buffer);
      position = 0;
    }
    else d

abbrev pub is_empty : Bytes → Bool
is_empty [] = true
is_empty (_ ∷ _) = false

module _ (do_decode : Bytes → Reply) where
  -- The loop of `decode_buffer`: `none` is its result -1. Each round takes a byte at least, so that
  -- the size of the data is fuel enough.
  unfoldable pub decode_loop : ℕ → Decoder → Bytes → ℕ → ℕ → Decoder × Option ℕ
  decode_loop zero d bytes processed size = (d, some processed)
  decode_loop (suc fuel) d bytes processed size =
      let reply = do_decode bytes in
      let told = notify reply d in
      if not (ltb processed size)
      then (d, some processed)
      else if d.aborted
      then (d, some processed)
      else elim reply.ret [
        | negsuc n ↦ (fail told, none)
        | pos zero ↦ (told, some processed)
        | pos (suc n) ↦ decode_loop fuel told (drop (suc n) bytes) (processed + suc n) size
      ]

  unfoldable pub decode_buffer : Decoder → Bytes → Decoder × Option ℕ
  decode_buffer d bytes = decode_loop (length bytes) d bytes 0 (length bytes)

  -- The second half of `feed`: decode from `m_buffer`.
  unfoldable pub decode_kept : Decoder → Bool × Decoder
  decode_kept d =
      let decoded = decode_buffer d d.buffer in
      let after = decoded.0 in
      if is_empty d.buffer then (true, d) else elim decoded.1 [
        | none ↦ (true, after)
        | some processed ↦ (
          is_empty (check_buffer (record after { position = after.position + processed })).buffer,
          check_buffer (record after { position = after.position + processed }),
        )
      ]

  -- The result of `feed`, and the decoder after it.
  unfoldable pub feed : Decoder → Bytes → Bool × Decoder
  feed d0 bytes =
      let d = check_buffer d0 in
      let direct = decode_buffer d bytes in
      let after = direct.0 in
      if is_empty d.buffer
      then elim direct.1 [
        | none ↦ (true, after)
        | some processed ↦
            if ltb processed (length bytes)
            then decode_kept (record after { buffer = after.buffer ++ drop processed bytes })
            else decode_kept after
      ]
      else if ltb d.max_buffer_size (length d.buffer + length bytes)
      then (true, fail d)
      else decode_kept (record d { buffer = d.buffer ++ bytes })
