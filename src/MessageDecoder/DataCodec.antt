-- ===== src/MessageDecoder/DataCodec.antt =====
-- include/xul/io/codec/buffered_data_codec.hpp, which buffers as the message decoder does, with other results.
-- `decode_once` is the virtual function of the subclass: what it returns, and what it hands to the callback. The
-- calls of the callback are the list `outputs`.
use xul.Prelude.{
  ℕ, zero, suc, ◌+◌, ◌-◌, not, Option, none, some, List, [], ◌∷◌, ◌++◌, Bytes, length, drop, ltb,
  leb, if◌then◌else◌,
}
use xul.Prelude.Int.{ℤ, pos, negsuc}
use xul.MessageDecoder.{is_empty}

pub record Decoded : Type 0 where
  pub ret : ℤ
  pub handed : List Bytes

pub record Codec : Type 0 where
  pub buffer : Bytes
  pub position : ℕ
  pub max_buffer_size : ℕ
  pub outputs : List Bytes

unfoldable pub create : ℕ → Codec
create max = record { buffer = []; position = 0; max_buffer_size = max; outputs = [] }

unfoldable pub set_max_buffer_size : ℤ → Codec → Codec
set_max_buffer_size (negsuc n) c = c
set_max_buffer_size (pos zero) c = c
set_max_buffer_size (pos (suc n)) c = record c { max_buffer_size = suc n }

unfoldable pub reset : Codec → Codec
reset c = record c { buffer = []; position = 0 }

unfoldable pub get_remaining_data : Codec → Option Bytes
get_remaining_data c =
    if leb (length c.buffer) c.position then none else some (drop c.position c.buffer)

unfoldable pub get_remaining_size : Codec → ℕ
get_remaining_size c = length c.buffer - c.position

unfoldable pub check_buffer : Codec → Codec
check_buffer c =
    if ltb 0 c.position
    then record c {
      buffer = (if leb c.position (length c.buffer) then drop c.position c.buffer else c.buffer);
      position = 0;
    }
    else c

unfoldable pub hand : Decoded → Codec → Codec
hand d c = record c { outputs = c.outputs ++ d.handed }

module _ (decode_once : Bytes → Decoded) where
  -- The loop of `decode_buffer`: `none` is its result -1. Each round takes a byte at least, so that the size of the
  -- data is fuel enough.
  unfoldable pub decode_loop : ℕ → Codec → Bytes → ℕ → ℕ → Codec × Option ℕ
  unfolding hand
  decode_loop zero c bytes processed size = (c, some processed)
  decode_loop (suc fuel) c bytes processed size =
      let result = decode_once bytes in
      let told = hand result c in
      if not (ltb processed size) then (c, some processed) else elim result.ret [
        | negsuc n ↦ (told, none)
        | pos zero ↦ (told, some processed)
        | pos (suc n) ↦ decode_loop fuel told (drop (suc n) bytes) (processed + suc n) size
      ]

  unfoldable pub decode_buffer : Codec → Bytes → Codec × Option ℕ
  unfolding decode_loop
  decode_buffer c bytes = decode_loop (length bytes) c bytes 0 (length bytes)

  -- The second half of `feed`: decode from `m_buffer`.
  unfoldable pub decode_kept : Codec → ℤ × Codec
  unfolding decode_buffer check_buffer
  decode_kept c =
      let (after, decoded) = decode_buffer c c.buffer in
      if is_empty c.buffer then (pos 1, c) else elim decoded [
        | none ↦ (pos 1, after)
        | some processed ↦
            let moved = check_buffer (record after { position = after.position + processed }) in
            (if is_empty moved.buffer then pos 1 else pos 0, moved)
      ]

  unfoldable pub feed : Codec → Bytes → ℤ × Codec
  unfolding decode_buffer decode_kept check_buffer
  feed c0 bytes =
      let c = check_buffer c0 in
      let (after, direct) = decode_buffer c bytes in
      if is_empty c.buffer
      then elim direct [
        | none ↦ (pos 1, after)
        | some processed ↦
            if ltb processed (length bytes)
            then decode_kept (record after { buffer = after.buffer ++ drop processed bytes })
            else decode_kept after
      ]
      else if ltb c.max_buffer_size (length c.buffer + length bytes)
      then (negsuc 0, c)
      else decode_kept (record c { buffer = c.buffer ++ bytes })

  -- The calls of `feed` one after the other.
  unfoldable pub feed_each : Codec → List Bytes → Codec
  unfolding feed
  feed_each c [] = c
  feed_each c (bytes ∷ pieces) = feed_each (feed c bytes).1 pieces
