-- ===== src/Streams/MemoryInput.antt =====
-- include/xul/io/memory_input_stream.hpp, and read_n of include/xul/io/input_stream.hpp, which it
-- inherits. Sizes and positions are below 2 ^ 63.
use xul.Prelude.{
  ℕ, suc, ◌+◌, ◌-◌, Bool, true, false, ◌&&◌, Option, none, some, [], Bytes, length, get_or, take,
  drop, ltb, leb, ◌==◌, if◌then◌else◌,
}
use xul.Prelude.Int.{ℤ, pos, negsuc}

pub record Input : Type 0 where
  pub buffer : Bytes
  pub position : ℕ

unfoldable pub attach_buffer : Bytes → Input
attach_buffer buf = record { buffer = buf; position = 0 }

-- `m_position + size <= m_size`, where a negative sum is compared as a large unsigned number.
unfoldable pub is_available : ℤ → Input → Bool
is_available (pos n) s = leb (s.position + n) (length s.buffer)
is_available (negsuc n) s = leb (suc n) s.position && leb (s.position - suc n) (length s.buffer)

unfoldable pub available : Input → ℕ
available s = if leb s.position (length s.buffer) then length s.buffer - s.position else 0

-- The bytes that are copied; their number is the result of the call.
unfoldable pub read : ℕ → Input → Bytes × Input
unfolding is_available
read size s =
    if is_available (pos size) s
    then (take size (drop s.position s.buffer), record s { position = s.position + size })
    else ([], s)

unfoldable pub read_n : ℕ → Input → Option Bytes × Input
read_n size s =
    let (bytes, after) = read size s in (if length bytes == size then some bytes else none, after)

unfoldable pub peek_byte : Input → ℤ
peek_byte s =
    if leb (length s.buffer) s.position then negsuc 0 else pos (get_or s.buffer s.position 0)

unfoldable pub read_byte : Input → ℤ × Input
unfolding is_available
read_byte s =
    if is_available (pos 1) s
    then (pos (get_or s.buffer s.position 0), record s { position = s.position + 1 })
    else (negsuc 0, s)

unfoldable pub skip : ℤ → Input → Bool × Input
unfolding is_available
skip (pos n) s =
    if is_available (pos n) s then (true, record s { position = s.position + n }) else (false, s)
skip (negsuc n) s =
    if is_available (negsuc n) s
    then (true, record s { position = s.position - suc n })
    else (false, s)

-- A negative position is compared as a large unsigned number.
unfoldable pub seek : ℤ → Input → Bool × Input
seek (pos n) s = if ltb (length s.buffer) n then (false, s) else (true, record s { position = n })
seek (negsuc n) s = (false, s)
