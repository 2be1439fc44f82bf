-- ===== src/PacketPipe.antt =====
-- include/xul/io/codec/message_packet_pipe.hpp: packets with their length of 32 bits before them, in a
-- buffer that is fed and read. m_max_message_length is the first argument of `read`. The position is an
-- `int`, written as its 32 bits: a negative number is 2 ^ 31 at least, and a sum wraps around where it
-- leaves the range, as the sum with the unsigned length does. Where the source reads before the buffer
-- there is nothing to read here.
pub mod Packets
mod Runs
use xul.Prelude.{
  ℕ, ◌+◌, ◌-◌, ◌%◌, ◌^◌, ◌&&◌, Bool, Option, none, some, [], ◌∷◌, ◌++◌, Bytes, length, take, drop,
  ltb, leb, ◌==◌, if◌then◌else◌,
}
use xul.BitConverter.{to_dword}

pub record Pipe : Type 0 where
  pub buffer : Bytes
  pub position : ℕ
  pub big_endian : Bool

unfoldable pub create : Bool → Pipe
create is_big_endian = record { buffer = []; position = 0; big_endian = is_big_endian }

-- An `int` or a `uint32_t` after an operation, and an `int` converted to `size_t`.
abbrev pub wrapped : ℕ → ℕ
wrapped n = n % 2 ^ 32

abbrev pub to_size : ℕ → ℕ
to_size n = if ltb n (2 ^ 31) then n else n + (2 ^ 64 - 2 ^ 32)

unfoldable pub check_buffer : Pipe → Pipe
check_buffer p =
    if ltb 0 p.position && ltb p.position (2 ^ 31)
    then record p {
      buffer = (if leb p.position (length p.buffer) then drop p.position p.buffer else p.buffer);
      position = 0;
    }
    else p

unfoldable pub feed : Bytes → Pipe → Pipe
unfolding check_buffer
feed bytes p = record (check_buffer p) { buffer = (check_buffer p).buffer ++ bytes }

-- The packet at the position, or `none` where the source returns NULL, and the pipe after the call.
unfoldable pub read : ℕ → Pipe → Option Bytes × Pipe
read max_message_length p =
    let msg_len = to_dword p.big_endian (drop (to_size p.position) p.buffer) in
    let data_pos = wrapped (p.position + 4) in
    if ltb (length p.buffer) (to_size (wrapped (p.position + 4)))
    then (none, p)
    else if ltb max_message_length msg_len
    then (none, p)
    else if msg_len == 0
    then (none, p)
    else if ltb (length p.buffer) (wrapped (data_pos + msg_len))
    then (none, p)
    else (
      some (take msg_len (drop (to_size data_pos) p.buffer)),
      record p { position = wrapped (p.position + wrapped (4 + msg_len)) },
    )

-- size() - position(), of `int`s.
unfoldable pub available : Pipe → ℕ
available p = wrapped (wrapped (length p.buffer) + (2 ^ 32 - p.position))
