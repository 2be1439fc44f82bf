-- ===== src/Streams/MemoryOutput.antt =====
-- include/xul/io/memory_output_stream.hpp: the buffer has the length of the capacity. `none` is the
-- exception that check_available throws; nothing has been written by then.
use xul.Prelude.{
  ℕ, ◌+◌, Bool, true, false, Option, none, some, [], ◌∷◌, ◌++◌, Bytes, length, take, drop, set, ltb,
  leb, ◌==◌, if◌then◌else◌,
}

pub record Output : Type 0 where
  pub buffer : Bytes
  pub position : ℕ

unfoldable pub create : Bytes → Output
create buf = record { buffer = buf; position = 0 }

unfoldable pub capacity : Output → ℕ
capacity o = length o.buffer

unfoldable pub is_available : ℕ → Output → Bool
unfolding capacity
is_available size o = leb (o.position + size) (capacity o)

unfoldable pub write_bytes : Bytes → Output → Option Output
unfolding is_available
write_bytes bytes o =
    let written =
      take o.position o.buffer ++ (bytes ++ drop (o.position + length bytes) o.buffer) in
    if is_available (length bytes) o
    then if ltb 0 (length bytes)
      then some (record o { buffer = written; position = o.position + length bytes })
      else some o
    else none

unfoldable pub write_byte : ℕ → Output → Option Output
unfolding is_available
write_byte val o =
    if is_available 1 o
    then some (record o { buffer = set o.buffer o.position val; position = o.position + 1 })
    else none

-- The text up to its terminator.
unfoldable pub text_of : Bytes → Bytes
text_of [] = []
text_of (c ∷ s) = let rest = text_of s in if c == 0 then [] else c ∷ rest

unfoldable pub write_string : Bytes → Output → Option Output
unfolding write_bytes text_of
write_string s o = write_bytes (text_of s) o

-- To a position that is not negative; the source takes the negative ones too.
unfoldable pub seek : ℕ → Output → Bool × Output
seek n o = if leb (length o.buffer) n then (false, o) else (true, record o { position = n })
