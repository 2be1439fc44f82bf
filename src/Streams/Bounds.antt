-- ===== src/Streams/Bounds.antt =====
-- The positions of the memory streams.
use xul.Prelude.{
  ℕ, ◌+◌, ◌≤◌, ◌<◌, ◌≡◌, refl, ◌∙◌, ◌⊎◌, inl, inr, false, none, some, List, [], ◌∷◌, Bytes, length,
  leb, arith,
}
use xul.Prelude.Int.{ℤ, pos, negsuc}
use xul.Streams.MemoryInput.{Input, is_available, read, read_n, read_byte, skip, seek}
use xul.Streams.MemoryOutput.{Output}
use xul.Streams.MemoryOutput as output
use xul.Streams.Writing.{wrote, write_bytes-fits, length-wrote}

-- A call that changes an input stream.
pub data Call : Type 0 where
  call_read : ℕ → Call
  call_read_n : ℕ → Call
  call_read_byte : Call
  call_skip : ℤ → Call
  call_seek : ℤ → Call

unfoldable pub called : Call → Input → Input
called (call_read n) s = (read n s).1
called (call_read_n n) s = (read_n n s).1
called call_read_byte s = (read_byte s).1
called (call_skip n) s = (skip n s).1
called (call_seek n) s = (seek n s).1

unfoldable pub called_all : List Call → Input → Input
called_all [] s = s
called_all (c ∷ cs) s = called_all cs (called c s)

unfoldable pub InBounds : Input → Type 0
InBounds s = s.position ≤ length s.buffer

called-InBounds :
    (c : Call) (s : Input) → InBounds s → InBounds (called c s) × ((called c s).buffer ≡ s.buffer)
unfolding called InBounds read read_n read_byte skip seek is_available
called-InBounds (call_read n) s h = ground (arith, h)
called-InBounds (call_read_n n) s h = ground (arith, h)
called-InBounds call_read_byte s h = ground (arith, h)
called-InBounds (call_skip (pos n)) s h = ground (arith, h)
called-InBounds (call_skip (negsuc n)) s h = ground (arith, h)
called-InBounds (call_seek (pos n)) s h = ground (arith, h)
called-InBounds (call_seek (negsuc n)) s h = (h, refl)

-- A position that is within the buffer, or at its end, stays there through any calls of read,
-- read_n, read_byte, skip and seek, forwards and backwards, those that fail included, and the
-- buffer stays as it is.
pub called_all-InBounds :
    (calls : List Call) (s : Input)
    → InBounds s
    → InBounds (called_all calls s) × ((called_all calls s).buffer ≡ s.buffer)
unfolding called_all
called_all-InBounds [] s h = (h, refl)
called_all-InBounds (c ∷ calls) s h =
    let (within, same) = called-InBounds c s h in
    let (last, all) = called_all-InBounds calls (called c s) within in (last, all ∙ same)

-- A write of bytes throws where they do not fit behind the position, and only there; where they
-- do, the capacity stays, and the position is behind them, within the capacity.
pub write_bytes-bounds :
    (bytes : Bytes) (o : Output)
    → ((o.position + length bytes ≤ output.capacity o)
        × (output.write_bytes bytes o ≡ some (wrote bytes o))
        × (output.capacity (wrote bytes o) ≡ output.capacity o)
        × ((wrote bytes o).position ≤ output.capacity o))
      ⊎ ((output.capacity o < o.position + length bytes) × (output.write_bytes bytes o ≡ none))
unfolding output.write_bytes output.is_available output.capacity wrote
write_bytes-bounds bytes o = elim (below_or_not (o.position + length bytes) (length o.buffer)) [
  | inl fits ↦ inl (fits, write_bytes-fits bytes o fits, length-wrote bytes o fits, fits)
  | inr long ↦
      let e : leb (o.position + length bytes) (length o.buffer) ≡ false = ground arith in
      inr (long, rw e refl)
]
  where
    below_or_not : (a b : ℕ) → (a ≤ b) ⊎ (b < a)
    below_or_not a b = omega arith
