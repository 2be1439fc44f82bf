-- ===== src/Streams/Fields.antt =====
-- Fields of a message read one by one from what stands at the position of a memory stream.
use xul.Prelude.{ℕ, ◌^◌, ◌<◌, ◌≡◌, refl, ◌∙◌, Bool, some, ◌++◌, append_assoc, Bytes, arith}
use xul.BitConverter.{from_word, from_dword}
use xul.Streams.DataInput.{DataInput, read_uint16, read_uint32}
use xul.Streams.Orders.{word_back, dword_back}
use xul.Streams.Reading.{Ahead, advanced, read_n-size, length-from_word, length-from_dword}

pub first-Ahead :
    (xs ys rest : Bytes) (d : DataInput) → Ahead (xs ++ ys) rest d → Ahead xs (ys ++ rest) d
unfolding Ahead
first-Ahead xs ys rest d (good, low, e) = (good, low, e ∙ append_assoc xs ys rest)

module _ (host : Bool) where
  pub read_uint16-Ahead :
      (n : ℕ) (rest : Bytes) (d : DataInput)
      → n < 2 ^ 16
      → Ahead (from_word d.big_endian n) rest d
      → read_uint16 host d ≡ (some n, advanced 2 d)
  unfolding read_uint16
  read_uint16-Ahead n rest d f h =
      let long = length-from_word d.big_endian n in
      rw (read_n-size 2 _ rest d long (omega arith) h, word_back host d.big_endian n f, long) refl

  pub read_uint32-Ahead :
      (n : ℕ) (rest : Bytes) (d : DataInput)
      → n < 2 ^ 32
      → Ahead (from_dword d.big_endian n) rest d
      → read_uint32 host d ≡ (some n, advanced 4 d)
  unfolding read_uint32
  read_uint32-Ahead n rest d f h =
      let long = length-from_dword d.big_endian n in
      rw (read_n-size 4 _ rest d long (omega arith) h, dword_back host d.big_endian n f, long) refl
