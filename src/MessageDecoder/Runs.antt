-- ===== src/MessageDecoder/Runs.antt =====
-- Concrete runs of the decoder of lines, and its theorems at concrete inputs.
use xul.Prelude.{
  ℕ, suc, ◌≤◌, length, ◌≡◌, refl, Bool, false, List, [], ◌∷◌, ◌++◌, Bytes, codes, arith,
}
use xul.MessageDecoder.{create, feed, decode_buffer, decode_kept, decode_loop, notify, check_buffer}
use xul.MessageDecoder.Chunks.{feed_all, feed_all-chunks, concat}
use xul.MessageDecoder.Lines.{promoted, do_decode, do_decode-IsSplitter, feed_all-lines, AreLines}
use xul.Prelude.Int.{pos}
use xul.MessageDecoder.Splitter.{IsSplitter}
use xul.MessageDecoder.DataCodec.{Decoded, feed_each, create as create_codec}
use xul.MessageDecoder.Pieces.{feed_each-pieces, do_decode as codec_do_decode}
use xul.MessageDecoder.Stream.{holding}
use xul.Prelude.Search.{search, starts_with}

abbrev crlf : Bytes
crlf = 13 ∷ 10 ∷ []

abbrev quiet : Bytes → Bool
quiet m = false

abbrev in_two : List Bytes
in_two = (codes "ab" ++ 13 ∷ []) ∷ (10 ∷ codes "cd") ∷ []

abbrev in_one : List Bytes
in_one = (codes "ab" ++ 13 ∷ 10 ∷ codes "cd") ∷ []

feed_all-chunks_example :
    feed_all (do_decode crlf quiet) (create 16) in_two
    ≡ feed_all (do_decode crlf quiet) (create 16) in_one
feed_all-chunks_example =
    feed_all-chunks (do_decode-IsSplitter crlf quiet (omega arith) (omega arith) (λ m. refl)) 16
      in_two in_one refl (omega arith)

feed_all-lines_example :
    (ms : List Bytes) × (rest : Bytes) × (feed_all (do_decode crlf quiet) (create 16) in_two
      ≡ holding 16 rest ms)
    × AreLines crlf quiet (omega arith) (omega arith) (λ m. refl) (concat in_two) ms rest
feed_all-lines_example =
    feed_all-lines crlf quiet (omega arith) (omega arith) (λ m. refl) 16 in_two (omega arith)

two_chunks :
    feed_all (do_decode crlf quiet) (create 16) in_two
    ≡ holding 16 (codes "cd") ((codes "ab" ++ crlf) ∷ [])
unfolding feed decode_buffer decode_kept decode_loop notify check_buffer do_decode promoted search
    starts_with create
two_chunks = refl

-- A unit is one byte.
abbrev byte_units : Bytes → Decoded
byte_units [] = record { ret = pos 0; handed = [] }
byte_units (x ∷ bytes) = record { ret = pos 1; handed = (x ∷ []) ∷ [] }

byte_units-IsSplitter : IsSplitter (codec_do_decode byte_units)
byte_units-IsSplitter = record {
  takes = takes;
  goes_on = λ bytes. refl;
  waits = waits;
  stable = stable;
}
  where
    takes : (bytes : Bytes) → (n : ℕ) × ((byte_units bytes).ret ≡ pos n) × (n ≤ length bytes)
    takes [] = (0, refl, omega arith)
    takes (x ∷ bytes) = (1, refl, omega arith)

    waits : (bytes : Bytes) → (byte_units bytes).ret ≡ pos 0 → (byte_units bytes).handed ≡ []
    waits [] e = refl
    waits (x ∷ bytes) e = ground (arith, e)

    stable :
        (bytes more : Bytes) (n : ℕ)
        → (byte_units bytes).ret ≡ pos (suc n)
        → codec_do_decode byte_units (bytes ++ more) ≡ codec_do_decode byte_units bytes
    stable [] more n e = ground (arith, e)
    stable (x ∷ bytes) more n e = refl

feed_each-pieces_example :
    feed_each byte_units (create_codec 16) in_two ≡ feed_each byte_units (create_codec 16) in_one
feed_each-pieces_example =
    feed_each-pieces byte_units byte_units-IsSplitter 16 in_two in_one refl (omega arith)

-- A delimiter of a byte from 128 on is not found where it stands.
not_found : (do_decode (200 ∷ []) quiet (1 ∷ 200 ∷ 2 ∷ [])).ret ≡ pos 0
unfolding do_decode promoted search starts_with
not_found = refl
