-- ===== src/Socks/Answers.antt =====
-- A response that is written is read again.
use xul.Prelude.{
  ℕ, ◌+◌, ◌^◌, ◌≤◌, ◌<◌, ◌≡◌, refl, ap, sym, ◌∙◌, Bool, true, some, List, [], ◌∷◌, ◌++◌, Bytes,
  length, length-append, drop, arith,
}
use xul.BitConverter.{from_word, from_dword}
use xul.Socks.{Response, get_response_size, read_response, write_response}
use xul.Socks.RoundTrip.{chain_3, reader_at}
use xul.Streams.DataInput.{DataInput}
use xul.Streams.DataOutput.{DataOutput, write_uint8, write_uint16, write_uint32}
use xul.Streams.Serial.{Value, uint8, uint16, uint32, encoding, encodings, write_values}
use xul.Streams.Writing.{wrote, data_wrote, write_values-fits, drop-wrote, length-wrote}
use xul.Streams.Reading.{
  Ahead, advanced, advanced-Ahead, read_uint8-Ahead, length-from_word, length-from_dword,
}
use xul.Streams.Fields.{read_uint16-Ahead, read_uint32-Ahead, first-Ahead}

-- The fields have their widths.
unfoldable pub HasWidths : Response → Type 0
HasWidths r = (r.status_code < 2 ^ 8) × (r.port < 2 ^ 16) × (r.ip < 2 ^ 32)

unfoldable pub parts : Response → List Value
parts r = uint8 0 ∷ uint8 r.status_code ∷ uint16 r.port ∷ uint32 r.ip ∷ []

write_response-parts :
    (host : Bool) (r : Response) (os : DataOutput)
    → write_response host r os ≡ write_values host (parts r) os
unfolding write_response write_values parts
write_response-parts host r os =
    chain_3 (write_uint8 0 os) (write_uint8 r.status_code) (write_uint16 host r.port)
      (write_uint32 host r.ip)

length-parts : (b : Bool) (r : Response) → length (encodings b (parts r)) ≡ get_response_size r
unfolding encodings encoding parts get_response_size
length-parts b r = omega (
  arith,
  length-from_word b r.port,
  length-from_dword b r.ip,
  length-append (from_word b r.port) (from_dword b r.ip ++ []),
  length-append (from_dword b r.ip) [],
)

read_response-Ahead :
    (host : Bool) (old r : Response) (rest : Bytes) (d : DataInput)
    → HasWidths r
    → Ahead (encodings d.big_endian (parts r)) rest d
    → read_response host old d ≡ (true, r, advanced 8 d)
unfolding read_response HasWidths parts encodings encoding advanced
read_response-Ahead host old r rest d (status, port, ip) h =
    let b = d.big_endian in
    let tail3 = from_dword b r.ip ++ [] in
    let tail2 = from_word b r.port ++ tail3 in
    let tail1 = (r.status_code ∷ []) ++ tail2 in
    let d1 = advanced 1 d in
    let d2 = advanced 1 d1 in
    let d3 = advanced 2 d2 in
    let h1 = advanced-Ahead (0 ∷ []) tail1 rest d h in
    let h2 = advanced-Ahead (r.status_code ∷ []) tail2 rest d1 h1 in
    let word = length-from_word b r.port in
    let h3 : Ahead tail3 rest d3 =
      rw word at (advanced-Ahead (from_word b r.port) tail3 rest d2 h2) in
    let e1 = read_uint8-Ahead 0 (tail1 ++ rest) d (first-Ahead (0 ∷ []) tail1 rest d h) in
    let e2 =
      read_uint8-Ahead r.status_code (tail2 ++ rest) d1
        (first-Ahead (r.status_code ∷ []) tail2 rest d1 h1) in
    let e3 =
      read_uint16-Ahead host r.port (tail3 ++ rest) d2 port (first-Ahead _ tail3 rest d2 h2) in
    let e4 = read_uint32-Ahead host r.ip ([] ++ rest) d3 ip (first-Ahead _ [] rest d3 h3) in
    let total : d.input.position + 1 + 1 + 2 + 4 ≡ d.input.position + 8 = omega arith in
    simp (e1, e2, e3, e4, total)

-- A response whose fields have their widths, written where it fits, takes get_object_size bytes
-- and is read again from where it was written, whatever the response held before and whatever the
-- byte orders of the two machines and of the stream.
pub read_response-write_response :
    (writer reader : Bool) (old r : Response) (os : DataOutput)
    → HasWidths r
    → os.out.position + get_response_size r ≤ length os.out.buffer
    → (written : DataOutput) × (write_response writer r os ≡ some written)
      × (written.out.position ≡ os.out.position + get_response_size r)
      × (read_response reader old (reader_at os.out.position written)
          ≡ (true, r, reader_at written.out.position written))
unfolding Ahead advanced data_wrote wrote get_response_size
read_response-write_response writer reader old r os sound h =
    let b = os.big_endian in
    let bytes = encodings b (parts r) in
    let size = length-parts b r in
    let fits : os.out.position + length bytes ≤ length os.out.buffer = omega (arith, size) in
    let written = data_wrote bytes os in
    let e = write_response-parts writer r os ∙ write_values-fits writer (parts r) os fits in
    let rest = drop (os.out.position + length bytes) os.out.buffer in
    let there =
      read_response-Ahead reader old r rest (reader_at os.out.position written) sound
        (refl, omega (arith, length-wrote bytes os.out fits), drop-wrote bytes os.out fits) in
    (
      written,
      e,
      ap (λ (n : ℕ). os.out.position + n) size,
      there ∙ ap (λ (n : ℕ). (true, r, reader_at (os.out.position + n) written)) (sym size),
    )
