-- ===== src/Socks/RoundTrip.antt =====
-- A request that is written is read again.
use xul.Prelude.{
  ℕ, zero, suc, ◌+◌, ◌^◌, ◌≤◌, ◌<◌, ◌≡◌, refl, ap, sym, ◌∙◌, Bool, true, Option, none, some, List,
  [], ◌∷◌, ◌++◌, append-nil, append_assoc, Bytes, All, length, length-append, drop, ltb, leb, ◌>>=◌,
  arith,
}
use xul.BitConverter.{from_word, from_dword}
use xul.Socks.{Request, get_object_size, read_user_id, read_object, write_object}
use xul.Streams.MemoryInput as memory
use xul.Streams.DataInput.{DataInput, is_available}
use xul.Streams.DataOutput.{DataOutput, write_uint8, write_uint16, write_uint32, write_raw}
use xul.Streams.Serial.{Value, uint8, uint16, uint32, text, encoding, encodings, write_values}
use xul.Streams.Writing.{wrote, data_wrote, write_values-fits, drop-wrote, length-wrote}
use xul.Streams.Reading.{
  Ahead, advanced, advanced-Ahead, advanced-advanced, read_uint8-Ahead, length-Ahead,
  length-from_word, length-from_dword,
}
use xul.Streams.Fields.{read_uint16-Ahead, read_uint32-Ahead, first-Ahead}

-- The fields have their widths, and the user id has no terminator in it.
unfoldable pub IsSound : Request → Type 0
IsSound r =
    (r.version_number < 2 ^ 8)
    × (r.command_code < 2 ^ 8)
    × (r.destination_port < 2 ^ 16)
    × (r.destination_ip < 2 ^ 32)
    × All (λ (c : ℕ). 0 < c) r.user_id

unfoldable pub fields : Request → List Value
fields r =
    uint8 r.version_number
    ∷ uint8 r.command_code
    ∷ uint16 r.destination_port
    ∷ uint32 r.destination_ip
    ∷ text r.user_id
    ∷ uint8 0
    ∷ []

-- Writes one behind the other, grouped from the left as the source has them.
module _ {A : Type 0} where
  bind_some : (o : Option A) → (o >>= λ (x : A). some x) ≡ o
  bind_some none = refl
  bind_some (some x) = refl

  chain_2 :
      (o : Option A) (f g : A → Option A)
      → (o >>= f >>= g) ≡ (o >>= λ x. f x >>= λ x. g x >>= λ x. some x)
  chain_2 none f g = refl
  chain_2 (some a) f g = ap (λ h. f a >>= h) (λ i x. sym (bind_some (g x)) i)

  pub chain_3 :
      (o : Option A) (f g h : A → Option A)
      → (o >>= f >>= g >>= h) ≡ (o >>= λ x. f x >>= λ x. g x >>= λ x. h x >>= λ x. some x)
  chain_3 none f g h = refl
  chain_3 (some a) f g h = chain_2 (f a) g h

  chain_4 :
      (o : Option A) (f g h k : A → Option A)
      → (o >>= f >>= g >>= h >>= k)
        ≡ (o >>= λ x. f x >>= λ x. g x >>= λ x. h x >>= λ x. k x >>= λ x. some x)
  chain_4 none f g h k = refl
  chain_4 (some a) f g h k = chain_3 (f a) g h k

  pub chain_5 :
      (o : Option A) (f g h k l : A → Option A)
      → (o >>= f >>= g >>= h >>= k >>= l)
        ≡ (o >>= λ x. f x >>= λ x. g x >>= λ x. h x >>= λ x. k x >>= λ x. l x >>= λ x. some x)
  chain_5 none f g h k l = refl
  chain_5 (some a) f g h k l = chain_4 (f a) g h k l

write_object-fields :
    (host : Bool) (r : Request) (os : DataOutput)
    → write_object host r os ≡ write_values host (fields r) os
unfolding write_object write_values fields
write_object-fields host r os =
    chain_5 (write_uint8 r.version_number os) (write_uint8 r.command_code)
      (write_uint16 host r.destination_port) (write_uint32 host r.destination_ip)
      (write_raw r.user_id) (write_uint8 0)

length-fields : (b : Bool) (r : Request) → length (encodings b (fields r)) ≡ get_object_size r
unfolding encodings encoding fields get_object_size
length-fields b r =
    let word = from_word b r.destination_port in
    let dword = from_dword b r.destination_ip in
    omega (
      arith,
      length-from_word b r.destination_port,
      length-from_dword b r.destination_ip,
      length-append word (dword ++ (r.user_id ++ (0 ∷ []))),
      length-append dword (r.user_id ++ (0 ∷ [])),
      length-append r.user_id (0 ∷ []),
    )

read_user_id-Ahead :
    (rounds : ℕ) (found user_id rest : Bytes) (d : DataInput)
    → All (λ (c : ℕ). 0 < c) user_id
    → length user_id < rounds
    → Ahead (user_id ++ (0 ∷ [])) rest d
    → read_user_id rounds found d ≡ some (found ++ user_id, advanced (length user_id + 1) d)
unfolding read_user_id
read_user_id-Ahead zero found user_id rest d z h a = absurd (omega arith)
read_user_id-Ahead (suc rounds) found [] rest d z h a =
    let byte = read_uint8-Ahead 0 rest d a in let all = append-nil found in simp (byte, all)
read_user_id-Ahead (suc rounds) found (c ∷ user_id) rest d (z, zs) h a =
    let byte =
      read_uint8-Ahead c (user_id ++ (0 ∷ []) ++ rest) d
        (first-Ahead (c ∷ []) (user_id ++ (0 ∷ [])) rest d a) in
    let more : ltb 0 c ≡ true = ground arith in
    let later =
      read_user_id-Ahead rounds (found ++ (c ∷ [])) user_id rest (advanced 1 d) zs (omega arith)
        (advanced-Ahead (c ∷ []) (user_id ++ (0 ∷ [])) rest d a) in
    let both = advanced-advanced 1 (length user_id + 1) d in
    let total : 1 + (length user_id + 1) ≡ suc (length user_id) + 1 = omega arith in
    let all = append_assoc found (c ∷ []) user_id in simp (byte, more, later, both, total, all)

-- A stream that reads at the place and in the order of the output.
abbrev pub reader_at : ℕ → DataOutput → DataInput
reader_at p os = record {
  input = record { buffer = os.out.buffer; position = p };
  big_endian = os.big_endian;
  good = true;
}

unfoldable pub message : Bool → Request → Bytes
message b r =
    (r.version_number ∷ [])
    ++ ((r.command_code ∷ [])
        ++ (from_word b r.destination_port
            ++ (from_dword b r.destination_ip ++ (r.user_id ++ (0 ∷ [])))))

length-message : (b : Bool) (r : Request) → length (message b r) ≡ 9 + length r.user_id
unfolding message encodings encoding fields get_object_size
length-message b r = length-fields b r

read_object-Ahead :
    (host : Bool) (r : Request) (rest : Bytes) (d : DataInput)
    → IsSound r
    → Ahead (message d.big_endian r) rest d
    → read_object host d ≡ some (true, r, advanced (get_object_size r) d)
unfolding read_object message IsSound get_object_size is_available memory.is_available advanced
    Ahead
read_object-Ahead host r rest d (version, command, port, ip, user_id) h =
    let b = d.big_endian in
    let tail4 = r.user_id ++ (0 ∷ []) in
    let tail3 = from_dword b r.destination_ip ++ tail4 in
    let tail2 = from_word b r.destination_port ++ tail3 in
    let tail1 = (r.command_code ∷ []) ++ tail2 in
    let d1 = advanced 1 d in
    let d2 = advanced 1 d1 in
    let d3 = advanced 2 d2 in
    let h1 = advanced-Ahead (r.version_number ∷ []) tail1 rest d h in
    let h2 = advanced-Ahead (r.command_code ∷ []) tail2 rest d1 h1 in
    let word = length-from_word b r.destination_port in
    let h3 : Ahead tail3 rest d3 =
      rw word at (advanced-Ahead (from_word b r.destination_port) tail3 rest d2 h2) in
    let dword = length-from_dword b r.destination_ip in
    let h4 : Ahead tail4 rest (advanced 4 d3) =
      rw dword at (advanced-Ahead (from_dword b r.destination_ip) tail4 rest d3 h3) in
    let e1 =
      read_uint8-Ahead r.version_number (tail1 ++ rest) d
        (first-Ahead (r.version_number ∷ []) tail1 rest d h) in
    let e2 =
      read_uint8-Ahead r.command_code (tail2 ++ rest) d1
        (first-Ahead (r.command_code ∷ []) tail2 rest d1 h1) in
    let e3 =
      read_uint16-Ahead host r.destination_port (tail3 ++ rest) d2 port
        (first-Ahead _ tail3 rest d2 h2) in
    let e4 =
      read_uint32-Ahead host r.destination_ip (tail4 ++ rest) d3 ip
        (first-Ahead _ tail4 rest d3 h3) in
    let long = length-Ahead (message b r) rest d h in
    let size = length-message b r in
    let enough : leb (d.input.position + 9) (length d.input.buffer) ≡ true =
      ground (arith, long, size) in
    let e5 =
      read_user_id-Ahead (length d.input.buffer + 1) [] r.user_id rest (advanced 4 d3) user_id
        (omega (arith, long, size)) h4 in
    let total : d.input.position + 1 + 1 + 2 + 4 + (length r.user_id + 1)
        ≡ d.input.position + (9 + length r.user_id) =
      omega arith in
    let good = h.0 in simp (good, enough, e1, e2, e3, e4, e5, total)

-- A request whose fields have their widths and whose user id has no NUL in it, written where it
-- fits, takes get_object_size bytes and is read again from where it was written, up to the end of
-- what was written, whatever the byte orders of the two machines and of the stream.
pub read_object-write_object :
    (writer reader : Bool) (r : Request) (os : DataOutput)
    → IsSound r
    → os.out.position + get_object_size r ≤ length os.out.buffer
    → (written : DataOutput) × (write_object writer r os ≡ some written)
      × (written.out.position ≡ os.out.position + get_object_size r)
      × (read_object reader (reader_at os.out.position written)
          ≡ some (true, r, reader_at written.out.position written))
unfolding Ahead advanced data_wrote wrote message encodings encoding fields
read_object-write_object writer reader r os sound h =
    let b = os.big_endian in
    let bytes = encodings b (fields r) in
    let size = length-fields b r in
    let fits : os.out.position + length bytes ≤ length os.out.buffer = omega (arith, size) in
    let written = data_wrote bytes os in
    let e = write_object-fields writer r os ∙ write_values-fits writer (fields r) os fits in
    let rest = drop (os.out.position + length bytes) os.out.buffer in
    let there =
      read_object-Ahead reader r rest (reader_at os.out.position written) sound
        (refl, omega (arith, length-wrote bytes os.out fits), drop-wrote bytes os.out fits) in
    (
      written,
      e,
      ap (λ (n : ℕ). os.out.position + n) size,
      there ∙ ap (λ (n : ℕ). some (true, r, reader_at (os.out.position + n) written)) (sym size),
    )
