-- ===== src/Bmf/RoundTrip.antt =====
-- An integer that is written is read again.
use xul.Prelude.{
  ℕ, zero, suc, ◌+◌, ◌-◌, ◌*◌, ◌/◌, ◌%◌, ◌^◌, ◌≤◌, ◌<◌, ◌≡◌, refl, ap, sym, ◌∙◌, inl, inr, true,
  false, ◌||◌, Bool-cases, if◌then◌else◌, some, [], ◌∷◌, ◌++◌, Bytes, length, length-append,
  length-drop, drop, drop-drop, leb, ltb, ◌==◌, bit_or, bit_and, arith,
}
use native.Mathlib.Nat.{pow-suc}
use xul.Prelude.Bits.{bit_and_mask, bit_or_shifted}
use xul.Prelude.Int.{ℤ, pos, negsuc}
use xul.Bmf.{
  flag_at, limit_at, find_pos, encode_loop, encode, joined, magnitude, sign_flag, to_signed,
  decoded, as_byte, decode,
}
use xul.Bmf.Forms.{IsSign, FirstByte, first_byte, small_bits}
use xul.Streams.MemoryInput.{Input, is_available}
use xul.Streams.MemoryOutput.{Output}
use xul.Streams.Writing.{wrote, write_bytes-fits, drop-wrote}
use xul.Streams.Reading.{memory_read_byte, memory_read_n}

-- What is read from these bytes: the sign and the number.
pub record ReadsAs (flag total : ℕ) (bytes : Bytes) : Type 0 where
  first : ℕ
  buf : Bytes
  cut : bytes ≡ first ∷ buf
  is_byte : first ≤ 255
  few : length buf ≤ 8
  form : find_pos 8 0 (bit_and first 0x7F) ≡ length buf
  sign : bit_and first 0x80 ≡ flag
  number : joined (bit_and (bit_and first 0x7F) (limit_at (length buf))) buf ≡ total

joined_lowest :
    (remaining : ℕ) (written : Bytes)
    → remaining < 2 ^ 64
    → joined (remaining / 2 ^ 8) (bit_and remaining 0xFF ∷ written) ≡ joined remaining written
unfolding joined
joined_lowest remaining written h =
    let low = bit_and_mask 8 remaining in
    let shifted : remaining / 2 ^ 8 * 2 ^ 8 % 2 ^ 64 ≡ remaining / 2 ^ 8 * 2 ^ 8 = omega arith in
    let whole : bit_or (remaining / 2 ^ 8 * 2 ^ 8) (remaining % 2 ^ 8) ≡ remaining =
      bit_or_shifted 8 (remaining / 2 ^ 8) (remaining % 2 ^ 8) (omega arith) ∙ omega arith in
    rw (low, shifted, whole) refl

-- The round that ends the loop.
last_round :
    (i flag remaining : ℕ) (written : Bytes)
    → IsSign flag
    → i < 9
    → length written ≡ i
    → ((remaining == 0) || leb remaining (limit_at i)) ≡ true
    → ReadsAs flag
        (joined remaining written)
        (bit_or (bit_or flag (remaining % 2 ^ 8)) (flag_at i) ∷ written)
unfolding FirstByte
last_round i flag remaining written s hi hl room =
    let (form, bits, sign, small) =
      first_byte flag i remaining s hi (small_bits i remaining hi room) room in
    record {
      first = bit_or (bit_or flag (remaining % 2 ^ 8)) (flag_at i);
      buf = written;
      cut = refl;
      is_byte = small;
      few = omega arith;
      form = form ∙ sym hl;
      sign = sign;
      number = rw (hl, bits) refl;
    }

pub encode_loop-ReadsAs :
    (rounds i flag remaining : ℕ) (written : Bytes)
    → IsSign flag
    → i + suc rounds ≡ 9
    → length written ≡ i
    → remaining < 256 ^ rounds
    → remaining < 2 ^ 64
    → (bytes : Bytes) × (encode_loop (suc rounds) i flag remaining written ≡ some bytes)
      × ReadsAs flag (joined remaining written) bytes
unfolding encode_loop
encode_loop-ReadsAs zero i flag remaining written s hi hl hr hw =
    let room : ((remaining == 0) || leb remaining (limit_at i)) ≡ true = ground arith in
    (_, rw room refl, last_round i flag remaining written s (omega arith) hl room)
encode_loop-ReadsAs (suc rounds) i flag remaining written s hi hl hr hw =
    elim (Bool-cases ((remaining == 0) || leb remaining (limit_at i))) [
      | inl room ↦ (_, rw room refl, last_round i flag remaining written s (omega arith) hl room)
      | inr more ↦
          let power = pow-suc 256 rounds in
          let (bytes, e, r) =
            encode_loop-ReadsAs rounds (i + 1) flag (remaining / 2 ^ 8)
              (bit_and remaining 0xFF ∷ written) s (omega arith) (omega arith)
              (omega (arith, power)) (omega arith) in
          (bytes, rw more e, rw (joined_lowest remaining written hw) at r)
    ]

-- The numbers of an int64_t.
unfoldable pub IsInt64 : ℤ → Type 0
IsInt64 (pos n) = n < 2 ^ 63
IsInt64 (negsuc n) = n < 2 ^ 63

pub magnitude-small : (val : ℤ) → IsInt64 val → magnitude val < 256 ^ 8
unfolding magnitude IsInt64
magnitude-small (pos n) h = omega arith
magnitude-small (negsuc n) h = omega arith

pub sign_flag-IsSign : (val : ℤ) → IsSign (sign_flag val)
unfolding IsSign sign_flag
sign_flag-IsSign (pos n) = inr refl
sign_flag-IsSign (negsuc n) = inl refl

decoded_back :
    (val : ℤ) (first : ℕ)
    → IsInt64 val
    → bit_and first 0x80 ≡ sign_flag val
    → decoded first (magnitude val) ≡ val
unfolding decoded magnitude sign_flag to_signed IsInt64
decoded_back (pos n) first h e =
    let f : (bit_and first 0x80 == 0) ≡ false = ground (arith, e) in
    let small : n % 2 ^ 64 ≡ n = omega arith in
    let low : ltb n (2 ^ 63) ≡ true = ground arith in rw (f, small, low) refl
decoded_back (negsuc n) first h e =
    let f : (bit_and first 0x80 == 0) ≡ true = ground (arith, e) in
    let bits : (2 ^ 64 - suc n % 2 ^ 64) % 2 ^ 64 ≡ 2 ^ 64 - suc n = omega arith in
    let high : ltb (2 ^ 64 - suc n) (2 ^ 63) ≡ false = ground arith in
    let back : 2 ^ 64 - (2 ^ 64 - suc n) - 1 ≡ n = omega arith in rw (f, bits, high, back) refl

-- A stream with a first byte at its position and the bytes that it announces behind it.
decode_parts :
    (first : ℕ) (buf rest : Bytes) (is : Input)
    → first ≤ 255
    → find_pos 8 0 (bit_and first 0x7F) ≡ length buf
    → drop is.position is.buffer ≡ first ∷ (buf ++ rest)
    → decode is ≡ (
        if ltb 0 (length buf)
        then (
          some (decoded first (joined (bit_and (bit_and first 0x7F) (limit_at (length buf))) buf)),
          record is { position = is.position + 1 + length buf },
        )
        else (
          some (decoded first (bit_and (bit_and first 0x7F) (limit_at (length buf)))),
          record is { position = is.position + 1 },
        ))
unfolding decode as_byte is_available
decode_parts first buf rest is small form e =
    let long = ap (λ (t : Bytes). length t) e in
    let there = length-drop is.position is.buffer in
    let all = length-append buf rest in
    let enough : leb (is.position + 1) (length is.buffer) ≡ true = ground (arith, long, there) in
    let byte = memory_read_byte first (buf ++ rest) is (omega (arith, long, there)) e in
    let whole : first % 2 ^ 8 ≡ first = omega arith in
    let behind : drop (is.position + 1) is.buffer ≡ buf ++ rest =
      sym (drop-drop is.position 1 is.buffer) ∙ ap (λ (t : Bytes). drop 1 t) e in
    let others =
      memory_read_n buf rest (record is { position = is.position + 1 })
        (omega (arith, long, there, all)) behind in
    simp (enough, byte, whole, form, others)

decode_form :
    (first : ℕ) (buf rest : Bytes) (is : Input)
    → first ≤ 255
    → find_pos 8 0 (bit_and first 0x7F) ≡ length buf
    → drop is.position is.buffer ≡ first ∷ (buf ++ rest)
    → decode is ≡ (
      some (decoded first (joined (bit_and (bit_and first 0x7F) (limit_at (length buf))) buf)),
      record is { position = is.position + suc (length buf) },
    )
unfolding joined
decode_form first [] rest is small form e = decode_parts first [] rest is small form e
decode_form first (b ∷ buf) rest is small form e =
    let some_more : ltb 0 (suc (length buf)) ≡ true = ground arith in
    let further : is.position + 1 + suc (length buf) ≡ is.position + suc (suc (length buf)) =
      omega arith in
    rw (decode_parts first (b ∷ buf) rest is small form e, some_more, further) refl

pub decode-ReadsAs :
    (val : ℤ) (bytes rest : Bytes) (is : Input)
    → IsInt64 val
    → ReadsAs (sign_flag val) (magnitude val) bytes
    → drop is.position is.buffer ≡ bytes ++ rest
    → decode is ≡ (some val, record is { position = is.position + length bytes })
decode-ReadsAs val bytes rest is h r e =
    let form =
      decode_form r.first r.buf rest is r.is_byte r.form
        (e ∙ ap (λ (t : Bytes). t ++ rest) r.cut) in
    let back = decoded_back val r.first h r.sign in
    let cut = r.cut in let number = r.number in rw (form, number, back, cut) refl

written_back :
    (val : ℤ) (os : Output) (bytes : Bytes)
    → IsInt64 val
    → os.position + 9 ≤ length os.buffer
    → encode_loop 9 0 (sign_flag val) (magnitude val) [] ≡ some bytes
    → ReadsAs (sign_flag val) (magnitude val) bytes
    → (written : Output) × (encode val os ≡ some written)
      × (decode (record { buffer = written.buffer; position = os.position })
          ≡ (some val, record { buffer = written.buffer; position = written.position }))
unfolding encode wrote
written_back val os bytes h room e r =
    let fits : os.position + length bytes ≤ length os.buffer =
      omega (arith, r.few, ap (λ (t : Bytes). length t) r.cut) in
    (
      wrote bytes os,
      rw (encode, e) (write_bytes-fits bytes os fits),
      decode-ReadsAs val bytes _
          (record { buffer = (wrote bytes os).buffer; position = os.position }) h r
          (drop-wrote bytes os fits),
    )

-- Every integer of 64 bits, the least included, that is written to a stream with nine bytes left
-- is written, and from where it was written it is read again, up to the end of what was written.
pub decode-encode_bmf :
    (val : ℤ) (os : Output)
    → IsInt64 val
    → os.position + 9 ≤ length os.buffer
    → (written : Output) × (encode val os ≡ some written)
      × (decode (record { buffer = written.buffer; position = os.position })
          ≡ (some val, record { buffer = written.buffer; position = written.position }))
unfolding joined
decode-encode_bmf val os h room =
    let small = magnitude-small val h in
    let (bytes, e, r) =
      encode_loop-ReadsAs 8 0 (sign_flag val) (magnitude val) [] (sign_flag-IsSign val) refl refl
        small (omega (arith, small)) in
    written_back val os bytes h room e r
