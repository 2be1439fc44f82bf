-- ===== src/Base64/RoundTrip.antt =====
-- Decoding an encoded text.
use xul.Prelude.{
  ℕ, zero, suc, ◌+◌, ◌-◌, ◌*◌, ◌/◌, ◌%◌, ◌^◌, ◌<◌, ◌≤◌, ◌≡◌, refl, ap, ◌∙◌, Bool, true, false, ◌&&◌,
  not, [], ◌∷◌, ◌++◌, Bytes, ◌==◌, bit_and, bit_or, All, arith, IsByte, length,
}
use xul.Prelude.Table.{all_below, all_below_sound}
use xul.Prelude.Bits.{bit_and_mask, bit_or_shifted}
use xul.BitConverter.Masks.{byte_at_16, byte_at_8, byte_at_0, shifted_mask}
use xul.Base64.{
  letter, six_bits, get_encoding_table, get_decoding_table, count_up, encode, decode_step,
  decode_loop, decode,
}

-- A letter stands for its place in the table, and is none of the other characters.
letter_reads : ℕ → Bool
letter_reads i =
    (six_bits (letter i) == i)
    && not (letter i == b'\r')
    && not (letter i == b'\n')
    && not (letter i == b'=')

letter_table : all_below 64 letter_reads ≡ true
unfolding all_below letter_reads letter six_bits get_encoding_table get_decoding_table count_up
letter_table = refl

letter_lem :
    (i : ℕ)
    → i < 64
    → (six_bits (letter i) ≡ i)
      × ((letter i == b'\r') ≡ false)
      × ((letter i == b'\n') ≡ false)
      × ((letter i == b'=') ≡ false)
unfolding letter_reads
letter_lem i h = ground (arith, all_below_sound 64 letter_reads letter_table i h)

byte_1 :
    (a b : ℕ)
    → a < 64
    → b < 64
    → bit_and (a * 2 ^ 18 + b * 2 ^ 12) 0xff0000 / 2 ^ 16 % 2 ^ 8 ≡ a * 4 + b / 16
byte_1 a b ha hb = omega (arith, byte_at_16 (a * 2 ^ 18 + b * 2 ^ 12))

byte_2 :
    (a b c : ℕ)
    → b < 64
    → c < 64
    → bit_and (a * 2 ^ 18 + b * 2 ^ 12 + c * 2 ^ 6) 0xff00 / 2 ^ 8 % 2 ^ 8 ≡ b % 16 * 16 + c / 4
byte_2 a b c hb hc = omega (arith, byte_at_8 (a * 2 ^ 18 + b * 2 ^ 12 + c * 2 ^ 6))

byte_3 :
    (a b c d : ℕ)
    → d < 64
    → bit_and (a * 2 ^ 18 + b * 2 ^ 12 + c * 2 ^ 6 + d) 0xff % 2 ^ 8 ≡ c % 4 * 64 + d
byte_3 a b c d hd = omega (arith, byte_at_0 (a * 2 ^ 18 + b * 2 ^ 12 + c * 2 ^ 6 + d))

-- One round on four letters.
step_four :
    (a b c d : ℕ) (src : Bytes)
    → a < 64
    → b < 64
    → c < 64
    → d < 64
    → decode_step (letter a ∷ letter b ∷ letter c ∷ letter d ∷ src)
      ≡ ((a * 4 + b / 16) ∷ (b % 16 * 16 + c / 4) ∷ (c % 4 * 64 + d) ∷ [], src, 4)
unfolding decode_step
step_four a b c d src ha hb hc hd =
    let (sa, ra, na, ea) = letter_lem a ha in
    let (sb, rb, nb, eb) = letter_lem b hb in
    let (sc, rc, nc, ec) = letter_lem c hc in
    let (sd, rd, nd, ed) = letter_lem d hd in
    rw (ra, na, ec, ed, sa, sb, sc, sd, byte_1 a b ha hb, byte_2 a b c hb hc, byte_3 a b c d hd)
      refl

step_three :
    (a b c : ℕ) (src : Bytes)
    → a < 64
    → b < 64
    → c < 64
    → decode_step (letter a ∷ letter b ∷ letter c ∷ b'=' ∷ src)
      ≡ ((a * 4 + b / 16) ∷ (b % 16 * 16 + c / 4) ∷ [], b'=' ∷ src, 4)
unfolding decode_step
step_three a b c src ha hb hc =
    let (sa, ra, na, ea) = letter_lem a ha in
    let (sb, rb, nb, eb) = letter_lem b hb in
    let (sc, rc, nc, ec) = letter_lem c hc in
    rw (ra, na, ec, sa, sb, sc, byte_1 a b ha hb, byte_2 a b c hb hc) refl

step_two :
    (a b : ℕ) (src : Bytes)
    → a < 64
    → b < 64
    → decode_step (letter a ∷ letter b ∷ b'=' ∷ src) ≡ ((a * 4 + b / 16) ∷ [], b'=' ∷ src, 4)
unfolding decode_step
step_two a b src ha hb =
    let (sa, ra, na, ea) = letter_lem a ha in
    let (sb, rb, nb, eb) = letter_lem b hb in rw (ra, na, sa, sb, byte_1 a b ha hb) refl

-- The parts of the bytes that the letters stand for.
high_six : (c : ℕ) → c < 256 → bit_and c 0xfc / 2 ^ 2 ≡ c / 4
high_six c h = omega (arith, shifted_mask 2 c 63, bit_and_mask 6 (c / 2 ^ 2))

high_four : (c : ℕ) → c < 256 → bit_and c 0xf0 / 2 ^ 4 ≡ c / 16
high_four c h = omega (arith, shifted_mask 4 c 15, bit_and_mask 4 (c / 2 ^ 4))

joined_16 :
    (x y : ℕ) → y < 256 → bit_and (bit_or (x * 2 ^ 4) (y / 2 ^ 4)) 0x3f ≡ x % 4 * 16 + y / 16
joined_16 x y h = omega (
  arith,
  bit_or_shifted 4 x (y / 2 ^ 4) (omega arith),
  bit_and_mask 6 (bit_or (x * 2 ^ 4) (y / 2 ^ 4)),
)

joined_4 : (x y : ℕ) → y < 256 → bit_and (bit_or (x * 2 ^ 2) (y / 2 ^ 6)) 0x3f ≡ x % 16 * 4 + y / 64
joined_4 x y h = omega (
  arith,
  bit_or_shifted 2 x (y / 2 ^ 6) (omega arith),
  bit_and_mask 6 (bit_or (x * 2 ^ 2) (y / 2 ^ 6)),
)

loop_step :
    (fuel left step : ℕ) (src written after : Bytes)
    → decode_step src ≡ (written, after, step)
    → 0 < left
    → decode_loop (suc fuel) left src ≡ written ++ decode_loop fuel (left - step) after
unfolding decode_loop
loop_step fuel left step src written after e h =
    let some_left : (left == 0) ≡ false = ground arith in rw (e, some_left) refl

loop_end : (fuel : ℕ) (src : Bytes) → decode_loop fuel 0 src ≡ []
unfolding decode_loop
loop_end zero src = refl
loop_end (suc fuel) src = refl

encode_one :
    (c1 : ℕ)
    → c1 < 256
    → encode (c1 ∷ []) ≡ letter (c1 / 4) ∷ letter (c1 % 4 * 16) ∷ b'=' ∷ b'=' ∷ []
unfolding encode
encode_one c1 h = rw (high_six c1 h, bit_and_mask 2 c1) refl

encode_two :
    (c1 c2 : ℕ)
    → c1 < 256
    → c2 < 256
    → encode (c1 ∷ c2 ∷ [])
      ≡ letter (c1 / 4) ∷ letter (c1 % 4 * 16 + c2 / 16) ∷ letter (c2 % 16 * 4) ∷ b'=' ∷ []
unfolding encode
encode_two c1 c2 h1 h2 =
    rw
      (
        high_six c1 h1,
        bit_and_mask 2 c1,
        bit_and_mask 4 c2,
        high_four c2 h2,
        bit_or_shifted 4 (c1 % 4) (c2 / 16) (omega arith),
      )
      refl

encode_three :
    (c1 c2 c3 : ℕ) (str : Bytes)
    → c2 < 256
    → c3 < 256
    → encode (c1 ∷ c2 ∷ c3 ∷ str)
      ≡ letter (c1 / 4)
        ∷ letter (c1 % 4 * 16 + c2 / 16)
        ∷ letter (c2 % 16 * 4 + c3 / 64)
        ∷ letter (c3 % 64)
        ∷ encode str
unfolding encode
encode_three c1 c2 c3 str h2 h3 = rw (joined_16 c1 c2 h2, joined_4 c2 c3 h3, bit_and_mask 6 c3) refl

no_fuel :
    (left : ℕ) (src str : Bytes)
    → left ≡ length (src)
    → left ≤ 0
    → 0 < length src
    → decode_loop 0 left src ≡ str
no_fuel left src str e k h = absurd (omega arith)

-- Enough fuel, and as many bytes left as the encoding has.
loop-encode :
    (fuel left : ℕ) (str : Bytes)
    → All IsByte str
    → left ≡ length (encode str)
    → left ≤ fuel
    → decode_loop fuel left (encode str) ≡ str
loop-encode fuel left [] h e k =
    let none_left : left ≡ 0 = e ∙ (unfold encode in refl) in
    rw none_left (loop_end fuel (encode []))
loop-encode zero left (c1 ∷ []) h e k = no_fuel left _ _ e k (unfold encode in omega arith)
loop-encode zero left (c1 ∷ c2 ∷ []) h e k = no_fuel left _ _ e k (unfold encode in omega arith)
loop-encode zero left (c1 ∷ c2 ∷ c3 ∷ str) h e k =
    no_fuel left _ _ e k (unfold encode in omega arith)
loop-encode (suc fuel) left (c1 ∷ []) (h1, h) e k =
    let written = encode_one c1 h1 in
    let four : left ≡ 4 = e ∙ ap (λ (t : Bytes). length t) written in
    let first : c1 / 4 * 4 + c1 % 4 * 16 / 16 ≡ c1 = omega arith in
    rw (written, four)
      (loop_step fuel 4 4 _ _ _
          (step_two (c1 / 4) (c1 % 4 * 16) (b'=' ∷ []) (omega arith) (omega arith)) (omega arith)
        ∙ ap (λ (t : Bytes). (c1 / 4 * 4 + c1 % 4 * 16 / 16) ∷ t) (loop_end fuel (b'=' ∷ b'=' ∷ []))
        ∙ ap (λ (t : ℕ). t ∷ []) first)
loop-encode (suc fuel) left (c1 ∷ c2 ∷ []) (h1, (h2, h)) e k =
    let written = encode_two c1 c2 h1 h2 in
    let four : left ≡ 4 = e ∙ ap (λ (t : Bytes). length t) written in
    let x = c1 % 4 * 16 + c2 / 16 in
    let first : c1 / 4 * 4 + x / 16 ≡ c1 = omega arith in
    let second : x % 16 * 16 + c2 % 16 * 4 / 4 ≡ c2 = omega arith in
    rw (written, four)
      (loop_step fuel 4 4 _ _ _
          (step_three (c1 / 4) x (c2 % 16 * 4) [] (omega arith) (omega arith) (omega arith))
          (omega arith)
        ∙ ap (λ (t : Bytes). (c1 / 4 * 4 + x / 16) ∷ (x % 16 * 16 + c2 % 16 * 4 / 4) ∷ t)
            (loop_end fuel (b'=' ∷ []))
        ∙ ap (λ (t : ℕ). t ∷ (x % 16 * 16 + c2 % 16 * 4 / 4) ∷ []) first
        ∙ ap (λ (t : ℕ). c1 ∷ t ∷ []) second)
loop-encode (suc fuel) left (c1 ∷ c2 ∷ c3 ∷ str) (h1, (h2, (h3, h))) e k =
    let written = encode_three c1 c2 c3 str h2 h3 in
    let size : left ≡ 4 + length (encode str) =
      e ∙ ap (λ (t : Bytes). length t) written ∙ omega arith in
    let x = c1 % 4 * 16 + c2 / 16 in
    let y = c2 % 16 * 4 + c3 / 64 in
    let first : c1 / 4 * 4 + x / 16 ≡ c1 = omega arith in
    let second : x % 16 * 16 + y / 4 ≡ c2 = omega arith in
    let third : y % 4 * 64 + c3 % 64 ≡ c3 = omega arith in
    let others = loop-encode fuel (left - 4) str h (omega arith) (omega arith) in
    rw written (
      loop_step fuel left 4 _ _ _
        (step_four (c1 / 4) x y (c3 % 64) (encode str) (omega arith) (omega arith) (omega arith)
          (omega arith))
        (omega arith)
      ∙ ap
          (λ (t : Bytes).
            (c1 / 4 * 4 + x / 16) ∷ (x % 16 * 16 + y / 4) ∷ (y % 4 * 64 + c3 % 64) ∷ t)
          others
      ∙ ap (λ (t : ℕ). t ∷ (x % 16 * 16 + y / 4) ∷ (y % 4 * 64 + c3 % 64) ∷ str) first
      ∙ ap (λ (t : ℕ). c1 ∷ t ∷ (y % 4 * 64 + c3 % 64) ∷ str) second
      ∙ ap (λ (t : ℕ). c1 ∷ c2 ∷ t ∷ str) third)

-- Decoding the base64 encoding of any text of bytes gives the text back, for every length modulo
-- 3.
pub decode-encode_base64 : (str : Bytes) → All IsByte str → decode (encode str) ≡ str
unfolding decode
decode-encode_base64 str h =
    loop-encode (length (encode str)) (length (encode str)) str h refl (omega arith)
