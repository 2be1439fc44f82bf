-- ===== src/Streams/Orders.antt =====
-- The bytes that are written and the numbers that are read do not depend on the machine.
use xul.Prelude.{
  ℕ, ◌/◌, ◌%◌, ◌^◌, ◌<◌, ◌≡◌, refl, ap, sym, ◌∙◌, Bool, true, false, [], ◌∷◌, ◌++◌, Bytes, arith,
}
use xul.BitConverter.{
  from_word, from_dword, from_qword, to_word, to_dword, to_qword, high_byte, low_byte, high_dword,
  low_dword,
}
use xul.BitConverter.Masks.{byte_at_24, byte_at_16, byte_at_8, byte_at_0}
use xul.BitConverter.RoundTrip.{to_word-from_word, to_dword-from_dword, to_qword-from_qword}
use xul.ByteOrder.{
  convert_word, convert_dword, convert_qword, reverse_word, reverse_dword, reverse_qword,
}
use xul.ByteOrder.Reversal.{
  reverse_word-value, reverse_dword-value, reverse_qword-value, convert_word-convert_word,
  convert_dword-convert_dword, convert_qword-convert_qword, reverse_dword-small,
  reverse_qword-small,
}

-- Lists of bytes that are the same byte by byte.
two_bytes : (a b a' b' : ℕ) → a ≡ a' → b ≡ b' → a ∷ b ∷ [] ≡ a' ∷ b' ∷ []
two_bytes a b a' b' e f = rw (e, f) refl

four_bytes :
    (a b c d a' b' c' d' : ℕ)
    → a ≡ a'
    → b ≡ b'
    → c ≡ c'
    → d ≡ d'
    → a ∷ b ∷ c ∷ d ∷ [] ≡ a' ∷ b' ∷ c' ∷ d' ∷ []
four_bytes a b c d a' b' c' d' e f g h = rw (e, f, g, h) refl

from_dword-bytes :
    (x : ℕ)
    → (from_dword true x ≡ x / 2 ^ 24 % 256 ∷ x / 2 ^ 16 % 256 ∷ x / 2 ^ 8 % 256 ∷ x % 256 ∷ [])
      × (from_dword false x ≡ x % 256 ∷ x / 2 ^ 8 % 256 ∷ x / 2 ^ 16 % 256 ∷ x / 2 ^ 24 % 256 ∷ [])
unfolding from_dword
from_dword-bytes x = rw (byte_at_24 x, byte_at_16 x, byte_at_8 x, byte_at_0 x) (refl, refl)

reversed_dword :
    (x : ℕ)
    → (from_dword true (reverse_dword x) ≡ from_dword false x)
      × (from_dword false (reverse_dword x) ≡ from_dword true x)
reversed_dword x =
    let v = reverse_dword-value x in
    let (bt, bf) = from_dword-bytes x in
    let (rt, rf) = from_dword-bytes (reverse_dword x) in
    (
      rt
          ∙ four_bytes _ _ _ _ _ _ _ _ (omega (arith, v)) (omega (arith, v)) (omega (arith, v))
              (omega (arith, v))
          ∙ sym bf,
      rf
          ∙ four_bytes _ _ _ _ _ _ _ _ (omega (arith, v)) (omega (arith, v)) (omega (arith, v))
              (omega (arith, v))
          ∙ sym bt,
    )

reversed_word :
    (x : ℕ)
    → (from_word true (reverse_word x) ≡ from_word false x)
      × (from_word false (reverse_word x) ≡ from_word true x)
unfolding from_word high_byte low_byte
reversed_word x =
    let v = reverse_word-value x in
    (
      two_bytes _ _ _ _ (omega (arith, v)) (omega (arith, v)),
      two_bytes _ _ _ _ (omega (arith, v)) (omega (arith, v)),
    )

pub from_word-convert_word :
    (host big_endian : Bool) (x : ℕ)
    → from_word host (convert_word host big_endian x) ≡ from_word big_endian x
unfolding convert_word
from_word-convert_word true true x = refl
from_word-convert_word true false x = (reversed_word x).0
from_word-convert_word false true x = (reversed_word x).1
from_word-convert_word false false x = refl

pub from_dword-convert_dword :
    (host big_endian : Bool) (x : ℕ)
    → from_dword host (convert_dword host big_endian x) ≡ from_dword big_endian x
unfolding convert_dword
from_dword-convert_dword true true x = refl
from_dword-convert_dword true false x = (reversed_dword x).0
from_dword-convert_dword false true x = (reversed_dword x).1
from_dword-convert_dword false false x = refl

from_qword-halves :
    (x : ℕ)
    → (from_qword true x ≡ from_dword true (high_dword x) ++ from_dword true (low_dword x))
      × (from_qword false x ≡ from_dword false (low_dword x) ++ from_dword false (high_dword x))
unfolding from_qword from_dword
from_qword-halves x = (refl, refl)

reversed_halves :
    (x : ℕ)
    → (high_dword (reverse_qword x) ≡ reverse_dword (low_dword x))
      × (low_dword (reverse_qword x) ≡ reverse_dword (high_dword x))
unfolding high_dword low_dword
reversed_halves x =
    let v = reverse_qword-value x in
    let high = reverse_dword-small (x % 2 ^ 32) in
    let low = reverse_dword-small (x / 2 ^ 32 % 2 ^ 32) in (omega (arith, v), omega (arith, v))

reversed_qword :
    (x : ℕ)
    → (from_qword true (reverse_qword x) ≡ from_qword false x)
      × (from_qword false (reverse_qword x) ≡ from_qword true x)
reversed_qword x =
    let (high, low) = reversed_halves x in
    let (ht, hf) = reversed_dword (high_dword x) in
    let (lt, lf) = reversed_dword (low_dword x) in
    let (xt, xf) = from_qword-halves x in
    let (rt, rf) = from_qword-halves (reverse_qword x) in
    (rw (rt, xf, high, low, ht, lt) refl, rw (rf, xt, high, low, hf, lf) refl)

pub from_qword-convert_qword :
    (host big_endian : Bool) (x : ℕ)
    → from_qword host (convert_qword host big_endian x) ≡ from_qword big_endian x
unfolding convert_qword
from_qword-convert_qword true true x = refl
from_qword-convert_qword true false x = (reversed_qword x).0
from_qword-convert_qword false true x = (reversed_qword x).1
from_qword-convert_qword false false x = refl

convert_word-small :
    (host big_endian : Bool) (x : ℕ) → x < 2 ^ 16 → convert_word host big_endian x < 2 ^ 16
unfolding convert_word
convert_word-small true true x h = h
convert_word-small true false x h = omega (arith, reverse_word-value x)
convert_word-small false true x h = omega (arith, reverse_word-value x)
convert_word-small false false x h = h

convert_dword-small :
    (host big_endian : Bool) (x : ℕ) → x < 2 ^ 32 → convert_dword host big_endian x < 2 ^ 32
unfolding convert_dword
convert_dword-small true true x h = h
convert_dword-small true false x h = reverse_dword-small x
convert_dword-small false true x h = reverse_dword-small x
convert_dword-small false false x h = h

convert_qword-small :
    (host big_endian : Bool) (x : ℕ) → x < 2 ^ 64 → convert_qword host big_endian x < 2 ^ 64
unfolding convert_qword
convert_qword-small true true x h = h
convert_qword-small true false x h = reverse_qword-small x
convert_qword-small false true x h = reverse_qword-small x
convert_qword-small false false x h = h

-- A number comes back from its bytes in the order of the stream.
pub word_back :
    (host big_endian : Bool) (x : ℕ)
    → x < 2 ^ 16
    → convert_word host big_endian (to_word host (from_word big_endian x)) ≡ x
word_back host big_endian x h =
    let y = convert_word host big_endian x in
    let bytes = sym (from_word-convert_word host big_endian x) in
    ap (λ (t : Bytes). convert_word host big_endian (to_word host t)) bytes
    ∙ ap (λ (t : ℕ). convert_word host big_endian t)
        (to_word-from_word host y (convert_word-small host big_endian x h))
    ∙ convert_word-convert_word host big_endian x h

pub dword_back :
    (host big_endian : Bool) (x : ℕ)
    → x < 2 ^ 32
    → convert_dword host big_endian (to_dword host (from_dword big_endian x)) ≡ x
dword_back host big_endian x h =
    let y = convert_dword host big_endian x in
    let bytes = sym (from_dword-convert_dword host big_endian x) in
    ap (λ (t : Bytes). convert_dword host big_endian (to_dword host t)) bytes
    ∙ ap (λ (t : ℕ). convert_dword host big_endian t)
        (to_dword-from_dword host y (convert_dword-small host big_endian x h))
    ∙ convert_dword-convert_dword host big_endian x h

pub qword_back :
    (host big_endian : Bool) (x : ℕ)
    → x < 2 ^ 64
    → convert_qword host big_endian (to_qword host (from_qword big_endian x)) ≡ x
qword_back host big_endian x h =
    let y = convert_qword host big_endian x in
    let bytes = sym (from_qword-convert_qword host big_endian x) in
    ap (λ (t : Bytes). convert_qword host big_endian (to_qword host t)) bytes
    ∙ ap (λ (t : ℕ). convert_qword host big_endian t)
        (to_qword-from_qword host y (convert_qword-small host big_endian x h))
    ∙ convert_qword-convert_qword host big_endian x h
