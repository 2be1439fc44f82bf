-- ===== src/BitConverter/RoundTrip.antt =====
-- The value of the bytes, in either order, and what the conversions give back.
use xul.Prelude.{
  ℕ, ◌+◌, ◌*◌, ◌/◌, ◌%◌, ◌^◌, ◌<◌, ◌≡◌, ◌∙◌, bit_or, arith, IsByte, Bool, true, false, Bytes, [],
  ◌∷◌, All, reverse, if◌then◌else◌,
}
use xul.BitConverter.{
  to_word, to_dword, to_qword, from_word, from_dword, from_qword, high_byte, low_byte, high_dword,
  low_dword,
}
use xul.BitConverter.Masks.{byte_at_24, byte_at_16, byte_at_8, byte_at_0, or_byte, or_last}

-- Big-endian value.
unfoldable pub be_value : ℕ → Bytes → ℕ
be_value acc [] = acc
be_value acc (b ∷ bytes) = be_value (acc * 256 + b) bytes

abbrev pub value_of : Bool → Bytes → ℕ
value_of big_endian bytes = be_value 0 (if big_endian then bytes else reverse bytes)

-- The bytes of a list, highest first, put together.
join_four :
    (a b c d : ℕ)
    → b < 256
    → c < 256
    → d < 256
    → bit_or (bit_or (bit_or (a * 2 ^ 24) (b * 2 ^ 16)) (c * 2 ^ 8)) d
      ≡ ((a * 256 + b) * 256 + c) * 256 + d
join_four a b c d hb hc hd =
    or_last _ ((a * 256 + b) * 256 + c) d hd (
      or_byte 8 _ (a * 256 + b) c hc (or_byte 16 _ a b hb (omega arith) ∙ omega arith)
      ∙ omega arith)

pub to_dword-value :
    (big_endian : Bool) (a b c d : ℕ)
    → All IsByte (a ∷ b ∷ c ∷ d ∷ [])
    → to_dword big_endian (a ∷ b ∷ c ∷ d ∷ []) ≡ value_of big_endian (a ∷ b ∷ c ∷ d ∷ [])
unfolding to_dword be_value
to_dword-value true a b c d h =
    join_four a b c d (omega arith) (omega arith) (omega arith) ∙ omega arith
to_dword-value false a b c d h =
    join_four d c b a (omega arith) (omega arith) (omega arith) ∙ omega arith

-- Every 32-bit number comes back by to_dword from the bytes that from_dword writes, in either byte
-- order.
pub to_dword-from_dword :
    (big_endian : Bool) (x : ℕ) → x < 2 ^ 32 → to_dword big_endian (from_dword big_endian x) ≡ x
unfolding to_dword from_dword
to_dword-from_dword true x h =
    rw (byte_at_24 x, byte_at_16 x, byte_at_8 x, byte_at_0 x)
      (join_four _ _ _ _ (omega arith) (omega arith) (omega arith) ∙ omega arith)
to_dword-from_dword false x h =
    rw (byte_at_24 x, byte_at_16 x, byte_at_8 x, byte_at_0 x)
      (join_four _ _ _ _ (omega arith) (omega arith) (omega arith) ∙ omega arith)

pub to_word-from_word :
    (big_endian : Bool) (x : ℕ) → x < 2 ^ 16 → to_word big_endian (from_word big_endian x) ≡ x
unfolding to_word from_word high_byte low_byte
to_word-from_word true x h =
    or_last _ (x / 2 ^ 8 % 2 ^ 8) (x % 2 ^ 8) (omega arith) (omega arith) ∙ omega arith
to_word-from_word false x h =
    or_last _ (x / 2 ^ 8 % 2 ^ 8) (x % 2 ^ 8) (omega arith) (omega arith) ∙ omega arith

join_eight :
    (a b c d e f g h : ℕ)
    → All IsByte (a ∷ b ∷ c ∷ d ∷ e ∷ f ∷ g ∷ h ∷ [])
    → bit_or
        (bit_or
          (bit_or
            (bit_or
              (bit_or (bit_or (bit_or (a * 2 ^ 56) (b * 2 ^ 48)) (c * 2 ^ 40)) (d * 2 ^ 32))
              (e * 2 ^ 24))
            (f * 2 ^ 16))
          (g * 2 ^ 8))
        h
      ≡ be_value 0 (a ∷ b ∷ c ∷ d ∷ e ∷ f ∷ g ∷ h ∷ [])
unfolding be_value
join_eight a b c d e f g h bytes =
    let v2 = a * 256 + b in
    let v3 = v2 * 256 + c in
    let v4 = v3 * 256 + d in
    let v5 = v4 * 256 + e in
    let v6 = v5 * 256 + f in
    or_last _ (v6 * 256 + g) h (omega arith) (
      or_byte 8 _ v6 g (omega arith) (
        or_byte 16 _ v5 f (omega arith) (
          or_byte 24 _ v4 e (omega arith) (
            or_byte 32 _ v3 d (omega arith) (
              or_byte 40 _ v2 c (omega arith)
                (or_byte 48 _ a b (omega arith) (omega arith) ∙ omega arith)
              ∙ omega arith)
            ∙ omega arith)
          ∙ omega arith)
        ∙ omega arith)
      ∙ omega arith)
    ∙ omega arith

-- Of eight bytes, to_qword gives their big-endian value where the converter is big-endian, and the
-- big-endian value of the reversed bytes where it is not.
pub to_qword-value :
    (big_endian : Bool) (a b c d e f g h : ℕ)
    → All IsByte (a ∷ b ∷ c ∷ d ∷ e ∷ f ∷ g ∷ h ∷ [])
    → to_qword big_endian (a ∷ b ∷ c ∷ d ∷ e ∷ f ∷ g ∷ h ∷ [])
      ≡ value_of big_endian (a ∷ b ∷ c ∷ d ∷ e ∷ f ∷ g ∷ h ∷ [])
unfolding to_qword
to_qword-value true a b c d e f g h bytes = join_eight a b c d e f g h bytes
to_qword-value false a b c d e f g h bytes = join_eight h g f e d c b a (omega arith)

-- Every 64-bit number comes back by to_qword from the bytes that from_qword writes, in either byte
-- order.
pub to_qword-from_qword :
    (big_endian : Bool) (x : ℕ) → x < 2 ^ 64 → to_qword big_endian (from_qword big_endian x) ≡ x
unfolding to_qword from_qword high_dword low_dword be_value
to_qword-from_qword true x h =
    let high = x / 2 ^ 32 % 2 ^ 32 in
    let low = x % 2 ^ 32 in
    rw
      (
        byte_at_24 high,
        byte_at_16 high,
        byte_at_8 high,
        byte_at_0 high,
        byte_at_24 low,
        byte_at_16 low,
        byte_at_8 low,
        byte_at_0 low,
      )
      (join_eight _ _ _ _ _ _ _ _ (omega arith) ∙ omega arith)
to_qword-from_qword false x h =
    let high = x / 2 ^ 32 % 2 ^ 32 in
    let low = x % 2 ^ 32 in
    rw
      (
        byte_at_24 high,
        byte_at_16 high,
        byte_at_8 high,
        byte_at_0 high,
        byte_at_24 low,
        byte_at_16 low,
        byte_at_8 low,
        byte_at_0 low,
      )
      (join_eight _ _ _ _ _ _ _ _ (omega arith) ∙ omega arith)
