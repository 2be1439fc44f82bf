-- ===== src/Base64/Bounds.antt =====
-- The size of an encoding, and the buffer for it.
use xul.Prelude.{◌+◌, ◌*◌, ◌/◌, ◌≤◌, ◌≡◌, [], ◌∷◌, Bytes, length, arith}
use xul.Base64.{encode, calc_enough_encoded_length}

length-groups : (str : Bytes) → length (encode str) ≡ (length str + 2) / 3 * 4
unfolding encode
length-groups [] = omega arith
length-groups (c1 ∷ []) = omega arith
length-groups (c1 ∷ c2 ∷ []) = omega arith
length-groups (c1 ∷ c2 ∷ c3 ∷ str) = omega (arith, length-groups str)

-- The encoding of a text fits the buffer that calc_enough_encoded_length computes for it.
pub length-encode_base64 :
    (str : Bytes)
    → (length (encode str) ≡ (length str + 2) / 3 * 4)
      × (length (encode str) ≤ calc_enough_encoded_length (length str))
unfolding calc_enough_encoded_length
length-encode_base64 str = ground (arith, length-groups str)
