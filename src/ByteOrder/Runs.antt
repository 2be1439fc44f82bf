-- ===== src/ByteOrder/Runs.antt =====
-- Concrete runs of the byte orders, and their theorem at a concrete input.
use xul.Prelude.{◌≡◌, refl}
use xul.ByteOrder.{reverse_word, reverse_dword}

reversed : reverse_dword 0x12345678 ≡ 0x78563412
unfolding reverse_dword
reversed = refl

reversed_word : reverse_word 0x1234 ≡ 0x3412
unfolding reverse_word
reversed_word = refl
