-- ===== src/BigNumber/Runs.antt =====
-- Concrete runs of big_number, and its theorems at concrete inputs.
use xul.Prelude.{◌+◌, ◌-◌, ◌*◌, ◌/◌, ◌%◌, ◌^◌, ◌<◌, ◌≡◌, ◌≢◌, refl, Bytes, [], ◌∷◌, arith, true}
use xul.BigNumber.{
  add, subtract, multiply, increment, compare, clear, minus, flip, at_least, compare_loop, add_loop,
}
use xul.BigNumber.Value.{value, range}
use xul.BigNumber.Sums.{value-subtract, value-increment}
use xul.BigNumber.Product.{value-multiply}
use xul.BigNumber.Order.{compare-Sign, Sign}
use xul.BigNumber.Shift.{
  shift_left, shift_right, merge_up, merge_down, move_up, move_down, zero_range,
}
use xul.BigNumber.Shift.Left.{value-shift_left}
use xul.BigNumber.Shift.Right.{value-shift_right}
use xul.BigNumber.Division.{
  bits, bits_loop, high_bit, divide_loop, set_bit, divide, quotient, by_zero,
}
use xul.BigNumber.Division.Quotient.{value-divide, divide-by_zero}
use xul.BigNumber.SelfProduct.{multiply_self, multiply_self_loses}
use xul.BigNumber.Text.{format, try_parse, try_parse-format}

-- 0xf4240 = 1000000 and 0x3e8 = 1000, in three bytes.
abbrev million : Bytes
million = 0x40 ∷ 0x42 ∷ 0x0f ∷ []

abbrev thousand : Bytes
thousand = 0xe8 ∷ 0x03 ∷ 0x00 ∷ []

value-subtract_example :
    value (subtract thousand million)
    ≡ (value thousand + (range thousand - value million)) % range thousand
value-subtract_example = value-subtract thousand million (omega arith) (omega arith) refl

value-increment_example :
    value (increment (0xff ∷ 0xff ∷ [])) ≡ (value (0xff ∷ 0xff ∷ []) + 1) % 65536
value-increment_example = value-increment (0xff ∷ 0xff ∷ []) (omega arith)

value-multiply_example :
    value (multiply million thousand) ≡ (value million * value thousand) % range million
value-multiply_example = value-multiply million thousand (omega arith) (omega arith) refl

compare-Sign_example : Sign (value thousand) (value million) (compare thousand million)
compare-Sign_example = compare-Sign thousand million (omega arith) (omega arith) refl

value-shift_left_example : value (shift_left million 13) ≡ (value million * 2 ^ 13) % range million
value-shift_left_example = value-shift_left million 13 (omega arith)

value-shift_right_example : value (shift_right million 13) ≡ value million / 2 ^ 13
value-shift_right_example = value-shift_right million 13 (omega arith)

one_positive : 0 < value thousand
unfolding value
one_positive = omega arith

value-divide_example :
    (q : Bytes) × (divide million thousand ≡ quotient q)
    × (value q ≡ value million / value thousand)
value-divide_example = value-divide million thousand (omega arith) (omega arith) refl one_positive

divide-by_zero_example : divide million (0 ∷ 0 ∷ 0 ∷ []) ≡ by_zero (clear 3)
unfolding value
divide-by_zero_example =
    divide-by_zero million (0 ∷ 0 ∷ 0 ∷ []) (omega arith) (omega arith) refl refl

square_example : 0 < (value thousand * value thousand) % range thousand
unfolding value
square_example = omega arith

multiply_self_loses_example :
    (value (multiply_self thousand) ≡ 0)
    × (value (multiply_self thousand) ≢ (value thousand * value thousand) % range thousand)
multiply_self_loses_example = multiply_self_loses thousand square_example

try_parse-format_example : try_parse thousand (format true million) ≡ (million, true)
try_parse-format_example = try_parse-format true million thousand (omega arith) (omega arith) refl

quotient_1000 : divide million thousand ≡ quotient thousand
unfolding divide bits bits_loop high_bit divide_loop set_bit at_least compare compare_loop subtract
    add add_loop minus increment flip shift_left shift_right merge_up merge_down move_up move_down
    zero_range clear
quotient_1000 = refl
