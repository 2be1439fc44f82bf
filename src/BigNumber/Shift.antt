-- ===== src/BigNumber/Shift.antt =====
-- `operator<<=` and `operator>>=` of big_number: loops over the bytes, in place. The argument of a
-- loop that counts down or up is the number of rounds that are left.
pub mod Cells
pub mod Powers
pub mod Left
pub mod Right
use xul.Prelude.{
  ℕ, zero, suc, ◌+◌, ◌-◌, ◌*◌, ◌/◌, ◌%◌, ◌^◌, Bytes, leb, ◌==◌, if◌then◌else◌, length, get_or, set,
  bit_or,
}
use xul.BigNumber.{clear, u8}

-- `for (i = k - 1; i >= 0; --i) m_bytes[i + byteShift] = m_bytes[i];`
unfoldable pub move_up : ℕ → ℕ → Bytes → Bytes
move_up zero byte_shift a = a
move_up (suc i) byte_shift a = move_up i byte_shift (set a (i + byte_shift) (get_or a i 0))

-- `for (i = k; i > 0; --i) m_bytes[i + byteShift] = (m_bytes[i] << bitShift) | (m_bytes[i-1] >> (8 - bitShift));`
unfoldable pub merge_up : ℕ → ℕ → ℕ → Bytes → Bytes
merge_up zero byte_shift bit_shift a = a
merge_up (suc i) byte_shift bit_shift a =
    let byte =
      u8 (bit_or (get_or a (suc i) 0 * 2 ^ bit_shift) (get_or a i 0 / 2 ^ (8 - bit_shift))) in
    merge_up i byte_shift bit_shift (set a (suc i + byte_shift) byte)

-- `for (; i < end; ++i) m_bytes[i] = 0;`, with `k` rounds from `i` on.
unfoldable pub zero_range : ℕ → ℕ → Bytes → Bytes
zero_range zero i a = a
zero_range (suc k) i a = zero_range k (i + 1) (set a i 0)

unfoldable pub shift_left : Bytes → ℕ → Bytes
shift_left a shift =
    let byte_count = length a in
    let byte_shift = shift / 8 in
    let bit_shift = shift % 8 in
    let merged = merge_up (byte_count - byte_shift - 1) byte_shift bit_shift a in
    if shift == 0
    then a
    else if leb (byte_count * 8) shift
    then clear byte_count
    else if bit_shift == 0
    then zero_range byte_shift 0 (move_up (byte_count - byte_shift) byte_shift a)
    else zero_range byte_shift 0 (set merged byte_shift (u8 (get_or merged 0 0 * 2 ^ bit_shift)))

-- `m_bytes[i] = m_bytes[i + byteShift];`, with `k` rounds from `i` on.
unfoldable pub move_down : ℕ → ℕ → ℕ → Bytes → Bytes
move_down zero i byte_shift a = a
move_down (suc k) i byte_shift a =
    move_down k (i + 1) byte_shift (set a i (get_or a (i + byte_shift) 0))

-- `m_bytes[i] = (m_bytes[i + byteShift] >> bitShift) | (m_bytes[i + byteShift + 1] << (8 - bitShift));`
unfoldable pub merge_down : ℕ → ℕ → ℕ → ℕ → Bytes → Bytes
merge_down zero i byte_shift bit_shift a = a
merge_down (suc k) i byte_shift bit_shift a =
    let low = get_or a (i + byte_shift) 0 / 2 ^ bit_shift in
    let high = get_or a (i + byte_shift + 1) 0 * 2 ^ (8 - bit_shift) in
    merge_down k (i + 1) byte_shift bit_shift (set a i (u8 (bit_or low high)))

unfoldable pub shift_right : Bytes → ℕ → Bytes
shift_right a shift =
    let byte_count = length a in
    let byte_shift = shift / 8 in
    let bit_shift = shift % 8 in
    let right_most_byte = byte_count - byte_shift - 1 in
    let merged = merge_down right_most_byte 0 byte_shift bit_shift a in
    if shift == 0
    then a
    else if leb (byte_count * 8) shift
    then clear byte_count
    else if bit_shift == 0
    then zero_range byte_shift (byte_count - byte_shift)
        (move_down (byte_count - byte_shift) 0 byte_shift a)
    else zero_range byte_shift (byte_count - byte_shift)
        (set merged right_most_byte (get_or merged (byte_count - 1) 0 / 2 ^ bit_shift))
