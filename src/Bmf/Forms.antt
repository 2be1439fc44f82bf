-- ===== src/Bmf/Forms.antt =====
-- The first byte: which form it announces, with which bits of the number.
use xul.Prelude.{
  ℕ, ◌%◌, ◌^◌, ◌≤◌, ◌<◌, ◌≡◌, refl, ◌⊎◌, inl, inr, Bool, true, not, ◌&&◌, ◌||◌, leb, ◌==◌, bit_or,
  bit_and, arith,
}
use xul.Prelude.Table.{all_below, all_below_sound}
use xul.Bmf.{get_flag_bytes, get_byte_limits, flag_at, limit_at, find_pos}

-- The first byte of form `i` with these bits is read as that.
reads_back : ℕ → ℕ → ℕ → Bool
reads_back flag i bits =
    let first = bit_or (bit_or flag (bits % 2 ^ 8)) (flag_at i) in
    let seven = bit_and first 0x7F in
    not ((bits == 0) || leb bits (limit_at i))
    || (find_pos 8 0 seven == i)
      && (bit_and seven (limit_at i) == bits)
      && (bit_and first 0x80 == flag)
      && leb first 255

table :
    (all_below 9 (λ i. all_below 64 (reads_back 0 i)) ≡ true)
    × (all_below 9 (λ i. all_below 64 (reads_back 0x80 i)) ≡ true)
unfolding all_below reads_back find_pos flag_at limit_at get_flag_bytes get_byte_limits
table = (refl, refl)

unfoldable pub IsSign : ℕ → Type 0
IsSign flag = (flag ≡ 0) ⊎ (flag ≡ 0x80)

unfoldable pub FirstByte : ℕ → ℕ → ℕ → Type 0
FirstByte flag i bits =
    let first = bit_or (bit_or flag (bits % 2 ^ 8)) (flag_at i) in
    (find_pos 8 0 (bit_and first 0x7F) ≡ i)
    × (bit_and (bit_and first 0x7F) (limit_at i) ≡ bits)
    × (bit_and first 0x80 ≡ flag)
    × (first ≤ 255)

of_cell :
    (flag i bits : ℕ)
    → reads_back flag i bits ≡ true
    → ((bits == 0) || leb bits (limit_at i)) ≡ true
    → FirstByte flag i bits
unfolding reads_back FirstByte
of_cell flag i bits cell room = ground (arith, cell, room)

-- A first byte with room for its bits keeps them, its form and its sign.
pub first_byte :
    (flag i bits : ℕ)
    → IsSign flag
    → i < 9
    → bits < 64
    → ((bits == 0) || leb bits (limit_at i)) ≡ true
    → FirstByte flag i bits
unfolding IsSign
first_byte flag i bits (inl e) hi hb room =
    let row = all_below_sound 9 (λ i. all_below 64 (reads_back 0 i)) table.0 i hi in
    rw e (of_cell 0 i bits (all_below_sound 64 (reads_back 0 i) row bits hb) room)
first_byte flag i bits (inr e) hi hb room =
    let row = all_below_sound 9 (λ i. all_below 64 (reads_back 0x80 i)) table.1 i hi in
    rw e (of_cell 0x80 i bits (all_below_sound 64 (reads_back 0x80 i) row bits hb) room)

-- No form has room for more than 63.
small_table : all_below 9 (λ i. leb (limit_at i) 63) ≡ true
unfolding all_below limit_at get_byte_limits
small_table = refl

pub small_bits : (i bits : ℕ) → i < 9 → ((bits == 0) || leb bits (limit_at i)) ≡ true → bits < 64
small_bits i bits h room =
    let most = all_below_sound 9 (λ i. leb (limit_at i) 63) small_table i h in
    ground (arith, most, room)
