-- ===== src/FlowMeter/Simple/Bounds.antt =====
-- What the ring of the simple meter keeps.
use xul.Prelude.{
  ℕ, zero, suc, ◌+◌, ◌-◌, ◌/◌, ◌%◌, ◌^◌, ◌<◌, ◌≡◌, refl, ◌∙◌, length, set, get_or, ltb, ◌==◌,
  if◌then◌else◌, inl, inr, Bool-cases, length-set, length-replicate, arith,
}
use native.Mathlib.Nat.{mod-lt}
use xul.FlowMeter.{MeterCount, cleared, add_count, subtract_count}
use xul.FlowMeter.Sums.{sum, sum-set, sum-replicate}
use xul.FlowMeter.Simple.{SimpleFlowMeter, create, step_loop, step_next, position_at, update, add}

-- The ring is not empty, the cell is within it, and the recent counts are the sums, as 32 bits.
pub record IsBalanced (m : SimpleFlowMeter) : Type 0 where
  pub within : m.last_position < length m.counts
  pub bytes_sum : m.recent.bytes ≡ sum (λ c. c.bytes) m.counts % 2 ^ 32
  pub packets_sum : m.recent.packets ≡ sum (λ c. c.packets) m.counts % 2 ^ 32

pub create-IsBalanced : (n : ℕ) → 0 < n → IsBalanced (create n)
unfolding create
create-IsBalanced n h = record {
  within = omega (arith, length-replicate n cleared);
  bytes_sum = omega (arith, sum-replicate (λ c. c.bytes) n refl);
  packets_sum = omega (arith, sum-replicate (λ c. c.packets) n refl);
}

step_loop-IsBalanced :
    (rounds i : ℕ) (m : SimpleFlowMeter)
    → IsBalanced m
    → IsBalanced (step_loop rounds i m) × (length (step_loop rounds i m).counts ≡ length m.counts)
unfolding step_loop subtract_count
step_loop-IsBalanced zero i m s = (s, refl)
step_loop-IsBalanced (suc rounds) i m s =
    let offset = i % length m.counts in
    let inside : offset < length m.counts = mod-lt i (omega (arith, s.within)) in
    let same = length-set m.counts offset cleared in
    let (rest, all) =
      step_loop-IsBalanced rounds (i + 1)
        (record m {
          recent = subtract_count m.recent (get_or m.counts offset cleared);
          counts = set m.counts offset cleared;
          update_times = m.update_times + 1;
        })
        (record {
          within = omega (arith, s.within, same);
          bytes_sum =
              omega
                (arith, s.bytes_sum, sum-set (λ c. c.bytes) m.counts offset cleared cleared inside);
          packets_sum = omega (
            arith,
            s.packets_sum,
            sum-set (λ c. c.packets) m.counts offset cleared cleared inside,
          );
        }) in
    (rest, all ∙ same)

step_next-IsBalanced :
    (p : ℕ) (m : SimpleFlowMeter)
    → IsBalanced m
    → IsBalanced (step_next p m) × (length (step_next p m).counts ≡ length m.counts)
unfolding step_next
step_next-IsBalanced p m s =
    let target = if ltb p m.last_position then p + length m.counts else p in
    let (sound, same) = step_loop-IsBalanced (target - m.last_position) (m.last_position + 1) m s in
    let some_units : 0 < length m.counts = omega (arith, s.within) in
    (
      record {
        within = omega (arith, same, mod-lt target some_units);
        bytes_sum = sound.bytes_sum;
        packets_sum = sound.packets_sum;
      },
      same,
    )

pub update-IsBalanced :
    (elapsed : ℕ) (m : SimpleFlowMeter)
    → IsBalanced m
    → IsBalanced (update elapsed m) × (length (update elapsed m).counts ≡ length m.counts)
unfolding update
update-IsBalanced elapsed m s = elim (Bool-cases (position_at elapsed m == m.last_position)) [
  | inl same ↦ rw same (s, refl)
  | inr other ↦ rw other (step_next-IsBalanced (position_at elapsed m) m s)
]

pub add-IsBalanced :
    (count elapsed : ℕ) (m : SimpleFlowMeter)
    → IsBalanced m
    → IsBalanced (add count elapsed m) × (length (add count elapsed m).counts ≡ length m.counts)
unfolding add add_count position_at
add-IsBalanced count elapsed m s =
    let (sound, same) = update-IsBalanced elapsed m s in
    let place = (elapsed + 1000 - 1) / 1000 % length m.counts in
    let one : MeterCount = record { bytes = count; packets = 1 } in
    let after = update elapsed m in
    let more = add_count (get_or after.counts place cleared) one in
    let inside : place < length after.counts =
      rw same (mod-lt ((elapsed + 1000 - 1) / 1000) (omega (arith, s.within))) in
    let long = length-set after.counts place more in
    (
      record {
        within = omega (arith, sound.within, long);
        bytes_sum =
            omega (
              arith,
              sound.bytes_sum,
              sum-set (λ c. c.bytes) after.counts place more cleared inside,
            );
        packets_sum = omega (
          arith,
          sound.packets_sum,
          sum-set (λ c. c.packets) after.counts place more cleared inside,
        );
      },
      long ∙ same,
    )
