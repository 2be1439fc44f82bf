-- ===== src/FlowMeter/Sums.antt =====
-- `m_recent` is the sum of the ring and of the period that runs.
use xul.Prelude.{
  ℕ, zero, suc, ◌+◌, ◌%◌, ◌^◌, ◌<◌, ◌≡◌, refl, List, [], ◌∷◌, length, set, get_or, replicate, arith,
  length-set, length-replicate,
}
use native.Mathlib.Nat.{mod-lt}
use xul.FlowMeter.{FlowMeter, MeterCount, cleared, create, add, update, add_count, subtract_count}

-- The sum of one part of the counts, as it is and not wrapped.
unfoldable pub sum : (MeterCount → ℕ) → List MeterCount → ℕ
sum part [] = 0
sum part (c ∷ counts) = part c + sum part counts

pub sum-set :
    (part : MeterCount → ℕ) (counts : List MeterCount) (i : ℕ) (c d : MeterCount)
    → i < length counts
    → sum part (set counts i c) + part (get_or counts i d) ≡ sum part counts + part c
unfolding sum
sum-set part [] i c d h = elim h [ ]
sum-set part (x ∷ counts) zero c d h = omega arith
sum-set part (x ∷ counts) (suc i) c d h = omega (arith, sum-set part counts i c d (omega arith))

pub sum-replicate :
    (part : MeterCount → ℕ) (n : ℕ) → part cleared ≡ 0 → sum part (replicate n cleared) ≡ 0
unfolding sum
sum-replicate part zero h = refl
sum-replicate part (suc n) h = omega (arith, h, sum-replicate part n h)

-- The ring is not empty, and the recent counts are the sums, as 32 bits.
pub record IsValid (m : FlowMeter) : Type 0 where
  pub some_units : 0 < length m.counts
  pub bytes_sum : m.recent.bytes ≡ (sum (λ c. c.bytes) m.counts + m.latest.bytes) % 2 ^ 32
  pub packets_sum : m.recent.packets ≡ (sum (λ c. c.packets) m.counts + m.latest.packets) % 2 ^ 32

pub create-IsValid : (n : ℕ) → 0 < n → IsValid (create n)
unfolding create
create-IsValid n h = record {
  some_units = omega (arith, length-replicate n cleared);
  bytes_sum = omega (arith, sum-replicate (λ c. c.bytes) n refl);
  packets_sum = omega (arith, sum-replicate (λ c. c.packets) n refl);
}

pub add-IsValid : (count : ℕ) (m : FlowMeter) → IsValid m → IsValid (add count m)
unfolding add add_count
add-IsValid count m v = record {
  some_units = v.some_units;
  bytes_sum = omega (arith, v.bytes_sum);
  packets_sum = omega (arith, v.packets_sum);
}

-- An update keeps the ring from being empty and the recent bytes and packets the sums over the
-- ring and the period that runs, modulo 2 ^ 32.
pub update-IsValid : (m : FlowMeter) → IsValid m → IsValid (update m)
unfolding update subtract_count
update-IsValid m v =
    let place = m.update_times % length m.counts in
    let within : place < length m.counts = mod-lt m.update_times v.some_units in
    record {
      some_units = omega (arith, v.some_units, length-set m.counts place m.latest);
      bytes_sum =
          omega (arith, v.bytes_sum, sum-set (λ c. c.bytes) m.counts place m.latest cleared within);
      packets_sum =
          omega
            (arith, v.packets_sum, sum-set (λ c. c.packets) m.counts place m.latest cleared within);
    }
