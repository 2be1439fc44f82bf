-- ===== src/FlowMeter.antt =====
-- include/xul/util/flow_meter.hpp: the bytes and packets of the last periods, in a ring. An `int` is
-- kept as its 32 bits and an `int64_t` as its 64, both of which wrap, but for the number of updates,
-- one in a second, which is a number of any size. The clocks, which only the rates
-- read, are no part of the state: the milliseconds that have passed are arguments.
pub mod Sums
pub mod Window
pub mod Simple
mod Runs
use xul.Prelude.{
  ℕ, zero, suc, ◌+◌, ◌-◌, ◌*◌, ◌/◌, ◌%◌, ◌^◌, Bool, List, [], ◌∷◌, length, set, get_or, replicate,
  ltb, ◌==◌, if◌then◌else◌,
}

pub record MeterCount : Type 0 where
  pub bytes : ℕ
  pub packets : ℕ

abbrev pub cleared : MeterCount
cleared = record { bytes = 0; packets = 0 }

unfoldable pub add_count : MeterCount → MeterCount → MeterCount
add_count a x = record {
  bytes = (a.bytes + x.bytes) % 2 ^ 32;
  packets = (a.packets + x.packets) % 2 ^ 32;
}

unfoldable pub subtract_count : MeterCount → MeterCount → MeterCount
subtract_count a x = record {
  bytes = (a.bytes + (2 ^ 32 - x.bytes % 2 ^ 32)) % 2 ^ 32;
  packets = (a.packets + (2 ^ 32 - x.packets % 2 ^ 32)) % 2 ^ 32;
}

pub record FlowMeter : Type 0 where
  pub counts : List MeterCount
  pub update_times : ℕ
  pub total_bytes : ℕ
  pub total_packets : ℕ
  pub recent : MeterCount
  pub latest : MeterCount

-- The constructor, which ends with `clear`.
unfoldable pub create : ℕ → FlowMeter
create unit_count = record {
  counts = replicate unit_count cleared;
  update_times = 0;
  total_bytes = 0;
  total_packets = 0;
  recent = cleared;
  latest = cleared;
}

unfoldable pub clear : FlowMeter → FlowMeter
unfolding create
clear m = create (length m.counts)

unfoldable pub add : ℕ → FlowMeter → FlowMeter
unfolding add_count
add count m =
    let one : MeterCount = record { bytes = count; packets = 1 } in
    record m {
      latest = add_count m.latest one;
      recent = add_count m.recent one;
      total_bytes = (m.total_bytes + count) % 2 ^ 64;
      total_packets = (m.total_packets + 1) % 2 ^ 64;
    }

unfoldable pub update : FlowMeter → FlowMeter
unfolding subtract_count
update m =
    let position = m.update_times % length m.counts in
    record m {
      recent = subtract_count m.recent (get_or m.counts position cleared);
      counts = set m.counts position m.latest;
      latest = cleared;
      update_times = m.update_times + 1;
    }

-- The rates: per 1000 ms, of the periods that are counted and of the `elapsed` ms after them.
unfoldable pub rate : (MeterCount → ℕ) → ℕ → FlowMeter → ℕ
rate part elapsed m =
    let times = if ltb m.update_times (length m.counts) then m.update_times else length m.counts in
    if m.update_times == 0
    then part m.latest
    else part m.recent * 1000 / (times * 1000 + elapsed) % 2 ^ 32

unfoldable pub get_rate : ℕ → FlowMeter → ℕ
get_rate elapsed m = rate (λ (c : MeterCount). c.bytes) elapsed m

unfoldable pub get_packet_rate : ℕ → FlowMeter → ℕ
get_packet_rate elapsed m = rate (λ (c : MeterCount). c.packets) elapsed m
