-- ===== src/FlowMeter/Simple.antt =====
-- simple_flow_meter of include/xul/util/flow_meter.hpp: the cell of the ring goes by the clock. The
-- milliseconds since `clear` are an argument of the calls that read the clock, with seconds that an
-- int holds; m_last_update_time, which nothing reads, is left out.
pub mod Bounds
pub mod Trace
use xul.Prelude.{
  ℕ, zero, suc, ◌+◌, ◌-◌, ◌/◌, ◌%◌, ◌^◌, List, length, set, get_or, replicate, ltb, ◌==◌,
  if◌then◌else◌,
}
use xul.FlowMeter.{MeterCount, cleared, add_count, subtract_count}

pub record SimpleFlowMeter : Type 0 where
  pub counts : List MeterCount
  pub update_times : ℕ
  pub last_position : ℕ
  pub total_bytes : ℕ
  pub total_packets : ℕ
  pub recent : MeterCount
  pub latest : MeterCount

-- The constructor, which ends with `clear`.
unfoldable pub create : ℕ → SimpleFlowMeter
create unit_count = record {
  counts = replicate unit_count cleared;
  update_times = 0;
  last_position = 0;
  total_bytes = 0;
  total_packets = 0;
  recent = cleared;
  latest = cleared;
}

unfoldable pub clear : SimpleFlowMeter → SimpleFlowMeter
unfolding create
clear m = create (length m.counts)

-- The rounds of the loop from `i` on.
unfoldable pub step_loop : ℕ → ℕ → SimpleFlowMeter → SimpleFlowMeter
unfolding subtract_count
step_loop zero i m = m
step_loop (suc rounds) i m =
    let offset = i % length m.counts in
    step_loop rounds (i + 1) (record m {
      recent = subtract_count m.recent (get_or m.counts offset cleared);
      counts = set m.counts offset cleared;
      update_times = m.update_times + 1;
    })

unfoldable pub step_next : ℕ → SimpleFlowMeter → SimpleFlowMeter
unfolding step_loop
step_next position m =
    let target = if ltb position m.last_position then position + length m.counts else position in
    record (step_loop (target - m.last_position) (m.last_position + 1) m) {
      last_position = target % length m.counts;
    }

unfoldable pub position_at : ℕ → SimpleFlowMeter → ℕ
position_at elapsed m = (elapsed + 1000 - 1) / 1000 % length m.counts

unfoldable pub update : ℕ → SimpleFlowMeter → SimpleFlowMeter
unfolding step_next position_at
update elapsed m =
    let position = position_at elapsed m in
    if position == m.last_position then m else step_next position m

unfoldable pub add : ℕ → ℕ → SimpleFlowMeter → SimpleFlowMeter
unfolding update position_at add_count
add count elapsed m =
    let position = position_at elapsed m in
    let stepped = update elapsed m in
    let one : MeterCount = record { bytes = count; packets = 1 } in
    record stepped {
      counts = set stepped.counts position (add_count (get_or stepped.counts position cleared) one);
      recent = add_count stepped.recent one;
      total_bytes = (stepped.total_bytes + count) % 2 ^ 64;
      total_packets = (stepped.total_packets + 1) % 2 ^ 64;
    }

unfoldable pub rate : (MeterCount → ℕ) → SimpleFlowMeter → ℕ
rate part m =
    let times = if ltb m.update_times (length m.counts) then m.update_times else length m.counts in
    if m.update_times == 0 then part m.latest else part m.recent / times

unfoldable pub get_rate : SimpleFlowMeter → ℕ
get_rate m = rate (λ (c : MeterCount). c.bytes) m

unfoldable pub get_packet_rate : SimpleFlowMeter → ℕ
get_packet_rate m = rate (λ (c : MeterCount). c.packets) m
