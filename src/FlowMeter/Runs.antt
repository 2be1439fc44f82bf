-- ===== src/FlowMeter/Runs.antt =====
-- Concrete runs of the meter, and its theorems at concrete inputs.
use xul.Prelude.{◌+◌, ◌%◌, ◌^◌, ◌≡◌, refl, List, [], ◌∷◌, take, arith}
use xul.FlowMeter.{create, add, update, add_count, subtract_count, get_rate, rate}
use xul.FlowMeter.Sums.{sum}
use xul.FlowMeter.Simple.Trace.{Call, clears, run as run_simple, run-IsBalanced, update-stale}
use xul.FlowMeter.Simple.Trace as simple
use xul.FlowMeter.Window.{Event, adds, updates, run, periods, no_periods, recent-window}

-- Two units: the period of the first addition leaves the window.
abbrev three_periods : List Event
three_periods = adds 100 ∷ updates ∷ adds 20 ∷ updates ∷ adds 3 ∷ updates ∷ adds 4 ∷ []

recent-window_example :
    ((run (create 2) three_periods).recent.bytes
      ≡ (sum (λ c. c.bytes) (take 2 (periods no_periods three_periods).before)
          + (periods no_periods three_periods).now.bytes)
        % 2 ^ 32)
    × ((run (create 2) three_periods).recent.packets
        ≡ (sum (λ c. c.packets) (take 2 (periods no_periods three_periods).before)
            + (periods no_periods three_periods).now.packets)
          % 2 ^ 32)
recent-window_example = recent-window 2 three_periods (omega arith)

the_last_two : (run (create 2) three_periods).recent.bytes ≡ 27
unfolding run create add update add_count subtract_count
the_last_two = refl

per_second : get_rate 500 (run (create 2) three_periods) ≡ 10
unfolding run create add update add_count subtract_count get_rate rate
per_second = refl

-- The clock goes back, and over the end of the ring.
abbrev by_the_clock : List Call
by_the_clock =
    simple.adds 7 100 ∷ simple.adds 20 2500 ∷ simple.updates 1200 ∷ clears ∷ simple.adds 5 6001 ∷ []
