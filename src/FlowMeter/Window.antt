-- ===== src/FlowMeter/Window.antt =====
-- The ring against the list of all periods: `m_recent` counts the last ones.
use xul.Prelude.{
  ℕ, zero, suc, ◌+◌, ◌-◌, ◌%◌, ◌^◌, ◌<◌, ◌≤◌, ◌≡◌, ◌≢◌, refl, sym, ap, ◌∙◌, List, [], ◌∷◌, length,
  set, get_or, replicate, arith, length-set, length-replicate, ◌⊎◌, inl, inr, take,
}
use native.Mathlib.Nat.{mod-lt, mod-add-mod, mod-eq_of_lt, mod-eq-sub-mod, add-mod_right}
use xul.FlowMeter.{FlowMeter, MeterCount, cleared, create, add, update, add_count, subtract_count}
use xul.FlowMeter.Sums.{sum}

-- What happens to a meter.
pub data Event : Type 0 where
  adds : ℕ → Event
  updates : Event

unfoldable pub run : FlowMeter → List Event → FlowMeter
run m [] = m
run m (adds count ∷ events) = run (add count m) events
run m (updates ∷ events) = run (update m) events

-- The periods, the one that runs first, and the completed ones, the latest first.
pub record Periods : Type 0 where
  pub now : MeterCount
  pub before : List MeterCount

unfoldable pub periods : Periods → List Event → Periods
unfolding add_count
periods p [] = p
periods p (adds count ∷ events) =
    periods (record p { now = add_count p.now (record { bytes = count; packets = 1 }) }) events
periods p (updates ∷ events) = periods (record { now = cleared; before = p.now ∷ p.before }) events

-- The counter at place `i` of the completed periods; a period before the first one is empty.
abbrev at : List MeterCount → ℕ → MeterCount
at before i = get_or before i cleared

record Follows (n : ℕ) (m : FlowMeter) (p : Periods) : Type 0 where
  units : length m.counts ≡ n
  current : m.latest ≡ p.now
  ring :
      (k : ℕ) → k < n → get_or m.counts ((m.update_times + k) % n) cleared ≡ at p.before (n - 1 - k)
  recent_bytes : m.recent.bytes ≡ (sum (λ c. c.bytes) (take n p.before) + p.now.bytes) % 2 ^ 32
  recent_packets :
      m.recent.packets ≡ (sum (λ c. c.packets) (take n p.before) + p.now.packets) % 2 ^ 32

get_or-set_self :
    (xs : List MeterCount) (i : ℕ) (v : MeterCount)
    → i < length xs
    → get_or (set xs i v) i cleared ≡ v
get_or-set_self [] i v h = elim h [ ]
get_or-set_self (x ∷ xs) zero v h = refl
get_or-set_self (x ∷ xs) (suc i) v h = get_or-set_self xs i v (omega arith)

get_or-set_ne :
    (xs : List MeterCount) (i j : ℕ) (v : MeterCount)
    → i ≢ j
    → get_or (set xs i v) j cleared ≡ get_or xs j cleared
get_or-set_ne [] i j v h = refl
get_or-set_ne (x ∷ xs) zero zero v h = absurd (h refl)
get_or-set_ne (x ∷ xs) zero (suc j) v h = refl
get_or-set_ne (x ∷ xs) (suc i) zero v h = refl
get_or-set_ne (x ∷ xs) (suc i) (suc j) v h = get_or-set_ne xs i j v (λ e. h (ap suc e))

sum-take-suc :
    (part : MeterCount → ℕ) (n : ℕ) (xs : List MeterCount)
    → part cleared ≡ 0
    → sum part (take (suc n) xs) ≡ sum part (take n xs) + part (at xs n)
unfolding sum
sum-take-suc part zero [] h = omega (arith, h)
sum-take-suc part (suc n) [] h = omega (arith, h)
sum-take-suc part zero (x ∷ xs) h = omega arith
sum-take-suc part (suc n) (x ∷ xs) h = omega (arith, sum-take-suc part n xs h)

later_place : (t k n : ℕ) → k < n → 0 < k → (t + k) % n ≢ t % n
later_place t k n h p e = elim (below_or_not (t % n + k) n) [
  | inl small ↦ absurd (omega (arith, e, mod-add-mod t n k, mod-eq_of_lt small))
  | inr large ↦ absurd (
      omega (
        arith,
        e,
        mod-add-mod t n k,
        mod-eq-sub-mod large,
        mod-eq_of_lt (wrapped large),
        mod-lt t (positive h),
      ))
]
  where
    below_or_not : (a b : ℕ) → (a < b) ⊎ (b ≤ a)
    below_or_not a b = omega arith

    positive : k < n → 0 < n
    positive h = omega arith

    wrapped : n ≤ t % n + k → t % n + k - n < n
    wrapped large = omega (arith, h, mod-lt t (positive h))

same_place : (t n : ℕ) → (t + n) % n ≡ t % n
same_place t n = add-mod_right t n

-- One turn of the ring.
ring_step :
    (counts before : List MeterCount) (now : MeterCount) (t n : ℕ)
    → length counts ≡ n
    → ((k : ℕ) → k < n → get_or counts ((t + k) % n) cleared ≡ at before (n - 1 - k))
    → (k : ℕ) → k < n
    → get_or (set counts (t % n) now) ((t + 1 + k) % n) cleared ≡ at (now ∷ before) (n - 1 - k)
ring_step counts before now t n units ring k h = elim (last_or_not k n h) [
  | inl more ↦
      let next : t + 1 + k ≡ t + suc k = omega arith in
      let place : n - 1 - k ≡ suc (n - 1 - suc k) = omega arith in
      rw (next, place)
        (get_or-set_ne counts (t % n) ((t + suc k) % n) now
            (λ e. later_place t (suc k) n more (omega arith) (sym e))
          ∙ ring (suc k) more)
  | inr last ↦
      let next : t + 1 + k ≡ t + n = omega arith in
      let place : n - 1 - k ≡ 0 = omega arith in
      rw (next, place, same_place t n)
        (get_or-set_self counts (t % n) now (omega (arith, units, mod-lt t (positive h))))
]
  where
    last_or_not : (a b : ℕ) → a < b → (suc a < b) ⊎ (suc a ≡ b)
    last_or_not a b h = omega arith

    positive : k < n → 0 < n
    positive h = omega arith

-- The oldest period leaves the sum, and the one that ends enters it.
sum_step :
    (part : MeterCount → ℕ) (n : ℕ) (now : MeterCount) (before : List MeterCount)
    → part cleared ≡ 0
    → 0 < n
    → sum part (take n (now ∷ before)) + part (at before (n - 1))
      ≡ part now + sum part (take n before)
unfolding sum
sum_step part zero now before h p = elim p [ ]
sum_step part (suc n) now before h p =
    let place : suc n - 1 ≡ n = omega arith in
    rw place (omega (arith, sum-take-suc part n before h))

oldest :
    (n : ℕ) (m : FlowMeter) (p : Periods)
    → 0 < n
    → Follows n m p
    → get_or m.counts (m.update_times % length m.counts) cleared ≡ at p.before (n - 1)
oldest n m p h f =
    let start : m.update_times + 0 ≡ m.update_times = omega arith in
    let last : n - 1 - 0 ≡ n - 1 = omega arith in
    let first : get_or m.counts ((m.update_times + 0) % n) cleared ≡ at p.before (n - 1 - 0) =
      f.ring 0 h in
    rw (f.units) (rw (start, last) at first)

update-Follows :
    (n : ℕ) (m : FlowMeter) (p : Periods)
    → 0 < n
    → Follows n m p
    → Follows n (update m) (record { now = cleared; before = p.now ∷ p.before })
unfolding update subtract_count
update-Follows n m p h f = record {
  units = length-set m.counts (m.update_times % length m.counts) m.latest ∙ f.units;
  current = refl;
  ring = λ k within.
      rw (f.units, f.current)
        (ring_step m.counts p.before p.now m.update_times n f.units f.ring k within);
  recent_bytes = omega (
    arith,
    f.recent_bytes,
    ap (λ (c : MeterCount). c.bytes) (oldest n m p h f),
    sum_step (λ c. c.bytes) n p.now p.before refl h,
  );
  recent_packets = omega (
    arith,
    f.recent_packets,
    ap (λ (c : MeterCount). c.packets) (oldest n m p h f),
    sum_step (λ c. c.packets) n p.now p.before refl h,
  );
}

add-Follows :
    (n count : ℕ) (m : FlowMeter) (p : Periods)
    → Follows n m p
    → Follows n
        (add count m)
        (record p { now = add_count p.now (record { bytes = count; packets = 1 }) })
unfolding add add_count
add-Follows n count m p f = record {
  units = f.units;
  current = ap (λ (c : MeterCount). add_count c (record { bytes = count; packets = 1 })) f.current;
  ring = f.ring;
  recent_bytes = omega (arith, f.recent_bytes);
  recent_packets = omega (arith, f.recent_packets);
}

run-Follows :
    (n : ℕ) (m : FlowMeter) (p : Periods) (events : List Event)
    → 0 < n
    → Follows n m p
    → Follows n (run m events) (periods p events)
unfolding run periods
run-Follows n m p [] h f = f
run-Follows n m p (adds count ∷ events) h f =
    run-Follows n (add count m) _ events h (add-Follows n count m p f)
run-Follows n m p (updates ∷ events) h f =
    run-Follows n (update m) _ events h (update-Follows n m p h f)

empty_place : (n i : ℕ) → get_or (replicate n cleared) i cleared ≡ cleared
empty_place zero i = refl
empty_place (suc n) zero = refl
empty_place (suc n) (suc i) = empty_place n i

abbrev pub no_periods : Periods
no_periods = record { now = cleared; before = [] }

sum-take_nil : (part : MeterCount → ℕ) (n : ℕ) → sum part (take n []) ≡ 0
unfolding sum
sum-take_nil part zero = refl
sum-take_nil part (suc n) = refl

create-Follows : (n : ℕ) → Follows n (create n) no_periods
unfolding create
create-Follows n = record {
  units = length-replicate n cleared;
  current = refl;
  ring = λ k h. empty_place n ((0 + k) % n);
  recent_bytes = nothing (λ c. c.bytes) n;
  recent_packets = nothing (λ c. c.packets) n;
}
  where
    nothing : (part : MeterCount → ℕ) (n : ℕ) → 0 ≡ (sum part (take n []) + 0) % 2 ^ 32
    nothing part n = omega (arith, sum-take_nil part n)

-- For a meter of at least one unit, after any additions and updates in any order, the recent bytes
-- and packets are the sums over the period that runs and the last completed ones, as many as there
-- are units, taken modulo 2 ^ 32; older periods do not count.
pub recent-window :
    (n : ℕ) (events : List Event)
    → 0 < n
    → ((run (create n) events).recent.bytes
        ≡ (sum (λ c. c.bytes) (take n (periods no_periods events).before)
            + (periods no_periods events).now.bytes)
          % 2 ^ 32)
      × ((run (create n) events).recent.packets
          ≡ (sum (λ c. c.packets) (take n (periods no_periods events).before)
              + (periods no_periods events).now.packets)
            % 2 ^ 32)
recent-window n events h =
    let f = run-Follows n (create n) no_periods events h (create-Follows n) in
    (f.recent_bytes, f.recent_packets)
