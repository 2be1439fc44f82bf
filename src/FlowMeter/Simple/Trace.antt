-- ===== src/FlowMeter/Simple/Trace.antt =====
-- Calls of the simple meter one after the other.
use xul.Prelude.{
  ℕ, ◌+◌, ◌-◌, ◌*◌, ◌/◌, ◌%◌, ◌<◌, ◌≡◌, refl, sym, ◌∙◌, true, List, [], ◌∷◌, length, ltb, ◌==◌, inl,
  inr, Bool-cases, length-replicate, arith,
}
use native.Mathlib.Nat.{mod-lt, mod-eq_of_lt, add-mul-mod_self_right, add-mod_right}
use xul.FlowMeter.{cleared}
use xul.FlowMeter.Simple.{SimpleFlowMeter, create, clear, step_next, position_at, update, add}
use xul.FlowMeter.Simple.Bounds.{IsBalanced, create-IsBalanced, update-IsBalanced, add-IsBalanced}

-- A call, with the milliseconds at which it comes.
pub data Call : Type 0 where
  adds : ℕ → ℕ → Call
  updates : ℕ → Call
  clears : Call

unfoldable pub run : SimpleFlowMeter → List Call → SimpleFlowMeter
run m [] = m
run m (adds count elapsed ∷ calls) = run (add count elapsed m) calls
run m (updates elapsed ∷ calls) = run (update elapsed m) calls
run m (clears ∷ calls) = run (clear m) calls

run_from :
    (m : SimpleFlowMeter) (calls : List Call)
    → IsBalanced m
    → IsBalanced (run m calls) × (length (run m calls).counts ≡ length m.counts)
unfolding run clear create
run_from m [] s = (s, refl)
run_from m (adds count elapsed ∷ calls) s =
    let (sound, same) = add-IsBalanced count elapsed m s in
    let (last, all) = run_from (add count elapsed m) calls sound in (last, all ∙ same)
run_from m (updates elapsed ∷ calls) s =
    let (sound, same) = update-IsBalanced elapsed m s in
    let (last, all) = run_from (update elapsed m) calls sound in (last, all ∙ same)
run_from m (clears ∷ calls) s =
    let (last, all) =
      run_from (clear m) calls (create-IsBalanced (length m.counts) (omega (arith, s.within))) in
    (last, all ∙ length-replicate (length m.counts) cleared)

-- A simple meter of at least one unit, through any additions, updates and resets, at any times,
-- even times that go backwards, keeps the number of its units and its position within the ring,
-- and its recent bytes and packets are the sums over the ring, modulo 2 ^ 32.
pub run-IsBalanced :
    (n : ℕ) (calls : List Call)
    → 0 < n
    → IsBalanced (run (create n) calls) × (length (run (create n) calls).counts ≡ n)
unfolding create
run-IsBalanced n calls h =
    let (sound, same) = run_from (create n) calls (create-IsBalanced n h) in
    (sound, same ∙ length-replicate n cleared)

step_next-position :
    (p : ℕ) (m : SimpleFlowMeter) → p < length m.counts → (step_next p m).last_position ≡ p
unfolding step_next
step_next-position p m h = elim (Bool-cases (ltb p m.last_position)) [
  | inl behind ↦ rw behind (add-mod_right p (length m.counts) ∙ mod-eq_of_lt h)
  | inr ahead ↦ rw ahead (mod-eq_of_lt h)
]

update-position :
    (elapsed : ℕ) (m : SimpleFlowMeter)
    → IsBalanced m
    → (update elapsed m).last_position ≡ position_at elapsed m
unfolding update position_at
update-position elapsed m s = elim (Bool-cases (position_at elapsed m == m.last_position)) [
  | inl same ↦
      let e : position_at elapsed m ≡ m.last_position = ground (arith, same) in rw same (sym e)
  | inr other ↦
      rw other (step_next-position (position_at elapsed m) m (mod-lt _ (omega (arith, s.within))))
]

whole_turns :
    (elapsed k n : ℕ)
    → (elapsed + 1000 * (k * n) + 1000 - 1) / 1000 % n ≡ (elapsed + 1000 - 1) / 1000 % n
whole_turns elapsed k n =
    let later : (elapsed + 1000 * (k * n) + 1000 - 1) / 1000 ≡ (elapsed + 1000 - 1) / 1000 + k * n =
      omega arith in
    rw later (add-mul-mod_self_right ((elapsed + 1000 - 1) / 1000) k n)

update-still :
    (elapsed : ℕ) (m : SimpleFlowMeter)
    → position_at elapsed m ≡ m.last_position
    → update elapsed m ≡ m
unfolding update
update-still elapsed m e =
    let here : (position_at elapsed m == m.last_position) ≡ true = ground (arith, e) in rw here refl

position-same :
    (elapsed k : ℕ) (m after : SimpleFlowMeter)
    → length after.counts ≡ length m.counts
    → position_at (elapsed + 1000 * (k * length m.counts)) after ≡ position_at elapsed m
unfolding position_at
position-same elapsed k m after same = rw same (whole_turns elapsed k (length m.counts))

add-position :
    (count elapsed : ℕ) (m : SimpleFlowMeter)
    → IsBalanced m
    → (add count elapsed m).last_position ≡ position_at elapsed m
unfolding add
add-position count elapsed m s = update-position elapsed m s

-- An update that comes a whole number of turns of the ring after an addition changes nothing: what
-- was added is still in the recent bytes and packets, however long ago it was.
pub update-stale :
    (count elapsed k : ℕ) (m : SimpleFlowMeter)
    → IsBalanced m
    → update (elapsed + 1000 * (k * length m.counts)) (add count elapsed m) ≡ add count elapsed m
update-stale count elapsed k m s =
    let same = (add-IsBalanced count elapsed m s).1 in
    update-still (elapsed + 1000 * (k * length m.counts)) (add count elapsed m)
      (position-same elapsed k m (add count elapsed m) same ∙ sym (add-position count elapsed m s))
