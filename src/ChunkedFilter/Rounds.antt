-- ===== src/ChunkedFilter/Rounds.antt =====
-- The loop of `process` ends.
use xul.Prelude.{
  ℕ, zero, suc, ◌+◌, ◌≤◌, ◌≡◌, refl, inl, inr, true, Bool-cases, Option, Bytes, length, length-drop,
  drop, ◌==◌, arith,
}
use xul.Prelude.Int.{ℤ, pos, negsuc}
use xul.ChunkedFilter.{Filter, decode_once, process_loop, process}

module _ (scan : Bytes → Option ℤ) where
  same_end :
      (a b : ℕ) (bytes : Bytes) (f : Filter)
      → length bytes ≤ a
      → length bytes ≤ b
      → process_loop scan a bytes f ≡ process_loop scan b bytes f
  unfolding process_loop
  same_end zero zero bytes f h k = refl
  same_end zero (suc b) bytes f h k =
      let empty : (length bytes == 0) ≡ true = ground arith in rw empty refl
  same_end (suc a) zero bytes f h k =
      let empty : (length bytes == 0) ≡ true = ground arith in rw empty refl
  same_end (suc a) (suc b) bytes f h k = elim (Bool-cases (length bytes == 0)) [
    | inl empty ↦ rw empty refl
    | inr some_bytes ↦ rw some_bytes (
        by_result (decode_once scan bytes f).0 (decode_once scan bytes f).1 (λ n g.
          same_end a b (drop (suc n) bytes) g (omega (arith, length-drop (suc n) bytes))
            (omega (arith, length-drop (suc n) bytes))))
  ]
    where
      by_result :
          (ret : ℤ) (after : Filter)
          → ((n : ℕ) (g : Filter)
              → process_loop scan a (drop (suc n) bytes) g
                ≡ process_loop scan b (drop (suc n) bytes) g)
          → elim ret as (λ r. Filter) [
            | negsuc n ↦ after
            | pos zero ↦ after
            | pos (suc n) ↦
                process_loop scan a
                  (drop (suc n) bytes)
                  (record after { received_size = after.received_size + suc n })
          ]
            ≡ elim ret as (λ r. Filter) [
              | negsuc n ↦ after
              | pos zero ↦ after
              | pos (suc n) ↦
                  process_loop scan b
                    (drop (suc n) bytes)
                    (record after { received_size = after.received_size + suc n })
            ]
      by_result (negsuc n) after rest = refl
      by_result (pos zero) after rest = refl
      by_result (pos (suc n)) after rest = rest n _

  -- The loop of process takes no more rounds than the piece has bytes, whatever the piece: further
  -- rounds change nothing.
  pub process_loop-ends :
      (fuel : ℕ) (bytes : Bytes) (f : Filter)
      → length bytes ≤ fuel
      → process_loop scan fuel bytes f ≡ process scan bytes f
  unfolding process
  process_loop-ends fuel bytes f h = same_end fuel (length bytes) bytes f h (omega arith)
