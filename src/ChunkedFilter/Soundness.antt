-- ===== src/ChunkedFilter/Soundness.antt =====
-- The part of a chunk that has been received stays below its size.
use xul.Prelude.{
  ℕ, zero, suc, ◌+◌, ◌<◌, ◌≡◌, refl, ap, Bool, ◌&&◌, Option, List, [], ◌∷◌, Bytes, length, take,
  drop, get_or, ltb, ◌==◌, inl, inr, Bool-cases, Option-cases, arith,
}
use xul.Prelude.Search.{search}
use xul.Prelude.Int.{ℤ, pos, negsuc}
use xul.ChunkedFilter.{
  Filter, create, reset_state, send, handle_error, decode_chunk_data, decode_chunk_trailer,
  decode_chunk_start, decode_once, dispatch, process_loop, process, init, finish, crln,
}

-- Within a chunk less than its size has been received, elsewhere nothing.
unfoldable pub Received : ℤ → ℕ → Type 0
Received (pos zero) received = received ≡ 0
Received (pos (suc n)) received = received < suc n
Received (negsuc n) received = received ≡ 0

unfoldable pub IsSound : Filter → Type 0
unfolding Received
IsSound f = Received f.current_chunk_size f.received_chunk_size

Received-zero : (n : ℤ) → Received n 0
unfolding Received
Received-zero (pos zero) = refl
Received-zero (pos (suc n)) = omega arith
Received-zero (negsuc n) = refl

decode_chunk_data-IsSound :
    (n : ℕ) (bytes : Bytes) (f : Filter)
    → f.current_chunk_size ≡ pos (suc n)
    → f.received_chunk_size < suc n
    → IsSound (decode_chunk_data (suc n) bytes f).1
unfolding decode_chunk_data IsSound Received send
decode_chunk_data-IsSound n bytes f e h = ground (arith, e, h)

decode_chunk_trailer-IsSound :
    (bytes : Bytes) (f : Filter) → IsSound f → IsSound (decode_chunk_trailer bytes f).1
unfolding decode_chunk_trailer IsSound send
decode_chunk_trailer-IsSound bytes f s = elim (Bool-cases (ltb (length bytes) 2)) [
  | inl short ↦ rw short s
  | inr long ↦ elim (Bool-cases ((get_or bytes 0 0 == b'\r') && (get_or bytes 1 0 == b'\n'))) [
    | inl e ↦ rw (long, e) s
    | inr e ↦ rw (long, e) s
  ]
]

module _ (scan : Bytes → Option ℤ) where
  decode_chunk_start-IsSound :
      (bytes : Bytes) (f : Filter)
      → f.received_chunk_size ≡ 0
      → IsSound f
      → IsSound (decode_chunk_start scan bytes f).1
  unfolding decode_chunk_start IsSound
  decode_chunk_start-IsSound bytes f e s = elim (Bool-cases (search bytes crln == length bytes)) [
    | inl none_there ↦ rw none_there s
    | inr there ↦ elim (Option-cases (scan (take (search bytes crln) bytes))) [
      | inl fails ↦ rw (there, fails) s
      | inr t ↦ let (n, reads) = t in rw (there, reads, e) (Received-zero n)
    ]
  ]

  pub decode_once-at :
      (size : ℤ) (bytes : Bytes) (f : Filter)
      → f.current_chunk_size ≡ size
      → decode_once scan bytes f ≡ dispatch scan size bytes f
  unfolding decode_once
  decode_once-at size bytes f e = ap (λ (t : ℤ). dispatch scan t bytes f) e

  decode_once-by :
      (size : ℤ) (bytes : Bytes) (f : Filter)
      → f.current_chunk_size ≡ size
      → Received size f.received_chunk_size
      → IsSound f
      → IsSound (decode_once scan bytes f).1
  unfolding Received dispatch
  decode_once-by (pos zero) bytes f e h s =
      rw (decode_once-at (pos zero) bytes f e) (decode_chunk_trailer-IsSound bytes f s)
  decode_once-by (pos (suc n)) bytes f e h s =
      rw (decode_once-at (pos (suc n)) bytes f e) (decode_chunk_data-IsSound n bytes f e h)
  decode_once-by (negsuc n) bytes f e h s =
      rw (decode_once-at (negsuc n) bytes f e) (decode_chunk_start-IsSound bytes f h s)

  decode_once-IsSound :
      (bytes : Bytes) (f : Filter) → IsSound f → IsSound (decode_once scan bytes f).1
  unfolding IsSound
  decode_once-IsSound bytes f s = decode_once-by f.current_chunk_size bytes f refl s s

  process_loop-IsSound :
      (fuel : ℕ) (bytes : Bytes) (f : Filter) → IsSound f → IsSound (process_loop scan fuel bytes f)
  unfolding process_loop IsSound
  process_loop-IsSound zero bytes f s = s
  process_loop-IsSound (suc fuel) bytes f s =
      let sound = decode_once-IsSound bytes f s in
      elim (Bool-cases (length bytes == 0)) [
        | inl empty ↦ rw empty s
        | inr some_bytes ↦ rw some_bytes (
            by_result
              (λ n after h.
                process_loop-IsSound fuel (drop (suc n) bytes)
                  (record after { received_size = after.received_size + suc n }) h)
              (decode_once scan bytes f).0 (decode_once scan bytes f).1 sound)
      ]
    where
      by_result :
          ((n : ℕ) (after : Filter)
            → IsSound after
            → IsSound (
                process_loop scan fuel
                  (drop (suc n) bytes)
                  (record after { received_size = after.received_size + suc n })))
          → (ret : ℤ) (after : Filter) → IsSound after
          → IsSound (elim ret as (λ r. Filter) [
            | negsuc n ↦ after
            | pos zero ↦ after
            | pos (suc n) ↦
                process_loop scan fuel
                  (drop (suc n) bytes)
                  (record after { received_size = after.received_size + suc n })
          ])
      by_result goes_on (negsuc n) after h = h
      by_result goes_on (pos zero) after h = h
      by_result goes_on (pos (suc n)) after h = goes_on n after h

  -- A call of the filter.
  pub data Call : Type 0 where
    processes : Bytes → Call
    initialises : Bool → Call
    fails : ℤ → Call
    finishes : Bool → Bytes → Call

  unfoldable pub run : Filter → List Call → Filter
  run f [] = f
  run f (processes bytes ∷ calls) = run (process scan bytes f) calls
  run f (initialises b ∷ calls) = run (init b f).1 calls
  run f (fails errcode ∷ calls) = run (handle_error errcode f) calls
  run f (finishes b bytes ∷ calls) = run (finish b bytes f).1 calls

  run_from : (f : Filter) (calls : List Call) → IsSound f → IsSound (run f calls)
  unfolding run process init handle_error finish send reset_state IsSound
  run_from f [] s = s
  run_from f (processes bytes ∷ calls) s =
      run_from (process scan bytes f) calls (process_loop-IsSound (length bytes) bytes f s)
  run_from f (initialises b ∷ calls) s = run_from (init b f).1 calls (Received-zero (negsuc 0))
  run_from f (fails errcode ∷ calls) s =
      run_from (handle_error errcode f) calls (Received-zero (negsuc 0))
  run_from f (finishes b bytes ∷ calls) s = run_from (finish b bytes f).1 calls s

  -- Through any calls of a filter, with any data, well formed or not, and whatever numbers sscanf
  -- reads, less than the size of a chunk has been received within it, and nothing outside of one;
  -- a call that the source does not define is taken as one that only leaves its mark.
  pub run-IsSound : (calls : List Call) → IsSound (run create calls)
  unfolding create IsSound
  run-IsSound calls = run_from create calls (Received-zero (negsuc 0))
