-- ===== src/ChunkedFilter/Runs.antt =====
-- Concrete runs of the filter, and its theorems at concrete inputs.
use xul.Prelude.{
  ℕ, ◌+◌, ◌*◌, ◌%◌, ◌≡◌, refl, true, Option, none, some, List, [], ◌∷◌, Bytes, codes, length, ltb,
  if◌then◌else◌, arith,
}
use xul.Prelude.Int.{ℤ, pos}
use xul.Prelude.Search.{search, starts_with}
use xul.ChunkedFilter.{create, crln, process}
use xul.ChunkedFilter.Soundness.{run, run-IsSound, IsSound, processes, initialises}
use xul.ChunkedFilter.Bodies.{
  Chunk, chunk_text, body_text, HasSent, IsChunk, StartsChunk, process-body,
}

-- sscanf on decimal digits, which is what it does on hexadecimal ones up to 9.
abbrev scan_from : ℕ → Bytes → ℕ
scan_from n [] = n
scan_from n (c ∷ text) = scan_from (n * 16 + (if ltb c b'0' then 0 else c % 16)) text

abbrev scan_digits : Bytes → Option ℤ
scan_digits [] = none
scan_digits (c ∷ text) = some (pos (scan_from 0 (c ∷ text)))

abbrev two_chunks : List Chunk
two_chunks =
    record { start = codes "5"; bytes = codes "hello" }
    ∷ record { start = codes "06"; bytes = codes " world" }
    ∷ []

process-body_example :
    HasSent scan_digits two_chunks
      (length (body_text two_chunks (codes "0")))
      create
      (process scan_digits (body_text two_chunks (codes "0")) create)
unfolding create IsChunk StartsChunk search starts_with crln body_text chunk_text
process-body_example =
    process-body scan_digits two_chunks (codes "0") create 0
      ((omega arith, (refl, refl)), ((omega arith, (refl, refl)), tt)) (refl, refl) refl refl
      (omega arith)

the_text : body_text two_chunks (codes "0") ≡ codes "5\r\nhello\r\n06\r\n world\r\n0\r\n\r\n"
unfolding body_text chunk_text crln
the_text = refl

run-IsSound_example : IsSound (
    run scan_digits create
      (processes (codes "5\r\nhel") ∷ initialises true ∷ processes (codes "x") ∷ []))
run-IsSound_example =
    run-IsSound scan_digits
      (processes (codes "5\r\nhel") ∷ initialises true ∷ processes (codes "x") ∷ [])
