-- ===== src/ChunkedFilter/Bodies.antt =====
-- A body in the chunked coding, as one piece.
use xul.Prelude.{
  ℕ, zero, suc, ◌+◌, ◌-◌, ◌%◌, ◌^◌, ◌≤◌, ◌<◌, ◌≡◌, refl, ap, sym, ◌∙◌, true, false, Option, some,
  List, [], ◌∷◌, ◌++◌, append_assoc, Bytes, map, All, length, length-append, take, drop,
  take-length_append, drop-length_append, get_or, leb, ◌==◌, arith,
}
use xul.Prelude.Int.{ℤ, pos, negsuc}
use xul.Prelude.Search.{search, search-append}
use xul.ChunkedFilter.{
  Filter, processed, finished, send, crln, decode_chunk_start, decode_chunk_data,
  decode_chunk_trailer, decode_once, dispatch, process_loop, process,
}
use xul.ChunkedFilter.Soundness.{decode_once-at}

-- A chunk: what stands in front of its bytes, and the bytes.
pub record Chunk : Type 0 where
  pub start : Bytes
  pub bytes : Bytes

unfoldable pub chunk_text : Chunk → Bytes
unfolding crln
chunk_text c = c.start ++ crln ++ (c.bytes ++ crln)

-- The chunks, the start of the last one, which has no bytes, and the empty line after it.
unfoldable pub body_text : List Chunk → Bytes → Bytes
unfolding chunk_text crln
body_text [] last = last ++ crln ++ crln
body_text (c ∷ chunks) last = chunk_text c ++ body_text chunks last

module _ (scan : Bytes → Option ℤ) where
  -- A line that sscanf reads as this number, and that ends where its CR LF begins.
  unfoldable pub StartsChunk : ℕ → Bytes → Type 0
  StartsChunk n start = (search (start ++ crln) crln ≡ length start) × (scan start ≡ some (pos n))

  unfoldable pub IsChunk : Chunk → Type 0
  unfolding StartsChunk
  IsChunk c = (0 < length c.bytes) × StartsChunk (length c.bytes) c.start

  -- A round that goes on.
  process_loop-suc :
      (fuel n : ℕ) (bytes : Bytes) (f after : Filter)
      → 0 < length bytes
      → decode_once scan bytes f ≡ (pos (suc n), after)
      → process_loop scan (suc fuel) bytes f
        ≡ process_loop scan fuel
            (drop (suc n) bytes)
            (record after { received_size = after.received_size + suc n })
  unfolding process_loop
  process_loop-suc fuel n bytes f after h e =
      let some_bytes : (length bytes == 0) ≡ false = ground arith in simp (some_bytes, e)

  process_loop-goes :
      (fuel m : ℕ) (bytes : Bytes) (f after : Filter)
      → 0 < length bytes
      → 0 < m
      → decode_once scan bytes f ≡ (pos m, after)
      → process_loop scan (suc fuel) bytes f
        ≡ process_loop scan fuel
            (drop m bytes)
            (record after { received_size = after.received_size + m })
  process_loop-goes fuel zero bytes f after h g e = elim g [ ]
  process_loop-goes fuel (suc n) bytes f after h g e = process_loop-suc fuel n bytes f after h e

  start_round :
      (n : ℕ) (start more : Bytes) (f : Filter) (k : ℕ)
      → StartsChunk n start
      → f.current_chunk_size ≡ negsuc k
      → decode_once scan (start ++ crln ++ more) f
        ≡ (pos (length start + 2), record f { current_chunk_size = pos n })
  unfolding dispatch decode_chunk_start StartsChunk crln
  start_round n start more f k (here, reads) e =
      let long = length-append start (b'\r' ∷ b'\n' ∷ []) in
      let all = length-append (start ++ b'\r' ∷ b'\n' ∷ []) more in
      let place : search (start ++ b'\r' ∷ b'\n' ∷ [] ++ more) (b'\r' ∷ b'\n' ∷ []) ≡ length start =
        search-append (start ++ b'\r' ∷ b'\n' ∷ []) more (b'\r' ∷ b'\n' ∷ [])
          (omega (arith, here, long))
        ∙ here in
      let inside : (length start == length (start ++ b'\r' ∷ b'\n' ∷ [] ++ more)) ≡ false =
        ground (arith, long, all) in
      let line : take (length start) (start ++ b'\r' ∷ b'\n' ∷ [] ++ more) ≡ start =
        ap (λ (t : Bytes). take (length start) t) (append_assoc start (b'\r' ∷ b'\n' ∷ []) more)
        ∙ take-length_append start (b'\r' ∷ b'\n' ∷ [] ++ more) in
      let once = decode_once-at scan (negsuc k) (start ++ b'\r' ∷ b'\n' ∷ [] ++ more) f e in
      simp (once, place, inside, line, reads)

  get_or-past : (xs ys : Bytes) (i : ℕ) → get_or (xs ++ ys) (length xs + i) 0 ≡ get_or ys i 0
  get_or-past [] ys i = let e : 0 + i ≡ i = omega arith in rw e refl
  get_or-past (x ∷ xs) ys i =
      let e : suc (length xs) + i ≡ suc (length xs + i) = omega arith in rw e (get_or-past xs ys i)

  data_round :
      (bytes more : Bytes) (f : Filter) (n : ℕ)
      → length bytes ≡ suc n
      → length bytes + 2 < 2 ^ 31
      → f.current_chunk_size ≡ pos (suc n)
      → f.received_chunk_size ≡ 0
      → decode_once scan (bytes ++ crln ++ more) f ≡ (
        pos (suc n + 2),
        record f {
          last_chunk_size = pos (suc n);
          current_chunk_size = negsuc 0;
          received_chunk_size = 0;
          sent = f.sent ++ processed bytes ∷ [];
        },
      )
  unfolding dispatch decode_chunk_data crln send
  data_round bytes more f n long fits e nothing =
      let text = bytes ++ b'\r' ∷ b'\n' ∷ [] ++ more in
      let joined : text ≡ bytes ++ b'\r' ∷ b'\n' ∷ more =
        append_assoc bytes (b'\r' ∷ b'\n' ∷ []) more in
      let remaining : (suc n - f.received_chunk_size) % 2 ^ 32 ≡ length bytes = omega arith in
      let in_range : leb (2 ^ 31 - 2) (length bytes) ≡ false = ground arith in
      let enough : leb (length bytes + 2) (length text) ≡ true =
        ground (
          arith,
          ap (λ (t : Bytes). length t) joined,
          length-append bytes (b'\r' ∷ b'\n' ∷ more),
        ) in
      let first : get_or text (length bytes) 0 ≡ b'\r' =
        ap (λ (t : ℕ). get_or text t 0) (omega arith)
        ∙ ap (λ (t : Bytes). get_or t (length bytes + 0) 0) joined
        ∙ get_or-past bytes (b'\r' ∷ b'\n' ∷ more) 0 in
      let second : get_or text (length bytes + 1) 0 ≡ b'\n' =
        ap (λ (t : Bytes). get_or t (length bytes + 1) 0) joined
        ∙ get_or-past bytes (b'\r' ∷ b'\n' ∷ more) 1 in
      let front : take (length bytes) text ≡ bytes =
        ap (λ (t : Bytes). take (length bytes) t) joined
        ∙ take-length_append bytes (b'\r' ∷ b'\n' ∷ more) in
      let once = decode_once-at scan (pos (suc n)) text f e in
      simp (once, remaining, in_range, enough, first, second, front, e) (simp long)

  whole_data :
      (bytes more : Bytes) (f : Filter)
      → 0 < length bytes
      → length bytes + 2 < 2 ^ 31
      → f.current_chunk_size ≡ pos (length bytes)
      → f.received_chunk_size ≡ 0
      → decode_once scan (bytes ++ crln ++ more) f ≡ (
        pos (length bytes + 2),
        record f {
          last_chunk_size = pos (length bytes);
          current_chunk_size = negsuc 0;
          received_chunk_size = 0;
          sent = f.sent ++ processed bytes ∷ [];
        },
      )
  whole_data bytes more f h fits e nothing =
      let long : length bytes ≡ suc (length bytes - 1) = omega arith in
      let size : f.current_chunk_size ≡ pos (suc (length bytes - 1)) =
        e ∙ ap (λ (t : ℕ). pos t) long in
      data_round bytes more f (length bytes - 1) long fits size nothing
      ∙ ap
          (λ (t : ℕ). (
            pos (t + 2),
            record f {
              last_chunk_size = pos t;
              current_chunk_size = negsuc 0;
              received_chunk_size = 0;
              sent = f.sent ++ processed bytes ∷ [];
            },
          ))
          (sym long)

  trailer_round :
      (f : Filter)
      → f.current_chunk_size ≡ pos 0
      → decode_once scan crln f ≡ (pos 2, record f { sent = f.sent ++ finished [] ∷ [] })
  unfolding dispatch decode_chunk_trailer crln send search
  trailer_round f e = let once = decode_once-at scan (pos 0) crln f e in simp once

  -- What is left once the loop has passed the start and the data of a chunk.
  abbrev passed : Chunk → Filter → ℕ → Filter
  passed c f size = record f {
    received_size = size;
    last_chunk_size = pos (length c.bytes);
    current_chunk_size = negsuc 0;
    received_chunk_size = 0;
    sent = f.sent ++ processed c.bytes ∷ [];
  }

  drop-line : (xs more : Bytes) → drop (length xs + 2) (xs ++ crln ++ more) ≡ more
  unfolding crln
  drop-line xs more =
      let long : length (xs ++ b'\r' ∷ b'\n' ∷ []) ≡ length xs + 2 =
        length-append xs (b'\r' ∷ b'\n' ∷ []) in
      ap (λ (t : ℕ). drop t (xs ++ b'\r' ∷ b'\n' ∷ [] ++ more)) (sym long)
      ∙ drop-length_append (xs ++ b'\r' ∷ b'\n' ∷ []) more

  length-line : (xs more : Bytes) → length (xs ++ crln ++ more) ≡ length xs + 2 + length more
  unfolding crln
  length-line xs more =
      omega (
        arith,
        length-append (xs ++ b'\r' ∷ b'\n' ∷ []) more,
        length-append xs (b'\r' ∷ b'\n' ∷ []),
      )

  length-chunk_text :
      (c : Chunk) → length (chunk_text c) ≡ length c.start + 2 + (length c.bytes + 2)
  unfolding chunk_text crln
  length-chunk_text c = omega (
    arith,
    length-line c.start (c.bytes ++ b'\r' ∷ b'\n' ∷ []),
    length-append c.bytes (b'\r' ∷ b'\n' ∷ []),
  )

  chunk_passes :
      (c : Chunk) (more : Bytes) (f : Filter) (fuel k : ℕ)
      → IsChunk c
      → length (chunk_text c) < 2 ^ 31
      → f.current_chunk_size ≡ negsuc k
      → f.received_chunk_size ≡ 0
      → process_loop scan (suc (suc fuel)) (chunk_text c ++ more) f
        ≡ process_loop scan fuel more (passed c f (f.received_size + length (chunk_text c)))
  unfolding IsChunk chunk_text
  chunk_passes c more f fuel k (some_bytes, starts) total e nothing =
      let tail = c.bytes ++ crln ++ more in
      let inside = record f {
        current_chunk_size = pos (length c.bytes);
        received_size = f.received_size + (length c.start + 2);
      } in
      let start = start_round (length c.bytes) c.start tail f k starts e in
      let first =
        process_loop-goes (suc fuel) (length c.start + 2) (c.start ++ crln ++ tail) f
          (record f { current_chunk_size = pos (length c.bytes) })
          (omega (arith, length-line c.start tail)) (omega arith) start in
      let second =
        process_loop-goes fuel (length c.bytes + 2) tail inside _
          (omega (arith, length-line c.bytes more)) (omega arith)
          (whole_data c.bytes more inside some_bytes (omega (arith, length-chunk_text c, total))
            refl nothing) in
      ap (λ (t : Bytes). process_loop scan (suc (suc fuel)) t f)
        (append_assoc (c.start ++ crln) (c.bytes ++ crln) more)
      ∙ first
      ∙ ap (λ (t : Bytes). process_loop scan (suc fuel) t inside) (drop-line c.start tail)
      ∙ second
      ∙ ap
          (λ (t : Bytes).
            process_loop scan fuel t
              (passed c f (f.received_size + (length c.start + 2) + (length c.bytes + 2))))
          (drop-line c.bytes more)
      ∙ ap (λ (t : ℕ). process_loop scan fuel more (passed c f t))
          (omega (arith, length-chunk_text c))

  process_loop-nil : (fuel : ℕ) (f : Filter) → process_loop scan fuel [] f ≡ f
  unfolding process_loop
  process_loop-nil zero f = refl
  process_loop-nil (suc fuel) f = refl

  -- What the body has made of the filter.
  unfoldable pub HasSent : List Chunk → ℕ → Filter → Filter → Type 0
  HasSent chunks size f after =
      (after.sent ≡ f.sent ++ (map (λ (c : Chunk). processed c.bytes) chunks ++ finished [] ∷ []))
      × (after.current_chunk_size ≡ pos 0)
      × (after.received_size ≡ f.received_size + size)

  last_passes :
      (last : Bytes) (f : Filter) (fuel k : ℕ)
      → StartsChunk 0 last
      → f.current_chunk_size ≡ negsuc k
      → HasSent []
          (length (last ++ crln ++ crln))
          f
          (process_loop scan (suc (suc fuel)) (last ++ crln ++ crln) f)
  unfolding HasSent crln
  last_passes last f fuel k starts e =
      let inside = record f {
        current_chunk_size = pos 0;
        received_size = f.received_size + (length last + 2);
      } in
      let first =
        process_loop-goes (suc fuel) (length last + 2) (last ++ crln ++ crln) f
          (record f { current_chunk_size = pos 0 }) (omega (arith, length-line last crln))
          (omega arith) (start_round 0 last crln f k starts e) in
      let second =
        process_loop-goes fuel 2 crln inside _ (omega arith) (omega arith)
          (trailer_round inside refl) in
      let all =
        first
        ∙ ap (λ (t : Bytes). process_loop scan (suc fuel) t inside) (drop-line last crln)
        ∙ second
        ∙ process_loop-nil fuel _ in
      (
        ap (λ (t : Filter). t.sent) all,
        ap (λ (t : Filter). t.current_chunk_size) all,
        ap (λ (t : Filter). t.received_size) all ∙ omega (arith, length-line last crln),
      )

  with_first :
      (c : Chunk) (chunks : List Chunk) (f : Filter) (size total : ℕ) (result : Filter)
      → (after : Filter) → total ≡ length (chunk_text c) + size
      → result ≡ after
      → HasSent chunks size (passed c f (f.received_size + length (chunk_text c))) after
      → HasSent (c ∷ chunks) total f result
  unfolding HasSent
  with_first c chunks f size total result after long step (sent, current, received) = (
    ap (λ (t : Filter). t.sent) step
        ∙ sent
        ∙ append_assoc f.sent (processed c.bytes ∷ [])
            (map (λ (c : Chunk). processed c.bytes) chunks ++ finished [] ∷ []),
    ap (λ (t : Filter). t.current_chunk_size) step ∙ current,
    ap (λ (t : Filter). t.received_size) step ∙ received ∙ omega (arith, long),
  )

  body_passes :
      (chunks : List Chunk) (last : Bytes) (f : Filter) (fuel k : ℕ)
      → All IsChunk chunks
      → StartsChunk 0 last
      → f.current_chunk_size ≡ negsuc k
      → f.received_chunk_size ≡ 0
      → length (body_text chunks last) < 2 ^ 31
      → length (body_text chunks last) ≤ fuel
      → HasSent chunks
          (length (body_text chunks last))
          f
          (process_loop scan fuel (body_text chunks last) f)
  unfolding body_text
  body_passes [] last f zero k all starts e nothing total enough =
      absurd (omega (arith, length-line last crln))
  body_passes [] last f (suc zero) k all starts e nothing total enough =
      absurd (omega (arith, length-line last crln))
  body_passes [] last f (suc (suc fuel)) k all starts e nothing total enough =
      last_passes last f fuel k starts e
  body_passes (c ∷ chunks) last f zero k all starts e nothing total enough =
      absurd
        (omega (arith, length-chunk_text c, length-append (chunk_text c) (body_text chunks last)))
  body_passes (c ∷ chunks) last f (suc zero) k all starts e nothing total enough =
      absurd
        (omega (arith, length-chunk_text c, length-append (chunk_text c) (body_text chunks last)))
  body_passes (c ∷ chunks) last f (suc (suc fuel)) k (is_chunk, all) starts e nothing total enough =
      let long = length-append (chunk_text c) (body_text chunks last) in
      let after = passed c f (f.received_size + length (chunk_text c)) in
      let step =
        chunk_passes c (body_text chunks last) f fuel k is_chunk (omega (arith, long)) e nothing in
      let rest =
        body_passes chunks last after fuel 0 all starts refl refl (omega (arith, long))
          (omega (arith, long, length-chunk_text c)) in
      with_first c chunks f (length (body_text chunks last)) _ _ _ long step rest

  -- A body of chunks that are not empty, whose starts sscanf reads as their sizes, that comes in
  -- one piece, shorter than 2 ^ 31 bytes, to a filter that waits for a chunk, is sent on without
  -- the coding: the bytes of each chunk, in their order, and the end; the whole piece is taken.
  pub process-body :
      (chunks : List Chunk) (last : Bytes) (f : Filter) (k : ℕ)
      → All IsChunk chunks
      → StartsChunk 0 last
      → f.current_chunk_size ≡ negsuc k
      → f.received_chunk_size ≡ 0
      → length (body_text chunks last) < 2 ^ 31
      → HasSent chunks (length (body_text chunks last)) f (process scan (body_text chunks last) f)
  unfolding process
  process-body chunks last f k all starts e nothing total =
      body_passes chunks last f (length (body_text chunks last)) k all starts e nothing total
        (omega arith)
