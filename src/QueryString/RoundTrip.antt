-- ===== src/QueryString/RoundTrip.antt =====
-- Parameters that are assembled are parsed.
use xul.Prelude.{
  ℕ, zero, suc, ◌+◌, ◌≤◌, ◌<◌, ◌≡◌, refl, sym, ap, ◌∙◌, Bool, true, false, List, [], ◌∷◌, ◌++◌,
  append-nil, append_assoc, Bytes, All-append, length, length-append, take-length_append, ltb, ◌==◌,
  arith,
}
use xul.Strings.{split_loop, split, split_char}
use xul.Strings.Pairs.{NoChar, find-NoChar, find-nowhere, drop-behind, split_pair_char-NoChar}
use xul.StringTable.{Entry}
use xul.StringTable.Fresh.{Fresh, set-Fresh}
use xul.Streams.MemoryOutput.{text_of}
use xul.QueryString.{pair_text, assemble_more, assemble_query, enter_all, parse}

-- A key that is not empty and has no separator, and a value that has no separator between entries; a C string
-- keeps both.
unfoldable pub IsParam : Entry → Type 0
IsParam e =
    (0 < length e.key)
    × NoChar b'=' e.key
    × NoChar b'&' e.key
    × NoChar b'&' e.value
    × (text_of e.key ≡ e.key)
    × (text_of e.value ≡ e.value)

unfoldable pub AreParams : List Entry → Type 0
unfolding IsParam
AreParams [] = Unit
AreParams (e ∷ params) = IsParam e × AreParams params

unfoldable texts : List Entry → List Bytes
texts [] = []
texts (e ∷ params) = pair_text e ∷ texts params

pair_text-NoChar : (e : Entry) → IsParam e → NoChar b'&' (pair_text e)
unfolding IsParam
pair_text-NoChar e h =
    All-append (λ (x : ℕ). (b'&' == x) ≡ false) e.key (b'=' ∷ e.value) h.2 (refl, h.3)

-- A piece, and the last one.
split_loop-piece :
    (c fuel count : ℕ) (xs ys : Bytes)
    → NoChar c xs
    → split_loop (c ∷ []) 0 (suc fuel) count (xs ++ c ∷ ys)
      ≡ xs ∷ split_loop (c ∷ []) 0 fuel (count + 1) ys
unfolding split_loop
split_loop-piece c fuel count xs ys h =
    let there = find-NoChar c xs ys h in
    let front = take-length_append xs (c ∷ ys) in
    let behind = drop-behind c xs ys in rw (split_loop, there, front, behind) refl

split_loop-end :
    (c fuel count : ℕ) (xs : Bytes)
    → NoChar c xs
    → split_loop (c ∷ []) 0 (suc fuel) count xs ≡ xs ∷ []
unfolding split_loop
split_loop-end c fuel count xs h =
    let nowhere = find-nowhere c xs h in rw (split_loop, nowhere) refl

split_loop-texts :
    (e : Entry) (params : List Entry) (fuel count : ℕ)
    → IsParam e
    → AreParams params
    → length params < fuel
    → split_loop (b'&' ∷ []) 0 fuel count (pair_text e ++ assemble_more params)
      ≡ pair_text e ∷ texts params
unfolding assemble_more texts AreParams
split_loop-texts e params zero count he h f = absurd (omega arith)
split_loop-texts e [] (suc fuel) count he h f =
    ap (λ (t : Bytes). split_loop (b'&' ∷ []) 0 (suc fuel) count t) (append-nil (pair_text e))
    ∙ split_loop-end b'&' fuel count (pair_text e) (pair_text-NoChar e he)
split_loop-texts e (e' ∷ params) (suc fuel) count he (he', h) f =
    split_loop-piece b'&' fuel count (pair_text e) (pair_text e' ++ assemble_more params)
      (pair_text-NoChar e he)
    ∙ ap (λ (t : List Bytes). pair_text e ∷ t)
        (split_loop-texts e' params fuel (count + 1) he' h (omega arith))

split_loop-all :
    (e : Entry) (params : List Entry) (fuel count : ℕ)
    → AreParams (e ∷ params)
    → length params < fuel
    → split_loop (b'&' ∷ []) 0 fuel count (pair_text e ++ assemble_more params) ≡ texts (e ∷ params)
unfolding AreParams texts
split_loop-all e params fuel count h f = split_loop-texts e params fuel count h.0 h.1 f

same_count : (count : ℕ) → count ≡ count + 0
same_count count = omega arith

split_char-some :
    (src : Bytes) (c : ℕ)
    → 0 < length src
    → split_char src c 0 ≡ split_loop (c ∷ []) 0 (length src + 1) 0 src
unfolding split_char split
split_char-some [] c h = absurd (omega arith)
split_char-some (x ∷ src) c h = refl

length-assemble_more : (params : List Entry) → length params ≤ length (assemble_more params)
unfolding assemble_more
length-assemble_more [] = omega arith
length-assemble_more (e ∷ params) =
    omega (arith, length-assemble_more params, length-append (pair_text e) (assemble_more params))

module _ (compare : Bytes → Bytes → Bool) where
  enter_all-texts :
      (params before : List Entry) (count : ℕ)
      → AreParams params
      → Fresh compare before params
      → enter_all compare b'=' count (texts params) before
        ≡ (count + length params, before ++ params)
  unfolding enter_all texts AreParams Fresh IsParam
  enter_all-texts [] before count h fresh =
      ap (λ (t : List Entry). (count, t)) (sym (append-nil before))
      ∙ ap (λ (n : ℕ). (n, before ++ [])) (same_count count)
  enter_all-texts (e ∷ params) before count ((some_key, eq, _, _, key, val), h) (fe, fresh) =
      let parts = split_pair_char-NoChar b'=' e.key e.value eq in
      let named : ltb 0 (length e.key) ≡ true = ground arith in
      let entered = set-Fresh compare before e fe in
      let later = enter_all-texts params (before ++ (e ∷ [])) (suc count) h fresh in
      let order = append_assoc before (e ∷ []) params in
      let total : suc count + length params ≡ count + suc (length params) = omega arith in
      simp (parts, named, key, val, entered, later, order, total)

  -- A query that is assembled from parameters whose keys are new to each other, not empty and free
  -- of separators, and whose values are free of the separator between parameters, is parsed into
  -- an empty table as these parameters, in their order, and their number is the result; texts with
  -- a NUL in them are left out.
  pub parse-assemble_query :
      (params : List Entry)
      → AreParams params
      → Fresh compare [] params
      → parse compare [] (assemble_query params) b'&' b'=' ≡ (length params, params)
  unfolding parse assemble_query split_char enter_all
  parse-assemble_query [] h fresh = refl
  parse-assemble_query (e ∷ params) h fresh =
      let src = pair_text e ++ assemble_more params in
      let long = length-append (pair_text e) (assemble_more params) in
      let pair = length-append e.key (b'=' ∷ e.value) in
      let more = length-assemble_more params in
      let cut =
        split_char-some src b'&' (omega (arith, long, pair))
        ∙ split_loop-all e params (length src + 1) 0 h (omega (arith, long, more)) in
      ap (λ (t : List Bytes). enter_all compare b'=' 0 t []) cut
      ∙ enter_all-texts (e ∷ params) [] 0 h fresh
      ∙ ap (λ (n : ℕ). (n, e ∷ params)) (omega arith)
