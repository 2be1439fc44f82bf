-- ===== src/Tokenizer/Stuck.antt =====
-- What next_token does after a token that was handed out without its delimiter.
use xul.Prelude.{
  suc, ◌+◌, ◌<◌, ◌≡◌, refl, sym, ap, ◌∙◌, Bool, false, ◌||◌, Option, some, [], ◌∷◌, Bytes, length,
  length-drop, take, drop, drop-drop, leb, ◌==◌, inl, inr, Bool-cases, if◌then◌else◌, arith,
}
use xul.Prelude.Search.{search, starts_with, search-le_length}
use xul.Tokenizer.{Tokenizer, remains, next_token}

-- Where the first occurrence is, the text from there on begins with it.
search-drop :
    (bytes pattern : Bytes)
    → search bytes pattern < length bytes
    → search (drop (search bytes pattern) bytes) pattern ≡ 0
unfolding search
search-drop [] pattern h = elim h [ ]
search-drop (c ∷ bytes) pattern h = elim (Bool-cases (starts_with pattern (c ∷ bytes))) [
  | inl here ↦ rw (here, here) refl
  | inr later ↦ let rest = search-drop bytes pattern (omega (arith, below later h)) in rw later rest
]
  where
    below :
        starts_with pattern (c ∷ bytes) ≡ false
        → (if starts_with pattern (c ∷ bytes) then 0 else suc (search bytes pattern))
          < suc (length bytes)
        → suc (search bytes pattern) < suc (length bytes)
    below e h = rw e at h

-- The outcomes of next_token without the delimiter.
stuck_at :
    (t : Tokenizer)
    → t.include_delimiter ≡ false
    → t.offset < length t.text
    → search (remains t) t.delimiter ≡ 0
    → 0 < length (remains t)
    → next_token t ≡ (some [], t)
unfolding next_token remains
stuck_at t e low here some_bytes =
    let more : ((length t.text == 0) || leb (length t.text) t.offset) ≡ false = ground arith in
    let found : (0 == length (drop t.offset t.text)) ≡ false = ground arith in
    let still : t.offset + 0 ≡ t.offset = omega arith in
    let size : (if t.include_delimiter then 0 + length t.delimiter else 0) ≡ 0 =
      ap (λ (b : Bool). if b then 0 + length t.delimiter else 0) e in
    simp (more, here, found, size, still)

after_token :
    (t : Tokenizer)
    → t.include_delimiter ≡ false
    → t.offset < length t.text
    → search (remains t) t.delimiter < length (remains t)
    → next_token (record t { offset = t.offset + search (remains t) t.delimiter })
      ≡ (some [], record t { offset = t.offset + search (remains t) t.delimiter })
unfolding remains
after_token t e low found =
    let n = search (drop t.offset t.text) t.delimiter in
    let rest = drop-drop t.offset n t.text in
    let long = length-drop t.offset t.text in
    let short = length-drop (t.offset + n) t.text in
    stuck_at (record t { offset = t.offset + n }) e (omega (arith, long, found))
      (ap (λ (r : Bytes). search r t.delimiter) (sym rest)
        ∙ search-drop (drop t.offset t.text) t.delimiter found)
      (omega (arith, long, short, found))

found_token :
    (t : Tokenizer)
    → t.include_delimiter ≡ false
    → ((length t.text == 0) || leb (length t.text) t.offset) ≡ false
    → (search (remains t) t.delimiter == length (remains t)) ≡ false
    → next_token t ≡ (
      some (take (search (remains t) t.delimiter) (remains t)),
      record t { offset = t.offset + search (remains t) t.delimiter },
    )
unfolding next_token remains
found_token t e more found =
    let n = search (drop t.offset t.text) t.delimiter in
    let size : (if t.include_delimiter then n + length t.delimiter else n) ≡ n =
      ap (λ (b : Bool). if b then n + length t.delimiter else n) e in
    simp (more, found, size)

-- Where tokens are handed out without their delimiter, the delimiter is never passed: after a
-- token, next_token hands out the empty token and changes nothing, and so at every call from then
-- on.
pub next_token-stuck :
    (t : Tokenizer) (token : Bytes)
    → t.include_delimiter ≡ false
    → (next_token t).0 ≡ some token
    → next_token (next_token t).1 ≡ (some [], (next_token t).1)
unfolding next_token remains
next_token-stuck t token e h =
    elim (Bool-cases ((length t.text == 0) || leb (length t.text) t.offset)) [
      | inl over ↦ absurd (ground (arith, rw over at h))
      | inr more ↦
          elim (Bool-cases
            (search (drop t.offset t.text) t.delimiter == length (drop t.offset t.text))) [
              | inl nothing ↦ absurd (ground (arith, rw (more, nothing) at h))
              | inr found ↦
                  let low : t.offset < length t.text = ground (arith, more) in
                  let within : search (drop t.offset t.text) t.delimiter
                      < length (drop t.offset t.text) =
                    ground (arith, found, search-le_length (drop t.offset t.text) t.delimiter) in
                  let first = found_token t e more found in
                  ap (λ (r : Option Bytes × Tokenizer). next_token r.1) first
                  ∙ after_token t e low within
                  ∙ ap (λ (r : Option Bytes × Tokenizer). (some [], r.1)) (sym first)
            ]
    ]
