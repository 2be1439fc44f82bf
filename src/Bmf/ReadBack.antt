-- ===== src/Bmf/ReadBack.antt =====
-- The parts of a value read from where they stand.
use xul.Prelude.{
  ℕ, ◌+◌, ◌%◌, ◌^◌, ◌≤◌, ◌<◌, ◌≡◌, refl, ap, sym, ◌∙◌, true, false, some, [], ◌∷◌, ◌++◌,
  append_assoc, Bytes, length, length-append, length-drop, drop, drop-drop, drop-length_append, ltb,
  leb, arith,
}
use xul.Prelude.Int.{ℤ, pos}
use xul.Bmf.{decode, as_byte}
use xul.Bmf.Values.{
  Value, Fields, end, field, Tag, code, integer_tag, double_tag, string_tag, list_tag, dict_tag,
  end_tag, insert, less, returned, tag_of, next_tag, max_string, try_read_string,
}
use xul.Bmf.RoundTrip.{IsInt64, decode-ReadsAs}
use xul.Bmf.Stored.{integer_bytes, integer_bytes-ReadsAs, pos_small}
use xul.Streams.MemoryInput.{Input, is_available, read_n}
use xul.Streams.Reading.{memory_read_byte, memory_read_n}

-- The bytes stand at the position of the stream, with `rest` behind them.
unfoldable pub Stands : Bytes → Bytes → Input → Type 0
Stands bytes rest is =
    (is.position ≤ length is.buffer) × (drop is.position is.buffer ≡ bytes ++ rest)

unfoldable pub forward : ℕ → Input → Input
forward n is = record { buffer = is.buffer; position = is.position + n }

length-Stands :
    (bytes rest : Bytes) (is : Input)
    → Stands bytes rest is
    → is.position + length bytes + length rest ≡ length is.buffer
unfolding Stands
length-Stands bytes rest is (low, e) =
    let long = ap (λ (t : Bytes). length t) e in
    omega (arith, low, long, length-drop is.position is.buffer, length-append bytes rest)

pub forward-Stands :
    (xs ys rest : Bytes) (is : Input)
    → Stands (xs ++ ys) rest is
    → Stands ys rest (forward (length xs) is)
unfolding Stands forward
forward-Stands xs ys rest is h =
    let fits = length-Stands (xs ++ ys) rest is h in
    (
      omega (arith, fits, length-append xs ys),
      sym (drop-drop is.position (length xs) is.buffer)
          ∙ ap (λ (t : Bytes). drop (length xs) t) (h.1 ∙ append_assoc xs ys rest)
          ∙ drop-length_append xs (ys ++ rest),
    )

pub front-Stands :
    (xs ys rest : Bytes) (is : Input) → Stands (xs ++ ys) rest is → Stands xs (ys ++ rest) is
unfolding Stands
front-Stands xs ys rest is (low, e) = (low, e ∙ append_assoc xs ys rest)

abbrev input_of : Bytes → ℕ → Input
input_of buffer p = record { buffer = buffer; position = p }

pub forward-forward : (m n : ℕ) (is : Input) → forward n (forward m is) ≡ forward (m + n) is
unfolding forward
forward-forward m n is = ap (input_of is.buffer) (omega arith)

module _ (rest : Bytes) (is : Input) where
  pub next_tag-Stands :
      (n : ℕ) → n < 256 → Stands (n ∷ []) rest is → next_tag is ≡ some (n, forward 1 is)
  unfolding next_tag is_available Stands forward as_byte
  next_tag-Stands n small h =
      let fits = length-Stands (n ∷ []) rest is h in
      let byte = memory_read_byte n rest is (omega (arith, fits)) h.1 in
      let enough : leb (is.position + 1) (length is.buffer) ≡ true = ground (arith, fits) in
      let whole : n % 2 ^ 8 ≡ n = omega arith in simp (enough, byte, whole)

  pub decode-Stands :
      (n : ℤ)
      → IsInt64 n
      → Stands (integer_bytes n) rest is
      → decode is ≡ (some n, forward (length (integer_bytes n)) is)
  unfolding Stands forward
  decode-Stands n small h =
      decode-ReadsAs n (integer_bytes n) rest is small (integer_bytes-ReadsAs n small).1 h.1

  read_n-Stands :
      (s : Bytes) → Stands s rest is → read_n (length s) is ≡ (some s, forward (length s) is)
  unfolding Stands forward
  read_n-Stands s h = memory_read_n s rest is (omega (arith, length-Stands s rest is h)) h.1

pub try_read_string-Stands :
    (s rest : Bytes) (is : Input)
    → length s ≤ max_string
    → Stands (integer_bytes (pos (length s)) ++ s) rest is
    → try_read_string is
      ≡ returned (some s) (forward (length (integer_bytes (pos (length s)) ++ s)) is)
unfolding try_read_string
try_read_string-Stands s rest is small h =
    let size = integer_bytes (pos (length s)) in
    let number =
      decode-Stands (s ++ rest) is (pos (length s)) (pos_small s small)
        (front-Stands size s rest is h) in
    let short : ltb max_string (length s) ≡ false = ground arith in
    let chars = read_n-Stands rest (forward (length size) is) s (forward-Stands size s rest is h) in
    let both = forward-forward (length size) (length s) is in
    let total = sym (length-append size s) in
    simp (try_read_string, number, short, chars, both, total)

tag_of-code : (t : Tag) → tag_of (code t) ≡ some t
unfolding tag_of code
tag_of-code integer_tag = refl
tag_of-code double_tag = refl
tag_of-code string_tag = refl
tag_of-code list_tag = refl
tag_of-code dict_tag = refl
tag_of-code end_tag = refl

pub code-small : (t : Tag) → code t < 256
unfolding code
code-small integer_tag = omega arith
code-small double_tag = omega arith
code-small string_tag = omega arith
code-small list_tag = omega arith
code-small dict_tag = omega arith
code-small end_tag = omega arith

-- The entries in front of others.
unfoldable pub joined_fields : Fields → Fields → Fields
joined_fields end others = others
joined_fields (field k v fields) others = field k v (joined_fields fields others)

-- Every key of the entries comes before this one.
unfoldable pub Below : Fields → Bytes → Type 0
Below end key = Unit
Below (field k v fields) key = (less k key ≡ true) × (less key k ≡ false) × Below fields key

pub insert-last :
    (key : Bytes) (val : Value) (before rest : Fields)
    → Below before key
    → joined_fields (insert key val before) rest ≡ joined_fields before (field key val rest)
unfolding insert joined_fields Below
insert-last key val end rest h = refl
insert-last key val (field k v before) rest (h1, h2, h) =
    let later = insert-last key val before rest h in simp (h2, h1, later)

pub insert-Below :
    (key k : Bytes) (val : Value) (before : Fields)
    → Below before k
    → Below before key
    → less key k ≡ true
    → less k key ≡ false
    → Below (insert key val before) k
unfolding insert Below
insert-Below key k val end b h e1 e2 = (e1, e2, tt)
insert-Below key k val (field k' v before) (b1, b2, b) (h1, h2, h) e1 e2 =
    rw (h2, h1) (b1, b2, insert-Below key k val before b h e1 e2)
