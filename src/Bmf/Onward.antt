-- ===== src/Bmf/Onward.antt =====
-- The calls of bmf_reader that do not nest: they end, and do not go back.
use xul.Prelude.{
  ℕ, ◌+◌, ◌-◌, ◌≤◌, ◌≡◌, refl, ap, ◌∙◌, Bool, true, false, Option, none, some, Bytes, length, ltb,
  if◌then◌else◌, bit_and, not, arith,
}
use xul.Prelude.Int.{ℤ, pos, negsuc}
use xul.Bmf.{decode, decoded, joined, as_byte, find_pos, limit_at}
use xul.Bmf.Values.{
  Value, empty, integer, text, nil, end, Tag, integer_tag, double_tag, string_tag, list_tag,
  dict_tag, end_tag, Outcome, returned, thrown, unfinished, ◌then◌, next_tag, max_string,
  try_read_string, read_integer, read_string, read_list, read_dict,
}
use xul.Streams.MemoryInput.{Input, available, is_available, read_byte, read_n}
use xul.Streams.MemoryInput as memory

-- The stream has not gone back, and its bytes are the same.
unfoldable pub Onward : Input → Input → Type 0
Onward is after = (after.buffer ≡ is.buffer) × (is.position ≤ after.position)

pub Onward-trans : (a b c : Input) → Onward a b → Onward b c → Onward a c
unfolding Onward
Onward-trans a b c (e, l) (f, m) = (f ∙ e, omega arith)

-- The call came to an end.
unfoldable pub Ends : {A : Type 0} → Input → Outcome A → Type 0
Ends is (returned a after) = Onward is after
Ends is thrown = Unit
Ends is unfinished = false ≡ true

pub Ends-later :
    {A : Type 0} (is mid : Input) (o : Outcome A) → Onward is mid → Ends mid o → Ends is o
unfolding Ends
Ends-later is mid (returned a after) h e = Onward-trans is mid after h e
Ends-later is mid thrown h e = tt
Ends-later is mid unfinished h e = e

pub Ends-then :
    {A B : Type 0} (is : Input) (o : Outcome A) (f : A → Input → Outcome B)
    → Ends is o
    → ((a : A) (after : Input) → Onward is after → Ends after (f a after))
    → Ends is (o then f)
unfolding Ends
Ends-then is (returned a after) f e k = Ends-later is after (f a after) e (k a after e)
Ends-then is thrown f e k = tt
Ends-then is unfinished f e k = e

read_byte-Onward : (is : Input) → Onward is (read_byte is).1
unfolding Onward read_byte is_available
read_byte-Onward is = ground arith

read_n-Onward : (n : ℕ) (is : Input) → Onward is (read_n n is).1
unfolding Onward read_n memory.read is_available
read_n-Onward n is = ground arith

if_holds : {A : Type 0} (P : A → Type 0) (b : Bool) (x y : A) → P x → P y → P (if b then x else y)
if_holds P true x y hx hy = hx
if_holds P false x y hx hy = hy

pub Onward-refl : (is : Input) → Onward is is
unfolding Onward
Onward-refl is = (refl, omega arith)

number_read :
    (is after : Input) (buf : Option Bytes) (f : Bytes → ℤ)
    → Onward is after
    → Onward is
        (elim buf as (λ _. Option ℤ × Input) [
          | none ↦ (none, after)
          | some bytes ↦ (some (f bytes), after)
        ]).1
number_read is after none f h = h
number_read is after (some bytes) f h = h

decode-Onward : (is : Input) → Onward is (decode is).1
unfolding decode
decode-Onward is =
    let first = as_byte (read_byte is).0 in
    let p = find_pos 8 0 (bit_and first 0x7F) in
    let result = bit_and (bit_and first 0x7F) (limit_at p) in
    let once = read_byte-Onward is in
    let buf = read_n p (read_byte is).1 in
    if_holds (λ (t : Option ℤ × Input). Onward is t.1) (not (is_available (pos 1) is)) (none, is) _
      (Onward-refl is)
      (if_holds (λ (t : Option ℤ × Input). Onward is t.1) (ltb 0 p) _ _
        (number_read is buf.1 buf.0 (λ bytes. decoded first (joined result bytes))
          (Onward-trans is (read_byte is).1 buf.1 once (read_n-Onward p (read_byte is).1)))
        once)

string_read :
    (is after : Input) (val : Option ℤ)
    → Onward is after
    → Ends is (elim val as (λ _. Outcome (Option Bytes)) [
      | none ↦ returned none after
      | some (negsuc n) ↦ thrown
      | some (pos n) ↦
          if ltb max_string n
          then returned none after
          else returned (read_n n after).0 (read_n n after).1
    ])
unfolding Ends
string_read is after none h = h
string_read is after (some (negsuc n)) h = tt
string_read is after (some (pos n)) h =
    if_holds (Ends is) (ltb max_string n) (returned none after)
      (returned (read_n n after).0 (read_n n after).1) h
      (Onward-trans is after (read_n n after).1 h (read_n-Onward n after))

pub try_read_string-Ends : (is : Input) → Ends is (try_read_string is)
unfolding try_read_string
try_read_string-Ends is = string_read is (decode is).1 (decode is).0 (decode-Onward is)

chars_read :
    (s : Option Bytes) (after : Input)
    → Ends after (elim s as (λ _. Outcome Value) [
      | none ↦ returned empty after
      | some chars ↦ returned (text chars) after
    ])
unfolding Ends
chars_read none after = Onward-refl after
chars_read (some chars) after = Onward-refl after

read_string-Ends : (is : Input) → Ends is (read_string is)
unfolding read_string
read_string-Ends is =
    Ends-then is (try_read_string is) _ (try_read_string-Ends is) (λ s after h. chars_read s after)

integer_read :
    (is after : Input) (val : Option ℤ)
    → Onward is after
    → Ends is (elim val as (λ _. Outcome Value) [
      | none ↦ returned empty after
      | some n ↦ returned (integer n) after
    ])
unfolding Ends
integer_read is after none h = h
integer_read is after (some n) h = h

read_integer-Ends : (is : Input) → Ends is (read_integer is)
unfolding read_integer
read_integer-Ends is = integer_read is (decode is).1 (decode is).0 (decode-Onward is)

unfoldable pub room : Input → ℕ
room is = length is.buffer - is.position

pub Onward-room : (is after : Input) → Onward is after → room after ≤ room is
unfolding Onward room
Onward-room is after (e, l) = omega (arith, ap (λ (t : Bytes). length t) e)

pub next_tag-room :
    (is after : Input) (tag : ℕ)
    → next_tag is ≡ some (tag, after)
    → Onward is after × (room after + 1 ≤ room is)
unfolding next_tag Onward room read_byte is_available
next_tag-room is after tag e = ground (arith, e)

pub kinds :
    (o : Option Tag) (fuel : ℕ) (is : Input)
    → Ends is (read_list fuel nil is)
    → Ends is (read_dict fuel end is)
    → Ends is (elim o as (λ _. Outcome Value) [
      | some integer_tag ↦ read_integer is
      | some string_tag ↦ read_string is
      | some list_tag ↦ read_list fuel nil is
      | some dict_tag ↦ read_dict fuel end is
      | _ ↦ returned empty is
    ])
unfolding Ends
kinds none fuel is hl hd = Onward-refl is
kinds (some integer_tag) fuel is hl hd = read_integer-Ends is
kinds (some double_tag) fuel is hl hd = Onward-refl is
kinds (some string_tag) fuel is hl hd = read_string-Ends is
kinds (some list_tag) fuel is hl hd = hl
kinds (some dict_tag) fuel is hl hd = hd
kinds (some end_tag) fuel is hl hd = Onward-refl is
