-- ===== src/Bmf/Stored.antt =====
-- The bytes of a value, and a caller of bmf_writer that writes a whole value.
use xul.Prelude.{
  ℕ, ◌+◌, ◌≤◌, ◌≡◌, refl, ap, true, false, Option, none, some, [], ◌∷◌, ◌++◌, Bytes, length,
  length-append, ◌>>=◌, arith,
}
use xul.Prelude.Int.{ℤ, pos}
use xul.Bmf.{encode, encode_loop, magnitude, sign_flag}
use xul.Bmf.Values.{
  Value, Items, Fields, empty, integer, text, list, dict, nil, cons, end, field, code, integer_tag,
  string_tag, list_tag, dict_tag, end_tag, write_integer, start_bytes, write_string, write_key,
  start_list, end_list, start_dict, end_dict, less, max_string,
}
use xul.Bmf.RoundTrip.{IsInt64, ReadsAs, magnitude-small, sign_flag-IsSign, encode_loop-ReadsAs}
use xul.Streams.MemoryOutput.{Output, write_byte, write_bytes}
use xul.Streams.Writing.{wrote, wrote-append, write_byte-fits, write_bytes-fits, length-wrote}

abbrev or_nothing : Option Bytes → Bytes
or_nothing none = []
or_nothing (some bytes) = bytes

unfoldable pub integer_bytes : ℤ → Bytes
integer_bytes n = or_nothing (encode_loop 9 0 (sign_flag n) (magnitude n) [])

unfoldable pub string_bytes : Bytes → Bytes
string_bytes s = code string_tag ∷ (integer_bytes (pos (length s)) ++ s)

unfoldable mutual
  pub item_bytes : Value → Bytes
  item_bytes empty = []
  item_bytes (integer n) = code integer_tag ∷ integer_bytes n
  item_bytes (text s) = string_bytes s
  item_bytes (list items) = code list_tag ∷ items_bytes items
  item_bytes (dict fields) = code dict_tag ∷ fields_bytes fields

  pub items_bytes : Items → Bytes
  items_bytes nil = code end_tag ∷ []
  items_bytes (cons x items) = item_bytes x ++ items_bytes items

  pub fields_bytes : Fields → Bytes
  fields_bytes end = code end_tag ∷ []
  fields_bytes (field key val fields) = string_bytes key ++ (item_bytes val ++ fields_bytes fields)

-- The calls for a value: those of its parts between the calls that start and end it.
unfoldable mutual
  pub write_item : Value → Output → Option Output
  write_item empty os = some os
  write_item (integer n) os = write_integer n os
  write_item (text s) os = write_string s os
  write_item (list items) os = start_list os >>= λ os'. write_items items os'
  write_item (dict fields) os = start_dict os >>= λ os'. write_fields fields os'

  pub write_items : Items → Output → Option Output
  write_items nil os = end_list os
  write_items (cons x items) os = write_item x os >>= λ os'. write_items items os'

  pub write_fields : Fields → Output → Option Output
  write_fields end os = end_dict os
  write_fields (field key val fields) os =
      write_key key os >>= λ os1. write_item val os1 >>= λ os2. write_fields fields os2

-- The key comes after every key of the entries.
unfoldable pub Above : Bytes → Fields → Type 0
Above key end = Unit
Above key (field k v fields) = (less key k ≡ true) × (less k key ≡ false) × Above key fields

-- Strings that the reader takes, integers of 64 bits, and entries with their keys in order.
unfoldable mutual
  pub Storable : Value → Type 0
  Storable empty = false ≡ true
  Storable (integer n) = IsInt64 n
  Storable (text s) = length s ≤ max_string
  Storable (list items) = AllStorable items
  Storable (dict fields) = Ordered fields

  pub AllStorable : Items → Type 0
  AllStorable nil = Unit
  AllStorable (cons x items) = Storable x × AllStorable items

  pub Ordered : Fields → Type 0
  Ordered end = Unit
  Ordered (field key val fields) =
      (length key ≤ max_string) × Storable val × Above key fields × Ordered fields

-- A call that writes these bytes wherever they fit.
abbrev pub Writes : (Output → Option Output) → Bytes → Type 0
Writes write bytes =
    (os : Output) → os.position + length bytes ≤ length os.buffer → write os ≡ some (wrote bytes os)

Writes-append :
    (f g : Output → Option Output) (xs ys : Bytes)
    → Writes f xs
    → Writes g ys
    → Writes (λ os. f os >>= g) (xs ++ ys)
unfolding wrote
Writes-append f g xs ys hf hg os h =
    let long = length-append xs ys in
    let first = hf os (omega (arith, long)) in
    let same = length-wrote xs os (omega (arith, long)) in
    let second = hg (wrote xs os) (omega (arith, same, long)) in
    rw (first, second) (ap (λ (o : Output). some o) (wrote-append xs ys os (omega (arith, long))))

Writes-byte : (n : ℕ) → Writes (write_byte n) (n ∷ [])
Writes-byte n os h = write_byte-fits n os h

pub integer_bytes-ReadsAs :
    (n : ℤ)
    → IsInt64 n
    → (encode_loop 9 0 (sign_flag n) (magnitude n) [] ≡ some (integer_bytes n))
      × ReadsAs (sign_flag n) (magnitude n) (integer_bytes n)
unfolding integer_bytes xul.Bmf.joined
integer_bytes-ReadsAs n h =
    let small = magnitude-small n h in
    let (bytes, e, r) =
      encode_loop-ReadsAs 8 0 (sign_flag n) (magnitude n) [] (sign_flag-IsSign n) refl refl small
        (omega (arith, small)) in
    (rw e refl, rw e r)

Writes-integer : (n : ℤ) → IsInt64 n → Writes (encode n) (integer_bytes n)
unfolding encode
Writes-integer n h os fits =
    rw (encode, (integer_bytes-ReadsAs n h).0) (write_bytes-fits (integer_bytes n) os fits)

pub pos_small : (s : Bytes) → length s ≤ max_string → IsInt64 (pos (length s))
unfolding IsInt64 max_string
pos_small s h = omega arith

Writes-string : (s : Bytes) → length s ≤ max_string → Writes (write_string s) (string_bytes s)
unfolding write_string start_bytes string_bytes
Writes-string s h =
    let size : IsInt64 (pos (length s)) = pos_small s h in
    let start =
      Writes-append (write_byte (code string_tag)) (encode (pos (length s))) (code string_tag ∷ [])
        (integer_bytes (pos (length s))) (Writes-byte (code string_tag))
        (Writes-integer (pos (length s)) size) in
    Writes-append (start_bytes (length s)) (write_bytes s)
      (code string_tag ∷ integer_bytes (pos (length s))) s start (write_bytes-fits s)

mutual
  unfolding item_bytes write_item Storable write_integer start_list end_list start_dict end_dict
      write_key

  -- A value that can be stored is written wherever its bytes fit.
  pub Writes-item : (v : Value) → Storable v → Writes (write_item v) (item_bytes v)
  Writes-item empty h = absurd (ground (arith, h))
  Writes-item (integer n) h =
      Writes-append (write_byte (code integer_tag)) (encode n) (code integer_tag ∷ [])
        (integer_bytes n) (Writes-byte (code integer_tag)) (Writes-integer n h)
  Writes-item (text s) h = Writes-string s h
  Writes-item (list items) h =
      Writes-append start_list (write_items items) (code list_tag ∷ []) (items_bytes items)
        (Writes-byte (code list_tag)) (Writes-items items h)
  Writes-item (dict fields) h =
      Writes-append start_dict (write_fields fields) (code dict_tag ∷ []) (fields_bytes fields)
        (Writes-byte (code dict_tag)) (Writes-fields fields h)

  Writes-items :
      (items : Items) → AllStorable items → Writes (write_items items) (items_bytes items)
  Writes-items nil h = Writes-byte (code end_tag)
  Writes-items (cons x items) (hx, h) =
      Writes-append (write_item x) (write_items items) (item_bytes x) (items_bytes items)
        (Writes-item x hx) (Writes-items items h)

  Writes-fields :
      (fields : Fields) → Ordered fields → Writes (write_fields fields) (fields_bytes fields)
  Writes-fields end h = Writes-byte (code end_tag)
  Writes-fields (field key val fields) (hk, hv, above, h) =
      Writes-append (write_key key) (λ os. write_item val os >>= write_fields fields)
        (string_bytes key) (item_bytes val ++ fields_bytes fields) (Writes-string key hk)
        (Writes-append (write_item val) (write_fields fields) (item_bytes val) (fields_bytes fields)
          (Writes-item val hv) (Writes-fields fields h))
