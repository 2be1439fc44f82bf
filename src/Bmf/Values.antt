-- ===== src/Bmf/Values.antt =====
-- include/xul/io/bmf_format.hpp, bmf_writer.hpp and bmf_reader.hpp: values with a tag in front, over
-- the memory streams. A boost::any is one of the values that the reader makes, `empty` the one that
-- holds nothing, and a std::map a list of entries in the order of its keys.
use xul.Prelude.{
  ℕ, zero, suc, ◌+◌, ◌*◌, Bool, true, false, Option, none, some, [], ◌∷◌, Bytes, length, ltb, ◌==◌,
  ◌>>=◌, if◌then◌else◌,
}
use xul.Prelude.Int.{ℤ, pos, negsuc}
use xul.Bmf.{encode, decode, as_byte}
use xul.Streams.MemoryInput.{Input, available, is_available, read_byte, read_n}
use xul.Streams.MemoryOutput.{Output, write_byte, write_bytes}

-- bmf_format.
pub data Tag : Type 0 where
  integer_tag double_tag string_tag list_tag dict_tag end_tag : Tag

unfoldable pub code : Tag → ℕ
code integer_tag = 1
code double_tag = 4
code string_tag = 7
code list_tag = 10
code dict_tag = 13
code end_tag = 17

-- bmf_writer.
unfoldable pub write_integer : ℤ → Output → Option Output
write_integer val os = write_byte (code integer_tag) os >>= λ os'. encode val os'

unfoldable pub start_bytes : ℕ → Output → Option Output
start_bytes size os = write_byte (code string_tag) os >>= λ os'. encode (pos size) os'

-- `write_string`, `write_key`, and `write_bytes` with `append_bytes`.
unfoldable pub write_string : Bytes → Output → Option Output
write_string val os = start_bytes (length val) os >>= λ os'. write_bytes val os'

unfoldable pub write_key : Bytes → Output → Option Output
write_key val os = write_string val os

unfoldable pub write_integer_element : Bytes → ℤ → Output → Option Output
write_integer_element key val os = write_key key os >>= λ os'. write_integer val os'

unfoldable pub write_string_element : Bytes → Bytes → Output → Option Output
write_string_element key val os = write_key key os >>= λ os'. write_string val os'

unfoldable pub start_list : Output → Option Output
start_list os = write_byte (code list_tag) os

unfoldable pub end_list : Output → Option Output
end_list os = write_byte (code end_tag) os

unfoldable pub start_dict : Output → Option Output
start_dict os = write_byte (code dict_tag) os

unfoldable pub end_dict : Output → Option Output
end_dict os = write_byte (code end_tag) os

-- What a boost::any holds here, with list_type and dict_type.
mutual
  pub data Value : Type 0 where
    empty : Value
    integer : ℤ → Value
    text : Bytes → Value
    list : Items → Value
    dict : Fields → Value

  pub data Items : Type 0 where
    nil : Items
    cons : Value → Items → Items

  pub data Fields : Type 0 where
    end : Fields
    field : Bytes → Value → Fields → Fields

unfoldable pub push_back : Items → Value → Items
push_back nil item = cons item nil
push_back (cons x items) item = cons x (push_back items item)

-- The order of the keys of the map: byte by byte, a prefix first.
unfoldable pub less : Bytes → Bytes → Bool
less [] [] = false
less [] (d ∷ other) = true
less (c ∷ key) [] = false
less (c ∷ key) (d ∷ other) = let rest = less key other in if c == d then rest else ltb c d

-- `insert` of the map: an entry under a key that is there already changes nothing.
unfoldable pub insert : Bytes → Value → Fields → Fields
insert key val end = field key val end
insert key val (field k v fs) =
    let rest = insert key val fs in
    if less key k
    then field key val (field k v fs)
    else if less k key
    then field k v rest
    else field k v fs

-- A call of the reader: it returns with the stream behind what it has read, the resize of a string
-- to a negative length throws, or the rounds that the model allows were used up.
pub data Outcome {ℓ} (A : Type ℓ) : Type ℓ where
  returned : A → Input → Outcome A
  thrown unfinished : Outcome A

infixl 5 ◌then◌
abbrev pub ◌then◌ {ℓ κ} :
    {A : Type ℓ} {B : Type κ} → Outcome A → (A → Input → Outcome B) → Outcome B
returned a is then f = f a is
thrown then f = thrown
unfinished then f = unfinished

unfoldable pub max_string : ℕ
max_string = 128 * 1024

-- `none` is a failure of the call.
unfoldable pub try_read_string : Input → Outcome (Option Bytes)
try_read_string is =
    let (val, after) = decode is in
    elim val [
      | none ↦ returned none after
      | some (negsuc n) ↦ thrown
      | some (pos n) ↦
          if ltb max_string n
          then returned none after
          else returned (read_n n after).0 (read_n n after).1
    ]

unfoldable pub read_integer : Input → Outcome Value
read_integer is =
    let (val, after) = decode is in
    elim val [ none ↦ returned empty after | some n ↦ returned (integer n) after ]

unfoldable pub read_string : Input → Outcome Value
read_string is = try_read_string is then λ s after. elim s [
  | none ↦ returned empty after
  | some chars ↦ returned (text chars) after
]

-- The tag that a byte is.
unfoldable pub tag_of : ℕ → Option Tag
tag_of n =
    if n == code integer_tag
    then some integer_tag
    else if n == code double_tag
    then some double_tag
    else if n == code string_tag
    then some string_tag
    else if n == code list_tag
    then some list_tag
    else if n == code dict_tag
    then some dict_tag
    else if n == code end_tag
    then some end_tag
    else none

-- The byte at the position as a tag, where there is one, and the stream behind it.
unfoldable pub next_tag : Input → Option (ℕ × Input)
next_tag is =
    let (ch, after) = read_byte is in
    if is_available (pos 1) is then some (as_byte ch, after) else none

-- One unit of fuel for each call and for each round of a loop.
unfoldable mutual
  pub read_item : ℕ → ℕ → Input → Outcome Value
  read_item zero tag is = unfinished
  read_item (suc fuel) tag is = elim (tag_of tag) [
    | some integer_tag ↦ read_integer is
    | some string_tag ↦ read_string is
    | some list_tag ↦ read_list fuel nil is
    | some dict_tag ↦ read_dict fuel end is
    | _ ↦ returned empty is
  ]

  pub read_list : ℕ → Items → Input → Outcome Value
  read_list zero items is = unfinished
  read_list (suc fuel) items is = elim (next_tag is) [
    | none ↦ returned empty is
    | some (tag, after) ↦ elim (tag == code end_tag) [
      | true ↦ returned (list items) after
      | false ↦
          read_item fuel tag after then λ item last. read_list fuel (push_back items item) last
    ]
  ]

  pub read_dict : ℕ → Fields → Input → Outcome Value
  read_dict zero items is = unfinished
  read_dict (suc fuel) items is = elim (next_tag is) [
    | none ↦ returned empty is
    | some (tag, after) ↦ elim (tag == code end_tag) [
      | true ↦ returned (dict items) after
      | false ↦ elim (tag == code string_tag) [
        | false ↦ returned empty after
        | true ↦ try_read_string after then λ key behind. elim key [
          | none ↦ returned empty behind
          | some k ↦
              read_value fuel behind then λ val last. read_dict fuel (insert k val items) last
        ]
      ]
    ]
  ]

  -- `read`.
  pub read_value : ℕ → Input → Outcome Value
  read_value zero is = unfinished
  read_value (suc fuel) is = elim (next_tag is) [
    | none ↦ returned empty is
    | some (tag, after) ↦ read_item fuel tag after
  ]

-- Two rounds for each byte that is left are enough.
unfoldable pub read : Input → Outcome Value
read is = read_value (2 * available is + 2) is
