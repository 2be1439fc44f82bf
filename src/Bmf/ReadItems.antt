-- ===== src/Bmf/ReadItems.antt =====
-- The rounds of bmf_reader over the bytes of a value.
use xul.Prelude.{
  ℕ, zero, suc, ◌+◌, ◌*◌, ◌≤◌, ◌≡◌, refl, ap, ◌∙◌, false, some, [], ◌∷◌, ◌++◌, Bytes, length,
  length-append, ◌==◌, arith,
}
use xul.Prelude.Int.{pos}
use xul.Bmf.Values.{
  Value, Items, Fields, empty, integer, text, list, dict, nil, cons, end, field, Tag, code,
  integer_tag, string_tag, list_tag, dict_tag, end_tag, push_back, insert, returned, tag_of,
  next_tag, read_integer, read_string, read_item, read_list, read_dict, read_value,
}
use xul.Bmf.Stored.{
  integer_bytes, string_bytes, item_bytes, items_bytes, fields_bytes, Storable, AllStorable,
  Ordered, Above,
}
use xul.Bmf.ReadBack.{
  Stands, forward, front-Stands, forward-Stands, forward-forward, next_tag-Stands, decode-Stands,
  try_read_string-Stands, code-small, joined_fields, Below, insert-last, insert-Below,
}
use xul.Streams.MemoryInput.{Input}

unfoldable pub kind : Value → Tag
kind empty = end_tag
kind (integer n) = integer_tag
kind (text s) = string_tag
kind (list items) = list_tag
kind (dict fields) = dict_tag

-- What stands behind the tag.
unfoldable pub body : Value → Bytes
body empty = []
body (integer n) = integer_bytes n
body (text s) = integer_bytes (pos (length s)) ++ s
body (list items) = items_bytes items
body (dict fields) = fields_bytes fields

pub item-cut : (v : Value) → Storable v → item_bytes v ≡ code (kind v) ∷ body v
unfolding item_bytes string_bytes kind body Storable
item-cut empty h = absurd (ground (arith, h))
item-cut (integer n) h = refl
item-cut (text s) h = refl
item-cut (list items) h = refl
item-cut (dict fields) h = refl

kind_going_on : (v : Value) → Storable v → (code (kind v) == code end_tag) ≡ false
unfolding code kind Storable
kind_going_on empty h = absurd (ground (arith, h))
kind_going_on (integer n) h = refl
kind_going_on (text s) h = refl
kind_going_on (list items) h = refl
kind_going_on (dict fields) h = refl

-- The entries that are there come before those that follow.
unfoldable Separated : Fields → Fields → Type 0
unfolding Below
Separated before end = Unit
Separated before (field k v fields) = Below before k × Separated before fields

insert-Separated :
    (key : Bytes) (val : Value) (before fields : Fields)
    → Below before key
    → Above key fields
    → Separated before fields
    → Separated (insert key val before) fields
unfolding Separated Above
insert-Separated key val before end b a s = tt
insert-Separated key val before (field k v fields) b (a1, a2, a) (s, ss) =
    (insert-Below key k val before s b a1 a2, insert-Separated key val before fields b a ss)

unfoldable appended : Items → Items → Items
appended nil others = others
appended (cons x items) others = cons x (appended items others)

appended-push_back :
    (before : Items) (x : Value) (items : Items)
    → appended (push_back before x) items ≡ appended before (cons x items)
unfolding appended push_back
appended-push_back nil x items = refl
appended-push_back (cons y before) x items = ap (cons y) (appended-push_back before x items)

appended-nil : (before : Items) → appended before nil ≡ before
unfolding appended
appended-nil nil = refl
appended-nil (cons y before) = ap (cons y) (appended-nil before)

joined_fields-end : (before : Fields) → joined_fields before end ≡ before
unfolding joined_fields
joined_fields-end end = refl
joined_fields-end (field k v before) = ap (field k v) (joined_fields-end before)

nothing_before : (fields : Fields) → Separated end fields
unfolding Separated Below
nothing_before end = tt
nothing_before (field k v fields) = (tt, nothing_before fields)

-- A tag in front of other bytes.
tag_here :
    (t : Tag) (bytes rest : Bytes) (is : Input)
    → Stands (code t ∷ bytes) rest is
    → (next_tag is ≡ some (code t, forward 1 is)) × Stands bytes rest (forward 1 is)
tag_here t bytes rest is h = (
  next_tag-Stands (bytes ++ rest) is (code t) (code-small t)
      (front-Stands (code t ∷ []) bytes rest is h),
  forward-Stands (code t ∷ []) bytes rest is h,
)

two_steps :
    (m n k : ℕ) (v : Value) (is : Input)
    → m + n ≡ k
    → returned v (forward n (forward m is)) ≡ returned v (forward k is)
two_steps m n k v is e = ap (returned v) (forward-forward m n is ∙ ap (λ (t : ℕ). forward t is) e)

three_steps :
    (m n k l : ℕ) (is : Input) → m + n + k ≡ l → forward k (forward n (forward m is)) ≡ forward l is
three_steps m n k l is e =
    ap (forward k) (forward-forward m n is)
    ∙ forward-forward (m + n) k is
    ∙ ap (λ (t : ℕ). forward t is) e

some_items : (items : Items) → 1 ≤ length (items_bytes items)
unfolding items_bytes
some_items nil = omega arith
some_items (cons x items) =
    omega (arith, some_items items, length-append (item_bytes x) (items_bytes items))

some_fields : (fields : Fields) → 1 ≤ length (fields_bytes fields)
unfolding fields_bytes string_bytes
some_fields end = omega arith
some_fields (field k v fields) = omega arith

mutual
  unfolding read_item tag_of code kind body Storable read_string read_integer items_bytes
      fields_bytes string_bytes appended joined_fields Separated

  pub read_item-back :
      (v : Value) (fuel : ℕ) (rest : Bytes) (is : Input)
      → Storable v
      → 2 * suc (length (body v)) ≤ fuel
      → Stands (body v) rest is
      → read_item fuel (code (kind v)) is ≡ returned v (forward (length (body v)) is)
  read_item-back v zero rest is h f st = absurd (omega arith)
  read_item-back empty (suc fuel) rest is h f st = absurd (ground (arith, h))
  read_item-back (integer n) (suc fuel) rest is h f st =
      let number = decode-Stands rest is n h st in simp (read_integer, number)
  read_item-back (text s) (suc fuel) rest is h f st =
      let chars = try_read_string-Stands s rest is h st in simp (read_string, chars)
  read_item-back (list items) (suc fuel) rest is h f st =
      read_list-back items nil fuel rest is h (omega arith) st
  read_item-back (dict fields) (suc fuel) rest is h f st =
      read_dict-back fields end fuel rest is h (nothing_before fields) (omega arith) st

  read_list-back :
      (items before : Items) (fuel : ℕ) (rest : Bytes) (is : Input)
      → AllStorable items
      → 2 * length (items_bytes items) ≤ fuel + 1
      → Stands (items_bytes items) rest is
      → read_list fuel before is
        ≡ returned (list (appended before items)) (forward (length (items_bytes items)) is)
  read_list-back nil before zero rest is h f st = absurd (omega arith)
  read_list-back nil before (suc fuel) rest is h f st =
      let (tag, _) = tag_here end_tag [] rest is st in
      let all = appended-nil before in simp (read_list, tag, all)
  read_list-back (cons x items) before zero rest is h f st =
      absurd (omega (arith, some_items (cons x items)))
  read_list-back (cons x items) before (suc fuel) rest is (hx, h) f st =
      let cut = item-cut x hx in
      let long = ap (λ (t : Bytes). length t) cut in
      let (tag, st1) = tag_here (kind x) (body x ++ items_bytes items) rest is (rw cut at st) in
      let total = length-append (item_bytes x) (items_bytes items) in
      let going = kind_going_on x hx in
      let item =
        read_item-back x fuel (items_bytes items ++ rest) (forward 1 is) hx
          (omega (arith, total, long, some_items items))
          (front-Stands (body x) (items_bytes items) rest (forward 1 is) st1) in
      let later =
        read_list-back items (push_back before x) fuel rest
          (forward (length (body x)) (forward 1 is)) h (omega (arith, total, long))
          (forward-Stands (body x) (items_bytes items) rest (forward 1 is) st1) in
      let order = appended-push_back before x items in
      let steps =
        three_steps 1 (length (body x)) (length (items_bytes items))
          (length (item_bytes x ++ items_bytes items)) is (omega (arith, total, long)) in
      simp (read_list, tag, going, item, later, order, steps)

  read_dict-back :
      (fields before : Fields) (fuel : ℕ) (rest : Bytes) (is : Input)
      → Ordered fields
      → Separated before fields
      → 2 * length (fields_bytes fields) ≤ fuel + 1
      → Stands (fields_bytes fields) rest is
      → read_dict fuel before is
        ≡ returned (dict (joined_fields before fields)) (forward (length (fields_bytes fields)) is)
  read_dict-back end before zero rest is h sep f st = absurd (omega arith)
  read_dict-back end before (suc fuel) rest is h sep f st =
      let (tag, _) = tag_here end_tag [] rest is st in
      let all = joined_fields-end before in simp (read_dict, tag, all)
  read_dict-back (field k v fields) before zero rest is h sep f st =
      absurd (omega (arith, some_fields (field k v fields)))
  read_dict-back (field k v fields) before (suc fuel) rest is (hk, hv, above, h) (b, sep) f st =
      let size = integer_bytes (pos (length k)) in
      let others = item_bytes v ++ fields_bytes fields in
      let (tag, st1) = tag_here string_tag ((size ++ k) ++ others) rest is st in
      let key =
        try_read_string-Stands k (others ++ rest) (forward 1 is) hk
          (front-Stands (size ++ k) others rest (forward 1 is) st1) in
      let st2 = forward-Stands (size ++ k) others rest (forward 1 is) st1 in
      let is2 = forward (length (size ++ k)) (forward 1 is) in
      let total = length-append (size ++ k) others in
      let rest_total = length-append (item_bytes v) (fields_bytes fields) in
      let item =
        read_value-back v fuel (fields_bytes fields ++ rest) is2 hv
          (omega (arith, total, rest_total, some_fields fields))
          (front-Stands (item_bytes v) (fields_bytes fields) rest is2 st2) in
      let later =
        read_dict-back fields (insert k v before) fuel rest (forward (length (item_bytes v)) is2) h
          (insert-Separated k v before fields b above sep) (omega (arith, total, rest_total))
          (forward-Stands (item_bytes v) (fields_bytes fields) rest is2 st2) in
      let order = insert-last k v before fields b in
      let behind = length (size ++ k ++ others) in
      let end_of : 1 + behind ≡ suc behind = omega arith in
      let steps =
        three_steps (length (size ++ k)) (length (item_bytes v)) (length (fields_bytes fields))
          behind (forward 1 is) (omega (arith, total, rest_total))
        ∙ forward-forward 1 behind is
        ∙ ap (λ (t : ℕ). forward t is) end_of in
      simp (read_dict, tag, key, item, later, order, steps)

  pub read_value-back :
      (v : Value) (fuel : ℕ) (rest : Bytes) (is : Input)
      → Storable v
      → 2 * length (item_bytes v) + 1 ≤ fuel
      → Stands (item_bytes v) rest is
      → read_value fuel is ≡ returned v (forward (length (item_bytes v)) is)
  read_value-back v zero rest is h f st = absurd (omega arith)
  read_value-back v (suc fuel) rest is h f st =
      let cut = item-cut v h in
      let long = ap (λ (t : Bytes). length t) cut in
      let (tag, st1) = tag_here (kind v) (body v) rest is (rw cut at st) in
      let item = read_item-back v fuel rest (forward 1 is) h (omega (arith, long)) st1 in
      let steps =
        two_steps 1 (length (body v)) (length (item_bytes v)) v is (omega (arith, long)) in
      simp (read_value, tag, item, steps)
