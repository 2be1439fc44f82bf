-- ===== src/Bmf/ReadEnds.antt =====
-- Reading a value from any stream.
use xul.Prelude.{
  ℕ, zero, suc, ◌+◌, ◌*◌, ◌≤◌, ◌≡◌, refl, ◌⊎◌, inl, inr, Bool-cases, Option, Option-cases, none,
  some, Bytes, ◌==◌, arith,
}
use xul.Bmf.Values.{
  Value, Items, Fields, empty, nil, end, code, string_tag, end_tag, push_back, insert, Outcome,
  returned, thrown, unfinished, tag_of, next_tag, try_read_string, read_item, read_list, read_dict,
  read_value, read,
}
use xul.Streams.MemoryInput.{Input, available}
use xul.Bmf.Onward.{
  Onward, Onward-refl, Onward-room, Ends, Ends-later, Ends-then, room, next_tag-room, kinds,
  try_read_string-Ends,
}

key_read :
    (key : Option Bytes) (behind : Input) (f : Bytes → Outcome Value)
    → ((k : Bytes) → Ends behind (f k))
    → Ends behind (elim key as (λ _. Outcome Value) [ none ↦ returned empty behind | some k ↦ f k ])
unfolding Ends
key_read none behind f h = Onward-refl behind
key_read (some k) behind f h = h k

mutual
  unfolding read_item read_list read_dict read_value Ends

  read_item-Ends :
      (fuel tag : ℕ) (is : Input) → 2 * room is + 2 ≤ fuel → Ends is (read_item fuel tag is)
  read_item-Ends zero tag is h = absurd (omega arith)
  read_item-Ends (suc fuel) tag is h =
      kinds (tag_of tag) fuel is (read_list-Ends fuel nil is (omega arith))
        (read_dict-Ends fuel end is (omega arith))

  read_list-Ends :
      (fuel : ℕ) (items : Items) (is : Input)
      → 2 * room is + 1 ≤ fuel
      → Ends is (read_list fuel items is)
  read_list-Ends zero items is h = absurd (omega arith)
  read_list-Ends (suc fuel) items is h = elim (Option-cases (next_tag is)) [
    | inl e ↦ rw (read_list, e) (Onward-refl is)
    | inr ((tag, after), e) ↦
        let (onward, less_room) = next_tag-room is after tag e in
        elim (Bool-cases (tag == code end_tag)) [
          | inl last ↦ rw (read_list, e, last) onward
          | inr more ↦
              rw (read_list, e, more)
                (Ends-later is after _ onward (
                  Ends-then after (read_item fuel tag after) _
                    (read_item-Ends fuel tag after (omega (arith, less_room)))
                    (λ item behind h2.
                      read_list-Ends fuel (push_back items item) behind
                        (omega (arith, less_room, Onward-room after behind h2)))))
        ]
  ]

  read_dict-Ends :
      (fuel : ℕ) (items : Fields) (is : Input)
      → 2 * room is + 1 ≤ fuel
      → Ends is (read_dict fuel items is)
  read_dict-Ends zero items is h = absurd (omega arith)
  read_dict-Ends (suc fuel) items is h = elim (Option-cases (next_tag is)) [
    | inl e ↦ rw (read_dict, e) (Onward-refl is)
    | inr ((tag, after), e) ↦
        let (onward, less_room) = next_tag-room is after tag e in
        elim (Bool-cases (tag == code end_tag)) [
          | inl last ↦ rw (read_dict, e, last) onward
          | inr more ↦ elim (Bool-cases (tag == code string_tag)) [
            | inr other ↦ rw (read_dict, e, more, other) onward
            | inl key ↦
                rw (read_dict, e, more, key)
                  (Ends-later is after _ onward (
                    Ends-then after (try_read_string after) _ (try_read_string-Ends after)
                      (λ k behind h2. key_read k behind _ (λ name.
                        Ends-then behind (read_value fuel behind) _
                          (read_value-Ends fuel behind
                            (omega (arith, less_room, Onward-room after behind h2)))
                          (λ val last h3. read_dict-Ends fuel (insert name val items) last (
                            omega (
                              arith,
                              less_room,
                              Onward-room after behind h2,
                              Onward-room behind last h3,
                            )))))))
          ]
        ]
  ]

  read_value-Ends : (fuel : ℕ) (is : Input) → 2 * room is + 1 ≤ fuel → Ends is (read_value fuel is)
  read_value-Ends zero is h = absurd (omega arith)
  read_value-Ends (suc fuel) is h = elim (Option-cases (next_tag is)) [
    | inl e ↦ rw (read_value, e) (Onward-refl is)
    | inr ((tag, after), e) ↦
        let (onward, less_room) = next_tag-room is after tag e in
        rw (read_value, e)
          (Ends-later is after _ onward (read_item-Ends fuel tag after (omega (arith, less_room))))
  ]

ended :
    (is : Input) (o : Outcome Value)
    → Ends is o
    → (o ≡ thrown)
      ⊎ ((v : Value) × (after : Input) × (o ≡ returned v after)
          × (after.buffer ≡ is.buffer)
          × (is.position ≤ after.position))
unfolding Ends Onward
ended is (returned v after) (e, l) = inr (v, after, refl, e, l)
ended is thrown h = inl refl
ended is unfinished h = absurd (ground (arith, h))

-- Whatever the stream holds, reading a value comes to an end: either the resize of a string
-- throws, or the call returns, the stream has not gone back, and its bytes are the same.
pub read-ends :
    (is : Input)
    → (read is ≡ thrown)
      ⊎ ((v : Value) × (after : Input) × (read is ≡ returned v after)
          × (after.buffer ≡ is.buffer)
          × (is.position ≤ after.position))
unfolding read available room
read-ends is = ended is (read is) (read_value-Ends (2 * available is + 2) is (ground arith))
