-- ===== src/Socks/Ends.antt =====
-- Reading a request from any stream.
use xul.Prelude.{
  ℕ, zero, suc, ◌+◌, ◌≤◌, ◌<◌, ◌≡◌, refl, ap, ◌∙◌, Bool, true, false, ◌&&◌, inl, inr, Bool-cases,
  ltb→lt, Option, none, some, [], ◌∷◌, ◌++◌, Bytes, All, All-append, length, ltb, arith,
}
use xul.Prelude.Int.{pos}
use xul.Socks.{Request, or_zero, read_user_id, read_object, reset}
use xul.Streams.MemoryInput as memory
use xul.Streams.DataInput.{
  DataInput, is_available, set_bad, read_uint8, read_uint16, read_uint32, read_n, converted,
}

abbrev pub HasText : Bytes → Type 0
HasText s = All (λ (c : ℕ). 0 < c) s

read_uint8-keeps : (d : DataInput) → (read_uint8 d).2.input.buffer ≡ d.input.buffer
unfolding read_uint8 memory.read_byte memory.is_available
read_uint8-keeps d = ground arith

read_uint8-next :
    (d : DataInput)
    → (read_uint8 d).0 ≡ true
    → ((read_uint8 d).2.input.position ≡ d.input.position + 1)
      × (d.input.position + 1 ≤ length d.input.buffer)
unfolding read_uint8 memory.read_byte memory.is_available
read_uint8-next d h = ground (arith, h)

read_n-keeps : (n : ℕ) (d : DataInput) → (read_n n d).1.input.buffer ≡ d.input.buffer
unfolding read_n memory.read_n memory.read memory.is_available
read_n-keeps n d = ground arith

converted-after :
    (f : Bytes → ℕ) (bytes : Option Bytes) (d : DataInput) → (converted f (bytes, d)).1 ≡ d
converted-after f none d = refl
converted-after f (some bytes) d = refl

read_uint16-keeps :
    (host : Bool) (d : DataInput) → (read_uint16 host d).1.input.buffer ≡ d.input.buffer
unfolding read_uint16
read_uint16-keeps host d =
    ap (λ (t : DataInput). t.input.buffer) (converted-after _ (read_n 2 d).0 (read_n 2 d).1)
    ∙ read_n-keeps 2 d

read_uint32-keeps :
    (host : Bool) (d : DataInput) → (read_uint32 host d).1.input.buffer ≡ d.input.buffer
unfolding read_uint32
read_uint32-keeps host d =
    ap (λ (t : DataInput). t.input.buffer) (converted-after _ (read_n 4 d).0 (read_n 4 d).1)
    ∙ read_n-keeps 4 d

both_left : (a b : Bool) → (a && b) ≡ true → (a ≡ true) × (b ≡ true)
both_left true true h = (refl, refl)
both_left true false h = (refl, h)
both_left false b h = ground arith

read_user_id-ends :
    (rounds : ℕ) (found : Bytes) (d : DataInput)
    → HasText found
    → length d.input.buffer < rounds + d.input.position
    → 0 < rounds
    → (user_id : Bytes) × (after : DataInput) × (read_user_id rounds found d
        ≡ some (user_id, after))
      × HasText user_id
      × (after.input.buffer ≡ d.input.buffer)
unfolding read_user_id
read_user_id-ends zero found d t h z = absurd (omega arith)
read_user_id-ends (suc rounds) found d t h z =
    let ch = or_zero (read_uint8 d).1 in
    let after = (read_uint8 d).2 in
    elim (Bool-cases ((read_uint8 d).0 && ltb 0 ch)) [
      | inr last ↦ (found, after, rw last refl, t, read_uint8-keeps d)
      | inl more ↦
          let (done, char) = both_left (read_uint8 d).0 (ltb 0 ch) more in
          let (next, within) = read_uint8-next d done in
          let same = ap (λ (s : Bytes). length s) (read_uint8-keeps d) in
          let (user_id, last, e, t', k) =
            read_user_id-ends rounds (found ++ (ch ∷ [])) after
              (All-append (λ (c : ℕ). 0 < c) found (ch ∷ []) t (ltb→lt 0 ch char, tt))
              (omega (arith, next, within, same)) (omega (arith, within)) in
          (user_id, last, rw more e, t', k ∙ read_uint8-keeps d)
    ]

-- Whatever the stream holds and in whatever state it is, reading a request comes to an end; the
-- answer is the state of the stream after it, the user id has no NUL in it, and the bytes of the
-- stream are the same.
pub read_object-ends :
    (host : Bool) (is : DataInput)
    → (done : Bool) × (r : Request) × (after : DataInput) × (read_object host is
        ≡ some (done, r, after))
      × (after.good ≡ done)
      × HasText r.user_id
      × (after.input.buffer ≡ is.input.buffer)
unfolding read_object set_bad reset
read_object-ends host is =
    let is1 = (read_uint8 is).2 in
    let is2 = (read_uint8 is1).2 in
    let is3 = (read_uint16 host is2).1 in
    let is4 = (read_uint32 host is3).1 in
    let same =
      read_uint32-keeps host is3
      ∙ read_uint16-keeps host is2
      ∙ read_uint8-keeps is1
      ∙ read_uint8-keeps is in
    let long = ap (λ (s : Bytes). length s) same in
    let r : Request = record {
      version_number = or_zero (read_uint8 is).1;
      command_code = or_zero (read_uint8 is1).1;
      destination_port = or_zero (read_uint16 host is2).0;
      destination_ip = or_zero (read_uint32 host is3).0;
      user_id = [];
    } in
    elim (Bool-cases (is_available (pos 9) is)) [
      | inr few ↦ (false, reset, set_bad is, rw few refl, refl, tt, refl)
      | inl enough ↦ elim (Bool-cases is4.good) [
        | inr bad ↦ (false, r, is4, simp (enough, bad), bad, tt, same)
        | inl good ↦
            let (user_id, last, e, t, k) =
              read_user_id-ends (length is.input.buffer + 1) [] is4 tt (omega (arith, long))
                (omega arith) in
            (
              last.good,
              record r { user_id = user_id },
              last,
              simp (enough, good, e),
              refl,
              t,
              k ∙ same,
            )
      ]
    ]
