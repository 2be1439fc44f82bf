-- ===== src/PacketPipe/Packets.antt =====
-- What is read of the packets that were fed.
use xul.Prelude.{
  ℕ, zero, suc, ◌+◌, ◌^◌, ◌≤◌, ◌<◌, ◌≡◌, refl, sym, ap, ◌∙◌, Bool, true, false, Option, some, List,
  [], ◌∷◌, ◌++◌, append-nil, append_assoc, Bytes, length, take, drop, ltb, leb, ◌==◌, arith,
  length-drop, length-append, All, map, drop-drop, ◌⊎◌, inl, inr, ◌&&◌,
}
use xul.MessageDecoder.Chunks.{concat}
use xul.BitConverter.{to_dword, from_dword}
use xul.BitConverter.RoundTrip.{to_dword-from_dword}
use xul.PacketPipe.{to_size, wrapped, Pipe, create, check_buffer, feed, read}

-- A packet as its sender writes it.
abbrev pub packet : Bool → Bytes → Bytes
packet big_endian message = from_dword big_endian (length message) ++ message

-- The pipe before what is not read yet, where an `int` holds the size of its buffer.
abbrev pub HasRest : Pipe → Bytes → Type 0
HasRest p rest =
    (p.position ≤ length p.buffer) × (length p.buffer < 2 ^ 31) × (drop p.position p.buffer ≡ rest)

take-length : (xs ys : Bytes) → take (length xs) (xs ++ ys) ≡ xs
take-length [] ys = refl
take-length (x ∷ xs) ys = ap (λ (t : Bytes). x ∷ t) (take-length xs ys)

drop-length : (xs ys : Bytes) → drop (length xs) (xs ++ ys) ≡ ys
drop-length [] ys = refl
drop-length (x ∷ xs) ys = drop-length xs ys

check_buffer-rest :
    (p : Pipe)
    → p.position ≤ length p.buffer
    → length p.buffer < 2 ^ 31
    → (check_buffer p).buffer ≡ drop p.position p.buffer
unfolding check_buffer
check_buffer-rest p h small = elim (zero-or_pos p.position) [
  | inl e ↦
      let no : (ltb 0 p.position && ltb p.position (2 ^ 31)) ≡ false = ground arith in
      rw no (sym (ap (λ (t : ℕ). drop t p.buffer) e))
  | inr e ↦
      let yes : (ltb 0 p.position && ltb p.position (2 ^ 31)) ≡ true = ground arith in
      let within : leb p.position (length p.buffer) ≡ true = ground arith in rw (yes, within) refl
]
  where
    zero-or_pos : (n : ℕ) → (n ≡ 0) ⊎ (0 < n)
    zero-or_pos n = omega arith

check_buffer-position :
    (p : Pipe)
    → p.position ≤ length p.buffer
    → length p.buffer < 2 ^ 31
    → (check_buffer p).position ≡ 0
unfolding check_buffer
check_buffer-position p h small = ground arith

-- What is fed comes after what is there.
pub feed-HasRest :
    (bytes : Bytes) (p : Pipe) (rest : Bytes)
    → HasRest p rest
    → length (rest ++ bytes) < 2 ^ 31
    → HasRest (feed bytes p) (rest ++ bytes)
unfolding feed
feed-HasRest bytes p rest (within, small, e) total =
    let kept : (check_buffer p).buffer ≡ rest = check_buffer-rest p within small ∙ e in
    rw (check_buffer-position p within small, kept) (omega arith, total, refl)

to_dword-from_dword_more :
    (big_endian : Bool) (x : ℕ) (ys : Bytes)
    → x < 2 ^ 32
    → to_dword big_endian (from_dword big_endian x ++ ys) ≡ x
to_dword-from_dword_more big_endian x ys h =
    first_four big_endian ∙ to_dword-from_dword big_endian x h
  where
    first_four : (b : Bool) → to_dword b (from_dword b x ++ ys) ≡ to_dword b (from_dword b x)
    first_four true = unfold to_dword in unfold from_dword in refl
    first_four false = unfold to_dword in unfold from_dword in refl

length-from_dword : (big_endian : Bool) (x : ℕ) → length (from_dword big_endian x) ≡ 4
unfolding from_dword
length-from_dword true x = refl
length-from_dword false x = refl

read_whole :
    (max n : ℕ) (p : Pipe)
    → to_dword p.big_endian (drop p.position p.buffer) ≡ n
    → p.position + 4 + n ≤ length p.buffer
    → length p.buffer < 2 ^ 31
    → 0 < n
    → n ≤ max
    → read max p ≡ (
      some (take n (drop (p.position + 4) p.buffer)),
      record p { position = p.position + (4 + n) },
    )
unfolding read
read_whole max n p len all small pos_n fits =
    let here : to_size p.position ≡ p.position = ground arith in
    let after : wrapped (p.position + 4) ≡ p.position + 4 = omega arith in
    let place : to_size (p.position + 4) ≡ p.position + 4 = ground arith in
    let end : wrapped (p.position + 4 + n) ≡ p.position + 4 + n = omega arith in
    let next : wrapped (p.position + wrapped (4 + n)) ≡ p.position + (4 + n) = omega arith in
    let a : ltb (length p.buffer) (p.position + 4) ≡ false = ground arith in
    let b : ltb max n ≡ false = ground arith in
    let c : (n == 0) ≡ false = ground arith in
    let d : ltb (length p.buffer) (p.position + 4 + n) ≡ false = ground arith in
    rw (here, after, place, a, len, b, c, end, d, next) refl

pub read-packet :
    (max : ℕ) (p : Pipe) (message rest : Bytes)
    → HasRest p (packet p.big_endian message ++ rest)
    → 0 < length message
    → length message ≤ max
    → length message < 2 ^ 32
    → ((read max p).0 ≡ some message) × HasRest (read max p).1 rest
read-packet max p message rest (within, bounded, e) some_bytes fits small =
    let n = length message in
    let head = from_dword p.big_endian n in
    let whole : drop p.position p.buffer ≡ head ++ (message ++ rest) =
      e ∙ append_assoc head message rest in
    let len : to_dword p.big_endian (drop p.position p.buffer) ≡ n =
      rw whole (to_dword-from_dword_more p.big_endian n (message ++ rest) small) in
    let after : drop (p.position + 4) p.buffer ≡ message ++ rest =
      sym (drop-drop p.position 4 p.buffer)
      ∙ ap (λ (t : Bytes). drop 4 t) whole
      ∙ ap (λ (t : ℕ). drop t (head ++ (message ++ rest))) (sym (length-from_dword p.big_endian n))
      ∙ drop-length head (message ++ rest) in
    let room : p.position + 4 + n ≤ length p.buffer = omega (
      arith,
      length-drop p.position p.buffer,
      ap (λ (t : Bytes). length t) whole,
      length-append head (message ++ rest),
      length-append message rest,
      length-from_dword p.big_endian n,
    ) in
    let left : drop (p.position + (4 + n)) p.buffer ≡ rest =
      ap (λ (t : ℕ). drop t p.buffer) (place p.position n)
      ∙ sym (drop-drop (p.position + 4) n p.buffer)
      ∙ ap (λ (t : Bytes). drop n t) after
      ∙ drop-length message rest in
    rw (read_whole max n p len room bounded some_bytes fits) (
      ap (λ (t : Bytes). some (take n t)) after
          ∙ ap (λ (t : Bytes). some t) (take-length message rest),
      (omega arith, bounded, left),
    )
  where
    place : (a n : ℕ) → a + (4 + n) ≡ a + 4 + n
    place a n = omega arith

feed-big_endian : (bytes : Bytes) (p : Pipe) → (feed bytes p).big_endian ≡ p.big_endian
unfolding feed check_buffer
feed-big_endian bytes p = ground arith

-- The results of so many calls of `read`.
unfoldable pub read_times : ℕ → ℕ → Pipe → List (Option Bytes)
read_times max zero p = []
read_times max (suc n) p = (read max p).0 ∷ read_times max n (read max p).1

-- A packet that `read` gives: not empty, and within the limit.
abbrev pub IsSendable : ℕ → Bytes → Type 0
IsSendable max message = (0 < length message) × (length message ≤ max)

abbrev pub packets : Bool → List Bytes → Bytes
packets big_endian [] = []
packets big_endian (m ∷ messages) = packet big_endian m ++ packets big_endian messages

read-big_endian : (max : ℕ) (p : Pipe) → (read max p).1.big_endian ≡ p.big_endian
unfolding read
read-big_endian max p = ground arith

below_total :
    (max : ℕ) (p : Pipe) (m rest : Bytes)
    → HasRest p (packet p.big_endian m ++ rest)
    → length m < 2 ^ 32
below_total max p m rest (within, bounded, e) = omega (
  arith,
  ap (λ (t : Bytes). length t) e,
  length-drop p.position p.buffer,
  length-append (packet p.big_endian m) rest,
  length-append (from_dword p.big_endian (length m)) m,
)

read_times-rest :
    (max : ℕ) (p : Pipe) (messages : List Bytes)
    → HasRest p (packets p.big_endian messages)
    → All (IsSendable max) messages
    → read_times max (length messages) p ≡ map some messages
unfolding read_times
read_times-rest max p [] h a = refl
read_times-rest max p (m ∷ messages) h (first, others) =
    let (got, left) =
      read-packet max p m (packets p.big_endian messages) h first.0 first.1
        (below_total max p m (packets p.big_endian messages) h) in
    let next : HasRest (read max p).1 (packets (read max p).1.big_endian messages) =
      rw (read-big_endian max p) left in
    rw got (
      ap (λ (t : List (Option Bytes)). some m ∷ t)
        (read_times-rest max (read max p).1 messages next others))

unfoldable pub feed_all : List Bytes → Pipe → Pipe
feed_all [] p = p
feed_all (c ∷ chunks) p = feed_all chunks (feed c p)

feed_all-HasRest :
    (chunks : List Bytes) (p : Pipe) (rest : Bytes)
    → HasRest p rest
    → length (rest ++ concat chunks) < 2 ^ 31
    → HasRest (feed_all chunks p) (rest ++ concat chunks)
      × ((feed_all chunks p).big_endian ≡ p.big_endian)
unfolding feed_all
feed_all-HasRest [] p rest h total = (rw (append-nil rest) h, refl)
feed_all-HasRest (c ∷ chunks) p rest h total =
    let all = append_assoc rest c (concat chunks) in
    let long = length-append (rest ++ c) (concat chunks) in
    let start = feed-HasRest c p rest h (omega (arith, ap (λ (t : Bytes). length t) all, long)) in
    let (held, order) = feed_all-HasRest chunks (feed c p) (rest ++ c) start (rw all total) in
    (rw (append_assoc rest c (concat chunks)) at held, order ∙ feed-big_endian c p)

-- A pipe that is fed, in any pieces, the packets of some messages, each with its length of 32 bits
-- before it in the byte order of the pipe, gives these messages, in their order, by as many reads,
-- where each message is not empty and no longer than the limit, and the packets together are
-- shorter than 2 ^ 31 bytes.
pub read_times-packets :
    (max : ℕ) (big_endian : Bool) (chunks messages : List Bytes)
    → concat chunks ≡ packets big_endian messages
    → length (concat chunks) < 2 ^ 31
    → All (IsSendable max) messages
    → read_times max (length messages) (feed_all chunks (create big_endian)) ≡ map some messages
unfolding create
read_times-packets max big_endian chunks messages same total a =
    let start : HasRest (create big_endian) [] = (omega arith, omega arith, refl) in
    let (held, order) = feed_all-HasRest chunks (create big_endian) [] start total in
    read_times-rest max (feed_all chunks (create big_endian)) messages (rw (order, ← same) held) a
