-- ===== src/Streams/Writing.antt =====
-- Writing to a memory stream: where the bytes go.
use xul.Prelude.{
  ℕ, zero, suc, ◌+◌, ◌≤◌, ◌<◌, ◌≡◌, refl, ap, sym, ◌∙◌, Bool, true, false, some, List, [], ◌∷◌,
  ◌++◌, append_assoc, Bytes, length, length-append, length-take, length-drop, take, drop, drop-drop,
  set, leb, ltb, take-append-drop, take-length_append, drop-length_append, arith,
}
use xul.Streams.MemoryOutput.{Output, capacity, is_available, write_bytes, write_byte}
use xul.Streams.DataOutput.{
  DataOutput, write_uint8, write_bool, write_uint16, write_uint32, write_uint64, write_raw,
  write_array,
}
use xul.Streams.Serial.{
  Value, uint8, uint16, uint32, uint64, boolean, text, encoding, encodings, write_value,
  write_values,
}
use xul.Streams.Orders.{from_word-convert_word, from_dword-convert_dword, from_qword-convert_qword}

-- The bytes stand at the position, the position behind them, and the rest of the buffer as it was.
unfoldable pub wrote : Bytes → Output → Output
wrote bytes o = record {
  buffer = take o.position o.buffer ++ (bytes ++ drop (o.position + length bytes) o.buffer);
  position = o.position + length bytes;
}

unfoldable pub data_wrote : Bytes → DataOutput → DataOutput
unfolding wrote
data_wrote bytes o = record { out = wrote bytes o.out; big_endian = o.big_endian }

set-middle :
    (xs : Bytes) (i v : ℕ) → i < length xs → set xs i v ≡ take i xs ++ (v ∷ drop (i + 1) xs)
set-middle [] i v h = elim h [ ]
set-middle (x ∷ xs) zero v h = refl
set-middle (x ∷ xs) (suc i) v h =
    let e : suc i + 1 ≡ suc (i + 1) = omega arith in rw (e, set-middle xs i v (omega arith)) refl

pub length-wrote :
    (bytes : Bytes) (o : Output)
    → o.position + length bytes ≤ length o.buffer
    → length (wrote bytes o).buffer ≡ length o.buffer
unfolding wrote
length-wrote bytes o h =
    let front =
      length-append (take o.position o.buffer)
        (bytes ++ drop (o.position + length bytes) o.buffer) in
    let middle = length-append bytes (drop (o.position + length bytes) o.buffer) in
    let a = length-take o.position o.buffer in
    let b = length-drop (o.position + length bytes) o.buffer in omega (arith, front, middle, a, b)

-- The number of bytes in front of the position.
length-front : (p : ℕ) (xs : Bytes) → p ≤ length xs → length (take p xs) ≡ p
length-front p xs h = omega (arith, length-take p xs)

take-front :
    (p n : ℕ) (xs ys zs : Bytes)
    → p ≤ length xs
    → n ≡ p + length ys
    → take n (take p xs ++ (ys ++ zs)) ≡ take p xs ++ ys
take-front p n xs ys zs h e =
    let long : length (take p xs ++ ys) ≡ n =
      omega (arith, length-append (take p xs) ys, length-front p xs h) in
    ap (λ (t : ℕ). take t (take p xs ++ (ys ++ zs))) (sym long)
    ∙ ap (λ (t : Bytes). take (length (take p xs ++ ys)) t) (sym (append_assoc (take p xs) ys zs))
    ∙ take-length_append (take p xs ++ ys) zs

drop-front :
    (p n : ℕ) (xs ys zs : Bytes)
    → p ≤ length xs
    → n ≡ p + length ys
    → drop n (take p xs ++ (ys ++ zs)) ≡ zs
drop-front p n xs ys zs h e =
    let long : length (take p xs ++ ys) ≡ n =
      omega (arith, length-append (take p xs) ys, length-front p xs h) in
    ap (λ (t : ℕ). drop t (take p xs ++ (ys ++ zs))) (sym long)
    ∙ ap (λ (t : Bytes). drop (length (take p xs ++ ys)) t) (sym (append_assoc (take p xs) ys zs))
    ∙ drop-length_append (take p xs ++ ys) zs

abbrev output_of : Bytes → ℕ → Output
output_of buf p = record { buffer = buf; position = p }

same_output : (a b : Bytes) (p q : ℕ) → a ≡ b → p ≡ q → output_of a p ≡ output_of b q
same_output a b p q e f = rw (e, f) refl

pub wrote-nil : (o : Output) → wrote [] o ≡ o
unfolding wrote
wrote-nil o =
    same_output _ o.buffer _ o.position
      (ap (λ (t : ℕ). take o.position o.buffer ++ drop t o.buffer) (omega arith)
        ∙ take-append-drop o.position o.buffer)
      (omega arith)

pub wrote-append :
    (xs ys : Bytes) (o : Output)
    → o.position + length xs ≤ length o.buffer
    → wrote ys (wrote xs o) ≡ wrote (xs ++ ys) o
unfolding wrote
wrote-append xs ys o h =
    let p = o.position in
    let n = p + length xs in
    let rest = drop n o.buffer in
    let both : p + length (xs ++ ys) ≡ n + length ys = omega (arith, length-append xs ys) in
    let front = take-front p n o.buffer xs rest (omega arith) refl in
    let back : drop (n + length ys) (take p o.buffer ++ (xs ++ rest))
        ≡ drop (p + length (xs ++ ys)) o.buffer =
      sym (drop-drop n (length ys) (take p o.buffer ++ (xs ++ rest)))
      ∙ ap (λ (t : Bytes). drop (length ys) t) (drop-front p n o.buffer xs rest (omega arith) refl)
      ∙ drop-drop n (length ys) o.buffer
      ∙ ap (λ (t : ℕ). drop t o.buffer) (sym both) in
    same_output _ _ _ _
      (ap (λ (t : Bytes). t ++ (ys ++ drop (n + length ys) (take p o.buffer ++ (xs ++ rest)))) front
        ∙ ap (λ (t : Bytes). take p o.buffer ++ xs ++ (ys ++ t)) back
        ∙ append_assoc (take p o.buffer) xs (ys ++ drop (p + length (xs ++ ys)) o.buffer)
        ∙ ap (λ (t : Bytes). take p o.buffer ++ t)
            (sym (append_assoc xs ys (drop (p + length (xs ++ ys)) o.buffer))))
      (sym both)

pub write_bytes-fits :
    (bytes : Bytes) (o : Output)
    → o.position + length bytes ≤ length o.buffer
    → write_bytes bytes o ≡ some (wrote bytes o)
unfolding write_bytes is_available capacity wrote
write_bytes-fits [] o h =
    let e : leb (o.position + 0) (length o.buffer) ≡ true = ground arith in rw (e, wrote-nil o) refl
write_bytes-fits (x ∷ bytes) o h =
    let e : leb (o.position + suc (length bytes)) (length o.buffer) ≡ true = ground arith in
    let f : ltb 0 (suc (length bytes)) ≡ true = ground arith in rw (e, f) refl

pub write_byte-fits :
    (val : ℕ) (o : Output)
    → o.position + 1 ≤ length o.buffer
    → write_byte val o ≡ some (wrote (val ∷ []) o)
unfolding write_byte is_available capacity wrote
write_byte-fits val o h =
    let e : leb (o.position + 1) (length o.buffer) ≡ true = ground arith in
    let s = set-middle o.buffer o.position val (omega arith) in rw (e, s) refl

module _ (host : Bool) where
  pub write_value-fits :
      (v : Value) (o : DataOutput)
      → o.out.position + length (encoding o.big_endian v) ≤ length o.out.buffer
      → write_value host v o ≡ some (data_wrote (encoding o.big_endian v) o)
  unfolding write_value encoding write_uint8 write_bool write_uint16 write_uint32 write_uint64
      write_raw data_wrote
  write_value-fits (uint8 n) o h = rw (write_byte-fits n o.out h) refl
  write_value-fits (uint16 n) o h =
      rw (from_word-convert_word host o.big_endian n, write_bytes-fits _ o.out h) refl
  write_value-fits (uint32 n) o h =
      rw (from_dword-convert_dword host o.big_endian n, write_bytes-fits _ o.out h) refl
  write_value-fits (uint64 n) o h =
      rw (from_qword-convert_qword host o.big_endian n, write_bytes-fits _ o.out h) refl
  write_value-fits (boolean true) o h = rw (write_byte-fits 1 o.out h) refl
  write_value-fits (boolean false) o h = rw (write_byte-fits 0 o.out h) refl
  write_value-fits (text s) o h = rw (write_bytes-fits s o.out h) refl

  -- Values that fit into what is left of the buffer are written, and their bytes do not depend on the
  -- machine: they stand behind one another at the position of the stream, each in the order of the stream.
  pub write_values-fits :
      (vs : List Value) (o : DataOutput)
      → o.out.position + length (encodings o.big_endian vs) ≤ length o.out.buffer
      → write_values host vs o ≡ some (data_wrote (encodings o.big_endian vs) o)
  unfolding write_values write_array encodings data_wrote
  write_values-fits [] o h = rw (wrote-nil o.out) refl
  write_values-fits (v ∷ vs) o h =
      let long = length-append (encoding o.big_endian v) (encodings o.big_endian vs) in
      let same = length-wrote (encoding o.big_endian v) o.out (omega (arith, long)) in
      let first = write_value-fits v o (omega (arith, long)) in
      let rest =
        write_values-fits vs (data_wrote (encoding o.big_endian v) o) (omega (arith, same, long)) in
      let both =
        wrote-append (encoding o.big_endian v) (encodings o.big_endian vs) o.out
          (omega (arith, long)) in
      rw (first, rest, both) refl

-- What has been written stands where it was written.
pub drop-wrote :
    (bytes : Bytes) (o : Output)
    → o.position + length bytes ≤ length o.buffer
    → drop o.position (wrote bytes o).buffer ≡ bytes ++ drop (o.position + length bytes) o.buffer
unfolding wrote
drop-wrote bytes o h =
    drop-front o.position o.position o.buffer []
      (bytes ++ drop (o.position + length bytes) o.buffer) (omega arith) (omega arith)
