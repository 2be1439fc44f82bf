-- ===== src/Streams/Reading.antt =====
-- Reading what stands at the position of a memory stream.
use xul.Prelude.{
  ℕ, zero, suc, ◌+◌, ◌≤◌, ◌<◌, ◌≡◌, refl, ap, sym, ◌∙◌, Bool, true, false, some, List, [], ◌∷◌,
  ◌++◌, append_assoc, Bytes, length, length-append, length-drop, get_or, drop, drop-drop,
  take-length_append, drop-length_append, ◌==◌, leb, if◌then◌else◌, arith,
}
use mathlib.Core.Path.{subst}
use xul.Prelude.Int.{pos}
use xul.BitConverter.{from_word, from_dword, from_qword}
use xul.Streams.MemoryInput as memory
use xul.Streams.DataInput.{
  DataInput, is_available, try_read_bytes, read_n, read_uint8, read_bool, read_uint16, read_uint32,
  read_uint64, read_string,
}
use xul.Streams.Orders.{word_back, dword_back, qword_back}
use xul.Streams.Serial.{
  Value, Fits, AllFit, uint8, uint16, uint32, uint64, boolean, text, encoding, encodings, read_like,
  read_all_like,
}

-- The bytes stand at the position of a stream in a good state, with `rest` behind them.
unfoldable pub Ahead : Bytes → Bytes → DataInput → Type 0
Ahead bytes rest d =
    (d.good ≡ true)
    × (d.input.position ≤ length d.input.buffer)
    × (drop d.input.position d.input.buffer ≡ bytes ++ rest)

-- The stream after that many bytes.
unfoldable pub advanced : ℕ → DataInput → DataInput
advanced n d = record {
  input = record { buffer = d.input.buffer; position = d.input.position + n };
  big_endian = d.big_endian;
  good = true;
}

pub length-Ahead :
    (bytes rest : Bytes) (d : DataInput)
    → Ahead bytes rest d
    → d.input.position + length bytes ≤ length d.input.buffer
unfolding Ahead
length-Ahead bytes rest d (good, low, e) =
    let long = ap (λ (t : Bytes). length t) e in
    omega (arith, long, length-drop d.input.position d.input.buffer, length-append bytes rest)

pub advanced-Ahead :
    (xs ys rest : Bytes) (d : DataInput)
    → Ahead (xs ++ ys) rest d
    → Ahead ys rest (advanced (length xs) d)
unfolding advanced Ahead
advanced-Ahead xs ys rest d (good, low, e) =
    let fits = length-Ahead (xs ++ ys) rest d (good, low, e) in
    (
      refl,
      omega (arith, fits, length-append xs ys),
      sym (drop-drop d.input.position (length xs) d.input.buffer)
          ∙ ap (λ (t : Bytes). drop (length xs) t) (e ∙ append_assoc xs ys rest)
          ∙ drop-length_append xs (ys ++ rest),
    )

-- In the memory stream under it.
module _ (bytes rest : Bytes) (s : memory.Input)
    (fits : s.position + length bytes ≤ length s.buffer)
    (e : drop s.position s.buffer ≡ bytes ++ rest) where
  pub memory_read :
      memory.read (length bytes) s ≡ (bytes, record s { position = s.position + length bytes })
  unfolding memory.read memory.is_available
  memory_read =
      let enough : leb (s.position + length bytes) (length s.buffer) ≡ true = ground arith in
      rw (enough, e, take-length_append bytes rest) refl

  pub memory_read_n :
      memory.read_n (length bytes) s
      ≡ (some bytes, record s { position = s.position + length bytes })
  unfolding memory.read_n
  memory_read_n =
      let all : (length bytes == length bytes) ≡ true = ground arith in rw (memory_read, all) refl

pub read_n-Ahead :
    (bytes rest : Bytes) (d : DataInput)
    → 0 < length bytes
    → Ahead bytes rest d
    → read_n (length bytes) d ≡ (some bytes, advanced (length bytes) d)
unfolding read_n advanced Ahead
read_n-Ahead bytes rest d h (good, low, e) =
    let some_bytes : (length bytes == 0) ≡ false = ground arith in
    let all = memory_read_n bytes rest d.input (length-Ahead bytes rest d (good, low, e)) e in
    simp (good, all, some_bytes)

get_or-drop : (p : ℕ) (xs : Bytes) (x : ℕ) (rest : Bytes) → drop p xs ≡ x ∷ rest → get_or xs p 0 ≡ x
get_or-drop zero [] x rest e = omega (arith, ap (λ (t : Bytes). length t) e)
get_or-drop zero (y ∷ xs) x rest e = ap (λ (t : Bytes). get_or t 0 0) e
get_or-drop (suc p) [] x rest e = omega (arith, ap (λ (t : Bytes). length t) e)
get_or-drop (suc p) (y ∷ xs) x rest e = get_or-drop p xs x rest e

pub memory_read_byte :
    (x : ℕ) (rest : Bytes) (s : memory.Input)
    → s.position + 1 ≤ length s.buffer
    → drop s.position s.buffer ≡ x ∷ rest
    → memory.read_byte s ≡ (pos x, record s { position = s.position + 1 })
unfolding memory.read_byte memory.is_available
memory_read_byte x rest s fits e =
    let enough : leb (s.position + 1) (length s.buffer) ≡ true = ground arith in
    rw (enough, get_or-drop s.position s.buffer x rest e) refl

pub read_uint8-Ahead :
    (x : ℕ) (rest : Bytes) (d : DataInput)
    → Ahead (x ∷ []) rest d
    → read_uint8 d ≡ (true, some x, advanced 1 d)
unfolding read_uint8 advanced Ahead
read_uint8-Ahead x rest d (good, low, e) =
    let byte = memory_read_byte x rest d.input (length-Ahead (x ∷ []) rest d (good, low, e)) e in
    simp (good, byte)

pub try_read_bytes-Ahead :
    (bytes rest : Bytes) (d : DataInput)
    → Ahead bytes rest d
    → try_read_bytes (length bytes) d ≡ (true, d)
unfolding try_read_bytes is_available memory.is_available Ahead
try_read_bytes-Ahead bytes rest d (good, low, e) =
    let fits = length-Ahead bytes rest d (good, low, e) in
    let enough : leb (d.input.position + length bytes) (length d.input.buffer) ≡ true =
      ground arith in
    rw (good, enough) refl

abbrev input_of : Bytes → ℕ → Bool → Bool → DataInput
input_of buf p big_endian good = record {
  input = record { buffer = buf; position = p };
  big_endian = big_endian;
  good = good;
}

pub advanced-zero : (d : DataInput) → d.good ≡ true → advanced 0 d ≡ d
unfolding advanced
advanced-zero d good =
    let still : d.input.position + 0 ≡ d.input.position = omega arith in
    ap (λ (p : ℕ). input_of d.input.buffer p d.big_endian true) still
    ∙ ap (λ (b : Bool). input_of d.input.buffer d.input.position d.big_endian b) (sym good)

pub read_string-Ahead :
    (s rest : Bytes) (d : DataInput)
    → Ahead s rest d
    → read_string (length s) d ≡ (some s, advanced (length s) d)
unfolding read_string Ahead
read_string-Ahead [] rest d h =
    let at_zero = try_read_bytes-Ahead [] rest d h in
    let still = advanced-zero d h.0 in simp (at_zero, still)
read_string-Ahead (x ∷ s) rest d h =
    let some_bytes : (suc (length s) == 0) ≡ false = ground arith in
    rw (try_read_bytes-Ahead (x ∷ s) rest d h, some_bytes)
      (read_n-Ahead (x ∷ s) rest d (omega arith) h)

pub advanced-advanced : (m n : ℕ) (d : DataInput) → advanced n (advanced m d) ≡ advanced (m + n) d
unfolding advanced
advanced-advanced m n d =
    let further : d.input.position + m + n ≡ d.input.position + (m + n) = omega arith in
    ap (λ (p : ℕ). input_of d.input.buffer p d.big_endian true) further

read_bool-Ahead :
    (b : Bool) (rest : Bytes) (d : DataInput)
    → Ahead (if b then 1 ∷ [] else 0 ∷ []) rest d
    → read_bool d ≡ (some b, advanced 1 d)
unfolding read_bool
read_bool-Ahead true rest d h = let byte = read_uint8-Ahead 1 rest d h in simp (read_bool, byte)
read_bool-Ahead false rest d h = let byte = read_uint8-Ahead 0 rest d h in simp (read_bool, byte)

pub read_n-size :
    (n : ℕ) (bytes rest : Bytes) (d : DataInput)
    → length bytes ≡ n
    → 0 < n
    → Ahead bytes rest d
    → read_n n d ≡ (some bytes, advanced (length bytes) d)
read_n-size n bytes rest d e h a =
    ap (λ (k : ℕ). read_n k d) (sym e) ∙ read_n-Ahead bytes rest d (omega arith) a

pub length-from_word : (b : Bool) (x : ℕ) → length (from_word b x) ≡ 2
unfolding from_word
length-from_word true x = refl
length-from_word false x = refl

pub length-from_dword : (b : Bool) (x : ℕ) → length (from_dword b x) ≡ 4
unfolding from_dword
length-from_dword true x = refl
length-from_dword false x = refl

pub length-from_qword : (b : Bool) (x : ℕ) → length (from_qword b x) ≡ 8
unfolding from_qword from_dword
length-from_qword true x = refl
length-from_qword false x = refl

module _ (host : Bool) where
  read_like-Ahead :
      (v : Value) (rest : Bytes) (d : DataInput)
      → Fits v
      → Ahead (encoding d.big_endian v) rest d
      → read_like host v d ≡ (some v, advanced (length (encoding d.big_endian v)) d)
  unfolding read_like encoding read_uint16 read_uint32 read_uint64 read_bool Fits
  read_like-Ahead (uint8 n) rest d f h = rw (read_uint8-Ahead n rest d h) refl
  read_like-Ahead (uint16 n) rest d f h =
      rw
        (
          read_n-size 2 _ rest d (length-from_word d.big_endian n) (omega arith) h,
          word_back host d.big_endian n f,
        )
        refl
  read_like-Ahead (uint32 n) rest d f h =
      rw
        (
          read_n-size 4 _ rest d (length-from_dword d.big_endian n) (omega arith) h,
          dword_back host d.big_endian n f,
        )
        refl
  read_like-Ahead (uint64 n) rest d f h =
      rw
        (
          read_n-size 8 _ rest d (length-from_qword d.big_endian n) (omega arith) h,
          qword_back host d.big_endian n f,
        )
        refl
  read_like-Ahead (boolean true) rest d f h = rw (read_bool-Ahead true rest d h) refl
  read_like-Ahead (boolean false) rest d f h = rw (read_bool-Ahead false rest d h) refl
  read_like-Ahead (text s) rest d f h = rw (read_string-Ahead s rest d h) refl

  module _ (b : Bool) where
    read_like-ordered :
        (v : Value) (rest : Bytes) (d : DataInput)
        → d.big_endian ≡ b
        → Fits v
        → Ahead (encoding b v) rest d
        → read_like host v d ≡ (some v, advanced (length (encoding b v)) d)
    read_like-ordered v rest d e =
        subst
          (λ b.
            Fits v
            → Ahead (encoding b v) rest d
            → read_like host v d ≡ (some v, advanced (length (encoding b v)) d))
          e (read_like-Ahead v rest d)

    pub advanced-big_endian :
        (n : ℕ) (d : DataInput) → d.big_endian ≡ b → (advanced n d).big_endian ≡ b
    unfolding advanced
    advanced-big_endian n d e = e

    -- Values whose bytes stand at the position of a stream in a good state are read, on either machine, and
    -- the stream is behind them then.
    pub read_all_like-Ahead :
        (vs : List Value) (rest : Bytes) (d : DataInput)
        → d.big_endian ≡ b
        → AllFit vs
        → Ahead (encodings b vs) rest d
        → read_all_like host vs d ≡ (some vs, advanced (length (encodings b vs)) d)
    unfolding read_all_like encodings AllFit Ahead
    read_all_like-Ahead [] rest d e f h = let still = advanced-zero d h.0 in simp still
    read_all_like-Ahead (v ∷ vs) rest d e (f, fs) h =
        let n = length (encoding b v) in
        let here : Ahead (encoding b v) (encodings b vs ++ rest) d =
          (h.0, h.1, h.2 ∙ append_assoc (encoding b v) (encodings b vs) rest) in
        let first = read_like-ordered v (encodings b vs ++ rest) d e f here in
        let next = advanced-Ahead (encoding b v) (encodings b vs) rest d h in
        let later =
          read_all_like-Ahead vs rest (advanced n d) (advanced-big_endian n d e) fs next in
        let total = length-append (encoding b v) (encodings b vs) in
        let both = advanced-advanced n (length (encodings b vs)) d in
        simp (read_all_like, first, later, total, both)
