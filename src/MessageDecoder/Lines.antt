-- ===== src/MessageDecoder/Lines.antt =====
-- include/xul/io/codec/line_message_decoder.hpp: messages that end with a delimiter. `listener` says
-- whether the listener calls `abort` at a message.
use xul.Prelude.{
  ℕ, zero, suc, ◌+◌, ◌-◌, ◌^◌, ltb, map, ◌≤◌, ◌<◌, ◌≡◌, refl, sym, ap, ◌∙◌, Bool, true, false, List,
  [], ◌∷◌, ◌++◌, Bytes, length, take, drop, arith, if◌then◌else◌, ◌==◌, length-append, length-take,
  take-append-drop, append_assoc, All, inl, inr, ◌⊎◌,
}
use xul.Prelude.Int.{pos}
use xul.Prelude.Search.{search, search-le_length, search-fits, search-append, search-take}
use xul.MessageDecoder.{Reply, create}
use xul.MessageDecoder.Splitter.{IsSplitter, Splits, stop, cut}
use xul.MessageDecoder.Chunks.{feed_all, concat, feed_all-splits}
use xul.MessageDecoder.Stream.{holding}

-- What a `char` is promoted to where it is compared with a `uint8_t`, as the 32 bits of an `int`: the
-- `char` is signed, so that from 128 on it becomes a negative number.
unfoldable pub promoted : ℕ → ℕ
promoted c = if ltb c 128 then c else c + (2 ^ 32 - 2 ^ 8)

unfoldable pub do_decode : Bytes → (Bytes → Bool) → Bytes → Reply
do_decode delimiter listener bytes =
    let position = search bytes (map promoted delimiter) in
    let offset = position + length delimiter in
    if position == length bytes
    then record { ret = pos 0; messages = []; aborts = false }
    else record {
      ret = pos offset;
      messages = take offset bytes ∷ [];
      aborts = listener (take offset bytes);
    }

promoted-ascii :
    (delimiter : Bytes) → All (λ (c : ℕ). c < 128) delimiter → map promoted delimiter ≡ delimiter
unfolding promoted
promoted-ascii [] a = refl
promoted-ascii (c ∷ delimiter) (small, a) =
    let ascii : ltb c 128 ≡ true = ground arith in rw (ascii, promoted-ascii delimiter a) refl

module _ (delimiter : Bytes) (listener : Bytes → Bool) (some_delimiter : 0 < length delimiter)
    (ascii : All (λ (c : ℕ). c < 128) delimiter) (quiet : (m : Bytes) → listener m ≡ false) where
  take-append : (n : ℕ) (xs ys : Bytes) → n ≤ length xs → take n (xs ++ ys) ≡ take n xs
  take-append zero xs ys h = refl
  take-append (suc n) [] ys h = absurd (omega arith)
  take-append (suc n) (x ∷ xs) ys h = ap (λ (t : Bytes). x ∷ t) (take-append n xs ys (omega arith))

  -- What a call does, by what the search finds.
  not_found :
      (bytes : Bytes)
      → search bytes delimiter ≡ length bytes
      → do_decode delimiter listener bytes ≡ record { ret = pos 0; messages = []; aborts = false }
  unfolding do_decode
  not_found bytes e =
      let h : (search bytes delimiter == length bytes) ≡ true = ground arith in
      rw (promoted-ascii delimiter ascii, h) refl

  found :
      (bytes : Bytes)
      → search bytes delimiter < length bytes
      → do_decode delimiter listener bytes ≡ record {
        ret = pos (search bytes delimiter + length delimiter);
        messages = take (search bytes delimiter + length delimiter) bytes ∷ [];
        aborts = false;
      }
  unfolding do_decode
  found bytes e =
      let h : (search bytes delimiter == length bytes) ≡ false = ground arith in
      rw
        (
          promoted-ascii delimiter ascii,
          h,
          quiet (take (search bytes delimiter + length delimiter) bytes),
        )
        refl

  found-cases :
      (bytes : Bytes)
      → (search bytes delimiter ≡ length bytes) ⊎ (search bytes delimiter < length bytes)
  found-cases bytes = omega (arith, search-le_length bytes delimiter)

  found_of :
      (bytes : Bytes) (n : ℕ)
      → (do_decode delimiter listener bytes).ret ≡ pos (suc n)
      → search bytes delimiter < length bytes
  found_of bytes n e = elim (found-cases bytes) [
    | inl h ↦ absurd (ground (arith, sym (ap (λ (t : Reply). t.ret) (not_found bytes h)) ∙ e))
    | inr h ↦ h
  ]

  same_found :
      (bytes more : Bytes)
      → search bytes delimiter < length bytes
      → do_decode delimiter listener (bytes ++ more) ≡ do_decode delimiter listener bytes
  same_found bytes more h =
      let place : search (bytes ++ more) delimiter ≡ search bytes delimiter =
        search-append bytes more delimiter h in
      let within : search (bytes ++ more) delimiter < length (bytes ++ more) =
        omega (arith, place, length-append bytes more) in
      let line : take (search bytes delimiter + length delimiter) (bytes ++ more)
          ≡ take (search bytes delimiter + length delimiter) bytes =
        take-append (search bytes delimiter + length delimiter) bytes more
          (search-fits bytes delimiter h) in
      rw (found (bytes ++ more) within, found bytes h, place, line) refl

  pub do_decode-IsSplitter : IsSplitter (do_decode delimiter listener)
  do_decode-IsSplitter = record {
    takes = λ bytes. elim (found-cases bytes) [
      | inl h ↦ (0, ap (λ (t : Reply). t.ret) (not_found bytes h), omega arith)
      | inr h ↦ (
        search bytes delimiter + length delimiter,
        ap (λ (t : Reply). t.ret) (found bytes h),
        search-fits bytes delimiter h,
      )
    ];
    goes_on = λ bytes. elim (found-cases bytes) [
      | inl h ↦ ap (λ (t : Reply). t.aborts) (not_found bytes h)
      | inr h ↦ ap (λ (t : Reply). t.aborts) (found bytes h)
    ];
    waits = λ bytes e. elim (found-cases bytes) [
      | inl h ↦ ap (λ (t : Reply). t.messages) (not_found bytes h)
      | inr h ↦ absurd (ground (arith, sym (ap (λ (t : Reply). t.ret) (found bytes h)) ∙ e))
    ];
    stable = λ bytes more n e. same_found bytes more (found_of bytes n e);
  }

  -- A line: the delimiter comes first at its end.
  abbrev pub IsLine : Bytes → Type 0
  IsLine m = search m delimiter + length delimiter ≡ length m

  -- What the lines of a stream are.
  abbrev pub AreLines : Bytes → List Bytes → Bytes → Type 0
  AreLines stream ms rest =
      (concat ms ++ rest ≡ stream) × All IsLine ms × (search rest delimiter ≡ length rest)

  take-IsLine :
      (bytes : Bytes)
      → search bytes delimiter < length bytes
      → IsLine (take (search bytes delimiter + length delimiter) bytes)
  take-IsLine bytes h = omega (
    arith,
    search-take bytes delimiter h,
    search-fits bytes delimiter h,
    length-take (search bytes delimiter + length delimiter) bytes,
  )

  stops_at :
      (bytes : Bytes)
      → (do_decode delimiter listener bytes).ret ≡ pos 0
      → search bytes delimiter ≡ length bytes
  stops_at bytes e = elim (found-cases bytes) [
    | inl h ↦ h
    | inr h ↦ absurd (ground (arith, sym (ap (λ (t : Reply). t.ret) (found bytes h)) ∙ e))
  ]

  Splits-AreLines :
      {s : Bytes} {ms : List Bytes} {r : Bytes}
      → Splits (do_decode delimiter listener) s ms r
      → AreLines s ms r
  Splits-AreLines (stop {bytes = bytes} e) = (refl, tt, stops_at bytes e)
  Splits-AreLines (cut {bytes = bytes} {n = n} {later = later} {rest = rest} e h splits) =
      let here = found_of bytes n e in
      let (whole, lines, last) = Splits-AreLines splits in
      let k = search bytes delimiter + length delimiter in
      let size : suc n ≡ k =
        ground (arith, sym (ap (λ (t : Reply). t.ret) (found bytes here)) ∙ e) in
      rw (found bytes here) (
        append_assoc (take k bytes) (concat later) rest
            ∙ ap (λ (t : Bytes). take k bytes ++ t) (whole ∙ ap (λ (t : ℕ). drop t bytes) size)
            ∙ take-append-drop k bytes,
        (take-IsLine bytes here, lines),
        last,
      )

  -- Where the delimiter is not empty and all its characters are below 128, the listener never
  -- aborts and the whole stream fits in the buffer, the decoder of lines, fed a stream in any
  -- pieces, has handed out messages whose concatenation with the rest in its buffer is the stream;
  -- each message has the delimiter at its end and nowhere before, and the rest has none.
  pub feed_all-lines :
      (max : ℕ) (chunks : List Bytes)
      → length (concat chunks) ≤ max
      → (ms : List Bytes) × (rest : Bytes) × (feed_all
            (do_decode delimiter listener)
            (create max)
            chunks
          ≡ holding max rest ms)
        × AreLines (concat chunks) ms rest
  feed_all-lines max chunks fits =
      let (ms, rest, splits, e) = feed_all-splits do_decode-IsSplitter max chunks fits in
      (ms, rest, e, Splits-AreLines splits)
