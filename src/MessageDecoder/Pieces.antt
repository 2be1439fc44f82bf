-- ===== src/MessageDecoder/Pieces.antt =====
-- The data codec over a stream that comes in pieces, by way of the message decoder.
use xul.Prelude.{
  ℕ, zero, suc, ◌+◌, ◌≤◌, ◌≡◌, refl, sym, ap, ◌∙◌, inl, inr, Bool, true, false, Option, some, List,
  [], ◌∷◌, ◌++◌, Bytes, map, length, length-append, drop, ltb, Bool-cases, Option-cases, arith,
}
use xul.Prelude.Int.{pos}
use xul.MessageDecoder as decoder
use xul.MessageDecoder.{Reply, Decoder, Event, message, error, is_empty}
use xul.MessageDecoder.Splitter.{IsSplitter}
use xul.MessageDecoder.Loop.{map-append}
use xul.MessageDecoder.Stream.{holding, feed-GoesOn}
use xul.MessageDecoder.Chunks.{concat, feed_all, feed_all-chunks, rest_is_part}
use xul.MessageDecoder.DataCodec as codec
use xul.MessageDecoder.DataCodec.{Decoded, Codec}

-- A codec that holds what is left of a stream, and what it has handed out.
abbrev held : ℕ → Bytes → List Bytes → Codec
held max rest outs = record { buffer = rest; position = 0; max_buffer_size = max; outputs = outs }

-- A message decoder in the same state, whose listener never aborts.
unfoldable pub as_decoder : Codec → Decoder
as_decoder c = record {
  buffer = c.buffer;
  position = c.position;
  max_buffer_size = c.max_buffer_size;
  aborted = false;
  events = map message c.outputs;
}

texts : List Event → List Bytes
texts [] = []
texts (message m ∷ events) = m ∷ texts events
texts (error n ∷ events) = texts events

texts-message : (outs : List Bytes) → texts (map message outs) ≡ outs
unfolding texts
texts-message [] = refl
texts-message (x ∷ outs) = ap (λ (t : List Bytes). x ∷ t) (texts-message outs)

codec_of : Decoder → Codec
codec_of d = record {
  buffer = d.buffer;
  position = d.position;
  max_buffer_size = d.max_buffer_size;
  outputs = texts d.events;
}

codec_of-as_decoder : (c : Codec) → codec_of (as_decoder c) ≡ c
unfolding codec_of as_decoder
codec_of-as_decoder c = ap (λ (t : List Bytes). record c { outputs = t }) (texts-message c.outputs)

from_decoder : (c d : Codec) → as_decoder c ≡ as_decoder d → c ≡ d
from_decoder c d e =
    sym (codec_of-as_decoder c) ∙ ap (λ (t : Decoder). codec_of t) e ∙ codec_of-as_decoder d

as_held :
    (c : Codec) (max : ℕ) (rest : Bytes) (outs : List Bytes)
    → as_decoder c ≡ holding max rest outs
    → c ≡ held max rest outs
unfolding as_decoder
as_held c max rest outs e = from_decoder c (held max rest outs) e

abbrev pub as_reply : Decoded → Reply
as_reply d = record { ret = d.ret; messages = d.handed; aborts = false }

told-same :
    (d : Decoded) (c : Codec)
    → decoder.notify (as_reply d) (as_decoder c) ≡ as_decoder (codec.hand d c)
unfolding decoder.notify as_decoder codec.hand
told-same d c = let both = map-append c.outputs d.handed in simp both

check_buffer-same :
    (c : Codec) → decoder.check_buffer (as_decoder c) ≡ as_decoder (codec.check_buffer c)
unfolding decoder.check_buffer as_decoder codec.check_buffer
check_buffer-same c = elim (Bool-cases (ltb 0 c.position)) [
  | inl moved ↦ simp moved
  | inr still ↦ simp still
]

module _ (decode_once : Bytes → Decoded) where
  abbrev pub do_decode : Bytes → Reply
  do_decode bytes = as_reply (decode_once bytes)

  abbrev pair_as : Codec × Option ℕ → Decoder × Option ℕ
  pair_as (c, decoded) = (as_decoder c, decoded)

  -- A round that stops, and one that goes on, of either loop.
  module _ (fuel : ℕ) (c : Codec) (bytes : Bytes) (processed size : ℕ)
      (more : ltb processed size ≡ true) where
    abbrev told : Codec
    told = codec.hand (decode_once bytes) c

    decoder_stops :
        (decode_once bytes).ret ≡ pos 0
        → decoder.decode_loop do_decode (suc fuel) (as_decoder c) bytes processed size
          ≡ (as_decoder told, some processed)
    unfolding decoder.decode_loop as_decoder decoder.notify codec.hand
    decoder_stops e = let same = told-same (decode_once bytes) c in simp (more, e, same)

    codec_stops :
        (decode_once bytes).ret ≡ pos 0
        → codec.decode_loop decode_once (suc fuel) c bytes processed size ≡ (told, some processed)
    unfolding codec.decode_loop
    codec_stops e = simp (more, e)

    decoder_goes :
        (n : ℕ)
        → (decode_once bytes).ret ≡ pos (suc n)
        → decoder.decode_loop do_decode (suc fuel) (as_decoder c) bytes processed size
          ≡ decoder.decode_loop do_decode fuel
              (as_decoder told)
              (drop (suc n) bytes)
              (processed + suc n)
              size
    unfolding decoder.decode_loop as_decoder decoder.notify codec.hand
    decoder_goes n e = let same = told-same (decode_once bytes) c in simp (more, e, same)

    codec_goes :
        (n : ℕ)
        → (decode_once bytes).ret ≡ pos (suc n)
        → codec.decode_loop decode_once (suc fuel) c bytes processed size
          ≡ codec.decode_loop decode_once fuel told (drop (suc n) bytes) (processed + suc n) size
    unfolding codec.decode_loop
    codec_goes n e = simp (more, e)

  module _ (forward : (bytes : Bytes) → (n : ℕ) × ((decode_once bytes).ret ≡ pos n)) where
    decode_loop-same :
        (fuel : ℕ) (c : Codec) (bytes : Bytes) (processed size : ℕ)
        → decoder.decode_loop do_decode fuel (as_decoder c) bytes processed size
          ≡ pair_as (codec.decode_loop decode_once fuel c bytes processed size)
    unfolding decoder.decode_loop codec.decode_loop
    decode_loop-same zero c bytes processed size = refl
    decode_loop-same (suc fuel) c bytes processed size = elim (Bool-cases (ltb processed size)) [
      | inr done ↦ simp done
      | inl more ↦
          let (n, e) = forward bytes in
          by_result more n e (λ n.
            decode_loop-same fuel (codec.hand (decode_once bytes) c) (drop (suc n) bytes)
              (processed + suc n) size)
    ]
      where
        by_result :
            ltb processed size ≡ true
            → (n : ℕ) → (decode_once bytes).ret ≡ pos n
            → ((n : ℕ)
                → decoder.decode_loop do_decode fuel
                    (as_decoder (codec.hand (decode_once bytes) c))
                    (drop (suc n) bytes)
                    (processed + suc n)
                    size
                  ≡ pair_as (
                      codec.decode_loop decode_once fuel
                        (codec.hand (decode_once bytes) c)
                        (drop (suc n) bytes)
                        (processed + suc n)
                        size))
            → decoder.decode_loop do_decode (suc fuel) (as_decoder c) bytes processed size
              ≡ pair_as (codec.decode_loop decode_once (suc fuel) c bytes processed size)
        by_result more zero e rest =
            decoder_stops fuel c bytes processed size more e
            ∙ sym (
                ap (λ (t : Codec × Option ℕ). pair_as t)
                  (codec_stops fuel c bytes processed size more e))
        by_result more (suc n) e rest =
            decoder_goes fuel c bytes processed size more n e
            ∙ rest n
            ∙ sym (
                ap (λ (t : Codec × Option ℕ). pair_as t)
                  (codec_goes fuel c bytes processed size more n e))

    decode_buffer-same :
        (c : Codec) (bytes : Bytes)
        → decoder.decode_buffer do_decode (as_decoder c) bytes
          ≡ pair_as (codec.decode_buffer decode_once c bytes)
    unfolding decoder.decode_buffer codec.decode_buffer
    decode_buffer-same c bytes = decode_loop-same (length bytes) c bytes 0 (length bytes)

    decode_kept-same :
        (c : Codec)
        → (decoder.decode_kept do_decode (as_decoder c)).1
          ≡ as_decoder (codec.decode_kept decode_once c).1
    unfolding decoder.decode_kept codec.decode_kept as_decoder
    decode_kept-same c =
        let same = decode_buffer-same c c.buffer in
        elim (Bool-cases (is_empty c.buffer)) [
          | inl empty ↦ simp empty
          | inr some_bytes ↦ elim (Option-cases (codec.decode_buffer decode_once c c.buffer).1) [
            | inl failed ↦ simp (some_bytes, same, failed)
            | inr t ↦
                let (processed, e) = t in
                let after = (codec.decode_buffer decode_once c c.buffer).0 in
                let moved =
                  check_buffer-same (record after { position = after.position + processed }) in
                simp (some_bytes, same, e) moved
          ]
        ]

    feed_empty :
        (max : ℕ) (outs : List Bytes) (bytes : Bytes)
        → (decoder.feed do_decode (as_decoder (held max [] outs)) bytes).1
          ≡ as_decoder (codec.feed decode_once (held max [] outs) bytes).1
    unfolding decoder.feed codec.feed decoder.check_buffer codec.check_buffer as_decoder
    feed_empty max outs bytes =
        let same = decode_buffer-same (held max [] outs) bytes in
        let after = (codec.decode_buffer decode_once (held max [] outs) bytes).0 in
        elim (Option-cases (codec.decode_buffer decode_once (held max [] outs) bytes).1) [
          | inl failed ↦ simp (same, failed)
          | inr t ↦
              let (processed, e) = t in
              elim (Bool-cases (ltb processed (length bytes))) [
                | inl more ↦
                    simp (same, e, more)
                      (decode_kept-same
                        (record after { buffer = after.buffer ++ drop processed bytes }))
                | inr all ↦ simp (same, e, all) (decode_kept-same after)
              ]
        ]

    feed_more :
        (max x : ℕ) (rest : Bytes) (outs : List Bytes) (bytes : Bytes)
        → suc (length rest) + length bytes ≤ max
        → (decoder.feed do_decode (as_decoder (held max (x ∷ rest) outs)) bytes).1
          ≡ as_decoder (codec.feed decode_once (held max (x ∷ rest) outs) bytes).1
    unfolding decoder.feed codec.feed decoder.check_buffer codec.check_buffer as_decoder
    feed_more max x rest outs bytes fits =
        let small : ltb max (suc (length rest) + length bytes) ≡ false = ground arith in
        rw small (decode_kept-same (held max (x ∷ rest ++ bytes) outs))

    feed-held :
        (max : ℕ) (rest : Bytes) (outs : List Bytes) (bytes : Bytes)
        → length rest + length bytes ≤ max
        → (decoder.feed do_decode (as_decoder (held max rest outs)) bytes).1
          ≡ as_decoder (codec.feed decode_once (held max rest outs) bytes).1
    feed-held max [] outs bytes fits = feed_empty max outs bytes
    feed-held max (x ∷ rest) outs bytes fits = feed_more max x rest outs bytes fits

  module _ (laws : IsSplitter do_decode) where
    forward_of : (bytes : Bytes) → (n : ℕ) × ((decode_once bytes).ret ≡ pos n)
    forward_of bytes = let (n, e, h) = laws.takes bytes in (n, e)

    feed_each-held :
        (max : ℕ) (rest : Bytes) (outs : List Bytes) (pieces : List Bytes)
        → length rest + length (concat pieces) ≤ max
        → as_decoder (codec.feed_each decode_once (held max rest outs) pieces)
          ≡ feed_all do_decode (holding max rest outs) pieces
    unfolding codec.feed_each as_decoder
    feed_each-held max rest outs [] fits = refl
    feed_each-held max rest outs (bytes ∷ pieces) fits =
        let long = length-append {A = ℕ} bytes (concat pieces) in
        let (new, r, splits, e) =
          feed-GoesOn laws max outs rest bytes (inr (omega (arith, long))) in
        let state : as_decoder (codec.feed decode_once (held max rest outs) bytes).1
            ≡ holding max r (outs ++ new) =
          sym (feed-held forward_of max rest outs bytes (omega (arith, long)))
          ∙ ap (λ (t : Bool × Decoder). t.1) e in
        let next =
          as_held (codec.feed decode_once (held max rest outs) bytes).1 max r (outs ++ new) state in
        let small : length r + length (concat pieces) ≤ max =
          omega (arith, long, rest_is_part laws splits, length-append {A = ℕ} rest bytes) in
        ap (λ (t : Codec). as_decoder (codec.feed_each decode_once t pieces)) next
        ∙ feed_each-held max r (outs ++ new) pieces small
        ∙ ap (λ (t : Bool × Decoder). feed_all do_decode t.1 pieces) (sym e)

    -- For a decode_once that cuts whole units off the front of its data, never fails and is not
    -- changed by data that follows a whole unit, two ways of cutting one stream that fits in the
    -- buffer into pieces leave the data codec in one state, what it has handed to the callback
    -- included.
    pub feed_each-pieces :
        (max : ℕ) (xs ys : List Bytes)
        → concat xs ≡ concat ys
        → length (concat xs) ≤ max
        → codec.feed_each decode_once (codec.create max) xs
          ≡ codec.feed_each decode_once (codec.create max) ys
    unfolding codec.create decoder.create
    feed_each-pieces max xs ys same fits =
        let left = feed_each-held max [] [] xs (omega arith) in
        let right =
          feed_each-held max [] [] ys (omega (arith, ap (λ (t : Bytes). length t) same)) in
        let both = feed_all-chunks laws max xs ys same fits in
        from_decoder _ _ (left ∙ both ∙ sym right)
