-- ===== src/MessageDecoder/Stream.antt =====
-- `feed` appends to the stream: what the listener gets does not depend on how the stream comes.
use xul.Prelude.{
  ℕ, zero, suc, ◌+◌, ◌≤◌, ◌≡◌, ◌≢◌, refl, sym, ap, ◌∙◌, Bool, true, false, some, List, [], ◌∷◌,
  ◌++◌, append-nil, append_assoc, Bytes, map, length, drop, ltb, arith, ◌⊎◌, inl, inr,
}
use xul.MessageDecoder.{
  Reply, Decoder, Event, message, decode_buffer, decode_kept, feed, check_buffer, is_empty,
}
use xul.MessageDecoder.Splitter.{IsSplitter, Splits, stop, Splits-append}
use xul.MessageDecoder.Loop.{hear, map-append, loop_Decoded, empty_stops}

-- A decoder that holds what is left of a stream, whose messages the listener has got.
abbrev pub holding : ℕ → Bytes → List Bytes → Decoder
holding max rest ms = record {
  buffer = rest;
  position = 0;
  max_buffer_size = max;
  aborted = false;
  events = map message ms;
}

hear-holding :
    (max : ℕ) (rest : Bytes) (ms new : List Bytes)
    → hear new (holding max rest ms) ≡ holding max rest (ms ++ new)
hear-holding max rest ms new =
    ap (λ (t : List Event). record (holding max rest ms) { events = t }) (sym (map-append ms new))

drop-length : (n : ℕ) (xs : Bytes) → length xs ≤ n → drop n xs ≡ []
drop-length zero [] h = refl
drop-length (suc n) [] h = refl
drop-length zero (x ∷ xs) h = absurd (omega arith)
drop-length (suc n) (x ∷ xs) h = drop-length n xs (omega arith)

module _ {do_decode : Bytes → Reply} (laws : IsSplitter do_decode) where
  -- What a call does with `bytes`, all that is there: the result and the decoder after it.
  abbrev pub GoesOn : ℕ → List Bytes → Bytes → Bool × Decoder → Type 0
  GoesOn max ms bytes result =
      (new : List Bytes) × (rest : Bytes) × Splits do_decode bytes new rest
      × (result ≡ (is_empty rest, holding max rest (ms ++ new)))

  -- The state after `processed` bytes of the buffer.
  moved : Decoder → ℕ → Decoder
  moved d processed = check_buffer (record d { position = d.position + processed })

  after_check :
      (max k : ℕ) (b : Bytes) (ms : List Bytes)
      → k ≤ length b
      → moved (holding max b ms) k ≡ holding max (drop k b) ms
  unfolding check_buffer moved
  after_check max zero b ms h = refl
  after_check max (suc k) b ms h = ground arith

  buffer_decodes :
      (max : ℕ) (b : Bytes) (ms : List Bytes) (bytes : Bytes)
      → (k : ℕ) × (new : List Bytes) × (k ≤ length bytes)
        × Splits do_decode bytes new (drop k bytes)
        × (decode_buffer do_decode (holding max b ms) bytes ≡ (holding max b (ms ++ new), some k))
  unfolding decode_buffer
  buffer_decodes max b ms bytes =
      let (k, new, within, splits, run) =
        loop_Decoded laws (length bytes) (holding max b ms) bytes 0 (length bytes) refl
          (omega arith) (omega arith) in
      let place : 0 + k ≡ k = omega arith in
      (
        k,
        new,
        within,
        splits,
        run
            ∙ ap (λ (t : Decoder). (t, some (0 + k))) (hear-holding max b ms new)
            ∙ ap (λ (t : ℕ). (holding max b (ms ++ new), some t)) place,
      )

  kept_step :
      (d after : Decoder) (processed : ℕ)
      → is_empty d.buffer ≡ false
      → decode_buffer do_decode d d.buffer ≡ (after, some processed)
      → decode_kept do_decode d ≡ (is_empty (moved after processed).buffer, moved after processed)
  unfolding decode_kept moved
  kept_step d after processed h e = simp (h, e)

  kept-GoesOn :
      (max : ℕ) (ms : List Bytes) (b : Bytes)
      → GoesOn max ms b (decode_kept do_decode (holding max b ms))
  kept-GoesOn max ms [] = (
    [],
    [],
    stop (empty_stops laws),
    unfold decode_kept in ap (λ (t : List Bytes). (true, holding max [] t)) (sym (append-nil ms)),
  )
  kept-GoesOn max ms (x ∷ b) =
      let (k, new, within, splits, run) = buffer_decodes max (x ∷ b) ms (x ∷ b) in
      (
        new,
        drop k (x ∷ b),
        splits,
        kept_step (holding max (x ∷ b) ms) (holding max (x ∷ b) (ms ++ new)) k refl run
            ∙ ap (λ (t : Decoder). (is_empty t.buffer, t))
                (after_check max k (x ∷ b) (ms ++ new) within),
      )

  direct_step :
      (max k : ℕ) (ms new : List Bytes) (bytes : Bytes)
      → decode_buffer do_decode (holding max [] ms) bytes ≡ (holding max [] new, some k)
      → feed do_decode (holding max [] ms) bytes
        ≡ decode_kept do_decode (holding max (drop k bytes) new)
  unfolding feed check_buffer
  direct_step max k ms new bytes e = simp e (ground (arith, drop-length k bytes))

  kept_more :
      (max : ℕ) (ms : List Bytes) (rest bytes : Bytes)
      → is_empty rest ≡ false
      → length rest + length bytes ≤ max
      → feed do_decode (holding max rest ms) bytes
        ≡ decode_kept do_decode (holding max (rest ++ bytes) ms)
  unfolding feed check_buffer
  kept_more max ms rest bytes h fits =
      let small : ltb max (length rest + length bytes) ≡ false = ground arith in rw (h, small) refl

  -- What is there fits in the buffer, or the buffer is empty: then the data is not limited.
  pub feed-GoesOn :
      (max : ℕ) (ms : List Bytes) (rest bytes : Bytes)
      → (rest ≡ []) ⊎ (length rest + length bytes ≤ max)
      → GoesOn max ms (rest ++ bytes) (feed do_decode (holding max rest ms) bytes)
  feed-GoesOn max ms [] bytes h =
      let (k, new, within, splits, run) = buffer_decodes max [] ms bytes in
      let (new', rest, splits', e) = kept-GoesOn max (ms ++ new) (drop k bytes) in
      let joined : Splits do_decode (bytes ++ []) (new ++ new') rest =
        Splits-append laws [] splits (rw (append-nil (drop k bytes)) splits') in
      (
        new ++ new',
        rest,
        rw (append-nil bytes) at joined,
        direct_step max k ms (ms ++ new) bytes run
            ∙ e
            ∙ ap (λ (t : List Bytes). (is_empty rest, holding max rest t))
                (append_assoc ms new new'),
      )
  feed-GoesOn max ms (x ∷ rest) bytes (inl e) = absurd (nonempty e)
    where
      nonempty : (x ∷ rest) ≢ []
      nonempty e = ground arith
  feed-GoesOn max ms (x ∷ rest) bytes (inr fits) =
      rw (kept_more max ms (x ∷ rest) bytes refl fits) (kept-GoesOn max ms (x ∷ rest ++ bytes))
