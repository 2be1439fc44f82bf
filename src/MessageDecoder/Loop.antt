-- ===== src/MessageDecoder/Loop.antt =====
-- What one run of `decode_buffer` does with a `do_decode` that cuts messages off.
use xul.Prelude.{
  drop-drop, ℕ, zero, suc, ◌+◌, ◌≤◌, ◌<◌, ◌≡◌, refl, sym, ap, ◌∙◌, false, Option, some, List, [],
  ◌∷◌, ◌++◌, append-nil, append_assoc, Bytes, map, length, drop, ltb, arith, length-drop, ◌⊎◌, inl,
  inr, lt→ltb,
}
use xul.Prelude.Int.{pos}
use xul.MessageDecoder.{Reply, Decoder, Event, message, decode_loop, notify}
use xul.MessageDecoder.Splitter.{IsSplitter, Splits, stop, cut}

abbrev pub hear : List Bytes → Decoder → Decoder
hear ms d = record d { events = d.events ++ map message ms }

pub map-append : (xs ys : List Bytes) → map message (xs ++ ys) ≡ map message xs ++ map message ys
map-append [] ys = refl
map-append (x ∷ xs) ys = ap (λ (t : List Event). message x ∷ t) (map-append xs ys)

pub hear-append : (ms next : List Bytes) (d : Decoder) → hear next (hear ms d) ≡ hear (ms ++ next) d
hear-append ms next d =
    ap (λ (t : List Event). record d { events = t })
      (rw (map-append ms next) (append_assoc d.events (map message ms) (map message next)))

hear-nothing : (d : Decoder) → d ≡ hear [] d
hear-nothing d = ap (λ (t : List Event). record d { events = t }) (sym (append-nil d.events))

module _ {do_decode : Bytes → Reply} (laws : IsSplitter do_decode) where
  open laws use {takes, goes_on, waits, stable}

  pub empty_stops : (do_decode []).ret ≡ pos 0
  empty_stops = ground (arith, takes [])

  takes-cases :
      (bytes : Bytes)
      → ((do_decode bytes).ret ≡ pos 0)
        ⊎ ((n : ℕ) × ((do_decode bytes).ret ≡ pos (suc n)) × (suc n ≤ length bytes))
  takes-cases bytes = cases (takes bytes)
    where
      cases :
          ((n : ℕ) × ((do_decode bytes).ret ≡ pos n) × (n ≤ length bytes))
          → ((do_decode bytes).ret ≡ pos 0)
            ⊎ ((n : ℕ) × ((do_decode bytes).ret ≡ pos (suc n)) × (suc n ≤ length bytes))
      cases (zero, e, h) = inl e
      cases (suc n, e, h) = inr (n, e, h)

  told_as :
      (d : Decoder) (bytes : Bytes) → notify (do_decode bytes) d ≡ hear (do_decode bytes).messages d
  unfolding notify
  told_as d bytes = rw (goes_on bytes) refl

  loop_end :
      (fuel : ℕ) (d : Decoder) (bytes : Bytes) (processed size : ℕ)
      → size ≤ processed
      → decode_loop do_decode fuel d bytes processed size ≡ (d, some processed)
  unfolding decode_loop
  loop_end zero d bytes processed size h = refl
  loop_end (suc fuel) d bytes processed size h =
      let e : ltb processed size ≡ false = ground arith in rw e refl

  loop_wait :
      (fuel : ℕ) (d : Decoder) (bytes : Bytes) (processed size : ℕ)
      → d.aborted ≡ false
      → processed < size
      → (do_decode bytes).ret ≡ pos 0
      → decode_loop do_decode (suc fuel) d bytes processed size ≡ (hear [] d, some processed)
  unfolding decode_loop
  loop_wait fuel d bytes processed size ok h e =
      simp (lt→ltb processed size h, ok, e, told_as d bytes, waits bytes e)

  loop_take :
      (fuel : ℕ) (d : Decoder) (bytes : Bytes) (processed size n : ℕ)
      → d.aborted ≡ false
      → processed < size
      → (do_decode bytes).ret ≡ pos (suc n)
      → decode_loop do_decode (suc fuel) d bytes processed size
        ≡ decode_loop do_decode fuel
            (hear (do_decode bytes).messages d)
            (drop (suc n) bytes)
            (processed + suc n)
            size
  unfolding decode_loop
  loop_take fuel d bytes processed size n ok h e =
      simp (lt→ltb processed size h, ok, e, told_as d bytes)

  -- What the loop does: it takes the first `k` bytes, and the listener hears the messages in them.
  abbrev pub Decoded : Bytes → Decoder → ℕ → Decoder × Option ℕ → Type 0
  Decoded bytes d processed result =
      (k : ℕ) × (ms : List Bytes) × (k ≤ length bytes)
      × Splits do_decode bytes ms (drop k bytes)
      × (result ≡ (hear ms d, some (processed + k)))

  no_more :
      (d e : Decoder) (bytes : Bytes) (processed : ℕ)
      → (do_decode bytes).ret ≡ pos 0
      → e ≡ hear [] d
      → Decoded bytes d processed (e, some processed)
  no_more d e bytes processed stops same =
      let place : processed ≡ processed + 0 = omega arith in
      (
        0,
        [],
        omega arith,
        stop stops,
        ap (λ (t : Decoder). (t, some processed)) same ∙ ap (λ (t : ℕ). (hear [] d, some t)) place,
      )

  one_more :
      (d : Decoder) (bytes : Bytes) (processed n : ℕ) (result : Decoder × Option ℕ)
      → (do_decode bytes).ret ≡ pos (suc n)
      → suc n ≤ length bytes
      → Decoded (drop (suc n) bytes) (hear (do_decode bytes).messages d) (processed + suc n) result
      → Decoded bytes d processed result
  one_more d bytes processed n result e h (k, ms, within, splits, run) = (
    suc n + k,
    (do_decode bytes).messages ++ ms,
    omega (arith, length-drop (suc n) bytes),
    cut e h (rw (drop-drop (suc n) k bytes) at splits),
    run
        ∙ ap (λ (t : Decoder). (t, some (processed + suc n + k)))
            (hear-append (do_decode bytes).messages ms d)
        ∙ ap (λ (t : ℕ). (hear ((do_decode bytes).messages ++ ms) d, some t)) place,
  )
    where
      place : processed + suc n + k ≡ processed + (suc n + k)
      place = omega arith

  pub loop_Decoded :
      (fuel : ℕ) (d : Decoder) (bytes : Bytes) (processed size : ℕ)
      → d.aborted ≡ false
      → processed + length bytes ≡ size
      → length bytes ≤ fuel
      → Decoded bytes d processed (decode_loop do_decode fuel d bytes processed size)
  loop_Decoded fuel d [] processed size ok total enough =
      rw (loop_end fuel d [] processed size (omega arith))
        (no_more d d [] processed empty_stops (hear-nothing d))
  loop_Decoded zero d (x ∷ bytes) processed size ok total enough = absurd (omega arith)
  loop_Decoded (suc fuel) d (x ∷ bytes) processed size ok total enough =
      elim (takes-cases (x ∷ bytes)) [
        | inl e ↦
            rw (loop_wait fuel d (x ∷ bytes) processed size ok (omega arith) e)
              (no_more d (hear [] d) (x ∷ bytes) processed e refl)
        | inr t ↦
            let (n, e, h) = t in
            let run =
              loop_Decoded fuel (hear (do_decode (x ∷ bytes)).messages d) (drop (suc n) (x ∷ bytes))
                (processed + suc n) size ok (omega (arith, length-drop n bytes))
                (omega (arith, length-drop n bytes)) in
            rw (loop_take fuel d (x ∷ bytes) processed size n ok (omega arith) e)
              (one_more d (x ∷ bytes) processed n _ e h run)
      ]
