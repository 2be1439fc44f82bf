-- ===== src/MessageDecoder/Chunks.antt =====
-- A stream that comes in pieces.
use xul.Prelude.{
  ℕ, ◌+◌, ◌≤◌, ◌≡◌, sym, ap, ◌∙◌, List, [], ◌∷◌, ◌++◌, append-nil, append_assoc, Bytes, length,
  arith, length-append, length-drop, suc, Bool, inr,
}
use xul.Prelude.Int.{pos}
use xul.MessageDecoder.{Reply, Decoder, feed, create}
use xul.MessageDecoder.Splitter.{IsSplitter, Splits, stop, cut, Splits-append, Splits-unique}
use xul.MessageDecoder.Loop.{empty_stops}
use xul.MessageDecoder.Stream.{holding, feed-GoesOn}

abbrev pub concat : List Bytes → Bytes
concat [] = []
concat (c ∷ chunks) = c ++ concat chunks

-- The calls of `feed` one after the other.
abbrev pub feed_all : (Bytes → Reply) → Decoder → List Bytes → Decoder
feed_all do_decode d [] = d
feed_all do_decode d (c ∷ chunks) = feed_all do_decode (feed do_decode d c).1 chunks

module _ {do_decode : Bytes → Reply} (laws : IsSplitter do_decode) where
  abbrev pub HoldsOf : ℕ → List Bytes → Bytes → Decoder → Type 0
  HoldsOf max ms stream d =
      (new : List Bytes) × (rest : Bytes) × Splits do_decode stream new rest
      × (d ≡ holding max rest (ms ++ new))

  pub rest_is_part :
      {s : Bytes} {ms : List Bytes} {r : Bytes} → Splits do_decode s ms r → length r ≤ length s
  rest_is_part (stop e) = omega arith
  rest_is_part (cut {bytes = bytes} {n = n} e h later) =
      omega (arith, rest_is_part later, length-drop (suc n) bytes)

  rest_stops :
      {s : Bytes} {ms : List Bytes} {r : Bytes}
      → Splits do_decode s ms r
      → (do_decode r).ret ≡ pos 0
  rest_stops (stop e) = e
  rest_stops (cut e h later) = rest_stops later

  feed_all_Holds :
      (max : ℕ) (ms : List Bytes) (rest : Bytes) (chunks : List Bytes)
      → (do_decode rest).ret ≡ pos 0
      → length rest + length (concat chunks) ≤ max
      → HoldsOf max ms (rest ++ concat chunks) (feed_all do_decode (holding max rest ms) chunks)
  feed_all_Holds max ms rest [] stops fits = (
    [],
    rest,
    rw (append-nil rest) (stop stops),
    ap (λ (t : List Bytes). holding max rest t) (sym (append-nil ms)),
  )
  feed_all_Holds max ms rest (c ∷ chunks) stops fits =
      let (new, r, splits, e) =
        feed-GoesOn laws max ms rest c
          (inr (omega (arith, length-append {A = ℕ} c (concat chunks)))) in
      let (new', r', splits', e') = feed_all_Holds max (ms ++ new) r chunks (rest_stops splits) (
        omega (
          arith,
          rest_is_part splits,
          length-append {A = ℕ} rest c,
          length-append {A = ℕ} c (concat chunks),
        )) in
      let joined : Splits do_decode ((rest ++ c) ++ concat chunks) (new ++ new') r' =
        Splits-append laws (concat chunks) splits splits' in
      (
        new ++ new',
        r',
        rw (append_assoc rest c (concat chunks)) at joined,
        ap (λ (t : Bool × Decoder). feed_all do_decode t.1 chunks) e
            ∙ e'
            ∙ ap (λ (t : List Bytes). holding max r' t) (append_assoc ms new new'),
      )

  pub feed_all-splits :
      (max : ℕ) (chunks : List Bytes)
      → length (concat chunks) ≤ max
      → HoldsOf max [] (concat chunks) (feed_all do_decode (create max) chunks)
  unfolding create
  feed_all-splits max chunks fits = feed_all_Holds max [] [] chunks (empty_stops laws) (omega arith)

  pub feed_all-Splits :
      (max : ℕ) (chunks ms : List Bytes) (rest : Bytes)
      → length (concat chunks) ≤ max
      → Splits do_decode (concat chunks) ms rest
      → feed_all do_decode (create max) chunks ≡ holding max rest ms
  feed_all-Splits max chunks ms rest fits splits =
      let (new, r, splits', e) = feed_all-splits max chunks fits in
      let (a, b) = Splits-unique do_decode splits' splits in
      e ∙ ap (λ (t : List Bytes). holding max r t) a ∙ ap (λ (t : Bytes). holding max t ms) b

  -- For a do_decode that cuts whole messages off the front of its data, never fails, is not
  -- aborted and is not changed by data that follows a whole message, two ways of cutting one
  -- stream that fits in the buffer into pieces leave the decoder in one state, the messages that
  -- the listener got included.
  pub feed_all-chunks :
      (max : ℕ) (xs ys : List Bytes)
      → concat xs ≡ concat ys
      → length (concat xs) ≤ max
      → feed_all do_decode (create max) xs ≡ feed_all do_decode (create max) ys
  feed_all-chunks max xs ys same fits =
      let (new, r, splits, e) = feed_all-splits max xs fits in
      e ∙ sym (feed_all-Splits max ys new r (rw (← same) fits) (rw (← same) splits))
