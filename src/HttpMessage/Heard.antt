-- ===== src/HttpMessage/Heard.antt =====
-- What a listener of the decoder has heard.
use xul.Prelude.{
  suc, ◌≡◌, refl, sym, ap, ◌∙◌, true, List, [], ◌∷◌, ◌++◌, append-nil, append_assoc, Bytes, length,
  ltb, if◌then◌else◌, arith,
}
use xul.HttpMessage.{Response}
use xul.HttpMessage.Decoder.{Event, header, body, failure}
use xul.HttpMessage.Pieces.{joined}

-- The headers that were told, and the bytes of the bodies.
unfoldable pub headers_of : List Event → List Response
headers_of [] = []
headers_of (header r ∷ events) = r ∷ headers_of events
headers_of (body bytes ∷ events) = headers_of events
headers_of (failure n ∷ events) = headers_of events

unfoldable pub body_of : List Event → Bytes
body_of [] = []
body_of (header r ∷ events) = body_of events
body_of (body bytes ∷ events) = bytes ++ body_of events
body_of (failure n ∷ events) = body_of events

pub headers_of-append :
    (xs ys : List Event) → headers_of (xs ++ ys) ≡ headers_of xs ++ headers_of ys
unfolding headers_of
headers_of-append [] ys = refl
headers_of-append (header r ∷ xs) ys = ap (λ (t : List Response). r ∷ t) (headers_of-append xs ys)
headers_of-append (body bytes ∷ xs) ys = headers_of-append xs ys
headers_of-append (failure n ∷ xs) ys = headers_of-append xs ys

pub body_of-append : (xs ys : List Event) → body_of (xs ++ ys) ≡ body_of xs ++ body_of ys
unfolding body_of
body_of-append [] ys = refl
body_of-append (header r ∷ xs) ys = body_of-append xs ys
body_of-append (body bytes ∷ xs) ys =
    ap (λ (t : Bytes). bytes ++ t) (body_of-append xs ys)
    ∙ sym (append_assoc bytes (body_of xs) (body_of ys))
body_of-append (failure n ∷ xs) ys = body_of-append xs ys

unfoldable pub bodies : List (Bytes × Bytes) → List Event
bodies [] = []
bodies ((bytes, _) ∷ pieces) = body bytes ∷ bodies pieces

pub bodies-parts :
    (pieces : List (Bytes × Bytes))
    → (headers_of (bodies pieces) ≡ []) × (body_of (bodies pieces) ≡ joined pieces)
unfolding bodies headers_of body_of joined
bodies-parts [] = (refl, refl)
bodies-parts ((bytes, _) ∷ pieces) =
    let (h, b) = bodies-parts pieces in (h, ap (λ (t : Bytes). bytes ++ t) b)

-- What is told of the bytes behind the header.
unfoldable pub tail_of : Bytes → List Event
tail_of rest = if ltb 0 (length rest) then body rest ∷ [] else []

pub tail_of-parts :
    (rest : Bytes) → (headers_of (tail_of rest) ≡ []) × (body_of (tail_of rest) ≡ rest)
unfolding tail_of headers_of body_of
tail_of-parts [] = (refl, refl)
tail_of-parts (c ∷ rest) =
    let some_more : ltb 0 (suc (length rest)) ≡ true = ground arith in
    (rw some_more refl, rw some_more (append-nil (c ∷ rest)))
