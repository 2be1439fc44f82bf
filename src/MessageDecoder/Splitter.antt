-- ===== src/MessageDecoder/Splitter.antt =====
-- A `do_decode` that cuts messages off the front of a stream, and how it cuts a stream.
use xul.Prelude.{
  ℕ, zero, suc, ◌≤◌, ◌≡◌, refl, sym, ap, false, List, [], ◌∷◌, ◌++◌, append_assoc, Bytes, length,
  drop, arith, length-append,
}
use xul.Prelude.Int.{pos}
use xul.MessageDecoder.{Reply}

-- It never fails, no listener aborts, it takes no more than there is, it hands out nothing before a
-- message is whole, and what comes after a message that is whole does not change it.
pub record IsSplitter (do_decode : Bytes → Reply) : Type 0 where
  pub takes : (bytes : Bytes) → (n : ℕ) × ((do_decode bytes).ret ≡ pos n) × (n ≤ length bytes)
  pub goes_on : (bytes : Bytes) → (do_decode bytes).aborts ≡ false
  pub waits : (bytes : Bytes) → (do_decode bytes).ret ≡ pos 0 → (do_decode bytes).messages ≡ []
  pub stable :
      (bytes more : Bytes) (n : ℕ)
      → (do_decode bytes).ret ≡ pos (suc n)
      → do_decode (bytes ++ more) ≡ do_decode bytes

-- `Splits do_decode stream messages rest`: what is cut off the stream, and what is left of it.
pub data Splits (do_decode : Bytes → Reply) : Bytes → List Bytes → Bytes → Type 0 where
  stop : {bytes : Bytes} → (do_decode bytes).ret ≡ pos 0 → Splits do_decode bytes [] bytes
  cut :
      {bytes : Bytes} {n : ℕ} {later : List Bytes} {rest : Bytes}
      → (do_decode bytes).ret ≡ pos (suc n)
      → suc n ≤ length bytes
      → Splits do_decode (drop (suc n) bytes) later rest
      → Splits do_decode bytes ((do_decode bytes).messages ++ later) rest

drop-append : (n : ℕ) (xs ys : Bytes) → n ≤ length xs → drop n (xs ++ ys) ≡ drop n xs ++ ys
drop-append zero xs ys h = refl
drop-append (suc n) [] ys h = absurd (omega arith)
drop-append (suc n) (x ∷ xs) ys h = drop-append n xs ys (omega arith)

module _ {do_decode : Bytes → Reply} where
  cut_as :
      {bytes tail : Bytes} {n : ℕ} {ms later : List Bytes} {rest : Bytes}
      → (do_decode bytes).ret ≡ pos (suc n)
      → suc n ≤ length bytes
      → drop (suc n) bytes ≡ tail
      → Splits do_decode tail later rest
      → (do_decode bytes).messages ++ later ≡ ms
      → Splits do_decode bytes ms rest
  cut_as {bytes = bytes} {later = later} {rest = rest} e h d splits ms =
      rw (← ms) (cut e h (rw d splits))

module _ {do_decode : Bytes → Reply} (laws : IsSplitter do_decode) where
  open laws use {takes, goes_on, waits, stable}

  -- A stream may be cut as it comes: first what is there, then the rest with what follows.
  pub Splits-append :
      {s : Bytes} {ms : List Bytes} {r : Bytes} (more : Bytes) {ms' : List Bytes} {r' : Bytes}
      → Splits do_decode s ms r
      → Splits do_decode (r ++ more) ms' r'
      → Splits do_decode (s ++ more) (ms ++ ms') r'
  Splits-append more (stop e) later = later
  Splits-append more {ms' = ms'} (cut {bytes = bytes} {n = n} {later = next} e h first) later =
      let same : do_decode (bytes ++ more) ≡ do_decode bytes = stable bytes more n e in
      cut_as (rw (same) e) (omega (arith, h, length-append bytes more))
        (drop-append (suc n) bytes more h) (Splits-append more first later)
        (rw (same) (sym (append_assoc (do_decode bytes).messages next ms')))

-- One stream is cut in one way.
pub Splits-unique :
    (do_decode : Bytes → Reply) {s : Bytes} {ms ms' : List Bytes} {r r' : Bytes}
    → Splits do_decode s ms r
    → Splits do_decode s ms' r'
    → (ms ≡ ms') × (r ≡ r')
Splits-unique do_decode (stop e) (stop e') = (refl, refl)
Splits-unique do_decode (stop e) (cut e' h' later') = absurd (ground (arith, e, e'))
Splits-unique do_decode (cut e h later) (stop e') = absurd (ground (arith, e, e'))
Splits-unique do_decode (cut {bytes = bytes} {n = n} {later = next} {rest = rest} e h later)
      (cut {n = n'} {later = next'} {rest = rest'} e' h' later') =
    let same : n ≡ n' = ground (arith, e, e') in
    let (a, b) = Splits-unique do_decode later (rw (← same) at later') in
    (ap (λ (t : List Bytes). (do_decode bytes).messages ++ t) a, b)
