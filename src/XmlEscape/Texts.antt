-- ===== src/XmlEscape/Texts.antt =====
-- The escaped text, character by character, and a reader of it.
use xul.Prelude.{
  ℕ, zero, suc, ◌+◌, ◌≤◌, ◌<◌, ◌≡◌, refl, sym, ap, ◌∙◌, ◌⊎◌, true, false, Option, none, some, List,
  [], ◌∷◌, ◌++◌, Bytes, All, All-append, codes, length, length-append, length-drop, take, drop,
  get_or, ◌==◌, if◌then◌else◌, Bool-cases, Option-cases, inl, inr, arith,
}
use xul.Prelude.Search.{starts_with}
use xul.Strings.Cuts.{next-none, next-some, next-zero}
use xul.Strings.Parts.{find_first_of, is_one_of}
use xul.XmlEscape.{characters, mapping, escape_char, write_loop, escape}

-- A character as it stands in the escaped text.
unfoldable pub escaped : ℕ → Bytes
escaped c = if is_one_of c characters then escape_char c else c ∷ []

unfoldable pub escaped_all : Bytes → Bytes
escaped_all [] = []
escaped_all (c ∷ s) = escaped c ++ escaped_all s

escaped_all-none : (s : Bytes) → find_first_of s characters ≡ none → escaped_all s ≡ s
unfolding find_first_of escaped_all escaped
escaped_all-none [] e = refl
escaped_all-none (c ∷ s) e = elim (Bool-cases (is_one_of c characters)) [
  | inl special ↦ absurd (ground (arith, e, special))
  | inr plain ↦
      let further = escaped_all-none s (next-none (find_first_of s characters) (rw plain at e)) in
      rw (plain, further) refl
]

escaped_all-some :
    (s : Bytes) (p : ℕ)
    → find_first_of s characters ≡ some p
    → (escaped_all s ≡ take p s ++ (escape_char (get_or s p 0) ++ escaped_all (drop (suc p) s)))
      × (p < length s)
unfolding find_first_of escaped_all escaped
escaped_all-some [] p e = absurd (ground (arith, e))
escaped_all-some (c ∷ s) zero e = elim (Bool-cases (is_one_of c characters)) [
  | inl special ↦ (rw special refl, omega arith)
  | inr plain ↦ absurd (next-zero (find_first_of s characters) (rw plain at e))
]
escaped_all-some (c ∷ s) (suc p) e = elim (Bool-cases (is_one_of c characters)) [
  | inl special ↦ absurd (ground (arith, e, special))
  | inr plain ↦
      let (further, within) =
        escaped_all-some s p (next-some (find_first_of s characters) p (rw plain at e)) in
      (rw (plain, further) refl, omega (arith, within))
]

write_loop-escaped :
    (fuel : ℕ) (rest : Bytes) → length rest < fuel → write_loop fuel rest ≡ escaped_all rest
unfolding write_loop
write_loop-escaped zero rest h = elim h [ ]
write_loop-escaped (suc fuel) rest h = elim (Option-cases (find_first_of rest characters)) [
  | inl nothing ↦ rw (write_loop, nothing) (sym (escaped_all-none rest nothing))
  | inr (p, e) ↦
      let (further, within) = escaped_all-some rest p e in
      let place : p + 1 ≡ suc p = omega arith in
      let more =
        write_loop-escaped fuel (drop (suc p) rest)
          (omega (arith, within, length-drop (suc p) rest)) in
      rw (write_loop, e, place, more, further) refl
]

pub escape-escaped : (s : Bytes) → escape s ≡ escaped_all s
unfolding escape
escape-escaped s = write_loop-escaped (length s + 1) s (omega arith)

-- The entities that XML defines beforehand.
unfoldable pub entities : List (Bytes × ℕ)
entities =
    (codes "&lt;", b'<')
    ∷ (codes "&gt;", b'>')
    ∷ (codes "&amp;", b'&')
    ∷ (codes "&apos;", b'\'')
    ∷ (codes "&quot;", b'"')
    ∷ []

-- The entity at the start of a text: its character, and its length.
unfoldable pub entity_at : List (Bytes × ℕ) → Bytes → Option (ℕ × ℕ)
entity_at [] text = none
entity_at ((entity, c) ∷ others) text =
    let rest = entity_at others text in
    if starts_with entity text then some (c, length entity) else rest

-- A reader of text with entities.
unfoldable pub unescape : ℕ → Bytes → Bytes
unescape zero text = []
unescape (suc fuel) [] = []
unescape (suc fuel) (c ∷ text) = elim (entity_at entities (c ∷ text)) [
  | none ↦ c ∷ unescape fuel text
  | some (ch, n) ↦ ch ∷ unescape fuel (drop n (c ∷ text))
]

special_one :
    (c : ℕ)
    → is_one_of c characters ≡ true
    → (c ≡ b'<') ⊎ ((c ≡ b'>') ⊎ ((c ≡ b'&') ⊎ ((c ≡ b'\'') ⊎ (c ≡ b'"'))))
unfolding is_one_of characters
special_one c h = ground (arith, h)

plain_one : (c : ℕ) → is_one_of c characters ≡ false → (b'&' == c) ≡ false
unfolding is_one_of characters
plain_one c h = ground (arith, h)

unescape_nothing : (fuel : ℕ) → unescape (suc fuel) [] ≡ []
unfolding unescape
unescape_nothing fuel = refl

some_escaped : (c : ℕ) → 1 ≤ length (escaped c)
unfolding escaped escape_char mapping is_one_of characters
some_escaped c = elim (Bool-cases (is_one_of c characters)) [
  | inl special ↦ elim (special_one c special) [
    | inl e ↦ rw e (omega arith)
    | inr (inl e) ↦ rw e (omega arith)
    | inr (inr (inl e)) ↦ rw e (omega arith)
    | inr (inr (inr (inl e))) ↦ rw e (omega arith)
    | inr (inr (inr (inr e))) ↦ rw e (omega arith)
  ]
  | inr plain ↦ rw plain (omega arith)
]

not_quoted : (c : ℕ) → is_one_of c characters ≡ false → is_one_of c (codes "<>'\"") ≡ false
unfolding is_one_of characters
not_quoted c h = ground (arith, h)

escaped-plain : (c : ℕ) → is_one_of c characters ≡ false → escaped c ≡ c ∷ []
unfolding escaped
escaped-plain c h = rw h refl

unescape-plain :
    (c fuel : ℕ) (text : Bytes)
    → (b'&' == c) ≡ false
    → unescape (suc fuel) (c ∷ text) ≡ c ∷ unescape fuel text
unfolding unescape entity_at entities starts_with
unescape-plain c fuel text amp = rw (unescape, amp) refl

-- What the reader takes for one character of the text.
unescape-escaped :
    (c fuel : ℕ) (text : Bytes) → unescape (suc fuel) (escaped c ++ text) ≡ c ∷ unescape fuel text
unfolding unescape escaped entity_at entities starts_with escape_char mapping is_one_of characters
unescape-escaped c fuel text = elim (Bool-cases (is_one_of c characters)) [
  | inl special ↦ elim (special_one c special) [
    | inl e ↦ rw e refl
    | inr (inl e) ↦ rw e refl
    | inr (inr (inl e)) ↦ rw e refl
    | inr (inr (inr (inl e))) ↦ rw e refl
    | inr (inr (inr (inr e))) ↦ rw e refl
  ]
  | inr plain ↦
      ap (λ (t : Bytes). unescape (suc fuel) (t ++ text)) (escaped-plain c plain)
      ∙ unescape-plain c fuel text (plain_one c plain)
]

unescape-escaped_all : (s : Bytes) (fuel : ℕ) → length s < fuel → unescape fuel (escaped_all s) ≡ s
unfolding escaped_all
unescape-escaped_all s zero h = absurd (omega arith)
unescape-escaped_all [] (suc fuel) h = unescape_nothing fuel
unescape-escaped_all (c ∷ s) (suc fuel) h =
    unescape-escaped c fuel (escaped_all s)
    ∙ ap (λ (t : Bytes). c ∷ t) (unescape-escaped_all s fuel (omega arith))

length-escaped_all : (s : Bytes) → length s ≤ length (escaped_all s)
unfolding escaped_all
length-escaped_all [] = omega arith
length-escaped_all (c ∷ s) =
    omega (arith, length-append (escaped c) (escaped_all s), length-escaped_all s, some_escaped c)

-- A text without angle brackets and quotation marks.
abbrev pub IsPlain : Bytes → Type 0
IsPlain text = All (λ (c : ℕ). is_one_of c (codes "<>'\"") ≡ false) text

escaped-IsPlain : (c : ℕ) → IsPlain (escaped c)
unfolding escaped escape_char mapping is_one_of characters
escaped-IsPlain c = elim (Bool-cases (is_one_of c characters)) [
  | inl special ↦ elim (special_one c special) [
    | inl e ↦ rw e (refl, (refl, (refl, (refl, tt))))
    | inr (inl e) ↦ rw e (refl, (refl, (refl, (refl, tt))))
    | inr (inr (inl e)) ↦ rw e (refl, (refl, (refl, (refl, (refl, tt)))))
    | inr (inr (inr (inl e))) ↦ rw e (refl, (refl, (refl, (refl, (refl, (refl, tt))))))
    | inr (inr (inr (inr e))) ↦ rw e (refl, (refl, (refl, (refl, (refl, (refl, tt))))))
  ]
  | inr plain ↦ rw plain (not_quoted c plain, tt)
]

escaped_all-IsPlain : (s : Bytes) → IsPlain (escaped_all s)
unfolding escaped_all
escaped_all-IsPlain [] = tt
escaped_all-IsPlain (c ∷ s) =
    All-append (λ (c : ℕ). is_one_of c (codes "<>'\"") ≡ false) (escaped c) (escaped_all s)
      (escaped-IsPlain c) (escaped_all-IsPlain s)

-- A reader of the five entities that XML defines beforehand reads the escaped text as the text
-- that was escaped, whatever its characters, and no angle bracket or quotation mark is left in it.
pub unescape-escape :
    (s : Bytes) → (unescape (length (escape s) + 1) (escape s) ≡ s) × IsPlain (escape s)
unescape-escape s = rw (escape-escaped s) (
  unescape-escaped_all s (length (escaped_all s) + 1) (omega (arith, length-escaped_all s)),
  escaped_all-IsPlain s,
)
