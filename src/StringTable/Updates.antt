-- ===== src/StringTable/Updates.antt =====
-- What the operations leave to be found.
use xul.Prelude.{
  ◌≡◌, refl, sym, ◌∙◌, Bool, true, false, List, [], ◌∷◌, Bytes, if◌then◌else◌, arith, Bool-cases,
  inl, inr,
}
use xul.StringTable.{Entry, contains, get, set, remove}

-- What a comparison of keys promises.
pub record IsEquivalence (compare : Bytes → Bytes → Bool) : Type 0 where
  pub reflexive : (a : Bytes) → compare a a ≡ true
  pub symmetric : (a b : Bytes) → compare a b ≡ true → compare b a ≡ true
  pub transitive : (a b c : Bytes) → compare a b ≡ true → compare b c ≡ true → compare a c ≡ true

module _ (compare : Bytes → Bytes → Bool) (laws : IsEquivalence compare) where
  open laws use {reflexive, symmetric, transitive}

  -- Keys that are equal are equal to the same keys.
  same_as : (a b c : Bytes) → compare a b ≡ true → compare a c ≡ compare b c
  same_as a b c h = elim (Bool-cases (compare a c)) [
    | inl e ↦ e ∙ sym (transitive b a c (symmetric a b h) e)
    | inr e ↦ elim (Bool-cases (compare b c)) [
      | inl f ↦ transitive a b c h f ∙ sym f
      | inr f ↦ e ∙ sym f
    ]
  ]

  -- No two entries have equal keys.
  abbrev pub IsUnique : List Entry → Type 0
  IsUnique [] = Unit
  IsUnique (e ∷ items) = (contains compare items e.key ≡ false) × IsUnique items

  meet : (a b c : Bytes) → compare a c ≡ true → compare b c ≡ true → compare a b ≡ true
  meet a b c h k = transitive a c b h (symmetric b c k)

  -- One entry, by the comparison with its key.
  set_here :
      (e : Entry) (items : List Entry) (key val : Bytes)
      → compare e.key key ≡ true
      → set compare (e ∷ items) key val ≡ record e { value = val } ∷ items
  unfolding set
  set_here e items key val h = rw h refl

  set_later :
      (e : Entry) (items : List Entry) (key val : Bytes)
      → compare e.key key ≡ false
      → set compare (e ∷ items) key val ≡ e ∷ set compare items key val
  unfolding set
  set_later e items key val h = rw h refl

  remove_here :
      (e : Entry) (items : List Entry) (key : Bytes)
      → compare e.key key ≡ true
      → remove compare (e ∷ items) key ≡ (true, items)
  unfolding remove
  remove_here e items key h = rw h refl

  remove_later :
      (e : Entry) (items : List Entry) (key : Bytes)
      → compare e.key key ≡ false
      → remove compare (e ∷ items) key
        ≡ ((remove compare items key).0, e ∷ (remove compare items key).1)
  unfolding remove
  remove_later e items key h = rw h refl

  -- Where the comparison of keys is an equivalence, after set get finds the value at every key
  -- equal to the one set, and what it found before at the others.
  pub get-set :
      (items : List Entry) (key val k default_value : Bytes)
      → get compare (set compare items key val) k default_value
        ≡ (if compare key k then val else get compare items k default_value)
  unfolding get
  get-set [] key val k default_value = unfold set in refl
  get-set (e ∷ items) key val k default_value = elim (Bool-cases (compare e.key key)) [
    | inl h ↦ rw (set_here e items key val h) (ground (arith, same_as e.key key k h))
    | inr h ↦
        rw (set_later e items key val h)
          (ground (arith, get-set items key val k default_value, meet e.key key k))
  ]

  contains-same :
      (items : List Entry) (a b : Bytes)
      → compare a b ≡ true
      → contains compare items a ≡ contains compare items b
  unfolding contains
  contains-same [] a b h = refl
  contains-same (e ∷ items) a b h = ground (
    arith,
    contains-same items a b h,
    transitive e.key a b,
    meet e.key a b,
    symmetric a b h,
    transitive e.key b a,
  )

  contains-set :
      (items : List Entry) (key val k : Bytes)
      → contains compare (set compare items key val) k
        ≡ (if compare key k then true else contains compare items k)
  unfolding contains
  contains-set [] key val k = unfold set in ground arith
  contains-set (e ∷ items) key val k = elim (Bool-cases (compare e.key key)) [
    | inl h ↦ rw (set_here e items key val h) (ground (arith, same_as e.key key k h))
    | inr h ↦ rw (set_later e items key val h) (ground (arith, contains-set items key val k))
  ]

  -- Where the comparison of keys is an equivalence, set keeps the keys of the entries different
  -- from each other.
  pub set-IsUnique :
      (items : List Entry) (key val : Bytes) → IsUnique items → IsUnique (set compare items key val)
  set-IsUnique [] key val u = unfold set in unfold contains in (refl, tt)
  set-IsUnique (e ∷ items) key val (new, u) = elim (Bool-cases (compare e.key key)) [
    | inl h ↦ rw (set_here e items key val h) (new, u)
    | inr h ↦ rw (set_later e items key val h) (
      ground (arith, new, contains-set items key val e.key, symmetric key e.key),
      set-IsUnique items key val u,
    )
  ]

  contains-remove :
      (items : List Entry) (key k : Bytes)
      → contains compare items k ≡ false
      → contains compare (remove compare items key).1 k ≡ false
  unfolding contains
  contains-remove [] key k h = unfold remove in refl
  contains-remove (e ∷ items) key k h = elim (Bool-cases (compare e.key key)) [
    | inl s ↦ rw (remove_here e items key s) (ground arith)
    | inr s ↦ rw (remove_later e items key s) (ground (arith, contains-remove items key k))
  ]

  pub remove-IsUnique :
      (items : List Entry) (key : Bytes) → IsUnique items → IsUnique (remove compare items key).1
  remove-IsUnique [] key u = unfold remove in tt
  remove-IsUnique (e ∷ items) key (new, u) = elim (Bool-cases (compare e.key key)) [
    | inl s ↦ rw (remove_here e items key s) u
    | inr s ↦
        rw (remove_later e items key s)
          (contains-remove items key e.key new, remove-IsUnique items key u)
  ]

  get-missing :
      (items : List Entry) (k default_value : Bytes)
      → contains compare items k ≡ false
      → get compare items k default_value ≡ default_value
  unfolding get contains
  get-missing [] k default_value h = refl
  get-missing (e ∷ items) k default_value h = ground (arith, get-missing items k default_value)

  -- Where the comparison of keys is an equivalence and no two entries have equal keys, remove
  -- tells whether there was an entry for the key, and after it get finds what it found before, but
  -- for the keys equal to the removed one, for which it gives the default.
  pub get-remove :
      (items : List Entry) (key k default_value : Bytes)
      → IsUnique items
      → ((remove compare items key).0 ≡ contains compare items key)
        × (get compare (remove compare items key).1 k default_value
            ≡ (if compare key k then default_value else get compare items k default_value))
  unfolding get contains
  get-remove [] key k default_value u = unfold remove in (refl, ground arith)
  get-remove (e ∷ items) key k default_value (new, u) = elim (Bool-cases (compare e.key key)) [
    | inl s ↦
        rw (remove_here e items key s, s)
          (
            refl,
            ground (
              arith,
              same_as e.key key k s,
              get-missing items k default_value,
              contains-same items e.key k,
              new,
            ),
          )
    | inr s ↦
        let (there, left) = get-remove items key k default_value u in
        rw (remove_later e items key s, s) (there, ground (arith, left, meet e.key key k))
  ]
