-- ===== src/Paths/Names.antt =====
-- The parts of a path that is put together.
use xul.Prelude.{ℕ, ◌≡◌, Bool, false, Bytes, All, ◌==◌}

module _ (is_separator : ℕ → Bool) where
  -- A name in a directory.
  abbrev pub IsName : Bytes → Type 0
  IsName name = All (λ (c : ℕ). is_separator c ≡ false) name

  -- Behind a dot that is the last one.
  unfoldable pub IsExtension : Bytes → Type 0
  IsExtension ext = IsName ext × All (λ (c : ℕ). (c == b'.') ≡ false) ext
