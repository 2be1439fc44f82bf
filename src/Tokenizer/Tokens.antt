-- ===== src/Tokenizer/Tokens.antt =====
-- What next_token hands out, and what is left.
use xul.Prelude.{◌+◌, ◌≤◌, ◌≡◌, Option, none, some, ◌++◌, Bytes, length, if◌then◌else◌}
use xul.Tokenizer.{Tokenizer, remains}
use xul.Tokenizer.Places.{StandsIn}

-- What next_token promises. Where it hands out nothing, nothing changes and the delimiter is not in
-- what is left; or else `piece` is what comes before the first delimiter in what was left.
unfoldable pub Cuts : Tokenizer → Option Bytes × Tokenizer → Type 0
Cuts t (none, after) =
    (after ≡ t)
    × ((before later : Bytes)
        → StandsIn t.delimiter (remains t) before later
        → length (t.delimiter ++ later) ≡ 0)
Cuts t (some token, after) =
    (piece : Bytes) × (later : Bytes) × StandsIn t.delimiter (remains t) piece later
    × ((before rest : Bytes)
        → StandsIn t.delimiter (remains t) before rest
        → length piece ≤ length before)
    × (token ≡ (if t.include_delimiter then piece ++ t.delimiter else piece))
    × (remains after ≡ (if t.include_delimiter then later else t.delimiter ++ later))
    × (after ≡ record t { offset = t.offset + length token })
