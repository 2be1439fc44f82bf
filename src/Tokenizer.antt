-- ===== src/Tokenizer.antt =====
-- include/xul/data/detail/string_tokenizer_impl.hpp: a text that is fed in pieces is cut into tokens. A token
-- that is handed out is the copy of its bytes. m_temp_buffer and m_temp_size, which nothing reads, are left out.
pub mod Tokens
pub mod Places
pub mod Stuck
mod Runs
use xul.Prelude.{
  ℕ, ◌+◌, ◌*◌, ◌||◌, Bool, true, false, Option, none, some, [], ◌∷◌, ◌++◌, Bytes, length, take,
  drop, ltb, leb, ◌==◌, if◌then◌else◌,
}
use xul.Prelude.Search.{search}

pub record Tokenizer : Type 0 where
  pub delimiter : Bytes
  pub text : Bytes
  pub offset : ℕ
  pub include_delimiter : Bool
  pub max_buffer_size : ℕ

unfoldable pub create : Tokenizer
create = record {
  delimiter = [];
  text = [];
  offset = 0;
  include_delimiter = false;
  max_buffer_size = 10240;
}

unfoldable pub reset : Tokenizer → Tokenizer
reset t = record t { text = []; offset = 0 }

unfoldable pub set_max_buffer_size : ℕ → Tokenizer → Tokenizer
set_max_buffer_size size t =
    if ltb size 1024 || ltb (4 * 1024 * 1024) size then t else record t { max_buffer_size = size }

unfoldable pub set_include_delimiter : Bool → Tokenizer → Tokenizer
set_include_delimiter includes t = record t { include_delimiter = includes }

unfoldable pub set_delimiter : Bytes → Tokenizer → Tokenizer
set_delimiter bytes t = record t { delimiter = bytes }

unfoldable pub feed : Bytes → Tokenizer → Tokenizer
feed bytes t = record t { text = t.text ++ bytes }

-- From m_offset on.
unfoldable pub remains : Tokenizer → Bytes
remains t = drop t.offset t.text

unfoldable pub next_token : Tokenizer → Option Bytes × Tokenizer
unfolding remains
next_token t =
    let token_len = search (remains t) t.delimiter in
    let taken = if t.include_delimiter then token_len + length t.delimiter else token_len in
    if (length t.text == 0) || leb (length t.text) t.offset
    then (none, t)
    else if token_len == length (remains t)
    then (none, t)
    else (some (take taken (remains t)), record t { offset = t.offset + taken })

unfoldable pub get_remains : Tokenizer → Option Bytes
unfolding remains
get_remains t =
    if (length t.text == 0) || leb (length t.text) t.offset then none else some (remains t)
