-- ===== src/Socks.antt =====
-- include/xul/net/socks4.hpp over the data streams. `host` is the byte order of the machine. What a
-- read leaves unset is 0, by the reset in front of it.
pub mod RoundTrip
pub mod Answers
pub mod Ends
mod Runs
use xul.Prelude.{
  ℕ, zero, suc, ◌+◌, Bool, true, false, not, ◌&&◌, Option, none, some, [], ◌∷◌, ◌++◌, Bytes, length,
  ltb, ◌==◌, ◌>>=◌, if◌then◌else◌,
}
use xul.Prelude.Int.{pos}
use xul.Streams.DataInput.{DataInput, is_available, set_bad, read_uint8, read_uint16, read_uint32}
use xul.Streams.DataOutput.{DataOutput, write_uint8, write_uint16, write_uint32, write_raw}

pub record Request : Type 0 where
  pub version_number : ℕ
  pub command_code : ℕ
  pub destination_port : ℕ
  pub destination_ip : ℕ
  pub user_id : Bytes

unfoldable pub reset : Request
reset = record {
  version_number = 0;
  command_code = 0;
  destination_port = 0;
  destination_ip = 0;
  user_id = [];
}

unfoldable pub get_object_size : Request → ℕ
get_object_size r = 9 + length r.user_id

unfoldable pub write_object : Bool → Request → DataOutput → Option DataOutput
write_object host r os =
    write_uint8 r.version_number os
    >>= (λ os. write_uint8 r.command_code os)
    >>= (λ os. write_uint16 host r.destination_port os)
    >>= (λ os. write_uint32 host r.destination_ip os)
    >>= (λ os. write_raw r.user_id os)
    >>= (λ os. write_uint8 0 os)

abbrev pub or_zero : Option ℕ → ℕ
or_zero none = 0
or_zero (some n) = n

-- The loop of read_object, with what it has collected; `none` where the rounds were used up.
unfoldable pub read_user_id : ℕ → Bytes → DataInput → Option (Bytes × DataInput)
read_user_id zero user_id is = none
read_user_id (suc rounds) user_id is =
    let (done, ch, after) = read_uint8 is in
    let rest = read_user_id rounds (user_id ++ (or_zero ch ∷ [])) after in
    if done && ltb 0 (or_zero ch) then rest else some (user_id, after)

abbrev answered : Request → Option (Bytes × DataInput) → Option (Bool × Request × DataInput)
answered r none = none
answered r (some (user_id, is)) = some (is.good, record r { user_id = user_id }, is)

-- A round for each byte of the stream, and one more.
unfoldable pub read_object : Bool → DataInput → Option (Bool × Request × DataInput)
read_object host is =
    let (_, version, is1) = read_uint8 is in
    let (_, command, is2) = read_uint8 is1 in
    let (port, is3) = read_uint16 host is2 in
    let (ip, is4) = read_uint32 host is3 in
    let r : Request = record {
      version_number = or_zero version;
      command_code = or_zero command;
      destination_port = or_zero port;
      destination_ip = or_zero ip;
      user_id = [];
    } in
    if not (is_available (pos 9) is)
    then some (false, reset, set_bad is)
    else if not is4.good
    then some (false, r, is4)
    else answered r (read_user_id (length is.input.buffer + 1) [] is4)

pub record Response : Type 0 where
  pub status_code : ℕ
  pub port : ℕ
  pub ip : ℕ

unfoldable pub get_response_size : Response → ℕ
get_response_size r = 8

unfoldable pub write_response : Bool → Response → DataOutput → Option DataOutput
write_response host r os =
    write_uint8 0 os
    >>= (λ os. write_uint8 r.status_code os)
    >>= (λ os. write_uint16 host r.port os)
    >>= (λ os. write_uint32 host r.ip os)

abbrev or_kept : ℕ → Option ℕ → ℕ
or_kept old none = old
or_kept old (some n) = n

-- Into a response that is there, which a field that is not read keeps.
unfoldable pub read_response : Bool → Response → DataInput → Bool × Response × DataInput
read_response host old is =
    let (_, null_byte, is1) = read_uint8 is in
    let (_, status, is2) = read_uint8 is1 in
    let (port, is3) = read_uint16 host is2 in
    let (ip, is4) = read_uint32 host is3 in
    let r : Response = record {
      status_code = or_kept old.status_code status;
      port = or_kept old.port port;
      ip = or_kept old.ip ip;
    } in
    let last = if or_zero null_byte == 0 then is4 else set_bad is4 in (last.good, r, last)
