-- ===== src/HttpMessage.antt =====
-- include/xul/net/http/http_message.hpp, http_status_code.hpp and http_response.hpp: a message with its
-- headers, and a response. `decimal` is numerics::format of a number that is not negative. A status is a
-- number that is not negative.
pub mod Parser
pub mod Extractor
pub mod Lines
pub mod Headers
pub mod RoundTrip
pub mod HeaderEnd
pub mod Pieces
pub mod Decoder
pub mod Heard
pub mod Bodies
mod Runs
use xul.Prelude.{ℕ, Bool, List, [], ◌∷◌, ◌++◌, Bytes, codes, length, ◌==◌, if◌then◌else◌}
use xul.Strings.{string_iequal_to}
use xul.StringTable.{Entry}
use xul.StringTable as table

pub record Message : Type 0 where
  pub headers : List Entry
  pub protocol_name : Bytes
  pub protocol_version : Bytes

unfoldable pub clear_message : Message
clear_message = record {
  headers = [];
  protocol_name = codes "HTTP";
  protocol_version = codes "1.0";
}

-- By associative_istring_array.
unfoldable pub set_header : Bytes → Bytes → Message → Message
set_header name val m = record m { headers = table.set string_iequal_to m.headers name val }

-- The default value is not used.
unfoldable pub get_header : Bytes → Bytes → Message → Bytes
get_header name default_val m = table.get string_iequal_to m.headers name []

unfoldable pub header_line : Entry → Bytes
header_line e = e.key ++ (codes ": " ++ (e.value ++ codes "\r\n"))

unfoldable pub header_lines : List Entry → Bytes
header_lines [] = codes "\r\n"
header_lines (e ∷ headers) = header_line e ++ header_lines headers

unfoldable pub write_headers : Message → Bytes
write_headers m = header_lines m.headers

-- status_code_table.
unfoldable pub status_code_table : List (ℕ × Bytes)
status_code_table =
    (200, codes "OK")
    ∷ (201, codes "Created")
    ∷ (202, codes "Accepted")
    ∷ (204, codes "No Content")
    ∷ (206, codes "Partial Content")
    ∷ (300, codes "Multiple Choices")
    ∷ (301, codes "Moved Permanently")
    ∷ (302, codes "Found")
    ∷ (304, codes "Not Modified")
    ∷ (307, codes "Temporary Redirect")
    ∷ (400, codes "Bad Request")
    ∷ (401, codes "Unauthorized")
    ∷ (403, codes "Forbidden")
    ∷ (404, codes "Not Found")
    ∷ (500, codes "Internal Server Error")
    ∷ (501, codes "Not Implemented")
    ∷ (502, codes "Bad Gateway")
    ∷ (503, codes "Service Unavailable")
    ∷ (416, codes "Requested Range Not Satisfiable")
    ∷ []

abbrev look_up : List (ℕ × Bytes) → ℕ → Bytes
look_up [] code = []
look_up ((c, description) ∷ entries) code =
    let rest = look_up entries code in if c == code then description else rest

unfoldable pub get_description : ℕ → Bytes
get_description code = look_up status_code_table code

pub record Response : Type 0 where
  pub message : Message
  pub status_code : ℕ
  pub status_description : Bytes

-- The description stays.
unfoldable pub clear : Response → Response
unfolding clear_message
clear r = record r { message = clear_message; status_code = 0 }

unfoldable pub create_url_response : Response
unfolding clear clear_message
create_url_response =
    clear (record { message = clear_message; status_code = 0; status_description = [] })

unfoldable pub set_status_code : ℕ → Response → Response
set_status_code status_code r =
    let desc = get_description status_code in
    if length desc == 0
    then record r { status_code = status_code }
    else record r { status_code = status_code; status_description = desc }

unfoldable pub set_status_description : Bytes → Response → Response
set_status_description val r = record r { status_description = val }

unfoldable pub print : (ℕ → Bytes) → Response → Bytes
print decimal r =
    r.message.protocol_name
    ++ (b'/' ∷ r.message.protocol_version
        ++ (b' ' ∷ decimal r.status_code
            ++ (b' ' ∷ r.status_description ++ (codes "\r\n" ++ write_headers r.message))))
