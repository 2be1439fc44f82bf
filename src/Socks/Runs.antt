-- ===== src/Socks/Runs.antt =====
-- Concrete runs of the SOCKS messages, and their theorems at concrete inputs.
use xul.Prelude.{◌+◌, ◌≡◌, Bool, true, false, some, [], ◌∷◌, Bytes, arith}
use xul.Socks.{
  Request, Response, get_object_size, get_response_size, read_object, write_object, read_response,
  write_response,
}
use xul.Socks.RoundTrip.{IsSound, reader_at, read_object-write_object}
use xul.Socks.Answers.{HasWidths, read_response-write_response}
use xul.Socks.Ends.{HasText, read_object-ends}
use xul.Streams.DataInput.{DataInput, create}
use xul.Streams.DataOutput.{DataOutput}

abbrev buffer : Bytes
buffer = 0 ∷ 0 ∷ 0 ∷ 0 ∷ 0 ∷ 0 ∷ 0 ∷ 0 ∷ 0 ∷ 0 ∷ 0 ∷ 0 ∷ 0 ∷ 0 ∷ []

-- An output in network order with one byte written already.
abbrev behind_one : DataOutput
behind_one = record { out = record { buffer = buffer; position = 1 }; big_endian = true }

abbrev connect : Request
connect = record {
  version_number = 4;
  command_code = 1;
  destination_port = 8080;
  destination_ip = 0x7F000001;
  user_id = 109 ∷ 101 ∷ [];
}

connect-IsSound : IsSound connect
unfolding IsSound
connect-IsSound =
    (omega arith, omega arith, omega arith, omega arith, (omega arith, (omega arith, tt)))

read_object-write_object_example :
    (written : DataOutput) × (write_object false connect behind_one ≡ some written)
    × (written.out.position ≡ behind_one.out.position + get_object_size connect)
    × (read_object true (reader_at behind_one.out.position written)
        ≡ some (true, connect, reader_at written.out.position written))
unfolding get_object_size
read_object-write_object_example =
    read_object-write_object false true connect behind_one connect-IsSound (omega arith)

abbrev granted : Response
granted = record { status_code = 90; port = 8080; ip = 0x7F000001 }

abbrev blank : Response
blank = record { status_code = 0; port = 0; ip = 0 }

granted-HasWidths : HasWidths granted
unfolding HasWidths
granted-HasWidths = (omega arith, omega arith, omega arith)

read_response-write_response_example :
    (written : DataOutput) × (write_response false granted behind_one ≡ some written)
    × (written.out.position ≡ behind_one.out.position + get_response_size granted)
    × (read_response true blank (reader_at behind_one.out.position written)
        ≡ (true, granted, reader_at written.out.position written))
unfolding get_response_size
read_response-write_response_example =
    read_response-write_response false true blank granted behind_one granted-HasWidths (omega arith)

-- The user id is not terminated.
abbrev cut_short : DataInput
unfolding create
cut_short = create (4 ∷ 1 ∷ 31 ∷ 144 ∷ 127 ∷ 0 ∷ 0 ∷ 1 ∷ 109 ∷ []) true

read_object-ends_example :
    (done : Bool) × (r : Request) × (after : DataInput) × (read_object false cut_short
      ≡ some (done, r, after))
    × (after.good ≡ done)
    × HasText r.user_id
    × (after.input.buffer ≡ cut_short.input.buffer)
read_object-ends_example = read_object-ends false cut_short
