-- ===== src/Lib.antt =====
-- The codecs, containers and stream decoders of xul, a library of C++ headers for programs that talk
-- over networks, and what they guarantee.
--
-- The parts, and the files of include/xul that they model:
--   - BigNumber: data/big_number.hpp, integers of a fixed number of bytes. A number is the list of
--     its bytes, the lowest first. BigNumber holds the assignments, comparisons, sums and the
--     product; BigNumber/Shift the shifts, BigNumber/Division bits and operator/=,
--     BigNumber/SelfProduct operator*= where the argument is the object itself, BigNumber/Text
--     format, try_parse and parse, which call the hexadecimal encoding. BigNumber/Value gives the
--     number that the bytes stand for; the arithmetic is stated of it.
--   - Hex: text/hex_encoding.hpp, the encoder and the decoders.
--   - UrlEncoding: net/url_encoding.hpp, the encoder and the decoder.
--   - BitConverter: data/bit_converter.hpp, words of 16, 32 and 64 bits from and to bytes.
--   - ByteOrder: data/byte_order.hpp, words with their bytes reversed.
--   - MessageDecoder: io/codec/buffered_message_decoder.hpp; MessageDecoder/Lines:
--     io/codec/line_message_decoder.hpp, which is the former with its own do_decode.
--     MessageDecoder/DataCodec is io/codec/buffered_data_codec.hpp.
--     MessageDecoder/Splitter says what a do_decode has to keep for the buffering to be invisible.
--   - PacketPipe: io/codec/message_packet_pipe.hpp, over BitConverter.
--   - HttpRange: net/http/http_range.hpp with parse of data/numerics.hpp, over split_pair of
--     Strings/Parts.
--   - HandleMap: util/handle_map.hpp, handles for objects.
--   - FlowMeter: util/flow_meter.hpp, the bytes and packets of the last seconds, by periods; and
--     FlowMeter/Simple, the simple_flow_meter of the same file, by the clock.
--   - Bmf: io/bmf_integer_encoding.hpp, over the memory streams; Bmf/Values the tagged values of
--     io/bmf_format.hpp, io/bmf_writer.hpp and io/bmf_reader.hpp, Bmf/Stored the bytes of a value.
--   - Socks: net/socks4.hpp, over the data streams.
--   - XmlEscape: text/xml_escape_sequence.hpp.
--   - Paths: os/paths.hpp.
--   - QueryString: the parameters of net/simple_uri.hpp, and string_dicts::parse of std/maps.hpp, over
--     Strings and StringTable.
--   - HttpMessage: net/http/http_message.hpp, http_status_code.hpp and http_response.hpp;
--     HttpMessage/Parser http_message_parser.hpp and http_response_parser.hpp, over Strings and
--     StringTable; HttpMessage/Extractor and HttpMessage/Decoder the two classes of
--     http_response_decoder.hpp, HttpMessage/Heard what the listener of the decoder hears.
--   - ChunkedFilter: net/http/detail/chunked_http_filter.hpp.
--   - Strings: std/strings.hpp, split, join, split_pair and string_iequal_to; Strings/Parts the cuts at
--     any of some characters, the parts and icompare.
--   - Tokenizer: data/detail/string_tokenizer_impl.hpp.
--   - StringTable: data/associative_string_array.hpp, a table of strings in the order of insertion,
--     with string_iequal_to as the comparison of associative_istring_array.
--   - Base64: text/base64_encoding.hpp, the encoder and the decoder.
--   - Streams: io/memory_input_stream.hpp, io/memory_output_stream.hpp, io/data_input_stream.hpp and
--     io/data_output_stream.hpp, over BitConverter and ByteOrder. Streams/Serial names the values that
--     they exchange, Streams/Writing and Streams/Reading say where the bytes stand.
-- Prelude has what they share: lists under the native numbers, the bit operations, the tests of
-- <ctype.h> in the C locale, std::search. The modules named Runs hold runs at concrete inputs.
--
-- How code is written as definitions: a method takes the object's state and gives the new state with
-- the result; a byte is a number below 256, and an operation on an integer of w bits keeps its wrap-
-- around as % 2 ^ w; a loop over an index is a recursion on the list or on the rounds that are left,
-- with the in-place writes as writes to the list. A loop that no list or counter bounds runs on
-- fuel: the loop of do_decode of base64 has the length of the text, since each round counts a
-- character at least, the loops of decode_buffer, of both decoders, and of the chunked filter have
-- the size of the data as fuel, since each round takes a byte, and the loops of split and split_of
-- the length of the text and one, since each round but the last takes the delimiter. With an empty
-- delimiter and no limit the loop of split does not end in the source; the model stops there when
-- the fuel is gone, and nothing is stated of that case. The loop of the user id of socks4 has a
-- round for each byte of the stream and one more; the reader of tagged values two rounds for each
-- byte that is left and two more, which Bmf/ReadEnds shows to be enough; the loop of the HTTP parser
-- the length of the memory and one, since each round but the last passes a line end of two bytes.
-- Assertions are not part of the code, as in a release build.
--
-- The order of calls: the decoder is fed the pieces of a stream one after the other, and its
-- listener's calls are kept in order as a list; the calls of the filter after the chunked one
-- likewise; the flow meter's additions and updates come as a list of events; the lock of the handle
-- map makes each of its calls one step.
--
-- Parameters: what do_decode returns, sends and whether the listener aborts, for the decoder over
-- any do_decode; what decode_once returns and hands out, for the data codec; whether the listener
-- aborts, for the decoder of lines; the milliseconds since the last update, for the rates, and since
-- the start, for the simple meter; what sscanf reads from the line before a chunk; the print of a
-- number, for the range and the status, what sscanf reads of a number, for the range, and its parse,
-- for the status; boost's trim_copy and its split at slashes, and the memory behind the bytes of a
-- call, for the HTTP parser; the characters a system takes as separators, for Paths; the comparison
-- of keys, for the string table; the byte order of the host.
--
-- Not modelled: sockets, timers, threads and files, which are calls of the operating system and of
-- boost asio; the bindings to Lua; logging; OpenSSL, zlib and TinyXML and what wraps them; the
-- reference counts of objects; the address of a URI before its parameters; requests and the content
-- range of HTTP; amf; dates.
pub mod XmlEscape
pub mod QueryString
pub mod Paths
pub mod HttpMessage
pub mod Socks
pub mod Prelude
pub mod BigNumber
pub mod Hex
pub mod Tokenizer
pub mod UrlEncoding
pub mod Base64
pub mod Bmf
pub mod BitConverter
pub mod ByteOrder
pub mod Streams
pub mod HttpRange
pub mod MessageDecoder
pub mod PacketPipe
pub mod HandleMap
pub mod ChunkedFilter
pub mod FlowMeter
pub mod Strings
pub mod StringTable
