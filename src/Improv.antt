-- ===== src/Improv.antt =====
-- main/improv_serial_codec.c: the packets of the Improv serial protocol.
-- A frame is "IMPROV", version, type, length, the payload and a checksum. `bytes` holds what the
-- C array holds below `parser->length`; the stale bytes above it are never read. The pointers
-- are never NULL here, so the guards on them have no counterpart.
pub mod Invariant
pub mod RoundTrip
mod Tests
use espresso.Prelude.{
  ℕ, ◌+◌, ◌-◌, ◌%◌, Bool, ◌&&◌, ◌||◌, List, [], ◌∷◌, ◌++◌, length, get_or, take, drop, ltb, leb,
  ◌==◌, if◌then◌else◌, Bytes,
}

abbrev pub version : ℕ
version = 1

abbrev pub max_data : ℕ
max_data = 255

abbrev pub packet_overhead : ℕ
packet_overhead = 10

abbrev pub max_packet_size : ℕ
max_packet_size = max_data + packet_overhead

abbrev pub header : Bytes
header = b'I' ∷ b'M' ∷ b'P' ∷ b'R' ∷ b'O' ∷ b'V' ∷ []

pub record Parser : Type 0 where
  pub bytes : Bytes
  pub expected_length : ℕ

pub record Packet : Type 0 where
  pub type : ℕ
  pub payload : Bytes

pub data ParseResult : Type 0 where
  nothing : ParseResult
  packet : Packet → ParseResult
  invalid : ParseResult

abbrev pub parser_reset : Parser
parser_reset = record { bytes = []; expected_length = 0 }

unfoldable pub restart_with_byte : ℕ → Parser
restart_with_byte byte =
    if byte == b'I' then record { bytes = byte ∷ []; expected_length = 0 } else parser_reset

-- `checksum = (uint8_t)(checksum + bytes[i])` over the bytes, from a start value.
unfoldable pub checksum_from : ℕ → Bytes → ℕ
checksum_from acc [] = acc
checksum_from acc (b ∷ bs) = checksum_from ((acc + b) % 256) bs

-- What follows the stored byte: read the length at nine bytes, and judge a complete frame.
unfoldable pub judge_frame : Bytes → ℕ → Parser × ParseResult
judge_frame bytes expected =
    if expected == 0 || ltb (length bytes) expected
    then (record { bytes = bytes; expected_length = expected }, nothing)
    else if get_or bytes 6 0 == version
        && checksum_from 0 (take (expected - 1) bytes) == get_or bytes (expected - 1) 0
    then (
      parser_reset,
      packet (record { type = get_or bytes 7 0; payload = take (get_or bytes 8 0) (drop 9 bytes) }),
    )
    else (parser_reset, invalid)

unfoldable pub parser_feed : Parser → ℕ → Parser × ParseResult
unfolding restart_with_byte
parser_feed parser byte =
    if length parser.bytes == 0
    then ((if byte == b'I' then record parser { bytes = byte ∷ [] } else parser), nothing)
    else if ltb (length parser.bytes) 6
    then if byte == get_or header (length parser.bytes) 0
      then (record parser { bytes = parser.bytes ++ byte ∷ [] }, nothing)
      else (restart_with_byte byte, nothing)
    else if leb max_packet_size (length parser.bytes)
    then (restart_with_byte byte, invalid)
    else let bytes = parser.bytes ++ byte ∷ [] in
      judge_frame bytes
        (if length bytes == 9 then packet_overhead + get_or bytes 8 0 else parser.expected_length)

-- The bytes before the checksum.
abbrev pub body : ℕ → Bytes → Bytes
body type payload = header ++ version ∷ type ∷ length payload ∷ payload

-- The empty list stands for the return value 0, where nothing is written.
unfoldable pub encode_packet : ℕ → Bytes → ℕ → Bytes
encode_packet type payload capacity =
    if ltb max_data (length payload) || ltb capacity (packet_overhead + length payload)
    then []
    else body type payload ++ checksum_from 0 (body type payload) ∷ []

-- The receive loop of main/improv_serial.c feeds the bytes one by one.
unfoldable pub feed_all : Parser → Bytes → Parser × List ParseResult
feed_all parser [] = (parser, [])
feed_all parser (b ∷ bs) =
    let (next, result) = parser_feed parser b in
    let (last, results) = feed_all next bs in (last, result ∷ results)
