-- ===== src/Binary/Protocol.antt =====
-- opcua/transport/binary/protocol.h and protocol.cpp: the frame header, the Hello, Acknowledge and
-- Error messages and the negotiation of the connection's limits. An ErrorMessage keeps its Status as
-- the 32-bit full code.
pub mod Frames
pub mod Messages
pub mod Negotiation
use opcuapp.Base.{
  ℕ, ◌+◌, ◌%◌, ◌^◌, Bool, true, false, Option, none, some, List, [], ◌∷◌, ◌++◌, ◌>>=◌, ◌>>◌, guard,
  length, drop, min, is_empty, codes, ltb, ◌==◌, ◌&&◌, ◌||◌, if◌then◌else◌,
}
use opcuapp.Binary.Codec.{encode_uint32, encode_string, decode_uint32, decode_string, consumed}

pub data MessageType : Type 0 where
  hello acknowledge error reverse_hello secure_open secure_message secure_close : MessageType

pub record FrameHeader : Type 0 where
  pub message_type : MessageType
  pub chunk_type : ℕ
  pub message_size : ℕ

pub record HelloMessage : Type 0 where
  pub protocol_version : ℕ
  pub receive_buffer_size : ℕ
  pub send_buffer_size : ℕ
  pub max_message_size : ℕ
  pub max_chunk_count : ℕ
  pub endpoint_url : List ℕ

pub record AcknowledgeMessage : Type 0 where
  pub protocol_version : ℕ
  pub receive_buffer_size : ℕ
  pub send_buffer_size : ℕ
  pub max_message_size : ℕ
  pub max_chunk_count : ℕ

pub record ErrorMessage : Type 0 where
  pub full_code : ℕ
  pub reason : List ℕ

pub record TransportLimits : Type 0 where
  pub protocol_version : ℕ
  pub receive_buffer_size : ℕ
  pub send_buffer_size : ℕ
  pub max_message_size : ℕ
  pub max_chunk_count : ℕ

pub record NegotiationResult : Type 0 where
  pub acknowledge : Option AcknowledgeMessage
  pub error : Option ErrorMessage

abbrev pub header_size : ℕ
header_size = 8

abbrev pub final_chunk_type : ℕ
final_chunk_type = b'F'

unfoldable pub encode_message_type : MessageType → List ℕ
encode_message_type hello = b'H' ∷ b'E' ∷ b'L' ∷ []
encode_message_type acknowledge = b'A' ∷ b'C' ∷ b'K' ∷ []
encode_message_type error = b'E' ∷ b'R' ∷ b'R' ∷ []
encode_message_type reverse_hello = b'R' ∷ b'H' ∷ b'E' ∷ []
encode_message_type secure_open = b'O' ∷ b'P' ∷ b'N' ∷ []
encode_message_type secure_message = b'M' ∷ b'S' ∷ b'G' ∷ []
encode_message_type secure_close = b'C' ∷ b'L' ∷ b'O' ∷ []

-- The comparison of three characters with a name.
abbrev is_name : ℕ → ℕ → ℕ → ℕ → ℕ → ℕ → Bool
is_name a b c x y z = a == x && (b == y && c == z)

unfoldable pub decode_message_type : ℕ → ℕ → ℕ → Option MessageType
decode_message_type a b c =
    if is_name a b c b'H' b'E' b'L'
    then some hello
    else if is_name a b c b'A' b'C' b'K'
    then some acknowledge
    else if is_name a b c b'E' b'R' b'R'
    then some error
    else if is_name a b c b'R' b'H' b'E'
    then some reverse_hello
    else if is_name a b c b'O' b'P' b'N'
    then some secure_open
    else if is_name a b c b'M' b'S' b'G'
    then some secure_message
    else if is_name a b c b'C' b'L' b'O'
    then some secure_close
    else none

-- `fill_body` appends to eight zero bytes, which are then overwritten by the header; the size is
-- cast to 32 bits.
unfoldable pub encode_with_header : MessageType → (List ℕ → List ℕ) → List ℕ
unfolding encode_message_type encode_uint32
encode_with_header message_type fill_body =
    let bytes = fill_body (0 ∷ 0 ∷ 0 ∷ 0 ∷ 0 ∷ 0 ∷ 0 ∷ 0 ∷ []) in
    (encode_uint32 (encode_message_type message_type ++ final_chunk_type ∷ [])
      (length bytes % 2 ^ 32))
    ++ drop header_size bytes

-- The `memcpy` of a little-endian 32-bit size.
unfoldable pub decode_frame_header : List ℕ → Option FrameHeader
unfolding decode_message_type decode_uint32
decode_frame_header (a ∷ b ∷ c ∷ chunk_type ∷ bytes) = do
  (message_size, rest) ← decode_uint32 bytes
  message_type ← decode_message_type a b c
  if ltb message_size header_size
      then none
      else some (record {
        message_type = message_type;
        chunk_type = chunk_type;
        message_size = message_size;
      })
decode_frame_header _ = none

unfoldable pub encode_frame_header : FrameHeader → List ℕ
unfolding encode_message_type encode_uint32
encode_frame_header header =
    encode_uint32 (encode_message_type header.message_type ++ header.chunk_type ∷ [])
      header.message_size

unfoldable pub fill_hello : HelloMessage → List ℕ → List ℕ
unfolding encode_uint32 encode_string
fill_hello message bytes =
    let bytes = encode_uint32 bytes message.protocol_version in
    let bytes = encode_uint32 bytes message.receive_buffer_size in
    let bytes = encode_uint32 bytes message.send_buffer_size in
    let bytes = encode_uint32 bytes message.max_message_size in
    let bytes = encode_uint32 bytes message.max_chunk_count in
    encode_string bytes message.endpoint_url

unfoldable pub encode_hello_message : HelloMessage → List ℕ
unfolding encode_with_header fill_hello
encode_hello_message message = encode_with_header hello (fill_hello message)

abbrev same_type : MessageType → MessageType → Bool
same_type hello hello = true
same_type acknowledge acknowledge = true
same_type error error = true
same_type reverse_hello reverse_hello = true
same_type secure_open secure_open = true
same_type secure_message secure_message = true
same_type secure_close secure_close = true
same_type _ _ = false

-- The checks that the three decoders begin with; the body is what follows the header.
unfoldable pub open_frame : MessageType → List ℕ → Option (List ℕ)
unfolding decode_frame_header
open_frame message_type bytes = do
  header ← decode_frame_header bytes
  guard (same_type message_type header.message_type && header.message_size == length bytes)
  some (drop header_size bytes)

unfoldable pub decode_hello_message : List ℕ → Option HelloMessage
unfolding open_frame decode_uint32 decode_string
decode_hello_message bytes = do
  body ← open_frame hello bytes
  (protocol_version, body) ← decode_uint32 body
  (receive_buffer_size, body) ← decode_uint32 body
  (send_buffer_size, body) ← decode_uint32 body
  (max_message_size, body) ← decode_uint32 body
  (max_chunk_count, body) ← decode_uint32 body
  (endpoint_url, body) ← decode_string body
  guard (consumed body)
  some (record {
    protocol_version = protocol_version;
    receive_buffer_size = receive_buffer_size;
    send_buffer_size = send_buffer_size;
    max_message_size = max_message_size;
    max_chunk_count = max_chunk_count;
    endpoint_url = endpoint_url;
  })

unfoldable pub fill_acknowledge : AcknowledgeMessage → List ℕ → List ℕ
unfolding encode_uint32
fill_acknowledge message bytes =
    let bytes = encode_uint32 bytes message.protocol_version in
    let bytes = encode_uint32 bytes message.receive_buffer_size in
    let bytes = encode_uint32 bytes message.send_buffer_size in
    let bytes = encode_uint32 bytes message.max_message_size in
    encode_uint32 bytes message.max_chunk_count

unfoldable pub encode_acknowledge_message : AcknowledgeMessage → List ℕ
unfolding encode_with_header fill_acknowledge
encode_acknowledge_message message = encode_with_header acknowledge (fill_acknowledge message)

unfoldable pub decode_acknowledge_message : List ℕ → Option AcknowledgeMessage
unfolding open_frame decode_uint32
decode_acknowledge_message bytes = do
  body ← open_frame acknowledge bytes
  (protocol_version, body) ← decode_uint32 body
  (receive_buffer_size, body) ← decode_uint32 body
  (send_buffer_size, body) ← decode_uint32 body
  (max_message_size, body) ← decode_uint32 body
  (max_chunk_count, body) ← decode_uint32 body
  guard (consumed body)
  some (record {
    protocol_version = protocol_version;
    receive_buffer_size = receive_buffer_size;
    send_buffer_size = send_buffer_size;
    max_message_size = max_message_size;
    max_chunk_count = max_chunk_count;
  })

unfoldable pub fill_error : ErrorMessage → List ℕ → List ℕ
unfolding encode_uint32 encode_string
fill_error message bytes = encode_string (encode_uint32 bytes message.full_code) message.reason

unfoldable pub encode_error_message : ErrorMessage → List ℕ
unfolding encode_with_header fill_error
encode_error_message message = encode_with_header error (fill_error message)

unfoldable pub decode_error_message : List ℕ → Option ErrorMessage
unfolding open_frame decode_uint32 decode_string
decode_error_message bytes = do
  body ← open_frame error bytes
  (full_code, body) ← decode_uint32 body
  (reason, body) ← decode_string body
  guard (consumed body)
  some (record { full_code = full_code; reason = reason })

-- StatusCode::Bad, as a full code.
abbrev pub bad_full_code : ℕ
bad_full_code = 0x80000000

-- "Client transport buffers must be non-zero", in its bytes.
abbrev pub zero_buffers_reason : List ℕ
zero_buffers_reason = codes "Client transport buffers must be non-zero"

unfoldable pub negotiate_hello : HelloMessage → TransportLimits → NegotiationResult
negotiate_hello request server_limits =
    if request.receive_buffer_size == 0 || request.send_buffer_size == 0
    then record {
      acknowledge = none;
      error = some (record { full_code = bad_full_code; reason = zero_buffers_reason });
    }
    else record {
      acknowledge = some (record {
        protocol_version = min request.protocol_version server_limits.protocol_version;
        receive_buffer_size = min server_limits.receive_buffer_size request.send_buffer_size;
        send_buffer_size = min server_limits.send_buffer_size request.receive_buffer_size;
        max_message_size = server_limits.max_message_size;
        max_chunk_count = server_limits.max_chunk_count;
      });
      error = none;
    }
