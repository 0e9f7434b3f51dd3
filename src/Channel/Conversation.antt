-- ===== src/Channel/Conversation.antt =====
-- opcua/transport/binary/secure_channel.h and secure_channel.cpp: the chunk that a secure channel
-- sends without encryption.

pub mod RoundTrip
use opcuapp.Base.{
  false, if◌then◌else◌, true, ℕ, ◌+◌, ◌%◌, ◌^◌, Bool, Option, none, some, List, [], ◌∷◌, ◌++◌,
  ◌>>=◌, ◌>>◌, guard, length, take, drop, codes, ◌==◌, ltb,
}
use opcuapp.Binary.Codec.{encode_uint32, encode_string, decode_uint32, decode_string}
use opcuapp.Binary.Protocol.{
  MessageType, hello, acknowledge, error, reverse_hello, secure_open, secure_message, secure_close,
  FrameHeader, decode_frame_header, encode_frame_header, header_size,
}

abbrev pub security_policy_none : List ℕ
security_policy_none = codes "http://opcfoundation.org/UA/SecurityPolicy#None"

abbrev pub security_policy_basic256_sha256 : List ℕ
security_policy_basic256_sha256 = codes "http://opcfoundation.org/UA/SecurityPolicy#Basic256Sha256"

pub record AsymmetricSecurityHeader : Type 0 where
  pub security_policy_uri : List ℕ
  pub sender_certificate : List ℕ
  pub receiver_certificate_thumbprint : List ℕ

pub record SequenceHeader : Type 0 where
  pub sequence_number : ℕ
  pub request_id : ℕ

pub record SecureConversationMessage : Type 0 where
  pub frame_header : FrameHeader
  pub secure_channel_id : ℕ
  pub asymmetric_security_header : Option AsymmetricSecurityHeader
  pub symmetric_security_header : Option ℕ
  pub sequence_header : SequenceHeader
  pub body : List ℕ

abbrev pub is_secure_open : MessageType → Bool
is_secure_open secure_open = true
is_secure_open _ = false

abbrev pub is_secure_message : MessageType → Bool
is_secure_message secure_message = true
is_secure_message _ = false

-- The header of a frame whose size is the number of its bytes.
unfoldable pub whole_frame : List ℕ → Option FrameHeader
unfolding decode_frame_header
whole_frame frame = do
  header ← decode_frame_header frame
  guard (header.message_size == length frame)
  some header

unfoldable pub decode_asymmetric_header : List ℕ → Option (AsymmetricSecurityHeader × List ℕ)
unfolding decode_string
decode_asymmetric_header bytes = do
  (security_policy_uri, bytes) ← decode_string bytes
  (sender_certificate, bytes) ← decode_string bytes
  (receiver_certificate_thumbprint, bytes) ← decode_string bytes
  some (
    record {
      security_policy_uri = security_policy_uri;
      sender_certificate = sender_certificate;
      receiver_certificate_thumbprint = receiver_certificate_thumbprint;
    },
    bytes,
  )

unfoldable pub decode_sequence_header : List ℕ → Option (SequenceHeader × List ℕ)
unfolding decode_uint32
decode_sequence_header bytes = do
  (sequence_number, bytes) ← decode_uint32 bytes
  (request_id, bytes) ← decode_uint32 bytes
  some (record { sequence_number = sequence_number; request_id = request_id }, bytes)

-- The security header that the message type calls for.
unfoldable pub decode_security_header :
    MessageType → List ℕ → Option (Option AsymmetricSecurityHeader × Option ℕ × List ℕ)
unfolding decode_asymmetric_header decode_uint32
decode_security_header secure_open bytes = do
  (header, bytes) ← decode_asymmetric_header bytes
  some (some header, none, bytes)
decode_security_header _ bytes = do
  (token_id, bytes) ← decode_uint32 bytes
  some (none, some token_id, bytes)

unfoldable pub decode_secure_conversation_message : List ℕ → Option SecureConversationMessage
unfolding whole_frame decode_uint32 decode_security_header decode_sequence_header
decode_secure_conversation_message frame = do
  frame_header ← whole_frame frame
  (secure_channel_id, bytes) ← decode_uint32 (drop header_size frame)
  (asymmetric, symmetric, bytes) ← decode_security_header frame_header.message_type bytes
  (sequence_header, body) ← decode_sequence_header bytes
  some (record {
    frame_header = frame_header;
    secure_channel_id = secure_channel_id;
    asymmetric_security_header = asymmetric;
    symmetric_security_header = symmetric;
    sequence_header = sequence_header;
    body = body;
  })

unfoldable pub encode_asymmetric_header : List ℕ → AsymmetricSecurityHeader → List ℕ
unfolding encode_string
encode_asymmetric_header bytes header =
    let bytes = encode_string bytes header.security_policy_uri in
    let bytes = encode_string bytes header.sender_certificate in
    encode_string bytes header.receiver_certificate_thumbprint

-- The header that the type of the message calls for is dereferenced: `none` where it is missing.
unfoldable pub encode_security_header : List ℕ → SecureConversationMessage → Option (List ℕ)
unfolding encode_asymmetric_header encode_uint32
encode_security_header bytes message =
    if is_secure_open message.frame_header.message_type
    then (do
      header ← message.asymmetric_security_header
      some (encode_asymmetric_header bytes header))
    else (do token_id ← message.symmetric_security_header; some (encode_uint32 bytes token_id))

-- The `memcpy` of a size over the four bytes from the fourth on.
unfoldable pub stamp_size : ℕ → List ℕ → List ℕ
unfolding encode_uint32
stamp_size size frame = encode_uint32 (take 4 frame) (size % 2 ^ 32) ++ drop 8 frame

unfoldable pub fix_up_frame_size : List ℕ → List ℕ
unfolding stamp_size
fix_up_frame_size frame = stamp_size (length frame) frame

unfoldable pub encode_secure_conversation_message : SecureConversationMessage → Option (List ℕ)
unfolding encode_frame_header encode_uint32 encode_security_header fix_up_frame_size
encode_secure_conversation_message message = do
  let frame = encode_frame_header (record message.frame_header { message_size = 0 })
  frame ← encode_security_header (encode_uint32 frame message.secure_channel_id) message
  let frame = encode_uint32 frame message.sequence_header.sequence_number
  let frame = encode_uint32 frame message.sequence_header.request_id
  some (fix_up_frame_size (frame ++ message.body))

-- The two kinds of chunk that the channels build: an OPN chunk, and a chunk under a token.
abbrev pub open_message : ℕ → AsymmetricSecurityHeader → ℕ → ℕ → List ℕ → SecureConversationMessage
open_message channel_id header sequence_number request_id body = record {
  frame_header = record { message_type = secure_open; chunk_type = b'F'; message_size = 0 };
  secure_channel_id = channel_id;
  asymmetric_security_header = some header;
  symmetric_security_header = none;
  sequence_header = record { sequence_number = sequence_number; request_id = request_id };
  body = body;
}

abbrev pub token_message : MessageType → ℕ → ℕ → ℕ → ℕ → List ℕ → SecureConversationMessage
token_message message_type channel_id token_id sequence_number request_id body = record {
  frame_header = record { message_type = message_type; chunk_type = b'F'; message_size = 0 };
  secure_channel_id = channel_id;
  asymmetric_security_header = none;
  symmetric_security_header = some token_id;
  sequence_header = record { sequence_number = sequence_number; request_id = request_id };
  body = body;
}
