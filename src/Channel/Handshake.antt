-- ===== src/Channel/Handshake.antt =====
-- opcua/transport/binary/secure_channel.h and secure_channel.cpp: the bodies of the OpenSecureChannel
-- and CloseSecureChannel services. A Status is its full code, a 64-bit integer its machine word.

pub mod RoundTrip
use opcuapp.Base.{ℕ, Option, none, some, List, [], ◌>>=◌, ◌>>◌, guard, ◌==◌, if◌then◌else◌}
use opcuapp.Types.Status.{severity}
use opcuapp.Types.NodeId.{null}
use opcuapp.Binary.Codec.{
  encode_uint8, encode_uint32, encode_uint64, encode_string, decode_uint8, decode_uint32,
  decode_uint64, decode_string, consumed,
}
use opcuapp.Binary.Identifiers.{encode_node_id, decode_node_id}
use opcuapp.Binary.Bodies.{decode_extension_object, append_message, read_message}

abbrev pub open_request_encoding_id : ℕ
open_request_encoding_id = 446

abbrev pub open_response_encoding_id : ℕ
open_response_encoding_id = 449

abbrev pub close_request_encoding_id : ℕ
close_request_encoding_id = 452

-- SecurityTokenRequestType and MessageSecurityMode are cast from the wire without a check, so any
-- 32-bit number is a value of them.
abbrev pub issue : ℕ
issue = 0

abbrev pub renew : ℕ
renew = 1

abbrev pub mode_none : ℕ
mode_none = 1

abbrev pub sign_and_encrypt : ℕ
sign_and_encrypt = 3

pub record RequestHeader : Type 0 where
  pub request_handle : ℕ
  pub return_diagnostics : ℕ
  pub audit_entry_id : List ℕ
  pub timeout_hint : ℕ

pub record ResponseHeader : Type 0 where
  pub request_handle : ℕ
  pub service_result : ℕ

pub record ChannelSecurityToken : Type 0 where
  pub channel_id : ℕ
  pub token_id : ℕ
  pub created_at : ℕ
  pub revised_lifetime : ℕ

pub record OpenSecureChannelRequest : Type 0 where
  pub request_header : RequestHeader
  pub client_protocol_version : ℕ
  pub request_type : ℕ
  pub security_mode : ℕ
  pub client_nonce : List ℕ
  pub requested_lifetime : ℕ

pub record OpenSecureChannelResponse : Type 0 where
  pub response_header : ResponseHeader
  pub server_protocol_version : ℕ
  pub security_token : ChannelSecurityToken
  pub server_nonce : List ℕ

-- A header with only a handle.
abbrev pub only_handle : ℕ → RequestHeader
only_handle handle = record {
  request_handle = handle;
  return_diagnostics = 0;
  audit_entry_id = [];
  timeout_hint = 0;
}

unfoldable pub append_request_header : List ℕ → RequestHeader → List ℕ
unfolding encode_node_id encode_uint64 encode_uint32 encode_string encode_uint8
append_request_header bytes header =
    let bytes = encode_node_id bytes null in
    let bytes = encode_uint64 bytes 0 in
    let bytes = encode_uint32 bytes header.request_handle in
    let bytes = encode_uint32 bytes header.return_diagnostics in
    let bytes = encode_string bytes header.audit_entry_id in
    let bytes = encode_uint32 bytes header.timeout_hint in
    let bytes = encode_node_id bytes null in encode_uint8 bytes 0x00

unfoldable pub read_request_header : List ℕ → Option (RequestHeader × List ℕ)
unfolding decode_node_id decode_uint64 decode_uint32 decode_string decode_extension_object
read_request_header bytes = do
  (ignored_authentication_token, bytes) ← decode_node_id bytes
  (ignored_timestamp, bytes) ← decode_uint64 bytes
  (request_handle, bytes) ← decode_uint32 bytes
  (return_diagnostics, bytes) ← decode_uint32 bytes
  (audit_entry_id, bytes) ← decode_string bytes
  (timeout_hint, bytes) ← decode_uint32 bytes
  (additional, bytes) ← decode_extension_object bytes
  some (
    record {
      request_handle = request_handle;
      return_diagnostics = return_diagnostics;
      audit_entry_id = audit_entry_id;
      timeout_hint = timeout_hint;
    },
    bytes,
  )

-- A service result that is not good is written as Bad, whichever it is.
unfoldable pub append_response_header : List ℕ → ResponseHeader → List ℕ
unfolding encode_uint64 encode_uint32 encode_uint8 encode_node_id
append_response_header bytes header =
    let bytes = encode_uint64 bytes 0 in
    let bytes = encode_uint32 bytes header.request_handle in
    let bytes =
      encode_uint32 bytes (if severity header.service_result == 0 then 0 else 0x80000000) in
    let bytes = encode_uint8 bytes 0 in
    let bytes = encode_uint32 bytes 0 in
    let bytes = encode_node_id bytes null in encode_uint8 bytes 0x00

unfoldable pub read_response_header : List ℕ → Option (ResponseHeader × List ℕ)
unfolding decode_uint64 decode_uint32 decode_uint8 decode_extension_object
read_response_header bytes = do
  (ignored_timestamp, bytes) ← decode_uint64 bytes
  (request_handle, bytes) ← decode_uint32 bytes
  (status_word, bytes) ← decode_uint32 bytes
  (ignored_service_diagnostics_mask, bytes) ← decode_uint8 bytes
  (ignored_string_table_count, bytes) ← decode_uint32 bytes
  (additional, bytes) ← decode_extension_object bytes
  some (record { request_handle = request_handle; service_result = status_word }, bytes)

unfoldable pub encode_open_request : OpenSecureChannelRequest → List ℕ
unfolding append_request_header encode_uint32 encode_string append_message
encode_open_request request =
    let payload = append_request_header [] request.request_header in
    let payload = encode_uint32 payload request.client_protocol_version in
    let payload = encode_uint32 payload request.request_type in
    let payload = encode_uint32 payload request.security_mode in
    let payload = encode_string payload request.client_nonce in
    let payload = encode_uint32 payload request.requested_lifetime in
    append_message [] open_request_encoding_id payload

unfoldable pub decode_open_request : List ℕ → Option OpenSecureChannelRequest
unfolding read_message read_request_header decode_uint32 decode_string
decode_open_request body = do
  (type_id, payload) ← read_message body
  guard (type_id == open_request_encoding_id)
  (request_header, payload) ← read_request_header payload
  (client_protocol_version, payload) ← decode_uint32 payload
  (request_type, payload) ← decode_uint32 payload
  (security_mode, payload) ← decode_uint32 payload
  (client_nonce, payload) ← decode_string payload
  (requested_lifetime, payload) ← decode_uint32 payload
  guard (consumed payload)
  some (record {
    request_header = request_header;
    client_protocol_version = client_protocol_version;
    request_type = request_type;
    security_mode = security_mode;
    client_nonce = client_nonce;
    requested_lifetime = requested_lifetime;
  })

unfoldable pub encode_open_response : OpenSecureChannelResponse → List ℕ
unfolding append_response_header encode_uint32 encode_uint64 encode_string append_message
encode_open_response response =
    let payload = append_response_header [] response.response_header in
    let payload = encode_uint32 payload response.server_protocol_version in
    let payload = encode_uint32 payload response.security_token.channel_id in
    let payload = encode_uint32 payload response.security_token.token_id in
    let payload = encode_uint64 payload response.security_token.created_at in
    let payload = encode_uint32 payload response.security_token.revised_lifetime in
    let payload = encode_string payload response.server_nonce in
    append_message [] open_response_encoding_id payload

unfoldable pub decode_open_response : List ℕ → Option OpenSecureChannelResponse
unfolding read_message read_response_header decode_uint32 decode_uint64 decode_string
decode_open_response body = do
  (type_id, payload) ← read_message body
  guard (type_id == open_response_encoding_id)
  (response_header, payload) ← read_response_header payload
  (server_protocol_version, payload) ← decode_uint32 payload
  (channel_id, payload) ← decode_uint32 payload
  (token_id, payload) ← decode_uint32 payload
  (created_at, payload) ← decode_uint64 payload
  (revised_lifetime, payload) ← decode_uint32 payload
  (server_nonce, payload) ← decode_string payload
  guard (consumed payload)
  some (record {
    response_header = response_header;
    server_protocol_version = server_protocol_version;
    security_token = record {
      channel_id = channel_id;
      token_id = token_id;
      created_at = created_at;
      revised_lifetime = revised_lifetime;
    };
    server_nonce = server_nonce;
  })

unfoldable pub encode_close_request : RequestHeader → List ℕ
unfolding append_request_header append_message
encode_close_request header =
    append_message [] close_request_encoding_id (append_request_header [] header)

unfoldable pub decode_close_request : List ℕ → Option RequestHeader
unfolding read_message read_request_header
decode_close_request body = do
  (type_id, payload) ← read_message body
  guard (type_id == close_request_encoding_id)
  (request_header, payload) ← read_request_header payload
  guard (consumed payload)
  some request_header
