-- ===== src/Channel/Server.antt =====
-- opcua/transport/binary/secure_channel.h and secure_channel.cpp: the server's end of a secure
-- channel. `crypto` is OpenSSL; what a call of HandleFrame draws from outside (the clock and the
-- nonces) is a record of its answers.
pub mod Opening
pub mod Dispatch
pub mod Traffic
pub mod Renewal
pub mod Overlap
pub mod Safety
pub mod Rotation
pub mod Keys
use opcuapp.Base.{
  ℕ, ◌+◌, ◌%◌, ◌^◌, Bool, true, false, Option, none, some, List, [], ◌++◌, ◌>>=◌, ◌>>◌, guard,
  length, drop, not, ◌==◌, ◌&&◌, ◌||◌, is_empty, if◌then◌else◌,
}
use opcuapp.Types.Status.{good, StatusOr, ok, failed, of_code, bad, is_bad}
use opcuapp.Types.NodeId.{same_bytes}
use opcuapp.Binary.Codec.{decode_uint32, decode_string}
use opcuapp.Binary.Crypto.{Crypto, DerivedKeys, no_keys, derive_basic256_sha256_keys}
use opcuapp.Binary.Protocol.{MessageType, secure_open, secure_message, secure_close}
use opcuapp.Channel.Conversation.{
  AsymmetricSecurityHeader, SequenceHeader, SecureConversationMessage, whole_frame, token_message,
  open_message, encode_secure_conversation_message, decode_secure_conversation_message,
  security_policy_none, security_policy_basic256_sha256,
}
use opcuapp.Channel.Handshake.{
  OpenSecureChannelRequest, OpenSecureChannelResponse, renew, mode_none, sign_and_encrypt,
  decode_open_request, encode_open_response, decode_close_request,
}
use opcuapp.Channel.Symmetric.{seal, unseal}
use opcuapp.Channel.Asymmetric.{open_prefix, split_open, seal_open, unseal_open}

pub record Config (PrivateKey : Type 0) : Type 0 where
  pub private_key : PrivateKey
  pub certificate_der : List ℕ
  pub certificate_thumbprint : List ℕ
  pub allow_none : Bool
  pub allow_basic256_sha256 : Bool
  pub validate_client_certificate : Option (List ℕ → ℕ)

-- What one call draws: the time, the answer of the configured nonce generator if there is one, and
-- 32 random bytes.
pub record Draws : Type 0 where
  pub now : ℕ
  pub generated : Option (StatusOr (List ℕ))
  pub random : StatusOr (List ℕ)

pub record SecureChannel : Type 0 where
  pub channel_id : ℕ
  pub token_id : ℕ
  pub previous_token_id : ℕ
  pub next_sequence_number : ℕ
  pub opened : Bool
  pub basic256_active : Bool
  pub inbound_keys : DerivedKeys
  pub outbound_keys : DerivedKeys
  pub server_nonce : List ℕ
  pub client_certificate_der : List ℕ

-- The constructor.
unfoldable pub make_channel : ℕ → SecureChannel
make_channel channel_id = record {
  channel_id = channel_id;
  token_id = 1;
  previous_token_id = 0;
  next_sequence_number = 1;
  opened = false;
  basic256_active = false;
  inbound_keys = no_keys;
  outbound_keys = no_keys;
  server_nonce = [];
  client_certificate_der = [];
}

pub record Result : Type 0 where
  pub outbound_frame : Option (List ℕ)
  pub service_payload : Option (List ℕ)
  pub request_id : Option ℕ
  pub close_transport : Bool
  pub graceful_close : Bool

abbrev pub empty_result : Result
empty_result = record {
  outbound_frame = none;
  service_payload = none;
  request_id = none;
  close_transport = false;
  graceful_close = false;
}

-- `Result{.close_transport = true}`
abbrev pub close_result : Result
close_result = record empty_result { close_transport = true }

-- `++` of a std::uint32_t
abbrev pub next_word : ℕ → ℕ
next_word n = (n + 1) % 2 ^ 32

-- The response that both policies build; only a secured one has a nonce.
abbrev pub open_response :
    Draws → OpenSecureChannelRequest → ℕ → List ℕ → SecureChannel → OpenSecureChannelResponse
open_response draws request service_result server_nonce channel = record {
  response_header = record {
    request_handle = request.request_header.request_handle;
    service_result = service_result;
  };
  server_protocol_version = request.client_protocol_version;
  security_token = record {
    channel_id = channel.channel_id;
    token_id = channel.token_id;
    created_at = draws.now;
    revised_lifetime = request.requested_lifetime;
  };
  server_nonce = server_nonce;
}

abbrev pub is_some {ℓ} : {A : Type ℓ} → Option A → Bool
is_some none = false
is_some (some _) = true

unfoldable pub build_open_response :
    Draws
    → SecureConversationMessage
    → OpenSecureChannelRequest
    → ℕ
    → SecureChannel
    → SecureChannel × Option (List ℕ)
unfolding encode_open_response encode_secure_conversation_message
build_open_response draws request_message request service_result channel =
    let header : AsymmetricSecurityHeader = record {
      security_policy_uri = security_policy_none;
      sender_certificate = [];
      receiver_certificate_thumbprint = [];
    } in
    (
      record channel { next_sequence_number = next_word channel.next_sequence_number },
      encode_secure_conversation_message (
          open_message channel.channel_id header channel.next_sequence_number
            request_message.sequence_header.request_id
            (encode_open_response (open_response draws request service_result [] channel))),
    )

-- The rotation of the token when a renewal is accepted.
unfoldable pub rotate_token : SecureChannel → SecureChannel
rotate_token channel = record channel {
  previous_token_id = channel.token_id;
  token_id = next_word channel.token_id;
}

abbrev pub is_policy_none : Option AsymmetricSecurityHeader → Bool
is_policy_none none = false
is_policy_none (some header) = same_bytes header.security_policy_uri security_policy_none

-- The two decoders, one after the other.
unfoldable pub read_open_none :
    List ℕ → Option (SecureConversationMessage × OpenSecureChannelRequest)
unfolding decode_secure_conversation_message decode_open_request
read_open_none frame = do
  message ← decode_secure_conversation_message frame
  request ← decode_open_request message.body
  some (message, request)

unfoldable pub answer_open_none :
    Draws
    → SecureConversationMessage
    → OpenSecureChannelRequest
    → SecureChannel
    → SecureChannel × Result
unfolding rotate_token build_open_response
answer_open_none draws message request channel =
    let supported_security =
      request.security_mode == mode_none && is_policy_none message.asymmetric_security_header in
    let channel =
      if supported_security && request.request_type == renew
      then rotate_token channel
      else channel in
    let (channel, response) =
      build_open_response draws message request (of_code (if supported_security then good else bad))
        channel in
    (
      (if supported_security then record channel { opened = true } else channel),
      record empty_result { outbound_frame = response },
    )

unfoldable pub handle_open_none : Draws → List ℕ → SecureChannel → SecureChannel × Result
unfolding read_open_none answer_open_none
handle_open_none draws frame channel = elim (read_open_none frame) [
  | none ↦ (channel, close_result)
  | some (message, request) ↦ answer_open_none draws message request channel
]

-- A symmetric chunk when the channel has no keys: `none` closes the transport.
unfoldable pub read_token_message : List ℕ → SecureChannel → Option SecureConversationMessage
unfolding decode_secure_conversation_message
read_token_message frame channel = do
  message ← decode_secure_conversation_message frame
  guard (message.secure_channel_id == channel.channel_id)
  message_token_id ← message.symmetric_security_header
  guard (
      message_token_id == channel.token_id
      || (not (channel.previous_token_id == 0) && message_token_id == channel.previous_token_id))
  some message

-- What a chunk that passed every check comes to.
unfoldable pub deliver : Bool → ℕ → List ℕ → SecureChannel → SecureChannel × Result
unfolding decode_close_request
deliver is_close request_id body channel =
    if is_close
    then (
      record channel { opened = false },
      record close_result { graceful_close = is_some (decode_close_request body) },
    )
    else (
      channel,
      record empty_result { service_payload = some body; request_id = some request_id },
    )

module _ {Certificate PrivateKey : Type 0} (crypto : Crypto Certificate PrivateKey) where
  unfoldable pub handle_secure_message : List ℕ → Bool → SecureChannel → SecureChannel × Result
  unfolding read_token_message unseal deliver
  handle_secure_message frame is_close channel =
      if not channel.opened
      then (channel, close_result)
      else if not channel.basic256_active
      then elim (read_token_message frame channel) [
        | none ↦ (channel, close_result)
        | some message ↦ deliver is_close message.sequence_header.request_id message.body channel
      ]
      else elim (unseal crypto channel.inbound_keys channel.channel_id channel.token_id frame) [
        | failed status ↦ (channel, close_result)
        | ok (request_id, body) ↦ deliver is_close request_id body channel
      ]
