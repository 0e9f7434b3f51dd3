-- ===== src/Tests/Channels.antt =====
-- The theorems on the secure channel at concrete inputs, with a cipher that leaves its text as it is.
use opcuapp.Base.{
  zero, suc, ℕ, ◌≡◌, refl, ap, Bool, true, false, Option, none, some, List, [], ◌∷◌, ◌++◌, ◌>>=◌,
  arith, length, inl, codes, ◌%◌,
}
use opcuapp.Types.Status.{of_code, good, StatusOr, ok, failed}
use opcuapp.Types.NodeId.{NodeId, string}
use opcuapp.Binary.Crypto.{
  Crypto, no_keys, derive_basic256_sha256_keys, length-derive_basic256_sha256_keys,
}
use opcuapp.Binary.Identifiers.{encode_node_id, decode_node_id}
use opcuapp.Binary.Identifiers.RoundTrip.{decode-encode_node_id}
use opcuapp.Binary.Protocol.{secure_message}
use opcuapp.Channel.Conversation.{
  AsymmetricSecurityHeader, encode_asymmetric_header, token_message, open_message,
  security_policy_none, encode_secure_conversation_message,
}
use opcuapp.Channel.Handshake.{
  OpenSecureChannelRequest, only_handle, renew, mode_none, encode_open_request, decode_open_request,
}
use opcuapp.Channel.Handshake.RoundTrip.{IsWireOpenRequest, decode-encode_open_request}
use opcuapp.Channel.Symmetric.{seal, replicate}
use opcuapp.Channel.Symmetric.Opening.{IsSymmetricCipher, length-replicate}
use opcuapp.Channel.Server.{Config, Draws, SecureChannel, make_channel, close_result}
use opcuapp.Channel.Server.Dispatch.{allows_none, handle_frame, message_tag, build_service_response}
use opcuapp.Channel.Server.Traffic.{handle_frame-seal, payload_result, handle_frame-token_message}
use opcuapp.Channel.Server.Overlap.{IsRenewal, renewed, handle_frame-renew}
use opcuapp.Channel.Server.Rotation.{handle_frame-renew_keyed}
use opcuapp.Channel.Server.Safety.{Genuine, handle_frame-Genuine}
use opcuapp.Channel.Server.Keys.{constructed, handled, responded, IsKeyed, Reachable-IsKeyed}
use opcuapp.Channel.Client.{ClientSecureChannel, send_service_request, read_service_response}
use opcuapp.Channel.Client.Security.{Security}
use opcuapp.Channel.Client.Opening.{begin_open, open_secure_channel}
use opcuapp.Channel.Client.Reading.{Ended, read_service_response-Ended}
use opcuapp.Channel.Pairing.Agreement.{exchange_with, open_secure_channel-IsPaired}
use opcuapp.Channel.Exchange.{IsPaired, handle_frame-send_service_request}

-- A tag of 32 bytes that counts the bytes of the text.
abbrev tag : List ℕ → List ℕ → List ℕ
tag key bytes = replicate 32 (length bytes % 256)

abbrev plain_crypto : Crypto ℕ ℕ
plain_crypto = record {
  load_der_certificate = λ bytes. ok 0;
  certificate_public_key = λ certificate. ok 0;
  certificate_der = λ certificate. ok [];
  certificate_thumbprint = λ certificate. ok [];
  no_certificate = λ certificate. false;
  no_key = λ key. false;
  key_size_bytes = λ key. 256;
  rsa_oaep_encrypt = λ key bytes. ok bytes;
  rsa_oaep_decrypt = λ key bytes. ok bytes;
  rsa_pkcs1_sha256_sign = λ key bytes. ok [];
  rsa_pkcs1_sha256_verify = λ key bytes signature. true;
  aes_cbc_encrypt = λ key iv bytes. ok bytes;
  aes_cbc_decrypt = λ key iv bytes. ok bytes;
  hmac_sha256 = tag;
}

plain_crypto-IsSymmetricCipher : IsSymmetricCipher plain_crypto
plain_crypto-IsSymmetricCipher = record {
  decrypts = λ key iv plain cipher e. cc e;
  same_size = λ key iv plain cipher e. ap length (cc e);
  tag_size = λ key bytes. length-replicate 32 (length bytes % 256);
}

abbrev draws : Draws
draws = record { now = 133; generated = none; random = ok (replicate 32 7) }

abbrev server : Bool → SecureChannel
server keyed = record {
  channel_id = 5;
  token_id = 2;
  previous_token_id = 1;
  next_sequence_number = 9;
  opened = true;
  basic256_active = keyed;
  inbound_keys = no_keys;
  outbound_keys = no_keys;
  server_nonce = [];
  client_certificate_der = [];
}

abbrev client : ClientSecureChannel
client = record {
  sign_and_encrypt = true;
  opened = true;
  channel_id = 5;
  token_id = 2;
  revised_lifetime_ms = 60000;
  renew_at = 45000;
  next_sequence_number = 3;
  next_request_id = 4;
  client_keys = no_keys;
  server_keys = no_keys;
  client_nonce = [];
}

abbrev no_config : Option (Config ℕ)
no_config = none

abbrev bodies : List ℕ
bodies = 1 ∷ 2 ∷ []

-- The frame of a request for two bytes under a channel's keys.
abbrev sent : List ℕ
sent = elim (send_service_request plain_crypto 8 bodies client).1 [
  | failed status ↦ []
  | ok frame ↦ frame
]

sent_ok : (send_service_request plain_crypto 8 bodies client).1 ≡ ok sent
unfolding send_service_request
sent_ok = refl

sealed_ok : seal plain_crypto no_keys message_tag 5 2 3 8 bodies ≡ ok sent
unfolding send_service_request seal
sealed_ok = refl

sent_payload :
    (handle_frame plain_crypto no_config draws sent (server true)).1.service_payload ≡ some bodies
sent_payload =
    ap (λ outcome. outcome.1.service_payload)
      (handle_frame-seal plain_crypto no_config draws (server true) 3 8 bodies sent
        plain_crypto-IsSymmetricCipher refl refl (omega arith) (omega arith) (omega arith)
        (omega arith) sealed_ok)

allowed : allows_none no_config ≡ true
unfolding allows_none
allowed = refl

handle_frame-send_service_request_example :
    handle_frame plain_crypto no_config draws sent (server true)
    ≡ (server true, payload_result 8 bodies)
handle_frame-send_service_request_example =
    handle_frame-send_service_request plain_crypto no_config draws (server true) client 8 bodies
      sent plain_crypto-IsSymmetricCipher
      (record {
        server_opened = refl;
        client_opened = refl;
        policy = refl;
        channel_id = refl;
        token_id = refl;
        requests = refl;
        responses = refl;
        small_channel_id = omega arith;
        small_token_id = omega arith;
      })
      (omega arith) (omega arith) (omega arith) sent_ok

handle_frame-Genuine_example :
    (true ≡ true)
    × ((handle_frame plain_crypto no_config draws sent (server true)).0 ≡ server true)
    × Genuine plain_crypto sent (server true) bodies
handle_frame-Genuine_example =
    handle_frame-Genuine plain_crypto no_config draws sent (server true) bodies sent_payload

abbrev asymmetric : AsymmetricSecurityHeader
asymmetric = record {
  security_policy_uri = security_policy_none;
  sender_certificate = [];
  receiver_certificate_thumbprint = [];
}

abbrev renewal : OpenSecureChannelRequest
renewal = record {
  request_header = only_handle 6;
  client_protocol_version = 0;
  request_type = renew;
  security_mode = mode_none;
  client_nonce = [];
  requested_lifetime = 60000;
}

renewal-IsWireOpenRequest : IsWireOpenRequest renewal
renewal-IsWireOpenRequest = record {
  request_header = record {
    request_handle = omega arith;
    return_diagnostics = omega arith;
    audit_entry_id = omega arith;
    timeout_hint = omega arith;
  };
  client_protocol_version = omega arith;
  request_type = omega arith;
  security_mode = omega arith;
  client_nonce = omega arith;
  requested_lifetime = omega arith;
}

renewal-IsRenewal : IsRenewal asymmetric 5 11 12 renewal
unfolding encode_asymmetric_header encode_open_request
renewal-IsRenewal = record {
  header = record {
    security_policy_uri = omega arith;
    sender_certificate = omega arith;
    receiver_certificate_thumbprint = omega arith;
  };
  policy = refl;
  request = renewal-IsWireOpenRequest;
  security_mode = refl;
  request_type = refl;
  channel_id = omega arith;
  sequence_number = omega arith;
  request_id = omega arith;
  size = omega arith;
}

handle_frame-renew_example :
    (do
      frame ←
          encode_secure_conversation_message
            (open_message 5 asymmetric 11 12 (encode_open_request renewal))
      let channel = (handle_frame plain_crypto no_config draws frame (server false)).0
      frame ←
          encode_secure_conversation_message
            (token_message secure_message channel.channel_id 2 13 14 bodies)
      some (handle_frame plain_crypto no_config draws frame channel))
    ≡ some (renewed (server false), payload_result 14 bodies)
handle_frame-renew_example =
    handle_frame-renew plain_crypto no_config draws draws (server false) asymmetric 5 11 12 renewal
      2 13 14 bodies allowed renewal-IsRenewal refl (omega arith) (omega arith) (omega arith)
      (inl refl) (omega arith) (omega arith) (omega arith)

-- What the client of the keyed channel sealed before the renewal.
handle_frame-renew_keyed_example :
    (do
      frame ←
          encode_secure_conversation_message
            (open_message 5 asymmetric 11 12 (encode_open_request renewal))
      some (
          handle_frame plain_crypto no_config draws sent
            (handle_frame plain_crypto no_config draws frame (server true)).0))
    ≡ some (renewed (server true), close_result)
handle_frame-renew_keyed_example =
    handle_frame-renew_keyed plain_crypto no_config draws draws (server true) asymmetric 5 11 12
      renewal 3 8 bodies sent plain_crypto-IsSymmetricCipher allowed renewal-IsRenewal refl
      (omega arith) (omega arith) (omega arith) sealed_ok

handle_frame-token_message_example :
    (do
      frame ← encode_secure_conversation_message (token_message secure_message 5 1 13 14 bodies)
      some (handle_frame plain_crypto no_config draws frame (server false)))
    ≡ some (server false, payload_result 14 bodies)
handle_frame-token_message_example =
    handle_frame-token_message plain_crypto no_config draws (server false) 1 13 14 bodies refl refl
      (omega arith) (omega arith) (omega arith) (omega arith) (omega arith)

decode-encode_open_request_example :
    decode_open_request (encode_open_request renewal) ≡ some renewal
decode-encode_open_request_example = decode-encode_open_request renewal renewal-IsWireOpenRequest

abbrev pump : NodeId
pump = record { identifier = string (codes "Pump"); namespace_index = 3 }

decode-encode_node_id_example :
    decode_node_id (encode_node_id [] pump ++ 9 ∷ []) ≡ some (pump, 9 ∷ [])
decode-encode_node_id_example =
    decode-encode_node_id pump (9 ∷ [])
      (record { identifier = omega arith; namespace_index = omega arith })

length-derive_basic256_sha256_keys_example :
    (length (derive_basic256_sha256_keys tag (1 ∷ []) (2 ∷ [])).signing_key ≡ 32)
    × (length (derive_basic256_sha256_keys tag (1 ∷ []) (2 ∷ [])).encrypting_key ≡ 32)
    × (length (derive_basic256_sha256_keys tag (1 ∷ []) (2 ∷ [])).initialization_vector ≡ 16)
length-derive_basic256_sha256_keys_example =
    length-derive_basic256_sha256_keys tag (1 ∷ []) (2 ∷ [])
      (λ key bytes. omega (arith, length-replicate 32 (length bytes % 256)))

-- Two steps of a new channel: a frame that is refused, and a response.
Reachable-IsKeyed_example :
    IsKeyed plain_crypto 5
      (build_service_response plain_crypto 8 bodies
        (handle_frame plain_crypto no_config draws sent (make_channel 5)).0).0
Reachable-IsKeyed_example =
    Reachable-IsKeyed plain_crypto no_config 5 _
      (responded _ 8 bodies (handled _ draws sent constructed))

-- A transport that gives one empty frame again and again.
abbrev frames : ℕ → List (StatusOr (List ℕ))
frames zero = []
frames (suc n) = ok [] ∷ frames n

length-frames : (n : ℕ) → length (frames n) ≡ n
length-frames zero = refl
length-frames (suc n) = omega (arith, length-frames n)

read_service_response-Ended_example :
    Ended (read_service_response plain_crypto (frames 8192) client)
read_service_response-Ended_example =
    read_service_response-Ended plain_crypto (frames 8192) client
      (omega (arith, length-frames 8192))

abbrev unsecured : Security ℕ ℕ
unsecured = record {
  security_policy_uri = security_policy_none;
  security_mode = mode_none;
  client_certificate = 0;
  client_private_key = 0;
  server_certificate = 0;
}

abbrev plain_client : ClientSecureChannel
plain_client = record client { sign_and_encrypt = false }

open_secure_channel-IsPaired_example :
    (frame : List ℕ) × ((begin_open plain_crypto unsecured draws renew 60000 plain_client).1
      ≡ ok frame)
    × ((open_secure_channel plain_crypto unsecured
          (exchange_with plain_crypto no_config draws (server false))
          draws
          500
          renew
          60000
          plain_client).1
        ≡ of_code good)
    × IsPaired
        (handle_frame plain_crypto no_config draws frame (server false)).0
        (open_secure_channel plain_crypto unsecured
          (exchange_with plain_crypto no_config draws (server false))
          draws
          500
          renew
          60000
          plain_client).0
open_secure_channel-IsPaired_example =
    open_secure_channel-IsPaired plain_crypto unsecured no_config draws draws 500 renew 60000
      (server false) plain_client refl refl allowed
      (record {
        plain_server = refl;
        plain_client = refl;
        requests = refl;
        responses = refl;
        server_channel_id = omega arith;
        server_token_id = omega arith;
        server_sequence_number = omega arith;
        client_channel_id = omega arith;
        client_sequence_number = omega arith;
        request_id = omega arith;
        request_type = omega arith;
        requested_lifetime = omega arith;
        created_at = omega arith;
      })
