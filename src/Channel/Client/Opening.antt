-- ===== src/Channel/Client/Opening.antt =====
-- opcua/transport/binary/client_secure_channel.h and client_secure_channel.cpp: the client's Open and
-- Renew handshake. What the transport answers to the frame that is written, a failed write included,
-- is the parameter `exchange`.
use opcuapp.Base.{false, true, ℕ, List, [], not, ◌==◌, if◌then◌else◌}
use opcuapp.Types.Status.{
  StatusOr, ok, failed, ◌>>=◌, ◌>>◌, require, or_bad, of_code, is_bad, good, bad_no_communication,
}
use opcuapp.Types.NodeId.{same_bytes}
use opcuapp.Binary.Crypto.{Crypto, no_keys, derive_basic256_sha256_keys}
use opcuapp.Channel.Conversation.{
  is_secure_open, security_policy_none, decode_secure_conversation_message,
}
use opcuapp.Channel.Handshake.{OpenSecureChannelResponse, issue, renew, decode_open_response}
use opcuapp.Channel.Server.{Draws}
use opcuapp.Channel.Server.Opening.{draw_nonce}
use opcuapp.Channel.Client.{
  next_word, ClientSecureChannel, take_request_id, should_renew, arm_renewal_timer,
}
use opcuapp.Channel.Client.Security.{
  Security, uses_basic256_sha256, uses_sign_and_encrypt, open_request, build_plaintext_open_frame,
  build_asymmetric_open_frame, decode_asymmetric_open_frame,
}

module _ {Certificate PrivateKey : Type 0} (crypto : Crypto Certificate PrivateKey)
    (security : Security Certificate PrivateKey) where
  unfoldable pub make_client : ClientSecureChannel
  unfolding uses_sign_and_encrypt
  make_client = record {
    sign_and_encrypt = uses_sign_and_encrypt security;
    opened = false;
    channel_id = 0;
    token_id = 0;
    revised_lifetime_ms = 0;
    renew_at = 0;
    next_sequence_number = 1;
    next_request_id = 1;
    client_keys = no_keys;
    server_keys = no_keys;
    client_nonce = [];
  }

  unfoldable pub read_open_response : List ℕ → StatusOr OpenSecureChannelResponse
  unfolding uses_basic256_sha256 decode_asymmetric_open_frame decode_open_response
      decode_secure_conversation_message same_bytes
  read_open_response frame =
      let sealed : StatusOr OpenSecureChannelResponse = (do
        (sequence_header, body) ← decode_asymmetric_open_frame crypto security frame
        or_bad (decode_open_response body)) in
      let plain : StatusOr OpenSecureChannelResponse = (do
        message ← or_bad (decode_secure_conversation_message frame)
        require (is_secure_open message.frame_header.message_type)
        header ← or_bad message.asymmetric_security_header
        require (same_bytes header.security_policy_uri security_policy_none)
        or_bad (decode_open_response message.body)) in
      if uses_basic256_sha256 security then sealed else plain

  unfoldable pub generate_client_nonce : Draws → StatusOr (List ℕ)
  unfolding draw_nonce
  generate_client_nonce draws = draw_nonce draws

  -- The request that a handshake of a type sends, and the channel after it.
  unfoldable pub begin_open :
      Draws → ℕ → ℕ → ClientSecureChannel → ClientSecureChannel × StatusOr (List ℕ)
  unfolding take_request_id uses_basic256_sha256 generate_client_nonce build_plaintext_open_frame
      build_asymmetric_open_frame
  begin_open draws request_type requested_lifetime channel =
      let (request_id, channel) = take_request_id channel in
      let secure_channel_id = if request_type == renew then channel.channel_id else 0 in
      let n = channel.next_sequence_number in
      let numbered : ClientSecureChannel = record channel { next_sequence_number = next_word n } in
      let plain =
        build_plaintext_open_frame crypto security request_id
          (open_request security request_id request_type [] requested_lifetime) secure_channel_id
          n in
      let sealed : ClientSecureChannel × StatusOr (List ℕ) = elim (generate_client_nonce draws) [
        | failed status ↦ (channel, failed status)
        | ok client_nonce ↦ (
          record numbered { client_nonce = client_nonce },
          build_asymmetric_open_frame crypto security request_id
              (open_request security request_id request_type client_nonce requested_lifetime)
              secure_channel_id n,
        )
      ] in
      if uses_basic256_sha256 security then sealed else (numbered, or_bad plain)

  -- The channel under the token of a response.
  unfoldable pub adopt : ℕ → OpenSecureChannelResponse → ClientSecureChannel → ClientSecureChannel
  unfolding arm_renewal_timer uses_basic256_sha256 derive_basic256_sha256_keys
  adopt now response channel =
      let token = response.security_token in
      let armed =
        arm_renewal_timer now token.revised_lifetime
          (record channel { channel_id = token.channel_id; token_id = token.token_id }) in
      let keyed : ClientSecureChannel = record armed {
        client_keys =
            derive_basic256_sha256_keys crypto.hmac_sha256 response.server_nonce
              channel.client_nonce;
        server_keys =
            derive_basic256_sha256_keys crypto.hmac_sha256 channel.client_nonce
              response.server_nonce;
      } in
      if uses_basic256_sha256 security
      then record keyed { opened = true }
      else record armed { opened = true }

  -- `now` is the time at which the answer is there.
  unfoldable pub open_secure_channel :
      (List ℕ → StatusOr (List ℕ))
      → Draws
      → ℕ
      → ℕ
      → ℕ
      → ClientSecureChannel
      → ClientSecureChannel × ℕ
  unfolding begin_open read_open_response adopt
  open_secure_channel exchange draws now request_type requested_lifetime channel =
      let (channel, framed) = begin_open draws request_type requested_lifetime channel in
      elim (framed >>= exchange >>= read_open_response) [
        | failed status ↦ (channel, status)
        | ok response ↦
            if is_bad response.response_header.service_result
            then (channel, response.response_header.service_result)
            else (adopt now response channel, of_code good)
      ]

  unfoldable pub open_channel :
      (List ℕ → StatusOr (List ℕ)) → Draws → ℕ → ℕ → ClientSecureChannel → ClientSecureChannel × ℕ
  unfolding open_secure_channel
  open_channel exchange draws now requested_lifetime channel =
      open_secure_channel exchange draws now issue requested_lifetime channel

  unfoldable pub renew_channel :
      (List ℕ → StatusOr (List ℕ)) → Draws → ℕ → ℕ → ClientSecureChannel → ClientSecureChannel × ℕ
  unfolding open_secure_channel
  renew_channel exchange draws now requested_lifetime channel =
      if not channel.opened
      then (channel, of_code bad_no_communication)
      else open_secure_channel exchange draws now renew requested_lifetime channel

  unfoldable pub renew_if_needed :
      (List ℕ → StatusOr (List ℕ)) → Draws → ℕ → ClientSecureChannel → ClientSecureChannel × ℕ
  unfolding should_renew renew_channel
  renew_if_needed exchange draws now channel =
      if not (should_renew now channel)
      then (channel, of_code good)
      else renew_channel exchange draws now channel.revised_lifetime_ms channel
