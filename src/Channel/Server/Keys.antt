-- ===== src/Channel/Server/Keys.antt =====
-- The keys of a channel, over any sequence of its frames and responses.
use opcuapp.Base.{
  ℕ, ◌≡◌, refl, Bool, true, false, Option, none, some, List, ◌==◌, ◌&&◌, not, is_empty,
  if◌then◌else◌, inl, inr, ◌⊎◌, if_known, option_known,
}
use opcuapp.Types.Status.{StatusOr, ok, failed, status_known}
use opcuapp.Types.NodeId.{same_bytes}
use opcuapp.Binary.Crypto.{Crypto, derive_basic256_sha256_keys}
use opcuapp.Binary.Protocol.{MessageType, secure_open, secure_message, secure_close, hello}
use opcuapp.Channel.Conversation.{
  SecureConversationMessage, whole_frame, security_policy_none, security_policy_basic256_sha256,
}
use opcuapp.Channel.Handshake.{mode_none, OpenSecureChannelRequest, renew}
use opcuapp.Channel.Symmetric.{unseal}
use opcuapp.Channel.Server.{
  is_policy_none, empty_result, Config, Draws, SecureChannel, Result, close_result, next_word,
  make_channel, rotate_token, read_open_none, answer_open_none, handle_open_none,
  build_open_response, read_token_message, deliver, handle_secure_message,
}
use opcuapp.Channel.Server.Opening.{
  Accepted, accept_open, answer_open_secure, handle_open_secure, build_secure_open_response,
  install_keys,
}
use opcuapp.Channel.Server.Dispatch.{
  handle_type, handle_open, handle_open_basic256, handle_frame, build_service_response, peek_policy,
  allows_none,
}

module _ {Certificate PrivateKey : Type 0} (crypto : Crypto Certificate PrivateKey) where
  -- The keys that both ends derive from their two nonces.
  pub record HasKeys (channel : SecureChannel) : Type 0 where
    pub client_nonce : List ℕ
    pub inbound :
        channel.inbound_keys
        ≡ derive_basic256_sha256_keys crypto.hmac_sha256 channel.server_nonce client_nonce
    pub outbound :
        channel.outbound_keys
        ≡ derive_basic256_sha256_keys crypto.hmac_sha256 client_nonce channel.server_nonce

  -- A channel under its id that has no keys, or keys of its nonce and of one of the client's.
  abbrev pub IsKeyed : ℕ → SecureChannel → Type 0
  IsKeyed id channel =
      (channel.channel_id ≡ id) × ((channel.basic256_active ≡ false) ⊎ HasKeys channel)

  -- The states that a channel comes to, whatever it is sent and whatever each call draws.
  pub data Reachable (config : Option (Config PrivateKey)) (id : ℕ) : SecureChannel → Type 0 where
    constructed : Reachable config id (make_channel id)
    handled :
        (channel : SecureChannel) (draws : Draws) (frame : List ℕ)
        → Reachable config id channel
        → Reachable config id (handle_frame crypto config draws frame channel).0
    responded :
        (channel : SecureChannel) (request_id : ℕ) (body : List ℕ)
        → Reachable config id channel
        → Reachable config id (build_service_response crypto request_id body channel).0

  -- A change of the token, the sequence number and the flag alone.
  same_keys :
      (id token previous next : ℕ) (opened : Bool) (channel : SecureChannel)
      → IsKeyed id channel
      → IsKeyed id (record channel {
        token_id = token;
        previous_token_id = previous;
        next_sequence_number = next;
        opened = opened;
      })
  same_keys id token previous next opened channel (same, inl inactive) = (same, inl inactive)
  same_keys id token previous next opened channel (same, inr keys) = (
    same,
    inr (record {
      client_nonce = keys.client_nonce;
      inbound = keys.inbound;
      outbound = keys.outbound;
    }),
  )

  -- What becomes of the channel when a request without keys is answered, by its two tests.
  abbrev answered : Bool → Bool → SecureChannel → SecureChannel
  answered supported is_renew channel =
      let rotated = if supported && is_renew then rotate_token channel else channel in
      let used = record rotated { next_sequence_number = next_word rotated.next_sequence_number } in
      if supported then record used { opened = true } else used

  answered-IsKeyed :
      (id : ℕ) (supported is_renew : Bool) (channel : SecureChannel)
      → IsKeyed id channel
      → IsKeyed id (answered supported is_renew channel)
  unfolding rotate_token
  answered-IsKeyed id true true channel k = same_keys id _ _ _ _ channel k
  answered-IsKeyed id true false channel k = same_keys id _ _ _ _ channel k
  answered-IsKeyed id false is_renew channel k = same_keys id _ _ _ _ channel k

  answer_open_none-IsKeyed :
      (id : ℕ) (draws : Draws) (message : SecureConversationMessage)
      (request : OpenSecureChannelRequest) (channel : SecureChannel)
      → IsKeyed id channel
      → IsKeyed id (answer_open_none draws message request channel).0
  unfolding answer_open_none build_open_response
  answer_open_none-IsKeyed id draws message request channel k =
      answered-IsKeyed id
        (request.security_mode == mode_none && is_policy_none message.asymmetric_security_header)
        (request.request_type == renew) channel k

  handle_open_none-IsKeyed :
      (id : ℕ) (draws : Draws) (frame : List ℕ) (channel : SecureChannel)
      → IsKeyed id channel
      → IsKeyed id (handle_open_none draws frame channel).0
  unfolding handle_open_none
  handle_open_none-IsKeyed id draws frame channel k =
      option_known (λ o. IsKeyed id o.0) (read_open_none frame) (channel, close_result)
        (λ (message, request). answer_open_none draws message request channel) (λ _. k)
        (λ (message, request) _. answer_open_none-IsKeyed id draws message request channel k)

  answer_open_secure-IsKeyed :
      (id : ℕ) (config : Config PrivateKey) (draws : Draws) (accepted : Accepted PrivateKey)
      (channel : SecureChannel)
      → IsKeyed id channel
      → IsKeyed id (answer_open_secure crypto config draws accepted channel).0
  unfolding answer_open_secure build_secure_open_response install_keys
  answer_open_secure-IsKeyed id config draws accepted channel k =
      let rotated : SecureChannel =
        if accepted.request.request_type == renew
        then record channel { token_id = next_word channel.token_id }
        else channel in
      let start : IsKeyed id rotated =
        if_known (IsKeyed id) _ _ _ (λ _. same_keys id _ _ _ _ channel k) (λ _. k) in
      let P : SecureChannel × Result → Type 0 = λ o. IsKeyed id o.0 in
      let built : SecureChannel × StatusOr (List ℕ) =
        build_secure_open_response crypto config draws accepted rotated in
      status_known P built.1 (λ _. (built.0, close_result))
        (λ frame. (
          install_keys crypto accepted built.0,
          record empty_result { outbound_frame = some frame },
        ))
        (λ _ _. same_keys id _ _ _ _ rotated start)
        (λ _ _. (
          start.0,
          inr (record {
            client_nonce = accepted.request.client_nonce;
            inbound = refl;
            outbound = refl;
          }),
        ))

  handle_open_secure-IsKeyed :
      (id : ℕ) (config : Config PrivateKey) (draws : Draws) (frame : List ℕ)
      (channel : SecureChannel)
      → IsKeyed id channel
      → IsKeyed id (handle_open_secure crypto config draws frame channel).0
  unfolding handle_open_secure
  handle_open_secure-IsKeyed id config draws frame channel k =
      status_known (λ o. IsKeyed id o.0) (accept_open crypto config draws frame)
        (λ _. (channel, close_result))
        (λ accepted. answer_open_secure crypto config draws accepted channel) (λ _ _. k)
        (λ accepted _. answer_open_secure-IsKeyed id config draws accepted channel k)

  handle_open_basic256-IsKeyed :
      (id : ℕ) (config : Option (Config PrivateKey)) (draws : Draws) (frame : List ℕ)
      (channel : SecureChannel)
      → IsKeyed id channel
      → IsKeyed id (handle_open_basic256 crypto config draws frame channel).0
  unfolding handle_open_basic256
  handle_open_basic256-IsKeyed id none draws frame channel k = k
  handle_open_basic256-IsKeyed id (some config) draws frame channel k =
      if_known (λ o. IsKeyed id o.0)
        (config.allow_basic256_sha256 && not (is_empty config.certificate_der))
        (handle_open_secure crypto config draws frame channel) (channel, close_result)
        (λ _. handle_open_secure-IsKeyed id config draws frame channel k) (λ _. k)

  handle_open-IsKeyed :
      (id : ℕ) (config : Option (Config PrivateKey)) (draws : Draws) (frame : List ℕ)
      (channel : SecureChannel)
      → IsKeyed id channel
      → IsKeyed id (handle_open crypto config draws frame channel).0
  unfolding handle_open
  handle_open-IsKeyed id config draws frame channel k =
      let P : SecureChannel × Result → Type 0 = λ o. IsKeyed id o.0 in
      let closed : SecureChannel × Result = (channel, close_result) in
      let plain = handle_open_none draws frame channel in
      let allowed = if allows_none config then plain else closed in
      let keyed = handle_open_basic256 crypto config draws frame channel in
      let secured : List ℕ → SecureChannel × Result =
        λ policy. if same_bytes policy security_policy_basic256_sha256 then keyed else closed in
      option_known P (peek_policy frame) closed
        (λ policy. if same_bytes policy security_policy_none then allowed else secured policy)
        (λ _. k)
        (λ policy _.
          if_known P (same_bytes policy security_policy_none) allowed (secured policy)
            (λ _.
              if_known P (allows_none config) plain closed
                (λ _. handle_open_none-IsKeyed id draws frame channel k) (λ _. k))
            (λ _.
              if_known P (same_bytes policy security_policy_basic256_sha256) keyed closed
                (λ _. handle_open_basic256-IsKeyed id config draws frame channel k) (λ _. k)))

  deliver-IsKeyed :
      (id : ℕ) (is_close : Bool) (r : ℕ) (body : List ℕ) (channel : SecureChannel)
      → IsKeyed id channel
      → IsKeyed id (deliver is_close r body channel).0
  unfolding deliver
  deliver-IsKeyed id true r body channel k = same_keys id _ _ _ _ channel k
  deliver-IsKeyed id false r body channel k = k

  handle_secure_message-IsKeyed :
      (id : ℕ) (frame : List ℕ) (is_close : Bool) (channel : SecureChannel)
      → IsKeyed id channel
      → IsKeyed id (handle_secure_message crypto frame is_close channel).0
  unfolding handle_secure_message
  handle_secure_message-IsKeyed id frame is_close channel k =
      let P : SecureChannel × Result → Type 0 = λ o. IsKeyed id o.0 in
      let closed : SecureChannel × Result = (channel, close_result) in
      let from_plain : SecureConversationMessage → SecureChannel × Result =
        λ message. deliver is_close message.sequence_header.request_id message.body channel in
      let from_keys : ℕ × List ℕ → SecureChannel × Result =
        λ opened. deliver is_close opened.0 opened.1 channel in
      let plain : SecureChannel × Result = elim (read_token_message frame channel) [
        | none ↦ closed
        | some message ↦ from_plain message
      ] in
      let keyed : SecureChannel × Result =
        elim (unseal crypto channel.inbound_keys channel.channel_id channel.token_id frame) [
          | failed status ↦ closed
          | ok opened ↦ from_keys opened
        ] in
      if_known P (not channel.opened) closed (if not channel.basic256_active then plain else keyed)
        (λ _. k)
        (λ _.
          if_known P (not channel.basic256_active) plain keyed
            (λ _.
              option_known P (read_token_message frame channel) closed from_plain (λ _. k)
                (λ message _.
                  deliver-IsKeyed id is_close message.sequence_header.request_id message.body
                    channel k))
            (λ _.
              status_known P
                (unseal crypto channel.inbound_keys channel.channel_id channel.token_id frame)
                (λ _. closed) from_keys (λ _ _. k)
                (λ opened _. deliver-IsKeyed id is_close opened.0 opened.1 channel k)))

  handle_type-IsKeyed :
      (id : ℕ) (t : MessageType) (config : Option (Config PrivateKey)) (draws : Draws)
      (frame : List ℕ) (channel : SecureChannel)
      → IsKeyed id channel
      → IsKeyed id (handle_type crypto t config draws frame channel).0
  unfolding handle_type
  handle_type-IsKeyed id secure_open config draws frame channel k =
      handle_open-IsKeyed id config draws frame channel k
  handle_type-IsKeyed id secure_message config draws frame channel k =
      handle_secure_message-IsKeyed id frame false channel k
  handle_type-IsKeyed id secure_close config draws frame channel k =
      handle_secure_message-IsKeyed id frame true channel k
  handle_type-IsKeyed id hello config draws frame channel k = k
  handle_type-IsKeyed id _ config draws frame channel k = k

  handle_frame-IsKeyed :
      (id : ℕ) (config : Option (Config PrivateKey)) (draws : Draws) (frame : List ℕ)
      (channel : SecureChannel)
      → IsKeyed id channel
      → IsKeyed id (handle_frame crypto config draws frame channel).0
  unfolding handle_frame
  handle_frame-IsKeyed id config draws frame channel k =
      option_known (λ o. IsKeyed id o.0) (whole_frame frame) (channel, close_result)
        (λ header. handle_type crypto header.message_type config draws frame channel) (λ _. k)
        (λ header _. handle_type-IsKeyed id header.message_type config draws frame channel k)

  build_service_response-IsKeyed :
      (id request_id : ℕ) (body : List ℕ) (channel : SecureChannel)
      → IsKeyed id channel
      → IsKeyed id (build_service_response crypto request_id body channel).0
  unfolding build_service_response
  build_service_response-IsKeyed id request_id body channel k = same_keys id _ _ _ _ channel k

-- Whatever frames a channel is sent and whatever responses it builds, it keeps the id it was made
-- with, and it has no keys, or the keys that derive from its own nonce and one nonce of the client.
pub Reachable-IsKeyed :
    {Certificate PrivateKey : Type 0} (crypto : Crypto Certificate PrivateKey)
    (config : Option (Config PrivateKey)) (id : ℕ) (channel : SecureChannel)
    → Reachable crypto config id channel
    → IsKeyed crypto id channel
unfolding make_channel
Reachable-IsKeyed crypto config id _ constructed = (refl, inl refl)
Reachable-IsKeyed crypto config id _ (handled channel draws frame before) =
    handle_frame-IsKeyed crypto id config draws frame channel
      (Reachable-IsKeyed crypto config id channel before)
Reachable-IsKeyed crypto config id _ (responded channel request_id body before) =
    build_service_response-IsKeyed crypto id request_id body channel
      (Reachable-IsKeyed crypto config id channel before)
