-- ===== src/Channel/Server/Dispatch.antt =====
-- HandleFrame, by the type of the frame, and BuildServiceResponse.
use opcuapp.Base.{
  ◌∷◌, ℕ, Bool, true, false, Option, none, some, List, ◌>>=◌, drop, not, ◌&&◌, is_empty,
  if◌then◌else◌, [],
}
use opcuapp.Types.Status.{ok, failed}
use opcuapp.Types.NodeId.{same_bytes}
use opcuapp.Binary.Codec.{decode_uint32, decode_string}
use opcuapp.Binary.Crypto.{Crypto}
use opcuapp.Binary.Protocol.{MessageType, secure_open, secure_message, secure_close}
use opcuapp.Channel.Conversation.{
  whole_frame, token_message, encode_secure_conversation_message, security_policy_none,
  security_policy_basic256_sha256,
}
use opcuapp.Channel.Symmetric.{seal}
use opcuapp.Channel.Server.{
  Config, Draws, SecureChannel, Result, close_result, next_word, handle_open_none,
  handle_secure_message,
}
use opcuapp.Channel.Server.Opening.{handle_open_secure}

-- The policy URI of an OPN frame, which stands in the clear behind the channel id.
unfoldable pub peek_policy : List ℕ → Option (List ℕ)
unfolding decode_uint32 decode_string
peek_policy frame = do
  (requested_channel_id, bytes) ← decode_uint32 (drop 8 frame)
  (policy_uri, bytes) ← decode_string bytes
  some policy_uri

-- `config_ && !config_->allow_none` is a channel that refuses the policy None.
unfoldable pub allows_none : {PrivateKey : Type 0} → Option (Config PrivateKey) → Bool
allows_none none = true
allows_none (some config) = config.allow_none

-- "MSGF" and a size of 0.
abbrev pub message_tag : List ℕ
message_tag = b'M' ∷ b'S' ∷ b'G' ∷ b'F' ∷ []

module _ {Certificate PrivateKey : Type 0} (crypto : Crypto Certificate PrivateKey) where
  unfoldable pub handle_open_basic256 :
      Option (Config PrivateKey) → Draws → List ℕ → SecureChannel → SecureChannel × Result
  unfolding handle_open_secure
  handle_open_basic256 none draws frame channel = (channel, close_result)
  handle_open_basic256 (some config) draws frame channel =
      if config.allow_basic256_sha256 && not (is_empty config.certificate_der)
      then handle_open_secure crypto config draws frame channel
      else (channel, close_result)

  unfoldable pub handle_open :
      Option (Config PrivateKey) → Draws → List ℕ → SecureChannel → SecureChannel × Result
  unfolding peek_policy allows_none handle_open_none handle_open_basic256
  handle_open config draws frame channel = elim (peek_policy frame) [
    | none ↦ (channel, close_result)
    | some policy_uri ↦
        if same_bytes policy_uri security_policy_none
        then (if allows_none config
            then handle_open_none draws frame channel
            else (channel, close_result))
        else if same_bytes policy_uri security_policy_basic256_sha256
        then handle_open_basic256 config draws frame channel
        else (channel, close_result)
  ]

  unfoldable pub handle_type :
      MessageType
      → Option (Config PrivateKey)
      → Draws
      → List ℕ
      → SecureChannel
      → SecureChannel × Result
  unfolding handle_open handle_secure_message
  handle_type secure_open config draws frame channel = handle_open config draws frame channel
  handle_type secure_message config draws frame channel =
      handle_secure_message crypto frame false channel
  handle_type secure_close config draws frame channel =
      handle_secure_message crypto frame true channel
  handle_type _ config draws frame channel = (channel, close_result)

  unfoldable pub handle_frame :
      Option (Config PrivateKey) → Draws → List ℕ → SecureChannel → SecureChannel × Result
  unfolding whole_frame handle_type
  handle_frame config draws frame channel = elim (whole_frame frame) [
    | none ↦ (channel, close_result)
    | some header ↦ handle_type header.message_type config draws frame channel
  ]

  -- A response that cannot be built is the empty frame.
  unfoldable pub build_service_response : ℕ → List ℕ → SecureChannel → SecureChannel × List ℕ
  unfolding seal encode_secure_conversation_message
  build_service_response request_id body channel =
      let n = channel.next_sequence_number in
      let framed =
        seal crypto channel.outbound_keys message_tag channel.channel_id channel.token_id n
          request_id body in
      let written =
        encode_secure_conversation_message
          (token_message secure_message channel.channel_id channel.token_id n request_id body) in
      (
        record channel { next_sequence_number = next_word n },
        (if channel.basic256_active
            then (elim framed [ failed status ↦ [] | ok frame ↦ frame ])
            else (elim written [ none ↦ [] | some frame ↦ frame ])),
      )
