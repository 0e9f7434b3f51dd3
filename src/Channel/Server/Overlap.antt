-- ===== src/Channel/Server/Overlap.antt =====
-- The two tokens of a channel without keys after a renewal.
use opcuapp.Base.{
  ℕ, ◌+◌, ◌^◌, ◌<◌, ◌≡◌, refl, ap, ◌∙◌, true, false, Option, some, List, [], ◌>>=◌, arith, length,
  Option-cases, inl, inr, ◌⊎◌,
}
use opcuapp.Types.NodeId.{same_bytes}
use opcuapp.Binary.Crypto.{Crypto}
use opcuapp.Binary.Protocol.{secure_message}
use opcuapp.Channel.Conversation.{
  AsymmetricSecurityHeader, SecureConversationMessage, open_message, token_message,
  encode_asymmetric_header, encode_secure_conversation_message, security_policy_none,
}
use opcuapp.Channel.Conversation.RoundTrip.{IsWireHeader}
use opcuapp.Channel.Handshake.{
  OpenSecureChannelRequest, encode_open_request, encode_open_response, renew, mode_none,
}
use opcuapp.Channel.Handshake.RoundTrip.{IsWireOpenRequest}
use opcuapp.Channel.Server.{
  Config, Draws, SecureChannel, empty_result, next_word, open_response, rotate_token,
  build_open_response, answer_open_none,
}
use opcuapp.Channel.Server.Dispatch.{handle_frame, allows_none}
use opcuapp.Channel.Server.Traffic.{payload_result, is_live, handle_frame-token_message}
use opcuapp.Channel.Server.Renewal.{handle_frame-open_message}

-- An OPN chunk that asks for a renewal under the policy None, and that fits the wire.
pub record IsRenewal (h : AsymmetricSecurityHeader) (c s r : ℕ) (q : OpenSecureChannelRequest)
    : Type 0 where
  pub header : IsWireHeader h
  pub policy : h.security_policy_uri ≡ security_policy_none
  pub request : IsWireOpenRequest q
  pub security_mode : q.security_mode ≡ mode_none
  pub request_type : q.request_type ≡ renew
  pub channel_id : c < 2 ^ 32
  pub sequence_number : s < 2 ^ 32
  pub request_id : r < 2 ^ 32
  pub size : length (encode_asymmetric_header [] h) + (length (encode_open_request q) + 20) < 2 ^ 32

-- The channel after a renewal.
abbrev pub renewed : SecureChannel → SecureChannel
renewed channel = record channel {
  previous_token_id = channel.token_id;
  token_id = next_word channel.token_id;
  next_sequence_number = next_word channel.next_sequence_number;
  opened = true;
}

abbrev pub no_header : AsymmetricSecurityHeader
no_header = record {
  security_policy_uri = security_policy_none;
  sender_certificate = [];
  receiver_certificate_thumbprint = [];
}

answer_open_none-renew :
    (draws : Draws) (channel : SecureChannel) (message : SecureConversationMessage)
    (h : AsymmetricSecurityHeader) (q : OpenSecureChannelRequest)
    → message.asymmetric_security_header ≡ some h
    → h.security_policy_uri ≡ security_policy_none
    → q.security_mode ≡ mode_none
    → q.request_type ≡ renew
    → answer_open_none draws message q channel ≡ (
      renewed channel,
      record empty_result {
        outbound_frame = encode_secure_conversation_message (
            open_message channel.channel_id no_header channel.next_sequence_number
              message.sequence_header.request_id
              (encode_open_response (open_response draws q 0 [] (renewed channel))));
      },
    )
unfolding answer_open_none build_open_response rotate_token same_bytes
answer_open_none-renew draws channel message h q e policy mode kind =
    rw (answer_open_none, e, policy, mode, kind)

pub handle_frame-IsRenewal :
    {Certificate PrivateKey : Type 0} (crypto : Crypto Certificate PrivateKey)
    (config : Option (Config PrivateKey)) (draws : Draws) (channel : SecureChannel)
    (h : AsymmetricSecurityHeader) (c s r : ℕ) (q : OpenSecureChannelRequest)
    → allows_none config ≡ true
    → IsRenewal h c s r q
    → (do
      frame ← encode_secure_conversation_message (open_message c h s r (encode_open_request q))
      some (handle_frame crypto config draws frame channel))
      ≡ some (
        renewed channel,
        record empty_result {
          outbound_frame = encode_secure_conversation_message (
              open_message channel.channel_id no_header channel.next_sequence_number r
                (encode_open_response (open_response draws q 0 [] (renewed channel))));
        },
      )
handle_frame-IsRenewal crypto config draws channel h c s r q allowed w =
    handle_frame-open_message crypto config draws channel h c s r q allowed w.header w.policy
      w.request w.channel_id w.sequence_number w.request_id w.size
    ∙ ap some
        (answer_open_none-renew draws channel _ h q refl w.policy w.security_mode w.request_type)

is_live-renewed :
    (token : ℕ) (channel : SecureChannel)
    → 0 < channel.token_id
    → (token ≡ channel.token_id) ⊎ (token ≡ next_word channel.token_id)
    → is_live token (renewed channel) ≡ true
is_live-renewed token channel used (inl e) = ground arith
is_live-renewed token channel used (inr e) = ground arith

-- When an open channel without keys, whose token is not 0, has handled a renewal, it delivers a chunk
-- that comes under the superseded token as well as one under the new token.
pub handle_frame-renew :
    {Certificate PrivateKey : Type 0} (crypto : Crypto Certificate PrivateKey)
    (config : Option (Config PrivateKey)) (draws later : Draws) (channel : SecureChannel)
    (h : AsymmetricSecurityHeader) (c s r : ℕ) (q : OpenSecureChannelRequest)
    (token sequence_number request_id : ℕ) (body : List ℕ)
    → allows_none config ≡ true
    → IsRenewal h c s r q
    → channel.basic256_active ≡ false
    → channel.channel_id < 2 ^ 32
    → 0 < channel.token_id
    → channel.token_id < 2 ^ 32
    → (token ≡ channel.token_id) ⊎ (token ≡ next_word channel.token_id)
    → sequence_number < 2 ^ 32
    → request_id < 2 ^ 32
    → length body + 24 < 2 ^ 32
    → (do
      frame ← encode_secure_conversation_message (open_message c h s r (encode_open_request q))
      let channel = (handle_frame crypto config draws frame channel).0
      frame ←
          encode_secure_conversation_message
            (token_message secure_message channel.channel_id token sequence_number request_id body)
      some (handle_frame crypto config later frame channel))
      ≡ some (renewed channel, payload_result request_id body)
handle_frame-renew crypto config draws later channel h c s r q token sequence_number request_id body
      allowed w plain hc used ht live hs hr small =
    let first = handle_frame-IsRenewal crypto config draws channel h c s r q allowed w in
    let fits : token < 2 ^ 32 = elim live [ inl e ↦ omega (arith, e) | inr e ↦ omega (arith, e) ] in
    let second = rw (is_live-renewed token channel used live) at (
      handle_frame-token_message crypto config later (renewed channel) token sequence_number
        request_id body refl plain hc fits hs hr small) in
    elim (Option-cases
      (encode_secure_conversation_message (open_message c h s r (encode_open_request q)))) [
        | inl e ↦ absurd (cc (rw e at first))
        | inr (frame, e) ↦
            let step : (handle_frame crypto config draws frame channel).0 ≡ renewed channel =
              cc (rw e at first) in
            rw (e, step) second
      ]
