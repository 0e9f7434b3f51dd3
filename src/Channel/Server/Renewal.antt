-- ===== src/Channel/Server/Renewal.antt =====
-- An OpenSecureChannel request under the policy None on its way to the handler.
use mathlib.Core.List.{append_assoc}
use opcuapp.Base.{
  ℕ, ◌+◌, ◌^◌, ◌<◌, ◌≡◌, refl, ap, ◌∙◌, true, Option, none, some, List, [], ◌++◌, ◌>>=◌, arith,
  length, length-append,
}
use opcuapp.Types.NodeId.{same_bytes}
use opcuapp.Binary.Codec.{encode_uint32, encode_string}
use opcuapp.Binary.Codec.RoundTrip.{decode-encode_string}
use opcuapp.Binary.Crypto.{Crypto}
use opcuapp.Binary.Protocol.{secure_open, decode_frame_header}
use opcuapp.Channel.Conversation.{
  AsymmetricSecurityHeader, SecureConversationMessage, open_message, whole_frame,
  encode_asymmetric_header, encode_secure_conversation_message, decode_secure_conversation_message,
  security_policy_none,
}
use opcuapp.Channel.Conversation.RoundTrip.{
  IsWireHeader, encode_open_message, decode-encode_open_message, open_start, word_pair, sized,
}
use opcuapp.Channel.Handshake.{OpenSecureChannelRequest, encode_open_request, decode_open_request}
use opcuapp.Channel.Handshake.RoundTrip.{IsWireOpenRequest, decode-encode_open_request}
use opcuapp.Channel.Server.{
  Config, Draws, SecureChannel, close_result, read_open_none, answer_open_none, handle_open_none,
}
use opcuapp.Channel.Server.Dispatch.{
  handle_type, handle_open, handle_frame, peek_policy, allows_none,
}

-- The body of an OPN chunk with this header, as it is sent.
abbrev pub open_body : AsymmetricSecurityHeader → ℕ → ℕ → List ℕ → List ℕ
open_body h s r body = encode_asymmetric_header [] h ++ (word_pair s r ++ body)

peek_policy-open_start :
    (h : AsymmetricSecurityHeader) (size channel s r : ℕ) (body : List ℕ)
    → length h.security_policy_uri < 2 ^ 31
    → peek_policy (open_start size channel ++ open_body h s r body) ≡ some h.security_policy_uri
unfolding peek_policy encode_uint32
peek_policy-open_start h size channel s r body small =
    let rest =
      (encode_string [] h.sender_certificate ++ encode_string [] h.receiver_certificate_thumbprint)
      ++ (word_pair s r ++ body) in
    let apart : open_body h s r body ≡ encode_string [] h.security_policy_uri ++ rest =
      unfold encode_asymmetric_header encode_string encode_uint32 in simp append_assoc in
    rw (apart, decode-encode_string h.security_policy_uri rest small)

whole_frame-open_start :
    (header : List ℕ) (channel s r : ℕ) (body : List ℕ)
    → length header + (length body + 20) < 2 ^ 32
    → whole_frame (
        open_start (length header + (length body + 20)) channel
        ++ (header ++ (word_pair s r ++ body)))
      ≡ some (record {
        message_type = secure_open;
        chunk_type = b'F';
        message_size = length header + (length body + 20);
      })
unfolding whole_frame decode_frame_header encode_uint32
whole_frame-open_start header channel s r body small =
    ground (arith, length-append header (word_pair s r ++ body))

module _ {Certificate PrivateKey : Type 0} (crypto : Crypto Certificate PrivateKey)
    (config : Option (Config PrivateKey)) (draws : Draws) (frame : List ℕ)
    (channel : SecureChannel) where
  handle_type_open :
      handle_type crypto secure_open config draws frame channel
      ≡ handle_open crypto config draws frame channel
  unfolding handle_type
  handle_type_open = refl

  handle_frame_open :
      (chunk_type size : ℕ)
      → whole_frame frame
        ≡ some (record { message_type = secure_open; chunk_type = chunk_type; message_size = size })
      → handle_frame crypto config draws frame channel
        ≡ handle_open crypto config draws frame channel
  unfolding handle_frame
  handle_frame_open chunk_type size e =
      ap
        (λ whole. elim whole [
          | none ↦ (channel, close_result)
          | some header ↦ handle_type crypto header.message_type config draws frame channel
        ])
        e
      ∙ handle_type_open

  handle_open_policy_none :
      (policy : List ℕ)
      → peek_policy frame ≡ some policy
      → policy ≡ security_policy_none
      → allows_none config ≡ true
      → handle_open crypto config draws frame channel ≡ handle_open_none draws frame channel
  unfolding handle_open same_bytes
  handle_open_policy_none policy e p allowed = rw (handle_open, e, p, allowed)

  handle_open_none_lem :
      (message : SecureConversationMessage) (request : OpenSecureChannelRequest)
      → decode_secure_conversation_message frame ≡ some message
      → decode_open_request message.body ≡ some request
      → handle_open_none draws frame channel ≡ answer_open_none draws message request channel
  unfolding handle_open_none read_open_none
  handle_open_none_lem message request e f = rw (handle_open_none, read_open_none, e, f)

-- An OpenSecureChannel request that fits the wire, in an OPN chunk of the policy None, reaches
-- HandleOpenNone's answer as it was sent.
pub handle_frame-open_message :
    {Certificate PrivateKey : Type 0} (crypto : Crypto Certificate PrivateKey)
    (config : Option (Config PrivateKey)) (draws : Draws) (channel : SecureChannel)
    (h : AsymmetricSecurityHeader) (c s r : ℕ) (q : OpenSecureChannelRequest)
    → allows_none config ≡ true
    → IsWireHeader h
    → h.security_policy_uri ≡ security_policy_none
    → IsWireOpenRequest q
    → c < 2 ^ 32
    → s < 2 ^ 32
    → r < 2 ^ 32
    → length (encode_asymmetric_header [] h) + (length (encode_open_request q) + 20) < 2 ^ 32
    → (do
      frame ← encode_secure_conversation_message (open_message c h s r (encode_open_request q))
      some (handle_frame crypto config draws frame channel))
      ≡ some (
          answer_open_none draws
            (sized
              (open_message c h s r (encode_open_request q))
              (length (encode_asymmetric_header [] h) + (length (encode_open_request q) + 20)))
            q
            channel)
handle_frame-open_message crypto config draws channel h c s r q allowed wire policy fits hc hs hr
      small =
    let body = encode_open_request q in
    let size = length (encode_asymmetric_header [] h) + (length body + 20) in
    let frame = open_start size c ++ open_body h s r body in
    let written = encode_open_message h c s r body in
    let decoded = rw written at (decode-encode_open_message h c s r body wire hc hs hr small) in
    rw written (
      ap some (
        handle_frame_open crypto config draws frame channel _ _
          (whole_frame-open_start (encode_asymmetric_header [] h) c s r body small)
        ∙ (handle_open_policy_none crypto config draws frame channel _
              (peek_policy-open_start h size c s r body wire.security_policy_uri) policy allowed
            ∙ handle_open_none_lem crypto config draws frame channel _ q decoded
                (decode-encode_open_request q fits))))
