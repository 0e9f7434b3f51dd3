-- ===== src/Channel/Conversation/RoundTrip.antt =====
-- A chunk is read back as it was written, with the size that its frame has.
use mathlib.Core.List.{append_assoc}
use opcuapp.Base.{
  ◌∙◌, ap, ℕ, ◌+◌, ◌%◌, ◌^◌, ◌<◌, ◌≡◌, false, some, List, [], ◌∷◌, ◌++◌, ◌>>=◌, arith, length,
  length-append,
}
use opcuapp.Binary.Codec.{encode_uint32, encode_string}
use opcuapp.Binary.Codec.RoundTrip.{word_bytes, decode-encode_string}
use opcuapp.Binary.Protocol.{
  decode_frame_header, MessageType, secure_message, secure_open, encode_frame_header,
}
use opcuapp.Channel.Conversation.{
  stamp_size, whole_frame, fix_up_frame_size, decode_security_header, encode_security_header,
  decode_sequence_header, SecureConversationMessage, AsymmetricSecurityHeader, is_secure_open,
  token_message, open_message, encode_asymmetric_header, decode_asymmetric_header,
  encode_secure_conversation_message, decode_secure_conversation_message,
}

-- The size that the written chunk has.
abbrev pub sized : SecureConversationMessage → ℕ → SecureConversationMessage
sized message size = record message {
  frame_header = record message.frame_header { message_size = size };
}

pub decode-encode_token_message :
    (t : MessageType) (channel token s r : ℕ) (body : List ℕ)
    → is_secure_open t ≡ false
    → channel < 2 ^ 32
    → token < 2 ^ 32
    → s < 2 ^ 32
    → r < 2 ^ 32
    → length body + 24 < 2 ^ 32
    → (do
      frame ← encode_secure_conversation_message (token_message t channel token s r body)
      decode_secure_conversation_message frame)
      ≡ some (sized (token_message t channel token s r body) (length body + 24))
unfolding decode_secure_conversation_message encode_secure_conversation_message
decode-encode_token_message secure_open channel token s r body o hc ht hs hr hb = cc
decode-encode_token_message secure_message channel token s r body o hc ht hs hr hb = ground arith
decode-encode_token_message _ channel token s r body o hc ht hs hr hb = ground arith

pub record IsWireHeader (h : AsymmetricSecurityHeader) : Type 0 where
  pub security_policy_uri : length h.security_policy_uri < 2 ^ 31
  pub sender_certificate : length h.sender_certificate < 2 ^ 31
  pub receiver_certificate_thumbprint : length h.receiver_certificate_thumbprint < 2 ^ 31

-- What a header adds to the bytes before it.
pub encode_asymmetric_header-append :
    (bytes : List ℕ) (h : AsymmetricSecurityHeader)
    → encode_asymmetric_header bytes h ≡ bytes ++ encode_asymmetric_header [] h
unfolding encode_asymmetric_header encode_string encode_uint32
encode_asymmetric_header-append bytes h = simp append_assoc

pub decode-encode_asymmetric_header :
    (h : AsymmetricSecurityHeader) (rest : List ℕ)
    → IsWireHeader h
    → decode_asymmetric_header (encode_asymmetric_header [] h ++ rest) ≡ some (h, rest)
unfolding decode_asymmetric_header
decode-encode_asymmetric_header h rest w =
    let after = encode_string [] h.receiver_certificate_thumbprint ++ rest in
    let middle = encode_string [] h.sender_certificate ++ after in
    let apart : encode_asymmetric_header [] h ++ rest
        ≡ encode_string [] h.security_policy_uri ++ middle =
      unfold encode_asymmetric_header encode_string encode_uint32 in simp append_assoc in
    rw (
      apart,
      decode-encode_string h.security_policy_uri middle w.security_policy_uri,
      decode-encode_string h.sender_certificate after w.sender_certificate,
      decode-encode_string h.receiver_certificate_thumbprint rest w.receiver_certificate_thumbprint,
    )

-- The bytes of an OPN chunk.
encode_security_header-open :
    (bytes : List ℕ) (h : AsymmetricSecurityHeader) (channel s r : ℕ) (body : List ℕ)
    → encode_security_header bytes (open_message channel h s r body)
      ≡ some (bytes ++ encode_asymmetric_header [] h)
unfolding encode_security_header
encode_security_header-open bytes h channel s r body =
    ap some (encode_asymmetric_header-append bytes h)

abbrev pub open_start : ℕ → ℕ → List ℕ
open_start size channel =
    encode_uint32 (encode_uint32 (b'O' ∷ b'P' ∷ b'N' ∷ b'F' ∷ []) (size % 2 ^ 32)) channel

abbrev pub word_pair : ℕ → ℕ → List ℕ
word_pair s r = encode_uint32 (encode_uint32 [] s) r

fix_up_frame_size-open :
    (header : List ℕ) (channel s r : ℕ) (body : List ℕ)
    → fix_up_frame_size (encode_uint32 (encode_uint32 (open_start 0 channel ++ header) s) r ++ body)
      ≡ open_start (length header + (length body + 20)) channel
        ++ (header ++ (word_pair s r ++ body))
unfolding fix_up_frame_size stamp_size encode_uint32
fix_up_frame_size-open header channel s r body =
    let size : length (open_start 0 channel ++ (header ++ (word_pair s r ++ body)))
        ≡ length header + (length body + 20) =
      ground (arith, length-append header (word_pair s r ++ body)) in
    let apart : encode_uint32 (encode_uint32 (open_start 0 channel ++ header) s) r ++ body
        ≡ open_start 0 channel ++ (header ++ (word_pair s r ++ body)) =
      simp append_assoc in
    ap fix_up_frame_size apart ∙ ground (arith, size)

pub encode_open_message :
    (h : AsymmetricSecurityHeader) (channel s r : ℕ) (body : List ℕ)
    → encode_secure_conversation_message (open_message channel h s r body)
      ≡ some (
          open_start (length (encode_asymmetric_header [] h) + (length body + 20)) channel
          ++ (encode_asymmetric_header [] h ++ (word_pair s r ++ body)))
unfolding encode_secure_conversation_message encode_frame_header
encode_open_message h channel s r body =
    ap
      (λ written. written >>= λ frame.
        some (fix_up_frame_size (encode_uint32 (encode_uint32 frame s) r ++ body)))
      (encode_security_header-open (open_start 0 channel) h channel s r body)
    ∙ ap some (fix_up_frame_size-open (encode_asymmetric_header [] h) channel s r body)

decode-open_start :
    (header : List ℕ) (h : AsymmetricSecurityHeader) (channel s r : ℕ) (body : List ℕ)
    → channel < 2 ^ 32
    → s < 2 ^ 32
    → r < 2 ^ 32
    → length header + (length body + 20) < 2 ^ 32
    → decode_asymmetric_header (header ++ (word_pair s r ++ body)) ≡ some (h, word_pair s r ++ body)
    → decode_secure_conversation_message (
        open_start (length header + (length body + 20)) channel
        ++ (header ++ (word_pair s r ++ body)))
      ≡ some (sized (open_message channel h s r body) (length header + (length body + 20)))
unfolding decode_secure_conversation_message whole_frame decode_security_header decode_frame_header
    decode_sequence_header encode_uint32
decode-open_start header h channel s r body hc hs hr hb e = ground (
  arith,
  e,
  word_bytes channel hc,
  word_bytes s hs,
  word_bytes r hr,
  length-append header (word_pair s r ++ body),
)

pub decode-encode_open_message :
    (h : AsymmetricSecurityHeader) (channel s r : ℕ) (body : List ℕ)
    → IsWireHeader h
    → channel < 2 ^ 32
    → s < 2 ^ 32
    → r < 2 ^ 32
    → length (encode_asymmetric_header [] h) + (length body + 20) < 2 ^ 32
    → (do
      frame ← encode_secure_conversation_message (open_message channel h s r body)
      decode_secure_conversation_message frame)
      ≡ some (
          sized
            (open_message channel h s r body)
            (length (encode_asymmetric_header [] h) + (length body + 20)))
decode-encode_open_message h channel s r body w hc hs hr hb =
    let header = encode_asymmetric_header [] h in
    rw (encode_open_message h channel s r body) (
      decode-open_start header h channel s r body hc hs hr hb
        (decode-encode_asymmetric_header h (word_pair s r ++ body) w))

pub whole_frame-token_message :
    (t : MessageType) (channel token s r : ℕ) (body : List ℕ)
    → is_secure_open t ≡ false
    → length body + 24 < 2 ^ 32
    → (do
      frame ← encode_secure_conversation_message (token_message t channel token s r body)
      whole_frame frame)
      ≡ some (record { message_type = t; chunk_type = b'F'; message_size = length body + 24 })
unfolding whole_frame encode_secure_conversation_message decode_frame_header
whole_frame-token_message secure_open channel token s r body o hb = cc
whole_frame-token_message secure_message channel token s r body o hb = ground arith
whole_frame-token_message _ channel token s r body o hb = ground arith
