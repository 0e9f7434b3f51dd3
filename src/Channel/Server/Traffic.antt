-- ===== src/Channel/Server/Traffic.antt =====
-- What becomes of the chunks that a client sends under a token.
use opcuapp.Base.{
  ◌>>◌, guard, ap, Option-cases, ◌∙◌, ℕ, ◌+◌, ◌^◌, ◌<◌, ◌≡◌, refl, Bool, true, false, Option, none,
  some, List, ◌++◌, ◌>>=◌, arith, length, not, ◌==◌, ◌&&◌, ◌||◌, if◌then◌else◌, inl, inr,
}
use opcuapp.Types.Status.{ok}
use opcuapp.Binary.Codec.{encode_uint32}
use opcuapp.Binary.Crypto.{Crypto, DerivedKeys}
use opcuapp.Binary.Protocol.{FrameHeader, secure_message, final_chunk_type, decode_frame_header}
use opcuapp.Channel.Conversation.{
  SecureConversationMessage, token_message, whole_frame, encode_secure_conversation_message,
  decode_secure_conversation_message, stamp_size,
}
use opcuapp.Channel.Conversation.RoundTrip.{whole_frame-token_message, decode-encode_token_message}
use opcuapp.Channel.Symmetric.{seal, unseal, symmetric_header}
use opcuapp.Channel.Symmetric.Opening.{
  IsSymmetricCipher, seal-Sealed, unseal-seal, padded, length-padded,
}
use opcuapp.Channel.Server.{
  Config, Draws, SecureChannel, Result, empty_result, close_result, deliver, handle_secure_message,
  read_token_message,
}
use opcuapp.Channel.Server.Dispatch.{message_tag, handle_type, handle_frame}

abbrev pub payload_result : ℕ → List ℕ → Result
payload_result request_id body = record empty_result {
  service_payload = some body;
  request_id = some request_id;
}

handle_type_lem :
    {Certificate PrivateKey : Type 0} (crypto : Crypto Certificate PrivateKey)
    (config : Option (Config PrivateKey)) (draws : Draws) (frame : List ℕ) (channel : SecureChannel)
    → handle_type crypto secure_message config draws frame channel
      ≡ handle_secure_message crypto frame false channel
unfolding handle_type
handle_type_lem crypto config draws frame channel = refl

-- The steps of HandleFrame and of HandleSecureMessage that need no look at the frame's contents.
pub handle_frame_lem :
    {Certificate PrivateKey : Type 0} (crypto : Crypto Certificate PrivateKey)
    (config : Option (Config PrivateKey)) (draws : Draws) (frame : List ℕ) (channel : SecureChannel)
    (chunk_type size : ℕ)
    → whole_frame frame
      ≡ some
          (record { message_type = secure_message; chunk_type = chunk_type; message_size = size })
    → handle_frame crypto config draws frame channel
      ≡ handle_secure_message crypto frame false channel
unfolding handle_frame
handle_frame_lem crypto config draws frame channel chunk_type size e =
    ap
      (λ whole. elim whole [
        | none ↦ (channel, close_result)
        | some header ↦ handle_type crypto header.message_type config draws frame channel
      ])
      e
    ∙ handle_type_lem crypto config draws frame channel

pub handle_secure_message_lem :
    {Certificate PrivateKey : Type 0} (crypto : Crypto Certificate PrivateKey) (frame : List ℕ)
    (is_close : Bool) (channel : SecureChannel) (request_id : ℕ) (body : List ℕ)
    → channel.opened ≡ true
    → channel.basic256_active ≡ true
    → unseal crypto channel.inbound_keys channel.channel_id channel.token_id frame
      ≡ ok (request_id, body)
    → handle_secure_message crypto frame is_close channel ≡ deliver is_close request_id body channel
unfolding handle_secure_message
handle_secure_message_lem crypto frame is_close channel request_id body opened active e =
    ground (arith, opened, active, e)

whole_frame-symmetric_header :
    (channel token size : ℕ) (cipher : List ℕ)
    → length cipher + 16 ≡ size
    → size < 2 ^ 32
    → whole_frame (symmetric_header message_tag channel token size ++ cipher)
      ≡ some (record {
        message_type = secure_message;
        chunk_type = final_chunk_type;
        message_size = size;
      })
unfolding whole_frame decode_frame_header symmetric_header stamp_size encode_uint32
whole_frame-symmetric_header channel token size cipher e small = ground arith

pub whole_frame-seal :
    {Certificate PrivateKey : Type 0} (crypto : Crypto Certificate PrivateKey) (keys : DerivedKeys)
    (channel token s r : ℕ) (body frame : List ℕ)
    → IsSymmetricCipher crypto
    → length body + 80 < 2 ^ 32
    → seal crypto keys message_tag channel token s r body ≡ ok frame
    → (size : ℕ) × (whole_frame frame
        ≡ some (record {
          message_type = secure_message;
          chunk_type = final_chunk_type;
          message_size = size;
        }))
whole_frame-seal crypto keys channel token s r body frame cipher_ok small e =
    let sealed =
      seal-Sealed crypto keys b'M' b'S' b'G' b'F' channel token s r body frame cipher_ok e in
    let size = 16 + (length (padded sealed.pad s r body) + 32) in
    (
      size,
      rw (sealed.whole, sealed.header_eq)
          (whole_frame-symmetric_header channel token size sealed.cipher
            (omega (arith, sealed.size))
            (omega (arith, length-padded s r sealed.pad body, sealed.small))),
    )

-- A frame that a client sealed with the keys that a secured channel reads with, under its id and its
-- token, is delivered as it was sent: the channel stays as it is, and the result is the request id
-- and the body.
pub handle_frame-seal :
    {Certificate PrivateKey : Type 0} (crypto : Crypto Certificate PrivateKey)
    (config : Option (Config PrivateKey)) (draws : Draws) (channel : SecureChannel) (s r : ℕ)
    (body frame : List ℕ)
    → IsSymmetricCipher crypto
    → channel.opened ≡ true
    → channel.basic256_active ≡ true
    → channel.channel_id < 2 ^ 32
    → channel.token_id < 2 ^ 32
    → r < 2 ^ 32
    → length body + 80 < 2 ^ 32
    → seal crypto channel.inbound_keys message_tag channel.channel_id channel.token_id s r body
      ≡ ok frame
    → handle_frame crypto config draws frame channel ≡ (channel, payload_result r body)
unfolding handle_frame handle_type handle_secure_message deliver
handle_frame-seal crypto config draws channel s r body frame cipher_ok opened active hc ht hr small
      e =
    let (size, whole) =
      whole_frame-seal crypto channel.inbound_keys channel.channel_id channel.token_id s r body
        frame cipher_ok small e in
    let plain =
      unseal-seal crypto channel.inbound_keys b'M' b'S' b'G' b'F' channel.channel_id
        channel.token_id s r body frame cipher_ok hc ht hr e in
    handle_frame_lem crypto config draws frame channel _ _ whole
    ∙ handle_secure_message_lem crypto frame false channel r body opened active plain

-- A token that the channel accepts without keys: the current one, or the one that the last renewal
-- superseded.
abbrev pub is_live : ℕ → SecureChannel → Bool
is_live token channel =
    token == channel.token_id
    || (not (channel.previous_token_id == 0) && token == channel.previous_token_id)

guard_if : {A : Type 0} (b : Bool) (o : Option A) → (guard b >> o) ≡ (if b then o else none)
guard_if true o = refl
guard_if false o = refl

==_refl : (n : ℕ) → (n == n) ≡ true
==_refl n = ground arith

read_token_message_lem :
    (frame : List ℕ) (channel : SecureChannel) (header : FrameHeader) (token s r : ℕ)
    (body : List ℕ)
    → decode_secure_conversation_message frame
      ≡ some (record (token_message secure_message channel.channel_id token s r body) {
        frame_header = header;
      })
    → read_token_message frame channel ≡ (
        if is_live token channel
        then some (record (token_message secure_message channel.channel_id token s r body) {
          frame_header = header;
        })
        else none)
unfolding read_token_message
read_token_message_lem frame channel header token s r body e =
    rw (read_token_message, e, ==_refl channel.channel_id) (guard_if (is_live token channel) _)

handle_secure_message_plain :
    {Certificate PrivateKey : Type 0} (crypto : Crypto Certificate PrivateKey) (frame : List ℕ)
    (is_close live : Bool) (channel : SecureChannel) (message : SecureConversationMessage)
    → channel.opened ≡ true
    → channel.basic256_active ≡ false
    → read_token_message frame channel ≡ (if live then some message else none)
    → handle_secure_message crypto frame is_close channel ≡ (
        if live
        then deliver is_close message.sequence_header.request_id message.body channel
        else (channel, close_result))
unfolding handle_secure_message
handle_secure_message_plain crypto frame is_close true channel message opened plain e =
    ground (arith, opened, plain, e)
handle_secure_message_plain crypto frame is_close false channel message opened plain e =
    ground (arith, opened, plain, e)

-- Without keys a chunk under an open channel's id is delivered exactly when its token is the current
-- one or the one that the last renewal superseded; under any other token the transport is closed.
-- The channel stays as it is.
pub handle_frame-token_message :
    {Certificate PrivateKey : Type 0} (crypto : Crypto Certificate PrivateKey)
    (config : Option (Config PrivateKey)) (draws : Draws) (channel : SecureChannel) (token s r : ℕ)
    (body : List ℕ)
    → channel.opened ≡ true
    → channel.basic256_active ≡ false
    → channel.channel_id < 2 ^ 32
    → token < 2 ^ 32
    → s < 2 ^ 32
    → r < 2 ^ 32
    → length body + 24 < 2 ^ 32
    → (do
      frame ←
          encode_secure_conversation_message
            (token_message secure_message channel.channel_id token s r body)
      some (handle_frame crypto config draws frame channel))
      ≡ some (
          if is_live token channel
          then (channel, payload_result r body)
          else (channel, close_result))
unfolding deliver
handle_frame-token_message crypto config draws channel token s r body opened plain hc ht hs hr hb =
    let message = token_message secure_message channel.channel_id token s r body in
    let whole =
      whole_frame-token_message secure_message channel.channel_id token s r body refl hb in
    let decoded =
      decode-encode_token_message secure_message channel.channel_id token s r body refl hc ht hs hr
        hb in
    elim (Option-cases (encode_secure_conversation_message message)) [
      | inl e ↦ absurd (cc (rw e at whole))
      | inr (frame, e) ↦
          let whole = rw e at whole in
          let decoded = rw e at decoded in
          let read = read_token_message_lem frame channel _ token s r body decoded in
          rw e (
            ap some (
              handle_frame_lem crypto config draws frame channel _ _ whole
              ∙ (handle_secure_message_plain crypto frame false (is_live token channel) channel _
                  opened plain read)))
    ]
