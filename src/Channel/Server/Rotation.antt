-- ===== src/Channel/Server/Rotation.antt =====
-- A renewal without keys on a channel that has keys.
use opcuapp.Base.{
  ℕ, ◌+◌, ◌^◌, ◌<◌, ◌≡◌, ap, ◌∙◌, Bool, true, false, Option, some, List, ◌>>=◌, arith, length, ◌==◌,
  Option-cases, inl, inr,
}
use opcuapp.Types.Status.{ok, failed, of_code, bad}
use opcuapp.Binary.Crypto.{Crypto}
use opcuapp.Channel.Conversation.{
  AsymmetricSecurityHeader, open_message, encode_secure_conversation_message,
}
use opcuapp.Channel.Handshake.{OpenSecureChannelRequest, encode_open_request}
use opcuapp.Channel.Symmetric.{seal, unseal}
use opcuapp.Channel.Symmetric.Opening.{IsSymmetricCipher, seal-Sealed}
use opcuapp.Channel.Symmetric.Authenticity.{unseal-other_token}
use opcuapp.Channel.Server.{
  Config, Draws, SecureChannel, close_result, next_word, handle_secure_message,
}
use opcuapp.Channel.Server.Dispatch.{message_tag, handle_frame, allows_none}
use opcuapp.Channel.Server.Traffic.{whole_frame-seal, handle_frame_lem}
use opcuapp.Channel.Server.Overlap.{IsRenewal, renewed, handle_frame-IsRenewal}

next_word_differs : (n : ℕ) → n < 2 ^ 32 → (n == next_word n) ≡ false
next_word_differs n h = ground arith

handle_secure_message_refused :
    {Certificate PrivateKey : Type 0} (crypto : Crypto Certificate PrivateKey) (frame : List ℕ)
    (is_close : Bool) (channel : SecureChannel) (status : ℕ)
    → channel.basic256_active ≡ true
    → unseal crypto channel.inbound_keys channel.channel_id channel.token_id frame ≡ failed status
    → handle_secure_message crypto frame is_close channel ≡ (channel, close_result)
unfolding handle_secure_message
handle_secure_message_refused crypto frame is_close channel status active e =
    ground (arith, active, e)

-- A channel with keys also takes a renewal under the policy None, which nothing authenticates, when
-- its configuration allows that policy; its token is rotated then, and a frame that the client
-- sealed under the token it holds closes the transport.
pub handle_frame-renew_keyed :
    {Certificate PrivateKey : Type 0} (crypto : Crypto Certificate PrivateKey)
    (config : Option (Config PrivateKey)) (draws later : Draws) (channel : SecureChannel)
    (h : AsymmetricSecurityHeader) (c s r : ℕ) (q : OpenSecureChannelRequest)
    (sequence_number request_id : ℕ) (body sealed_frame : List ℕ)
    → IsSymmetricCipher crypto
    → allows_none config ≡ true
    → IsRenewal h c s r q
    → channel.basic256_active ≡ true
    → channel.channel_id < 2 ^ 32
    → channel.token_id < 2 ^ 32
    → length body + 80 < 2 ^ 32
    → seal crypto channel.inbound_keys message_tag channel.channel_id channel.token_id
        sequence_number request_id body
      ≡ ok sealed_frame
    → (do
      frame ← encode_secure_conversation_message (open_message c h s r (encode_open_request q))
      some (
          handle_frame crypto config later sealed_frame
            (handle_frame crypto config draws frame channel).0))
      ≡ some (renewed channel, close_result)
handle_frame-renew_keyed crypto config draws later channel h c s r q sequence_number request_id body
      sealed_frame cipher_ok allowed w active hc ht small e =
    let first = handle_frame-IsRenewal crypto config draws channel h c s r q allowed w in
    let (size, whole) =
      whole_frame-seal crypto channel.inbound_keys channel.channel_id channel.token_id
        sequence_number request_id body sealed_frame cipher_ok small e in
    let sealed =
      seal-Sealed crypto channel.inbound_keys b'M' b'S' b'G' b'F' channel.channel_id
        channel.token_id sequence_number request_id body sealed_frame cipher_ok e in
    let refused : unseal crypto channel.inbound_keys channel.channel_id (next_word channel.token_id)
          sealed_frame
        ≡ failed (of_code bad) =
      rw (sealed.whole, sealed.header_eq)
        (unseal-other_token crypto channel.inbound_keys b'M' b'S' b'G' b'F' channel.channel_id
          channel.token_id (next_word channel.token_id) _ sealed.cipher hc ht
          (next_word_differs channel.token_id ht)) in
    let second =
      handle_frame_lem crypto config later sealed_frame (renewed channel) _ _ whole
      ∙ handle_secure_message_refused crypto sealed_frame false (renewed channel) (of_code bad)
          active refused in
    elim (Option-cases
      (encode_secure_conversation_message (open_message c h s r (encode_open_request q)))) [
        | inl f ↦ absurd (cc (rw f at first))
        | inr (frame, f) ↦
            let step : (handle_frame crypto config draws frame channel).0 ≡ renewed channel =
              cc (rw f at first) in
            rw (f, step) (ap some second)
      ]
