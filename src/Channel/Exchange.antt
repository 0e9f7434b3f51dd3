-- ===== src/Channel/Exchange.antt =====
-- A request and its response, from one end of an open channel to the other.
use opcuapp.Base.{
  ℕ, ◌+◌, ◌^◌, ◌<◌, ◌≡◌, refl, ap, ◌∙◌, sym, Bool, true, false, Option, none, some, List, arith,
  length, not, if◌then◌else◌, Bool-cases, inl, inr,
}
use opcuapp.Types.Status.{ok, failed, or_bad, of_code, bad_no_communication}
use opcuapp.Binary.Crypto.{Crypto}
use opcuapp.Binary.Protocol.{secure_message}
use opcuapp.Channel.Conversation.{token_message, encode_secure_conversation_message}
use opcuapp.Channel.Symmetric.{seal}
use opcuapp.Channel.Symmetric.Opening.{IsSymmetricCipher}
use opcuapp.Channel.Server.{Config, Draws, SecureChannel}
use opcuapp.Channel.Server.Dispatch.{message_tag, handle_frame}
use opcuapp.Channel.Server.Traffic.{
  payload_result, is_live, handle_frame-seal, handle_frame-token_message,
}
use opcuapp.Channel.Client.{type_tag, ClientSecureChannel, frame_message, send_service_request}

-- The two ends of one open channel: the same id, token and policy, and each end's keys for sending
-- are the other's for receiving.
pub record IsPaired (server : SecureChannel) (client : ClientSecureChannel) : Type 0 where
  pub server_opened : server.opened ≡ true
  pub client_opened : client.opened ≡ true
  pub policy : client.sign_and_encrypt ≡ server.basic256_active
  pub channel_id : client.channel_id ≡ server.channel_id
  pub token_id : client.token_id ≡ server.token_id
  pub requests : client.client_keys ≡ server.inbound_keys
  pub responses : client.server_keys ≡ server.outbound_keys
  pub small_channel_id : server.channel_id < 2 ^ 32
  pub small_token_id : server.token_id < 2 ^ 32

is_live_current : (channel : SecureChannel) → is_live channel.token_id channel ≡ true
is_live_current channel = ground arith

-- The frame by the two policies.
frame_message_lem :
    {Certificate PrivateKey : Type 0} (crypto : Crypto Certificate PrivateKey)
    (client : ClientSecureChannel) (r : ℕ) (body : List ℕ)
    → (frame_message crypto secure_message r body client).1 ≡ (
        if client.sign_and_encrypt
        then seal crypto client.client_keys message_tag client.channel_id client.token_id
            client.next_sequence_number r body
        else or_bad (
            encode_secure_conversation_message (
              token_message secure_message client.channel_id client.token_id
                client.next_sequence_number r body)))
unfolding frame_message type_tag
frame_message_lem crypto client r body = refl

if_true : {A : Type 0} (b : Bool) (x y : A) → b ≡ true → (if b then x else y) ≡ x
if_true true x y e = refl
if_true false x y e = cc

if_false : {A : Type 0} (b : Bool) (x y : A) → b ≡ false → (if b then x else y) ≡ y
if_false true x y e = cc
if_false false x y e = refl

or_bad_ok : {A : Type 0} (o : Option A) (a : A) → or_bad o ≡ ok a → o ≡ some a
or_bad_ok none a e = cc
or_bad_ok (some b) a e = cc

send_service_request_lem :
    {Certificate PrivateKey : Type 0} (crypto : Crypto Certificate PrivateKey)
    (client : ClientSecureChannel) (r : ℕ) (body : List ℕ)
    → client.opened ≡ true
    → (send_service_request crypto r body client).1
      ≡ (frame_message crypto secure_message r body client).1
unfolding send_service_request
send_service_request_lem crypto client r body opened =
    ap
      (λ b.
        (if not b
          then (client, failed (of_code bad_no_communication))
          else frame_message crypto secure_message r body client).1)
      opened

-- A request of at most 2 ^ 32 - 81 bytes that the client of a pair sends is delivered by the server as
-- it was sent, with its id and its body, under either policy; the server's channel stays as it is.
pub handle_frame-send_service_request :
    {Certificate PrivateKey : Type 0} (crypto : Crypto Certificate PrivateKey)
    (config : Option (Config PrivateKey)) (draws : Draws) (server : SecureChannel)
    (client : ClientSecureChannel) (r : ℕ) (body frame : List ℕ)
    → IsSymmetricCipher crypto
    → IsPaired server client
    → r < 2 ^ 32
    → client.next_sequence_number < 2 ^ 32
    → length body + 80 < 2 ^ 32
    → (send_service_request crypto r body client).1 ≡ ok frame
    → handle_frame crypto config draws frame server ≡ (server, payload_result r body)
handle_frame-send_service_request crypto config draws server client r body frame cipher_ok pair hr
      hs small e =
    let n = client.next_sequence_number in
    let sealed =
      seal crypto client.client_keys message_tag client.channel_id client.token_id n r body in
    let plain =
      encode_secure_conversation_message
        (token_message secure_message client.channel_id client.token_id n r body) in
    let sent : (if client.sign_and_encrypt then sealed else or_bad plain) ≡ ok frame =
      sym (frame_message_lem crypto client r body)
      ∙ (sym (send_service_request_lem crypto client r body pair.client_opened) ∙ e) in
    elim (Bool-cases client.sign_and_encrypt) [
      | inl keyed ↦
          let same : seal crypto server.inbound_keys message_tag server.channel_id server.token_id n
                r body
              ≡ ok frame =
            cc (
              pair.requests,
              pair.channel_id,
              pair.token_id,
              if_true client.sign_and_encrypt sealed (or_bad plain) keyed,
              sent,
            ) in
          handle_frame-seal crypto config draws server n r body frame cipher_ok pair.server_opened
            (sym pair.policy ∙ keyed) pair.small_channel_id pair.small_token_id hr small same
      | inr bare ↦
          let written : plain ≡ some frame =
            or_bad_ok plain frame
              (sym (if_false client.sign_and_encrypt sealed (or_bad plain) bare) ∙ sent) in
          let same : encode_secure_conversation_message
                (token_message secure_message server.channel_id server.token_id n r body)
              ≡ some frame =
            ap
              (λ c.
                encode_secure_conversation_message
                  (token_message secure_message c server.token_id n r body))
              (sym pair.channel_id)
            ∙ (ap
                  (λ t.
                    encode_secure_conversation_message
                      (token_message secure_message client.channel_id t n r body))
                  (sym pair.token_id)
                ∙ written) in
          let handled =
            rw (is_live_current server, same) at
              (handle_frame-token_message crypto config draws server server.token_id n r body
                pair.server_opened (sym pair.policy ∙ bare) pair.small_channel_id
                pair.small_token_id hs hr (omega (arith, small))) in
          cc handled
    ]
