-- ===== src/Channel/Pairing/Agreement.antt =====
-- The two ends of a channel after the handshake of the policy None.
use opcuapp.Base.{
  ℕ, ◌^◌, ◌<◌, ◌≡◌, refl, ap, ◌∙◌, true, false, Option, some, List, [], arith, if◌then◌else◌, ◌==◌,
}
use opcuapp.Types.Status.{is_bad, StatusOr, ok, or_bad, of_code, good}
use opcuapp.Binary.Crypto.{Crypto}
use opcuapp.Channel.Conversation.{
  open_message, encode_secure_conversation_message, security_policy_none,
}
use opcuapp.Channel.Conversation.RoundTrip.{encode_open_message, decode-encode_open_message}
use opcuapp.Channel.Handshake.{encode_open_request, encode_open_response, mode_none, renew}
use opcuapp.Channel.Handshake.RoundTrip.{decode-encode_open_response}
use opcuapp.Channel.Server.{Config, Draws, SecureChannel, empty_result, open_response}
use opcuapp.Channel.Server.Dispatch.{handle_frame, allows_none}
use opcuapp.Channel.Server.Overlap.{no_header}
use opcuapp.Channel.Server.Renewal.{handle_frame-open_message}
use opcuapp.Channel.Client.{arm_renewal_timer, ClientSecureChannel}
use opcuapp.Channel.Client.Security.{Security, open_request}
use opcuapp.Channel.Client.Opening.{begin_open, open_secure_channel}
use opcuapp.Channel.Exchange.{IsPaired}
use opcuapp.Channel.Pairing.{
  IsMatched, admitted, numbered, answer_frame, answer_open_none-admitted, no_header-IsWireHeader,
  begin_open_none, read_open_response_none, adopt_none, open_secure_channel_lem, small_request,
  small_answer, admitted_token, open_request-IsWireOpenRequest,
}

some_injective : {A : Type 0} {a b : A} → some a ≡ some b → a ≡ b
some_injective e = cc e

is_bad_good : is_bad 0 ≡ false
unfolding is_bad
is_bad_good = refl

module _ {Certificate PrivateKey : Type 0} (crypto : Crypto Certificate PrivateKey)
    (config : Option (Config PrivateKey)) (server_draws : Draws) (server : SecureChannel) where
  -- A transport that has the server at its other end.
  abbrev pub exchange_with : List ℕ → StatusOr (List ℕ)
  exchange_with frame =
      or_bad (handle_frame crypto config server_draws frame server).1.outbound_frame

  handle_frame-admitted :
      (security : Security Certificate PrivateKey) (c s r kind lifetime : ℕ) (frame : List ℕ)
      → allows_none config ≡ true
      → security.security_mode ≡ mode_none
      → c < 2 ^ 32
      → s < 2 ^ 32
      → r < 2 ^ 32
      → kind < 2 ^ 32
      → lifetime < 2 ^ 32
      → encode_secure_conversation_message (
          open_message c no_header s r
            (encode_open_request (open_request security r kind [] lifetime)))
        ≡ some frame
      → handle_frame crypto config server_draws frame server ≡ (
        admitted kind server,
        record empty_result {
          outbound_frame =
              answer_frame server_draws server r (open_request security r kind [] lifetime);
        },
      )
  handle_frame-admitted security c s r kind lifetime frame allowed mode hc hs hr hk hl e =
      let q = open_request security r kind [] lifetime in
      let handled = rw e at (
        handle_frame-open_message crypto config server_draws server no_header c s r q allowed
          no_header-IsWireHeader refl
          (open_request-IsWireOpenRequest security r kind lifetime mode hr hk hl) hc hs hr
          (small_request security r kind lifetime)
        ∙ ap some (answer_open_none-admitted server_draws server _ no_header q refl refl mode)) in
      some_injective handled

-- When a client and a server without keys open or renew a channel under the policy None, which the
-- server allows, the client's request is written, its status is Good, and the two ends are paired
-- from then on: they are open and agree on the channel, its token, the policy and the keys.
pub open_secure_channel-IsPaired :
    {Certificate PrivateKey : Type 0} (crypto : Crypto Certificate PrivateKey)
    (security : Security Certificate PrivateKey) (config : Option (Config PrivateKey))
    (draws server_draws : Draws) (now kind lifetime : ℕ) (server : SecureChannel)
    (client : ClientSecureChannel)
    → security.security_policy_uri ≡ security_policy_none
    → security.security_mode ≡ mode_none
    → allows_none config ≡ true
    → IsMatched server_draws server client kind lifetime
    → (frame : List ℕ) × ((begin_open crypto security draws kind lifetime client).1 ≡ ok frame)
      × ((open_secure_channel crypto security
            (exchange_with crypto config server_draws server)
            draws
            now
            kind
            lifetime
            client).1
          ≡ of_code good)
      × IsPaired
          (handle_frame crypto config server_draws frame server).0
          (open_secure_channel crypto security
            (exchange_with crypto config server_draws server)
            draws
            now
            kind
            lifetime
            client).0
unfolding arm_renewal_timer
open_secure_channel-IsPaired crypto security config draws server_draws now kind lifetime server
      client policy mode allowed w =
    let r = client.next_request_id in
    let q = open_request security r kind [] lifetime in
    let p = open_response server_draws q 0 [] (admitted kind server) in
    let c : ℕ = if kind == renew then client.channel_id else 0 in
    let hc : c < 2 ^ 32 = ground (arith, w.client_channel_id) in
    let written =
      encode_open_message no_header c client.next_sequence_number r (encode_open_request q) in
    let answered =
      encode_open_message no_header server.channel_id server.next_sequence_number r
        (encode_open_response p) in
    let begun = begin_open_none crypto security policy draws kind lifetime client _ written in
    let handled =
      handle_frame-admitted crypto config server_draws server security c client.next_sequence_number
        r kind lifetime _ allowed mode hc w.client_sequence_number w.request_id w.request_type
        w.requested_lifetime written in
    let received = rw answered at (
      decode-encode_open_message no_header server.channel_id server.next_sequence_number r
        (encode_open_response p) no_header-IsWireHeader w.server_channel_id w.server_sequence_number
        w.request_id (small_answer server_draws server q)) in
    let read =
      read_open_response_none crypto security policy _ server.channel_id server.next_sequence_number
        r _ p received
        (decode-encode_open_response p (record {
          request_handle = w.request_id;
          server_protocol_version = omega arith;
          channel_id = w.server_channel_id;
          token_id = admitted_token kind server w.server_token_id;
          created_at = w.created_at;
          revised_lifetime = w.requested_lifetime;
          server_nonce = omega arith;
        })) in
    let opened =
      open_secure_channel_lem crypto security (exchange_with crypto config server_draws server)
        draws now kind lifetime client (numbered client) _ _ p begun
        (ap (λ o. or_bad o.1.outbound_frame) handled ∙ ap or_bad answered) read is_bad_good
      ∙ ap (λ o. (o, of_code good)) (adopt_none crypto security policy now p (numbered client)) in
    (
      _,
      ap (λ o. o.1) begun,
      ap (λ o. o.1) opened,
      rw (handled, opened)
          (record {
            server_opened = refl;
            client_opened = refl;
            policy = cc (w.plain_client, w.plain_server);
            channel_id = refl;
            token_id = refl;
            requests = w.requests;
            responses = w.responses;
            small_channel_id = w.server_channel_id;
            small_token_id = admitted_token kind server w.server_token_id;
          }),
    )
