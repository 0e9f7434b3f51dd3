-- ===== src/Channel/Pairing.antt =====
-- The Open and Renew handshake of the policy None, from the client to the server and back.
pub mod Agreement
use opcuapp.Base.{
  ℕ, ◌+◌, ◌^◌, ◌<◌, ◌≡◌, refl, ap, ◌∙◌, true, false, Bool-cases, inl, inr, Option, none, some, List,
  [], ◌>>=◌, arith, length, if◌then◌else◌, ◌==◌,
}
use opcuapp.Types.Status.{StatusOr, ok, failed, or_bad, of_code, good, is_bad}
use opcuapp.Types.NodeId.{same_bytes}
use opcuapp.Binary.Crypto.{Crypto}
use opcuapp.Channel.Conversation.{
  AsymmetricSecurityHeader, SecureConversationMessage, open_message, encode_asymmetric_header,
  encode_secure_conversation_message, decode_secure_conversation_message, security_policy_none,
}
use opcuapp.Channel.Conversation.RoundTrip.{
  IsWireHeader, encode_open_message, decode-encode_open_message, sized,
}
use opcuapp.Channel.Handshake.{
  OpenSecureChannelRequest, OpenSecureChannelResponse, encode_open_request, encode_open_response,
  decode_open_response, renew, mode_none,
}
use opcuapp.Channel.Handshake.RoundTrip.{IsWireOpenRequest, decode-encode_open_response}
use opcuapp.Channel.Server.{
  Config, Draws, SecureChannel, Result, empty_result, next_word, open_response, answer_open_none,
  build_open_response, rotate_token,
}
use opcuapp.Channel.Server.Dispatch.{handle_frame, allows_none}
use opcuapp.Channel.Server.Overlap.{no_header}
use opcuapp.Channel.Server.Renewal.{handle_frame-open_message}
use opcuapp.Channel.Client.{ClientSecureChannel, arm_renewal_timer, take_request_id}
use opcuapp.Channel.Client.Security.{
  Security, uses_basic256_sha256, open_header, open_request, build_plaintext_open_frame,
}
use opcuapp.Channel.Client.Opening.{begin_open, read_open_response, adopt, open_secure_channel}
use opcuapp.Channel.Exchange.{IsPaired}

-- The server's channel after it has accepted a request of a type under the policy None.
abbrev pub admitted : ℕ → SecureChannel → SecureChannel
admitted kind channel = record channel {
  previous_token_id = if kind == renew then channel.token_id else channel.previous_token_id;
  token_id = if kind == renew then next_word channel.token_id else channel.token_id;
  next_sequence_number = next_word channel.next_sequence_number;
  opened = true;
}

-- The client's channel after it has numbered a request.
abbrev pub numbered : ClientSecureChannel → ClientSecureChannel
numbered client = record client {
  next_request_id = next_word client.next_request_id;
  next_sequence_number = next_word client.next_sequence_number;
}

-- What the server answers to a request it admits.
abbrev pub answer_frame : Draws → SecureChannel → ℕ → OpenSecureChannelRequest → Option (List ℕ)
answer_frame draws server r q = encode_secure_conversation_message (
    open_message server.channel_id no_header server.next_sequence_number r
      (encode_open_response (open_response draws q 0 [] (admitted q.request_type server))))

pub answer_open_none-admitted :
    (draws : Draws) (server : SecureChannel) (message : SecureConversationMessage)
    (h : AsymmetricSecurityHeader) (q : OpenSecureChannelRequest)
    → message.asymmetric_security_header ≡ some h
    → h.security_policy_uri ≡ security_policy_none
    → q.security_mode ≡ mode_none
    → answer_open_none draws message q server ≡ (
      admitted q.request_type server,
      record empty_result {
        outbound_frame = answer_frame draws server message.sequence_header.request_id q;
      },
    )
unfolding answer_open_none build_open_response rotate_token same_bytes
answer_open_none-admitted draws server message h q e policy mode =
    elim (Bool-cases (q.request_type == renew)) [
      | inl k ↦ rw (answer_open_none, e, policy, mode, k)
      | inr k ↦ rw (answer_open_none, e, policy, mode, k)
    ]

-- The words of a request and of its answer that have to fit the wire, and two ends without keys.
pub record IsMatched (draws : Draws) (server : SecureChannel) (client : ClientSecureChannel)
    (kind lifetime : ℕ) : Type 0 where
  pub plain_server : server.basic256_active ≡ false
  pub plain_client : client.sign_and_encrypt ≡ false
  pub requests : client.client_keys ≡ server.inbound_keys
  pub responses : client.server_keys ≡ server.outbound_keys
  pub server_channel_id : server.channel_id < 2 ^ 32
  pub server_token_id : server.token_id < 2 ^ 32
  pub server_sequence_number : server.next_sequence_number < 2 ^ 32
  pub client_channel_id : client.channel_id < 2 ^ 32
  pub client_sequence_number : client.next_sequence_number < 2 ^ 32
  pub request_id : client.next_request_id < 2 ^ 32
  pub request_type : kind < 2 ^ 32
  pub requested_lifetime : lifetime < 2 ^ 32
  pub created_at : draws.now < 2 ^ 64

pub no_header-IsWireHeader : IsWireHeader no_header
no_header-IsWireHeader = record {
  security_policy_uri = omega arith;
  sender_certificate = omega arith;
  receiver_certificate_thumbprint = omega arith;
}

module _ {Certificate PrivateKey : Type 0} (crypto : Crypto Certificate PrivateKey)
    (security : Security Certificate PrivateKey)
    (policy : security.security_policy_uri ≡ security_policy_none) where
  uses_basic256_sha256_none : uses_basic256_sha256 security ≡ false
  unfolding uses_basic256_sha256 same_bytes
  uses_basic256_sha256_none = rw (uses_basic256_sha256, policy)

  open_header_none : open_header crypto security ≡ no_header
  unfolding open_header
  open_header_none = rw (open_header, uses_basic256_sha256_none, policy)

  build_plaintext_open_frame_none :
      (r c n : ℕ) (q : OpenSecureChannelRequest)
      → build_plaintext_open_frame crypto security r q c n
        ≡ encode_secure_conversation_message (open_message c no_header n r (encode_open_request q))
  unfolding build_plaintext_open_frame
  build_plaintext_open_frame_none r c n q =
      ap (λ h. encode_secure_conversation_message (open_message c h n r (encode_open_request q)))
        open_header_none

  begin_open_plain :
      (draws : Draws) (kind lifetime : ℕ) (client : ClientSecureChannel)
      → begin_open crypto security draws kind lifetime client ≡ (
        numbered client,
        or_bad (
            build_plaintext_open_frame crypto security client.next_request_id
              (open_request security client.next_request_id kind [] lifetime)
              (if kind == renew then client.channel_id else 0)
              client.next_sequence_number),
      )
  unfolding begin_open take_request_id
  begin_open_plain draws kind lifetime client = rw (begin_open, uses_basic256_sha256_none)

  pub begin_open_none :
      (draws : Draws) (kind lifetime : ℕ) (client : ClientSecureChannel) (frame : List ℕ)
      → encode_secure_conversation_message (
          open_message
            (if kind == renew then client.channel_id else 0)
            no_header
            client.next_sequence_number
            client.next_request_id
            (encode_open_request (open_request security client.next_request_id kind [] lifetime)))
        ≡ some frame
      → begin_open crypto security draws kind lifetime client ≡ (numbered client, ok frame)
  begin_open_none draws kind lifetime client frame e =
      begin_open_plain draws kind lifetime client
      ∙ ap (λ o. (numbered client, or_bad o)) (build_plaintext_open_frame_none _ _ _ _ ∙ e)

  pub read_open_response_none :
      (answer : List ℕ) (c s r size : ℕ) (p : OpenSecureChannelResponse)
      → decode_secure_conversation_message answer
        ≡ some (sized (open_message c no_header s r (encode_open_response p)) size)
      → decode_open_response (encode_open_response p) ≡ some p
      → read_open_response crypto security answer ≡ ok p
  unfolding read_open_response same_bytes
  read_open_response_none answer c s r size p e f =
      rw (read_open_response, uses_basic256_sha256_none, e, f)

  pub adopt_none :
      (now : ℕ) (p : OpenSecureChannelResponse) (channel : ClientSecureChannel)
      → adopt crypto security now p channel
        ≡ record (arm_renewal_timer now p.security_token.revised_lifetime (record channel {
          channel_id = p.security_token.channel_id;
          token_id = p.security_token.token_id;
        })) { opened = true }
  unfolding adopt
  adopt_none now p channel = rw (adopt, uses_basic256_sha256_none)

pub open_secure_channel_lem :
    {Certificate PrivateKey : Type 0} (crypto : Crypto Certificate PrivateKey)
    (security : Security Certificate PrivateKey) (exchange : List ℕ → StatusOr (List ℕ))
    (draws : Draws) (now kind lifetime : ℕ) (client begun : ClientSecureChannel)
    (frame answer : List ℕ) (p : OpenSecureChannelResponse)
    → begin_open crypto security draws kind lifetime client ≡ (begun, ok frame)
    → exchange frame ≡ ok answer
    → read_open_response crypto security answer ≡ ok p
    → is_bad p.response_header.service_result ≡ false
    → open_secure_channel crypto security exchange draws now kind lifetime client
      ≡ (adopt crypto security now p begun, of_code good)
unfolding open_secure_channel
open_secure_channel_lem crypto security exchange draws now kind lifetime client begun frame answer p
      e f g h =
    rw (open_secure_channel, ap (λ o. o.1) e, f, g, h)
      (ap (λ o. (adopt crypto security now p o.0, of_code good)) e)

pub small_request :
    {Certificate PrivateKey : Type 0} (security : Security Certificate PrivateKey)
    (r kind lifetime : ℕ)
    → length (encode_asymmetric_header [] no_header)
        + (length (encode_open_request (open_request security r kind [] lifetime)) + 20)
      < 2 ^ 32
unfolding encode_asymmetric_header encode_open_request
small_request security r kind lifetime = omega arith

pub small_answer :
    (draws : Draws) (server : SecureChannel) (q : OpenSecureChannelRequest)
    → length (encode_asymmetric_header [] no_header)
        + (length
              (encode_open_response (open_response draws q 0 [] (admitted q.request_type server)))
            + 20)
      < 2 ^ 32
unfolding encode_asymmetric_header encode_open_response
small_answer draws server q = omega arith

pub admitted_token :
    (kind : ℕ) (server : SecureChannel)
    → server.token_id < 2 ^ 32
    → (admitted kind server).token_id < 2 ^ 32
admitted_token kind server h = ground (arith, h)

pub open_request-IsWireOpenRequest :
    {Certificate PrivateKey : Type 0} (security : Security Certificate PrivateKey)
    (r kind lifetime : ℕ)
    → security.security_mode ≡ mode_none
    → r < 2 ^ 32
    → kind < 2 ^ 32
    → lifetime < 2 ^ 32
    → IsWireOpenRequest (open_request security r kind [] lifetime)
open_request-IsWireOpenRequest security r kind lifetime mode hr hk hl = record {
  request_header = record {
    request_handle = hr;
    return_diagnostics = omega arith;
    audit_entry_id = omega arith;
    timeout_hint = omega arith;
  };
  client_protocol_version = omega arith;
  request_type = hk;
  security_mode = omega (arith, mode);
  client_nonce = omega arith;
  requested_lifetime = hl;
}
