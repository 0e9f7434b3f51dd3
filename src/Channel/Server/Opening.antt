-- ===== src/Channel/Server/Opening.antt =====
-- HandleOpenSecure: the OpenSecureChannel request under Basic256Sha256. Every failure closes the
-- transport. A renewal takes its token before the response is built, so a response that cannot be
-- built leaves the token taken.
use opcuapp.Base.{
  [], ℕ, Bool, true, false, Option, none, some, List, length, not, is_empty, ◌==◌, if◌then◌else◌,
}
use opcuapp.Types.Status.{StatusOr, ok, failed, of_code, good, is_bad, ◌>>=◌, ◌>>◌, require, or_bad}
use opcuapp.Types.NodeId.{same_bytes}
use opcuapp.Binary.Crypto.{Crypto, derive_basic256_sha256_keys}
use opcuapp.Channel.Conversation.{AsymmetricSecurityHeader, security_policy_basic256_sha256}
use opcuapp.Channel.Handshake.{
  OpenSecureChannelRequest, renew, sign_and_encrypt, decode_open_request, encode_open_response,
}
use opcuapp.Channel.Asymmetric.{open_prefix, split_open, seal_open, unseal_open}
use opcuapp.Channel.Server.{
  Config, Draws, SecureChannel, Result, empty_result, close_result, next_word, open_response,
}

-- What the checks on a request leave for the answer.
pub record Accepted (PrivateKey : Type 0) : Type 0 where
  pub request : OpenSecureChannelRequest
  pub request_id : ℕ
  pub client_public_key : PrivateKey
  pub client_thumbprint : List ℕ
  pub server_nonce : List ℕ
  pub sender_certificate : List ℕ

-- The configured generator, whose nonce has to have 32 bytes, or the random ones.
unfoldable pub draw_nonce : Draws → StatusOr (List ℕ)
draw_nonce draws = elim draws.generated [
  | none ↦ draws.random
  | some generated ↦ do
    server_nonce ← generated
    require (length server_nonce == 32)
    ok server_nonce
]

unfoldable pub is_valid_certificate : Option (List ℕ → ℕ) → List ℕ → Bool
is_valid_certificate none certificate = true
is_valid_certificate (some validate) certificate = not (is_bad (validate certificate))

module _ {Certificate PrivateKey : Type 0} (crypto : Crypto Certificate PrivateKey) where
  -- The DER and the thumbprint are kept, and the key if there is a certificate; the certificate
  -- itself is not read again.
  unfoldable pub make_server_config :
      Certificate → PrivateKey → Bool → Option (List ℕ → ℕ) → StatusOr (Config PrivateKey)
  make_server_config certificate private_key allow_none validate_client_certificate =
      let without : Config PrivateKey = record {
        private_key = private_key;
        certificate_der = [];
        certificate_thumbprint = [];
        allow_none = allow_none;
        allow_basic256_sha256 = false;
        validate_client_certificate = validate_client_certificate;
      } in
      if crypto.no_certificate certificate then ok without else (do
        der ← crypto.certificate_der certificate
        thumbprint ← crypto.certificate_thumbprint certificate
        ok (record without {
          certificate_der = der;
          certificate_thumbprint = thumbprint;
          allow_basic256_sha256 = not (crypto.no_key private_key);
        }))

  unfoldable pub accept_open : Config PrivateKey → Draws → List ℕ → StatusOr (Accepted PrivateKey)
  unfolding split_open is_valid_certificate unseal_open decode_open_request draw_nonce
  accept_open config draws frame = do
    (requested_channel_id, prefix, header, cipher) ← split_open frame
    require (same_bytes header.receiver_certificate_thumbprint config.certificate_thumbprint)
    require (not (is_empty header.sender_certificate))
    require (is_valid_certificate config.validate_client_certificate header.sender_certificate)
    client_cert ← crypto.load_der_certificate header.sender_certificate
    client_public_key ← crypto.certificate_public_key client_cert
    (sequence_header, body) ← unseal_open crypto config.private_key client_public_key prefix cipher
    request ← or_bad (decode_open_request body)
    require (request.security_mode == sign_and_encrypt)
    server_nonce ← draw_nonce draws
    require (length request.client_nonce == 32)
    client_thumbprint ← crypto.certificate_thumbprint client_cert
    ok (record {
      request = request;
      request_id = sequence_header.request_id;
      client_public_key = client_public_key;
      client_thumbprint = client_thumbprint;
      server_nonce = server_nonce;
      sender_certificate = header.sender_certificate;
    })

  -- The sequence number is used up whether or not the frame can be built.
  unfoldable pub build_secure_open_response :
      Config PrivateKey
      → Draws
      → Accepted PrivateKey
      → SecureChannel
      → SecureChannel × StatusOr (List ℕ)
  unfolding encode_open_response open_prefix seal_open
  build_secure_open_response config draws accepted channel =
      let header : AsymmetricSecurityHeader = record {
        security_policy_uri = security_policy_basic256_sha256;
        sender_certificate = config.certificate_der;
        receiver_certificate_thumbprint = accepted.client_thumbprint;
      } in
      (
        record channel { next_sequence_number = next_word channel.next_sequence_number },
        seal_open crypto config.private_key accepted.client_public_key
            (open_prefix channel.channel_id header) channel.next_sequence_number accepted.request_id
            (encode_open_response
              (open_response draws accepted.request (of_code good) accepted.server_nonce channel)),
      )

  -- The keys, the nonce and the certificate of an accepted request.
  unfoldable pub install_keys : Accepted PrivateKey → SecureChannel → SecureChannel
  unfolding derive_basic256_sha256_keys
  install_keys accepted channel = record channel {
    inbound_keys =
        derive_basic256_sha256_keys crypto.hmac_sha256 accepted.server_nonce
          accepted.request.client_nonce;
    outbound_keys =
        derive_basic256_sha256_keys crypto.hmac_sha256 accepted.request.client_nonce
          accepted.server_nonce;
    server_nonce = accepted.server_nonce;
    client_certificate_der = accepted.sender_certificate;
    basic256_active = true;
    opened = true;
  }

  unfoldable pub answer_open_secure :
      Config PrivateKey → Draws → Accepted PrivateKey → SecureChannel → SecureChannel × Result
  unfolding build_secure_open_response install_keys
  answer_open_secure config draws accepted channel =
      let channel =
        if accepted.request.request_type == renew
        then record channel { token_id = next_word channel.token_id }
        else channel in
      let (channel, response) = build_secure_open_response config draws accepted channel in
      elim response [
        | failed status ↦ (channel, close_result)
        | ok frame ↦
            (install_keys accepted channel, record empty_result { outbound_frame = some frame })
      ]

  unfoldable pub handle_open_secure :
      Config PrivateKey → Draws → List ℕ → SecureChannel → SecureChannel × Result
  unfolding accept_open answer_open_secure
  handle_open_secure config draws frame channel = elim (accept_open config draws frame) [
    | failed status ↦ (channel, close_result)
    | ok accepted ↦ answer_open_secure config draws accepted channel
  ]
