-- ===== src/Channel/Client/Security.antt =====
-- opcua/transport/binary/client_secure_channel.h and client_secure_channel.cpp: the client's security
-- configuration, and the OPN frames that it builds and reads under it.
use opcuapp.Base.{
  false, true, ℕ, ◌+◌, ◌-◌, ◌*◌, ◌/◌, ◌%◌, ◌^◌, Bool, Option, List, [], ◌++◌, length, take, drop,
  leb, not, ◌==◌, ◌&&◌, if◌then◌else◌, codes,
}
use opcuapp.Types.Status.{StatusOr, ok, failed, ◌>>=◌, ◌>>◌, require, or_bad}
use opcuapp.Types.NodeId.{same_bytes}
use opcuapp.Binary.Codec.{encode_uint32}
use opcuapp.Binary.Crypto.{Crypto}
use opcuapp.Channel.Conversation.{
  AsymmetricSecurityHeader, SequenceHeader, security_policy_none, open_message,
  encode_asymmetric_header, encode_secure_conversation_message, stamp_size, fix_up_frame_size,
}
use opcuapp.Channel.Handshake.{
  OpenSecureChannelRequest, only_handle, mode_none, sign_and_encrypt, encode_open_request,
}
use opcuapp.Channel.Symmetric.{append_padding, pad_count}
use opcuapp.Channel.Asymmetric.{rsa_oaep_sha1_overhead, split_open, unseal_open}

-- The generator of nonces is among what a call draws.
pub record Security (Certificate PrivateKey : Type 0) : Type 0 where
  pub security_policy_uri : List ℕ
  pub security_mode : ℕ
  pub client_certificate : Certificate
  pub client_private_key : PrivateKey
  pub server_certificate : Certificate

pub record ClientSignature : Type 0 where
  pub algorithm : List ℕ
  pub signature : List ℕ

abbrev pub rsa_sha256_signature_uri : List ℕ
rsa_sha256_signature_uri = codes "http://www.w3.org/2001/04/xmldsig-more#rsa-sha256"

-- The certificate or the thumbprint, and nothing when it cannot be had.
unfoldable pub bytes_or_none : StatusOr (List ℕ) → List ℕ
bytes_or_none (failed status) = []
bytes_or_none (ok bytes) = bytes

unfoldable pub is_ok : StatusOr (List ℕ) → Bool
is_ok (failed status) = false
is_ok (ok bytes) = true

module _ {Certificate PrivateKey : Type 0} (security : Security Certificate PrivateKey) where
  unfoldable pub uses_basic256_sha256 : Bool
  uses_basic256_sha256 =
      not (same_bytes security.security_policy_uri security_policy_none)
      && not (security.security_mode == mode_none)

  unfoldable pub uses_sign_and_encrypt : Bool
  uses_sign_and_encrypt = security.security_mode == sign_and_encrypt

  -- The request of a handshake; its handle is the id of the request.
  abbrev pub open_request : ℕ → ℕ → List ℕ → ℕ → OpenSecureChannelRequest
  open_request request_handle request_type client_nonce requested_lifetime = record {
    request_header = only_handle request_handle;
    client_protocol_version = 0;
    request_type = request_type;
    security_mode = security.security_mode;
    client_nonce = client_nonce;
    requested_lifetime = requested_lifetime;
  }

module _ {Certificate PrivateKey : Type 0} (crypto : Crypto Certificate PrivateKey)
    (security : Security Certificate PrivateKey) where
  unfoldable pub sign_client_data : List ℕ → StatusOr ClientSignature
  unfolding uses_basic256_sha256
  sign_client_data bytes =
      let unsigned : ClientSignature = record { algorithm = []; signature = [] } in
      let signed : StatusOr ClientSignature = (do
        require (not (crypto.no_key security.client_private_key))
        signature ← crypto.rsa_pkcs1_sha256_sign security.client_private_key bytes
        ok (record { algorithm = rsa_sha256_signature_uri; signature = signature })) in
      if not (uses_basic256_sha256 security) then ok unsigned else signed

  unfoldable pub open_header : AsymmetricSecurityHeader
  unfolding uses_basic256_sha256 bytes_or_none
  open_header =
      let sender_der = bytes_or_none (crypto.certificate_der security.client_certificate) in
      let recv_thumb = bytes_or_none (crypto.certificate_thumbprint security.server_certificate) in
      record {
        security_policy_uri = security.security_policy_uri;
        sender_certificate = if uses_basic256_sha256 security then sender_der else [];
        receiver_certificate_thumbprint = if uses_basic256_sha256 security then recv_thumb else [];
      }

  -- The id, the request and the number of the channel that is renewed, and the sequence number.
  unfoldable pub build_plaintext_open_frame : ℕ → OpenSecureChannelRequest → ℕ → ℕ → Option (List ℕ)
  unfolding open_header encode_open_request encode_secure_conversation_message
  build_plaintext_open_frame request_id request secure_channel_id sequence_number =
      encode_secure_conversation_message (
        open_message secure_channel_id open_header sequence_number request_id
          (encode_open_request request))

  -- The subtraction of the overhead wraps for a small key; a server's key of exactly 42 bytes makes
  -- the source divide by 0, and one that cannot be had is dereferenced there.
  unfoldable pub build_asymmetric_open_frame :
      ℕ → OpenSecureChannelRequest → ℕ → ℕ → StatusOr (List ℕ)
  unfolding build_plaintext_open_frame encode_uint32 encode_asymmetric_header append_padding
      pad_count stamp_size fix_up_frame_size
  build_asymmetric_open_frame request_id request secure_channel_id sequence_number = do
    frame ← or_bad (build_plaintext_open_frame request_id request secure_channel_id sequence_number)
    let sender_der = crypto.certificate_der security.client_certificate
    let recv_thumb = crypto.certificate_thumbprint security.server_certificate
    require (is_ok sender_der && is_ok recv_thumb)
    let header : AsymmetricSecurityHeader = record {
      security_policy_uri = security.security_policy_uri;
      sender_certificate = bytes_or_none sender_der;
      receiver_certificate_thumbprint = bytes_or_none recv_thumb;
    }
    let prefix = encode_asymmetric_header (encode_uint32 (take 8 frame) secure_channel_id) header
    let header_end = length prefix
    require (not (leb (length frame) header_end))
    server_pub ← crypto.certificate_public_key security.server_certificate
    let server_key_bytes = crypto.key_size_bytes server_pub
    let signature_size = crypto.key_size_bytes security.client_private_key
    let plain_block = (server_key_bytes + (2 ^ 64 - rsa_oaep_sha1_overhead)) % 2 ^ 64
    let to_encrypt = drop header_end frame
    to_encrypt ←
        append_padding (pad_count plain_block (length to_encrypt + 1 + signature_size)) to_encrypt
    let num_blocks = (length to_encrypt + signature_size) / plain_block
    let prefix = stamp_size (length prefix + num_blocks * server_key_bytes) prefix
    signature ← crypto.rsa_pkcs1_sha256_sign security.client_private_key (prefix ++ to_encrypt)
    ciphertext ← crypto.rsa_oaep_encrypt server_pub (to_encrypt ++ signature)
    ok (fix_up_frame_size (prefix ++ ciphertext))

  -- The ciphertext is decrypted before the server's key is looked for, and once.
  unfoldable pub decode_asymmetric_open_frame : List ℕ → StatusOr (SequenceHeader × List ℕ)
  unfolding split_open unseal_open
  decode_asymmetric_open_frame frame = do
    (channel_id, prefix, header, cipher) ← split_open frame
    plaintext ← crypto.rsa_oaep_decrypt security.client_private_key cipher
    server_pub ← crypto.certificate_public_key security.server_certificate
    unseal_open crypto security.client_private_key server_pub prefix cipher
