-- ===== src/Channel/Asymmetric.antt =====
-- opcua/transport/binary/secure_channel.cpp: the OPN chunk under Basic256Sha256, which is encrypted to
-- the peer's public key and signed with the own private key. RSA is the parameter `crypto`.
use opcuapp.Base.{
  ℕ, ◌+◌, ◌-◌, ◌*◌, ◌/◌, List, [], ◌∷◌, ◌++◌, length, take, drop, ltb, leb, not, ◌==◌, ◌||◌,
  is_empty,
}
use opcuapp.Types.Status.{StatusOr, ok, ◌>>=◌, ◌>>◌, require, or_bad}
use opcuapp.Binary.Codec.{encode_uint32, decode_uint32}
use opcuapp.Binary.Crypto.{Crypto}
use opcuapp.Channel.Conversation.{
  AsymmetricSecurityHeader, SequenceHeader, encode_asymmetric_header, decode_asymmetric_header,
  decode_sequence_header, stamp_size, fix_up_frame_size,
}
use opcuapp.Channel.Symmetric.{append_padding, pad_count, byte_at}

abbrev pub rsa_oaep_sha1_overhead : ℕ
rsa_oaep_sha1_overhead = 42

-- The prefix in the clear, with a size of 0.
unfoldable pub open_prefix : ℕ → AsymmetricSecurityHeader → List ℕ
unfolding encode_uint32 encode_asymmetric_header
open_prefix channel_id header =
    encode_asymmetric_header
      (encode_uint32 (b'O' ∷ b'P' ∷ b'N' ∷ b'F' ∷ 0 ∷ 0 ∷ 0 ∷ 0 ∷ []) channel_id) header

-- The prefix of an OPN chunk, its header and what follows it; `header_end` is the prefix's length,
-- and there must be something behind it.
unfoldable pub split_open : List ℕ → StatusOr (ℕ × List ℕ × AsymmetricSecurityHeader × List ℕ)
unfolding decode_uint32 decode_asymmetric_header
split_open frame = do
  (channel_id, rest) ← or_bad (decode_uint32 (drop 8 frame))
  (header, rest) ← or_bad (decode_asymmetric_header rest)
  let header_end = length frame - length rest
  require (not (is_empty rest))
  ok (channel_id, take header_end frame, header, rest)

module _ {Certificate PrivateKey : Type 0} (crypto : Crypto Certificate PrivateKey) where
  -- `prefix` still has a size of 0.
  unfoldable pub seal_open : PrivateKey → PrivateKey → List ℕ → ℕ → ℕ → List ℕ → StatusOr (List ℕ)
  unfolding encode_uint32 pad_count append_padding stamp_size fix_up_frame_size
  seal_open own_key peer_key prefix sequence_number request_id body = do
    let to_encrypt = encode_uint32 (encode_uint32 [] sequence_number) request_id ++ body
    let peer_key_bytes = crypto.key_size_bytes peer_key
    let signature_size = crypto.key_size_bytes own_key
    require (not (leb peer_key_bytes rsa_oaep_sha1_overhead || signature_size == 0))
    let plain_block = peer_key_bytes - rsa_oaep_sha1_overhead
    to_encrypt ←
        append_padding (pad_count plain_block (length to_encrypt + 1 + signature_size)) to_encrypt
    let num_blocks = (length to_encrypt + signature_size) / plain_block
    let prefix = stamp_size (length prefix + num_blocks * peer_key_bytes) prefix
    signature ← crypto.rsa_pkcs1_sha256_sign own_key (prefix ++ to_encrypt)
    ciphertext ← crypto.rsa_oaep_encrypt peer_key (to_encrypt ++ signature)
    ok (fix_up_frame_size (prefix ++ ciphertext))

  -- What stands behind the prefix, decrypted, verified and without its padding.
  unfoldable pub unseal_open :
      PrivateKey → PrivateKey → List ℕ → List ℕ → StatusOr (SequenceHeader × List ℕ)
  unfolding decode_sequence_header byte_at
  unseal_open own_key peer_key prefix cipher = do
    plaintext ← crypto.rsa_oaep_decrypt own_key cipher
    let signature_size = crypto.key_size_bytes peer_key
    require (not (ltb (length plaintext) (signature_size + 1)))
    let sig_begin = length plaintext - signature_size
    let signed_region = take sig_begin plaintext
    require (
        crypto.rsa_pkcs1_sha256_verify peer_key (prefix ++ signed_region)
          (drop sig_begin plaintext))
    let pad_size = byte_at plaintext (sig_begin - 1)
    require (not (ltb sig_begin (1 + pad_size + 8)))
    (sequence_header, rest) ← or_bad (decode_sequence_header plaintext)
    ok (sequence_header, drop 8 (take (sig_begin - 1 - pad_size) plaintext))
