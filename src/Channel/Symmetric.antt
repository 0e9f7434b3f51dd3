-- ===== src/Channel/Symmetric.antt =====
-- opcua/transport/binary/secure_channel.cpp and client_secure_channel.cpp: the chunk under
-- Basic256Sha256 SignAndEncrypt, which both ends write and read by the same statements, each with its
-- own keys. AES-CBC and the HMAC are the parameter `crypto`.
pub mod Opening
pub mod Authenticity
use opcuapp.Base.{
  ℕ, zero, suc, ◌+◌, ◌-◌, ◌%◌, ◌^◌, ◌<◌, ◌≡◌, Option, none, some, List, [], ◌∷◌, ◌++◌, arith,
  length, take, drop, get_elem?, ltb, not, ◌==◌, ◌&&◌,
}
use opcuapp.Types.Status.{StatusOr, ok, failed, ◌>>=◌, ◌>>◌, require, or_bad}
use opcuapp.Types.NodeId.{same_bytes}
use opcuapp.Binary.Codec.{encode_uint32, decode_uint32}
use opcuapp.Binary.Crypto.{Crypto, DerivedKeys}
use opcuapp.Channel.Conversation.{stamp_size, fix_up_frame_size}

abbrev pub hmac_sha256_tag_size : ℕ
hmac_sha256_tag_size = 32

abbrev pub aes_block_size : ℕ
aes_block_size = 16

-- `insert(end, n, byte)`
unfoldable pub replicate : ℕ → ℕ → List ℕ
replicate zero byte = []
replicate (suc n) byte = byte ∷ replicate n byte

-- The byte at an index. The source reads out of range for a plaintext that is nothing but a tag; it
-- refuses such a plaintext whatever it read, and the byte is 0 here.
unfoldable pub byte_at : List ℕ → ℕ → ℕ
byte_at bytes i = elim (get_elem? bytes i) [ none ↦ 0 | some byte ↦ byte ]

-- The bytes of padding that make what is before them, the size byte and the trailer a multiple of
-- the block.
unfoldable pub pad_count : ℕ → ℕ → ℕ
pad_count block unpadded = (block - unpadded % block) % block

-- The padding and the byte that says its size; more than 255 would need a second such byte.
unfoldable pub append_padding : ℕ → List ℕ → StatusOr (List ℕ)
unfolding replicate
append_padding pad bytes = do
  require (not (ltb 255 pad))
  ok (bytes ++ (replicate pad pad ++ pad ∷ []))

unfoldable pub plaintext_payload : ℕ → ℕ → List ℕ → StatusOr (List ℕ)
unfolding encode_uint32 append_padding pad_count
plaintext_payload sequence_number request_id body =
    let payload = encode_uint32 (encode_uint32 [] sequence_number) request_id ++ body in
    append_padding (pad_count aes_block_size (length payload + 1 + hmac_sha256_tag_size)) payload

-- The four characters of the type, the size, the channel and the token.
unfoldable pub symmetric_header : List ℕ → ℕ → ℕ → ℕ → List ℕ
unfolding encode_uint32 stamp_size
symmetric_header type_tag channel_id token_id size =
    let header = type_tag ++ 0 ∷ 0 ∷ 0 ∷ 0 ∷ [] in
    stamp_size size (encode_uint32 (encode_uint32 header channel_id) token_id)

-- The tag, the padding and the two words of what a chunk was decrypted to; `header` is the 16 bytes
-- before the ciphertext.
unfoldable pub open_plaintext : (List ℕ → List ℕ) → List ℕ → List ℕ → StatusOr (ℕ × List ℕ)
unfolding decode_uint32 byte_at
open_plaintext hmac header decrypted = do
  require (not (ltb (length decrypted) hmac_sha256_tag_size))
  let sig_begin = length decrypted - hmac_sha256_tag_size
  let signed_region = take sig_begin decrypted
  let expected_tag = hmac (header ++ signed_region)
  require (
      length expected_tag == hmac_sha256_tag_size
      && same_bytes expected_tag (drop sig_begin decrypted))
  let pad_size = byte_at signed_region (sig_begin - 1)
  require (not (ltb sig_begin (1 + pad_size + 8)))
  (sequence_number, rest) ← or_bad (decode_uint32 decrypted)
  (request_id, rest) ← or_bad (decode_uint32 rest)
  ok (request_id, drop 8 (take (sig_begin - 1 - pad_size) decrypted))

module _ {Certificate PrivateKey : Type 0} (crypto : Crypto Certificate PrivateKey) where
  unfoldable pub seal : DerivedKeys → List ℕ → ℕ → ℕ → ℕ → ℕ → List ℕ → StatusOr (List ℕ)
  unfolding plaintext_payload symmetric_header fix_up_frame_size
  seal keys type_tag channel_id token_id sequence_number request_id body = do
    payload ← plaintext_payload sequence_number request_id body
    let header =
        symmetric_header type_tag channel_id token_id (16 + (length payload + hmac_sha256_tag_size))
    let signature = crypto.hmac_sha256 keys.signing_key (header ++ payload)
    ciphertext ←
        crypto.aes_cbc_encrypt keys.encrypting_key keys.initialization_vector (payload ++ signature)
    ok (fix_up_frame_size (header ++ ciphertext))

  unfoldable pub unseal : DerivedKeys → ℕ → ℕ → List ℕ → StatusOr (ℕ × List ℕ)
  unfolding decode_uint32 open_plaintext
  unseal keys channel_id token_id frame = do
    require (not (ltb (length frame) 16))
    (frame_channel_id, rest) ← or_bad (decode_uint32 (drop 8 frame))
    (frame_token_id, rest) ← or_bad (decode_uint32 rest)
    require (frame_channel_id == channel_id && frame_token_id == token_id)
    decrypted ←
        crypto.aes_cbc_decrypt keys.encrypting_key keys.initialization_vector (drop 16 frame)
    open_plaintext (crypto.hmac_sha256 keys.signing_key) (take 16 frame) decrypted
