-- ===== src/Channel/Symmetric/Opening.antt =====
-- What one end sealed the other end opens.
use mathlib.Core.List.{append_assoc}
use opcuapp.Base.{
  ◌∙◌, sym, inr, inl, ◌⊎◌, ℕ, zero, suc, ◌+◌, ◌-◌, ◌%◌, ◌^◌, ◌<◌, ◌≡◌, refl, List, [], ◌∷◌, ◌++◌,
  arith, length, take, length-append, take-length-append, drop-length-append,
}
use opcuapp.Types.Status.{StatusOr, ok, failed}
use opcuapp.Types.NodeId.{same_bytes_refl}
use opcuapp.Binary.Codec.{encode_uint32}
use opcuapp.Binary.Codec.RoundTrip.{word_bytes}
use opcuapp.Binary.Crypto.{Crypto, DerivedKeys}
use opcuapp.Channel.Conversation.{stamp_size, fix_up_frame_size}
use opcuapp.Channel.Symmetric.{
  replicate, byte_at, pad_count, append_padding, plaintext_payload, symmetric_header,
  open_plaintext, seal, unseal,
}

-- AES-CBC without padding gives back what it encrypted and keeps its size, and an HMAC-SHA256 tag
-- has 32 bytes.
pub record IsSymmetricCipher {Certificate PrivateKey : Type 0}
    (crypto : Crypto Certificate PrivateKey) : Type 0 where
  pub decrypts :
      (key iv plain cipher : List ℕ)
      → crypto.aes_cbc_encrypt key iv plain ≡ ok cipher
      → crypto.aes_cbc_decrypt key iv cipher ≡ ok plain
  pub same_size :
      (key iv plain cipher : List ℕ)
      → crypto.aes_cbc_encrypt key iv plain ≡ ok cipher
      → length cipher ≡ length plain
  pub tag_size : (key bytes : List ℕ) → length (crypto.hmac_sha256 key bytes) ≡ 32

pub length-replicate : (n byte : ℕ) → length (replicate n byte) ≡ n
unfolding replicate
length-replicate zero byte = refl
length-replicate (suc n) byte = omega (arith, length-replicate n byte)

pub byte_at-append : (xs : List ℕ) (byte : ℕ) → byte_at (xs ++ byte ∷ []) (length xs) ≡ byte
unfolding byte_at
byte_at-append [] byte = refl
byte_at-append (x ∷ xs) byte = byte_at-append xs byte

pub StatusOr-cases {ℓ} :
    {A : Type ℓ} (s : StatusOr A) → ((a : A) × (s ≡ ok a)) ⊎ ((status : ℕ) × (s ≡ failed status))
StatusOr-cases (ok a) = inl (a, refl)
StatusOr-cases (failed status) = inr (status, refl)

-- The two words before the body.
abbrev pub words : ℕ → ℕ → List ℕ
words s r = encode_uint32 (encode_uint32 [] s) r

-- The body with its padding: the padding is `pad` bytes of the value `pad`.
abbrev pub padded : ℕ → ℕ → ℕ → List ℕ → List ℕ
padded pad s r body = (words s r ++ (body ++ replicate pad pad)) ++ pad ∷ []

append_padding_lem :
    (pad : ℕ) (bytes : List ℕ)
    → pad < 256
    → append_padding pad bytes ≡ ok (bytes ++ (replicate pad pad ++ pad ∷ []))
unfolding append_padding
append_padding_lem pad bytes h = ground arith

plaintext_payload_lem :
    (s r : ℕ) (body : List ℕ)
    → (pad : ℕ) × (pad < 16) × (plaintext_payload s r body ≡ ok (padded pad s r body))
unfolding plaintext_payload pad_count
plaintext_payload_lem s r body =
    let used = length (words s r ++ body) + 1 + 32 in
    let pad = (16 - used % 16) % 16 in
    (
      pad,
      omega arith,
      rw (append_padding_lem pad (words s r ++ body) (omega arith)) (simp append_assoc),
    )

fix_up_frame_size-header :
    (a b c d channel token size : ℕ) (cipher : List ℕ)
    → length cipher + 16 ≡ size
    → fix_up_frame_size (symmetric_header (a ∷ b ∷ c ∷ d ∷ []) channel token size ++ cipher)
      ≡ symmetric_header (a ∷ b ∷ c ∷ d ∷ []) channel token size ++ cipher
unfolding fix_up_frame_size stamp_size symmetric_header encode_uint32
fix_up_frame_size-header a b c d channel token size cipher e = rw (← e) (ground arith)

-- The size, the last byte and the middle of a padded body.
pub length-padded :
    (s r pad : ℕ) (body : List ℕ) → length (padded pad s r body) ≡ length body + pad + 9
unfolding encode_uint32
length-padded s r pad body = ground (
  arith,
  length-append body (replicate pad pad),
  length-replicate pad pad,
  length-append (body ++ replicate pad pad) (pad ∷ []),
)

byte_at-padded :
    (s r pad : ℕ) (body : List ℕ) → byte_at (padded pad s r body) (length body + pad + 8) ≡ pad
byte_at-padded s r pad body =
    let front = words s r ++ (body ++ replicate pad pad) in
    let at : length front ≡ length body + pad + 8 =
      unfold encode_uint32 in
      ground (arith, length-append body (replicate pad pad), length-replicate pad pad) in
    rw at at (byte_at-append front pad)

take-padded :
    (s r pad : ℕ) (body tag : List ℕ)
    → take (length body + 8) (padded pad s r body ++ tag) ≡ words s r ++ body
take-padded s r pad body tag =
    let front = words s r ++ body in
    let apart : padded pad s r body ++ tag ≡ front ++ (replicate pad pad ++ pad ∷ tag) =
      simp append_assoc in
    let size : length body + 8 ≡ length front = unfold encode_uint32 in omega arith in
    rw (apart, size) (take-length-append front (replicate pad pad ++ pad ∷ tag))

-- What is opened of a padded body and its tag is the body.
open_plaintext-padded :
    (hmac : List ℕ → List ℕ) (header : List ℕ) (s r pad : ℕ) (body tag : List ℕ)
    → r < 2 ^ 32
    → length tag ≡ 32
    → hmac (header ++ padded pad s r body) ≡ tag
    → open_plaintext hmac header (padded pad s r body ++ tag) ≡ ok (r, body)
unfolding open_plaintext encode_uint32
open_plaintext-padded hmac header s r pad body tag small size mac =
    let plain = padded pad s r body in
    let begin : length (plain ++ tag) - 32 ≡ length plain =
      omega (arith, length-append plain tag) in
    let start : length plain - 1 ≡ length body + pad + 8 =
      omega (arith, length-padded s r pad body) in
    let end : length body + pad + 8 - pad ≡ length body + 8 = omega arith in
    rw
      (
        begin,
        take-length-append plain tag,
        drop-length-append plain tag,
        mac,
        start,
        byte_at-padded s r pad body,
        end,
        take-padded s r pad body tag,
      )
      (ground (
        arith,
        same_bytes_refl tag,
        size,
        word_bytes r small,
        length-append plain tag,
        length-padded s r pad body,
      ))

unseal-symmetric_header :
    {Certificate PrivateKey : Type 0} (crypto : Crypto Certificate PrivateKey) (keys : DerivedKeys)
    (a b c d channel token size : ℕ) (cipher plain : List ℕ)
    → channel < 2 ^ 32
    → token < 2 ^ 32
    → crypto.aes_cbc_decrypt keys.encrypting_key keys.initialization_vector cipher ≡ ok plain
    → unseal crypto keys channel token
        (symmetric_header (a ∷ b ∷ c ∷ d ∷ []) channel token size ++ cipher)
      ≡ open_plaintext
          (crypto.hmac_sha256 keys.signing_key)
          (symmetric_header (a ∷ b ∷ c ∷ d ∷ []) channel token size)
          plain
unfolding unseal symmetric_header stamp_size encode_uint32
unseal-symmetric_header crypto keys a b c d channel token size cipher plain hc ht dec =
    rw (dec, word_bytes channel hc, word_bytes token ht) (ground arith)

-- A sealed frame: its header in the clear, and the ciphertext of the padded body and its tag.
pub record Sealed {Certificate PrivateKey : Type 0} (crypto : Crypto Certificate PrivateKey)
    (keys : DerivedKeys) (type_tag : List ℕ) (channel token s r : ℕ) (body frame : List ℕ)
    : Type 0 where
  pub pad : ℕ
  pub small : pad < 16
  pub cipher : List ℕ
  pub header : List ℕ
  pub tag : List ℕ
  pub header_eq :
      header ≡ symmetric_header type_tag channel token (16 + (length (padded pad s r body) + 32))
  pub tag_eq : crypto.hmac_sha256 keys.signing_key (header ++ padded pad s r body) ≡ tag
  pub encrypted :
      crypto.aes_cbc_encrypt keys.encrypting_key keys.initialization_vector
        (padded pad s r body ++ tag)
      ≡ ok cipher
  pub size : length cipher ≡ length (padded pad s r body) + 32
  pub whole : frame ≡ header ++ cipher

pub seal-Sealed :
    {Certificate PrivateKey : Type 0} (crypto : Crypto Certificate PrivateKey) (keys : DerivedKeys)
    (a b c d channel token s r : ℕ) (body frame : List ℕ)
    → IsSymmetricCipher crypto
    → seal crypto keys (a ∷ b ∷ c ∷ d ∷ []) channel token s r body ≡ ok frame
    → Sealed crypto keys (a ∷ b ∷ c ∷ d ∷ []) channel token s r body frame
unfolding seal
seal-Sealed crypto keys a b c d channel token s r body frame cipher_ok e =
    let (pad, small, payload_eq) = plaintext_payload_lem s r body in
    let payload = padded pad s r body in
    let header = symmetric_header (a ∷ b ∷ c ∷ d ∷ []) channel token (16 + (length payload + 32)) in
    let tag = crypto.hmac_sha256 keys.signing_key (header ++ payload) in
    let e' = rw payload_eq at e in
    elim (StatusOr-cases
      (crypto.aes_cbc_encrypt keys.encrypting_key keys.initialization_vector (payload ++ tag))) [
        | inr (status, f) ↦ absurd (cc (e', f))
        | inl (cipher, f) ↦
            let size : length cipher ≡ length payload + 32 = omega (
              arith,
              cipher_ok.same_size _ _ _ _ f,
              length-append payload tag,
              cipher_ok.tag_size keys.signing_key (header ++ payload),
            ) in
            record {
              pad = pad;
              small = small;
              cipher = cipher;
              header = header;
              tag = tag;
              header_eq = refl;
              tag_eq = refl;
              encrypted = f;
              size = size;
              whole =
                  let done : fix_up_frame_size (header ++ cipher) ≡ frame = cc (rw f at e') in
                  sym done
                  ∙ fix_up_frame_size-header a b c d channel token _ cipher (omega (arith, size));
            }
      ]

-- What one end sealed with its keys the other end opens with the same keys: the request id and the
-- body come back, for a channel, a token and a request that are 32-bit numbers.
pub unseal-seal :
    {Certificate PrivateKey : Type 0} (crypto : Crypto Certificate PrivateKey) (keys : DerivedKeys)
    (a b c d channel token s r : ℕ) (body frame : List ℕ)
    → IsSymmetricCipher crypto
    → channel < 2 ^ 32
    → token < 2 ^ 32
    → r < 2 ^ 32
    → seal crypto keys (a ∷ b ∷ c ∷ d ∷ []) channel token s r body ≡ ok frame
    → unseal crypto keys channel token frame ≡ ok (r, body)
unseal-seal crypto keys a b c d channel token s r body frame cipher_ok hc ht hr e =
    let sealed = seal-Sealed crypto keys a b c d channel token s r body frame cipher_ok e in
    rw
      (
        sealed.whole,
        sealed.header_eq,
        unseal-symmetric_header crypto keys a b c d channel token _ sealed.cipher _ hc ht
            (cipher_ok.decrypts _ _ _ _ sealed.encrypted),
      )
      (open_plaintext-padded (crypto.hmac_sha256 keys.signing_key) _ s r sealed.pad body sealed.tag
        hr (rw (← sealed.tag_eq) (cipher_ok.tag_size _ _)) (rw sealed.header_eq at sealed.tag_eq))
