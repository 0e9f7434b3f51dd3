-- ===== src/Channel/Symmetric/Authenticity.antt =====
-- What a chunk that opens must have carried: the token of the channel and the tag of its text.
use mathlib.Core.List.{append_assoc}
use opcuapp.Base.{
  Option-cases, some, zero, suc, refl, length-take, length-drop, ◌+◌, ◌≤◌, false, ◌==◌,
  take-append-drop, ap, ◌∙◌, sym, inr, inl, ℕ, ◌-◌, ◌^◌, ◌<◌, ◌≡◌, List, [], ◌∷◌, ◌++◌, arith,
  length, take, drop, true,
}
use opcuapp.Types.Status.{bad, of_code, ok, failed}
use opcuapp.Types.NodeId.{same_bytes_eq}
use opcuapp.Binary.Codec.{decode_uint32, encode_uint32}
use opcuapp.Binary.Codec.RoundTrip.{word_bytes}
use opcuapp.Binary.Crypto.{Crypto, DerivedKeys}
use opcuapp.Channel.Conversation.{stamp_size}
use opcuapp.Channel.Symmetric.{byte_at, same_bytes, symmetric_header, open_plaintext, unseal}
use opcuapp.Channel.Symmetric.Opening.{StatusOr-cases}

-- A frame under another token does not open, whatever stands behind its header.
pub unseal-other_token :
    {Certificate PrivateKey : Type 0} (crypto : Crypto Certificate PrivateKey) (keys : DerivedKeys)
    (a b c d channel token other size : ℕ) (cipher : List ℕ)
    → channel < 2 ^ 32
    → token < 2 ^ 32
    → (token == other) ≡ false
    → unseal crypto keys channel other
        (symmetric_header (a ∷ b ∷ c ∷ d ∷ []) channel token size ++ cipher)
      ≡ failed (of_code bad)
unfolding unseal symmetric_header stamp_size encode_uint32
unseal-other_token crypto keys a b c d channel token other size cipher hc ht differ =
    rw (word_bytes channel hc, word_bytes token ht) (ground (arith, differ))

-- What a chunk carried that opens to a body: after the header, which names the channel and the token,
-- a ciphertext of the two words, the body, the padding, whose size is the last byte, and the tag.
pub record IsSealed {Certificate PrivateKey : Type 0} (crypto : Crypto Certificate PrivateKey)
    (keys : DerivedKeys) (channel token : ℕ) (frame body : List ℕ) : Type 0 where
  pub plain : List ℕ
  pub tag : List ℕ
  pub words : List ℕ
  pub padding : List ℕ
  pub after_channel : List ℕ
  pub after_token : List ℕ
  pub channel_word : decode_uint32 (drop 8 frame) ≡ some (channel, after_channel)
  pub token_word : decode_uint32 after_channel ≡ some (token, after_token)
  pub decrypted :
      crypto.aes_cbc_decrypt keys.encrypting_key keys.initialization_vector (drop 16 frame)
      ≡ ok (plain ++ tag)
  pub mac : crypto.hmac_sha256 keys.signing_key (take 16 frame ++ plain) ≡ tag
  pub tag_size : length tag ≡ 32
  pub parts : plain ≡ words ++ (body ++ padding)
  pub words_size : length words ≡ 8
  pub padding_size : length padding ≡ byte_at plain (length plain - 1) + 1

-- What a text that opens to a body is made of.
open_plaintext_parts :
    (hmac : List ℕ → List ℕ) (header decrypted : List ℕ) (r : ℕ) (body : List ℕ)
    → open_plaintext hmac header decrypted ≡ ok (r, body)
    → let n = length decrypted - 32 in
      let plain = take n decrypted in
      let pad = byte_at plain (n - 1) in
      (32 ≤ length decrypted)
      × (length (hmac (header ++ plain)) ≡ 32)
      × (same_bytes (hmac (header ++ plain)) (drop n decrypted) ≡ true)
      × (1 + pad + 8 ≤ n)
      × (drop 8 (take (n - 1 - pad) decrypted) ≡ body)
unfolding open_plaintext
open_plaintext_parts hmac header decrypted r body e =
    (ground arith, ground arith, ground arith, ground arith, ground arith)

take-take : (m n : ℕ) (xs : List ℕ) → m ≤ n → take m (take n xs) ≡ take m xs
take-take zero n xs h = refl
take-take (suc m) zero xs h = absurd (omega (arith, h))
take-take (suc m) (suc n) [] h = refl
take-take (suc m) (suc n) (x ∷ xs) h = ap (◌∷◌ x) (take-take m n xs (omega (arith, h)))

-- What opens was decrypted first.
unseal-open_plaintext :
    {Certificate PrivateKey : Type 0} (crypto : Crypto Certificate PrivateKey) (keys : DerivedKeys)
    (channel token : ℕ) (frame decrypted : List ℕ) (r : ℕ) (body : List ℕ)
    → crypto.aes_cbc_decrypt keys.encrypting_key keys.initialization_vector (drop 16 frame)
      ≡ ok decrypted
    → unseal crypto keys channel token frame ≡ ok (r, body)
    → open_plaintext (crypto.hmac_sha256 keys.signing_key) (take 16 frame) decrypted ≡ ok (r, body)
unfolding unseal
unseal-open_plaintext crypto keys channel token frame decrypted r body d e = ground arith

unseal_undecrypted :
    {Certificate PrivateKey : Type 0} (crypto : Crypto Certificate PrivateKey) (keys : DerivedKeys)
    (channel token : ℕ) (frame : List ℕ) (status r : ℕ) (body : List ℕ)
    → crypto.aes_cbc_decrypt keys.encrypting_key keys.initialization_vector (drop 16 frame)
      ≡ failed status
    → unseal crypto keys channel token frame ≡ ok (r, body)
    → ⊥
unfolding unseal
unseal_undecrypted crypto keys channel token frame status r body d e = ground arith

unseal_words :
    {Certificate PrivateKey : Type 0} (crypto : Crypto Certificate PrivateKey) (keys : DerivedKeys)
    (channel token : ℕ) (frame : List ℕ) (r : ℕ) (body : List ℕ)
    → unseal crypto keys channel token frame ≡ ok (r, body)
    → (after_channel after_token : List ℕ) × (decode_uint32 (drop 8 frame)
        ≡ some (channel, after_channel))
      × (decode_uint32 after_channel ≡ some (token, after_token))
unfolding unseal
unseal_words crypto keys channel token frame r body e =
    elim (Option-cases (decode_uint32 (drop 8 frame))) [
      | inl f ↦ absurd (ground (arith, e, f))
      | inr ((c, a), f) ↦ elim (Option-cases (decode_uint32 a)) [
        | inl g ↦ absurd (ground (arith, e, f, g))
        | inr ((t, b), g) ↦
            let same_channel : c ≡ channel = ground (arith, e, f, g) in
            let same_token : t ≡ token = ground (arith, e, f, g) in
            (a, b, rw same_channel at f, rw same_token at g)
      ]
    ]

pub unseal-IsSealed :
    {Certificate PrivateKey : Type 0} (crypto : Crypto Certificate PrivateKey) (keys : DerivedKeys)
    (channel token : ℕ) (frame : List ℕ) (r : ℕ) (body : List ℕ)
    → unseal crypto keys channel token frame ≡ ok (r, body)
    → IsSealed crypto keys channel token frame body
unseal-IsSealed crypto keys channel token frame r body e =
    elim (StatusOr-cases
      (crypto.aes_cbc_decrypt keys.encrypting_key keys.initialization_vector (drop 16 frame))) [
        | inr (status, d) ↦
            absurd (unseal_undecrypted crypto keys channel token frame status r body d e)
        | inl (decrypted, d) ↦
            let (long, size, same, fits, whole) =
              open_plaintext_parts (crypto.hmac_sha256 keys.signing_key) (take 16 frame) decrypted r
                body (unseal-open_plaintext crypto keys channel token frame decrypted r body d e) in
            let n = length decrypted - 32 in
            let plain = take n decrypted in
            let pad = byte_at plain (n - 1) in
            let plain_size : length plain ≡ n = omega (arith, length-take n decrypted) in
            let mac = same_bytes_eq _ _ same in
            let (a, b, f, g) = unseal_words crypto keys channel token frame r body e in
            let front = take (n - 1 - pad) plain in
            let body_part : drop 8 front ≡ body =
              ap (drop 8) (take-take (n - 1 - pad) n decrypted (omega arith)) ∙ whole in
            record {
              plain = plain;
              tag = drop n decrypted;
              words = take 8 front;
              padding = drop (n - 1 - pad) plain;
              after_channel = a;
              after_token = b;
              channel_word = f;
              token_word = g;
              decrypted = d ∙ ap ok (sym (take-append-drop n decrypted));
              mac = mac;
              tag_size = ap length (sym mac) ∙ size;
              parts =
                  sym (take-append-drop (n - 1 - pad) plain)
                  ∙ (ap (λ xs. xs ++ drop (n - 1 - pad) plain)
                        (sym (take-append-drop 8 front) ∙ ap (◌++◌ (take 8 front)) body_part)
                      ∙ append_assoc (take 8 front) body (drop (n - 1 - pad) plain));
              words_size =
                  omega
                    (arith, length-take 8 front, length-take (n - 1 - pad) plain, plain_size, fits);
              padding_size =
                  rw plain_size (omega (arith, length-drop (n - 1 - pad) plain, plain_size, fits));
            }
      ]
