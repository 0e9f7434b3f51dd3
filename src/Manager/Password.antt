-- ===== src/Manager/Password.antt =====
-- RecoverEncryptedPassword: the secret is a 32-bit length, the password and the session's nonce.
use opcuapp.Base.{
  ℕ, ◌+◌, ◌-◌, ◌<◌, ◌^◌, ◌≡◌, refl, false, Option, none, some, List, [], ◌++◌, ◌||◌, length, ltb,
  take, drop, drop-length-append, take-length-append, length-append, if◌then◌else◌, arith,
}
use opcuapp.Types.NodeId.{same_bytes}
use opcuapp.Binary.Codec.{encode_uint32, decode_uint32}
use opcuapp.Binary.Codec.RoundTrip.{decode-encode_uint32}

-- `none` is Bad_IdentityTokenRejected. The comparison with `std::equal` reads as many bytes as the
-- nonce has.
unfoldable pub recover_plaintext : List ℕ → List ℕ → Option (List ℕ)
unfolding decode_uint32
recover_plaintext server_nonce plaintext = elim (decode_uint32 plaintext) [
  | none ↦ none
  | some (size, secret) ↦
      let password_len = size - length server_nonce in
      if ltb (length secret) size || ltb size (length server_nonce)
      then none
      else if same_bytes server_nonce (take (length server_nonce) (drop password_len secret))
      then some (take password_len secret)
      else none
]

unfoldable pub recover_encrypted_password :
    Option (List ℕ → Option (List ℕ)) → List ℕ → List ℕ → Option (List ℕ)
unfolding recover_plaintext
recover_encrypted_password decrypt_user_token ciphertext server_nonce = elim decrypt_user_token [
  | none ↦ none
  | some decrypt ↦ elim (decrypt ciphertext) [
    | none ↦ none
    | some plaintext ↦ recover_plaintext server_nonce plaintext
  ]
]

take_same :
    (server_nonce nonce padding : List ℕ)
    → length nonce ≡ length server_nonce
    → take (length server_nonce) (nonce ++ padding) ≡ nonce
take_same server_nonce nonce padding e = rw (← e) (take-length-append nonce padding)

recover_plaintext-encode :
    (server_nonce nonce password padding : List ℕ)
    → length password + length nonce < 2 ^ 32
    → length nonce ≡ length server_nonce
    → recover_plaintext server_nonce
        (encode_uint32 [] (length password + length nonce) ++ (password ++ (nonce ++ padding)))
      ≡ (if same_bytes server_nonce nonce then some password else none)
unfolding recover_plaintext
recover_plaintext-encode server_nonce nonce password padding fits same =
    let secret = password ++ (nonce ++ padding) in
    let size = length password + length nonce in
    let start : size - length server_nonce ≡ length password = omega (arith, same) in
    let long : (ltb (length secret) size || ltb size (length server_nonce)) ≡ false =
      ground
        (arith, length-append password (nonce ++ padding), length-append nonce padding, same) in
    rw
      (
        recover_plaintext,
        decode-encode_uint32 size secret fits,
        long,
        start,
        drop-length-append password (nonce ++ padding),
        take-length-append password (nonce ++ padding),
        take_same server_nonce nonce padding same,
      )
      refl

-- From a token that decrypts to the length of password and nonce, the password, a nonce as long as the
-- session's and any padding, the password is recovered where that nonce is the session's, and the token
-- is rejected where it is another.
pub recover_encrypted_password-encode :
    (decrypt : List ℕ → Option (List ℕ)) (ciphertext server_nonce nonce password padding : List ℕ)
    → decrypt ciphertext
      ≡ some (encode_uint32 [] (length password + length nonce) ++ (password ++ (nonce ++ padding)))
    → length password + length nonce < 2 ^ 32
    → length nonce ≡ length server_nonce
    → recover_encrypted_password (some decrypt) ciphertext server_nonce
      ≡ (if same_bytes server_nonce nonce then some password else none)
unfolding recover_encrypted_password
recover_encrypted_password-encode decrypt ciphertext server_nonce nonce password padding e fits
      same =
    rw (e, recover_encrypted_password)
      (recover_plaintext-encode server_nonce nonce password padding fits same)
