-- ===== src/Binary/Crypto.antt =====
-- opcua/transport/binary/crypto.h and crypto.cpp: what the secure channels call of OpenSSL, as the
-- parameter Crypto, and the key derivation that crypto.cpp computes with it.
use opcuapp.Base.{
  ℕ, zero, suc, ◌+◌, ◌-◌, ◌≤◌, ◌<◌, ◌≡◌, Bool, Bool-cases, inl, inr, List, [], ◌++◌, arith, length,
  take, drop, min, ltb, length-append, length-take, length-drop, if◌then◌else◌,
}
use opcuapp.Types.Status.{StatusOr}

-- `crypto::PrivateKey` holds public keys too.
pub record Crypto (Certificate PrivateKey : Type 0) : Type 0 where
  pub load_der_certificate : List ℕ → StatusOr Certificate
  pub certificate_public_key : Certificate → StatusOr PrivateKey
  pub certificate_der : Certificate → StatusOr (List ℕ)
  pub certificate_thumbprint : Certificate → StatusOr (List ℕ)
  pub no_certificate : Certificate → Bool
  pub no_key : PrivateKey → Bool
  pub key_size_bytes : PrivateKey → ℕ
  pub rsa_oaep_encrypt : PrivateKey → List ℕ → StatusOr (List ℕ)
  pub rsa_oaep_decrypt : PrivateKey → List ℕ → StatusOr (List ℕ)
  pub rsa_pkcs1_sha256_sign : PrivateKey → List ℕ → StatusOr (List ℕ)
  pub rsa_pkcs1_sha256_verify : PrivateKey → List ℕ → List ℕ → Bool
  pub aes_cbc_encrypt : List ℕ → List ℕ → List ℕ → StatusOr (List ℕ)
  pub aes_cbc_decrypt : List ℕ → List ℕ → List ℕ → StatusOr (List ℕ)
  pub hmac_sha256 : List ℕ → List ℕ → List ℕ

pub record DerivedKeys : Type 0 where
  pub signing_key : List ℕ
  pub encrypting_key : List ℕ
  pub initialization_vector : List ℕ

-- The keys of a channel that has derived none.
abbrev pub no_keys : DerivedKeys
no_keys = record { signing_key = []; encrypting_key = []; initialization_vector = [] }

-- The `while (out.size() < out_len)`, on fuel: a block of at least one byte makes `out_len` rounds
-- enough.
unfoldable pub p_sha256_loop : ℕ → (List ℕ → List ℕ) → List ℕ → ℕ → List ℕ → List ℕ → List ℕ
p_sha256_loop zero hmac seed out_len a out = out
p_sha256_loop (suc fuel) hmac seed out_len a out =
    let a = hmac a in
    let block = hmac (a ++ seed) in
    let rest =
      p_sha256_loop fuel hmac seed out_len a
        (out ++ take (min (length block) (out_len - length out)) block) in
    if ltb (length out) out_len then rest else out

-- `out.resize(out_len)` pads with nothing: the loop ends with `out_len` bytes.
unfoldable pub p_sha256 : (List ℕ → List ℕ → List ℕ) → List ℕ → List ℕ → ℕ → List ℕ
unfolding p_sha256_loop
p_sha256 hmac secret seed out_len =
    take out_len (p_sha256_loop out_len (hmac secret) seed out_len seed [])

unfoldable pub derive_basic256_sha256_keys :
    (List ℕ → List ℕ → List ℕ) → List ℕ → List ℕ → DerivedKeys
unfolding p_sha256
derive_basic256_sha256_keys hmac secret seed =
    let material = p_sha256 hmac secret seed 80 in
    record {
      signing_key = take 32 material;
      encrypting_key = take 32 (drop 32 material);
      initialization_vector = take 16 (drop 64 material);
    }

length-p_sha256_loop :
    (fuel : ℕ) (hmac : List ℕ → List ℕ) (seed : List ℕ) (out_len : ℕ) (a out : List ℕ)
    → ((bytes : List ℕ) → 0 < length (hmac bytes))
    → length out ≤ out_len
    → out_len ≤ length out + fuel
    → length (p_sha256_loop fuel hmac seed out_len a out) ≡ out_len
unfolding p_sha256_loop
length-p_sha256_loop zero hmac seed out_len a out positive lo hi = omega arith
length-p_sha256_loop (suc fuel) hmac seed out_len a out positive lo hi =
    let block = hmac (hmac a ++ seed) in
    let part = take (min (length block) (out_len - length out)) block in
    let size = length-take (min (length block) (out_len - length out)) block in
    let total = length-append out part in
    elim (Bool-cases (ltb (length out) out_len)) [
      | inl e ↦
          rw (p_sha256_loop, e)
            (length-p_sha256_loop fuel hmac seed out_len (hmac a) (out ++ part) positive
              (omega (arith, size, total)) (ground (arith, size, total, positive (hmac a ++ seed))))
      | inr e ↦ ground arith
    ]

-- With a hash whose tags are not empty the derived keys are 32, 32 and 16 bytes: the loop ends by
-- itself, and the three slices lie inside what it wrote.
pub length-derive_basic256_sha256_keys :
    (hmac : List ℕ → List ℕ → List ℕ) (secret seed : List ℕ)
    → ((key bytes : List ℕ) → 0 < length (hmac key bytes))
    → (length (derive_basic256_sha256_keys hmac secret seed).signing_key ≡ 32)
      × (length (derive_basic256_sha256_keys hmac secret seed).encrypting_key ≡ 32)
      × (length (derive_basic256_sha256_keys hmac secret seed).initialization_vector ≡ 16)
unfolding derive_basic256_sha256_keys p_sha256
length-derive_basic256_sha256_keys hmac secret seed positive =
    let whole : length (p_sha256 hmac secret seed 80) ≡ 80 = omega (
      arith,
      length-take 80 (p_sha256_loop 80 (hmac secret) seed 80 seed []),
      length-p_sha256_loop 80 (hmac secret) seed 80 seed [] (positive secret) (omega arith)
          (omega arith),
    ) in
    let material = p_sha256 hmac secret seed 80 in
    (
      omega (arith, whole, length-take 32 material),
      omega (arith, whole, length-take 32 (drop 32 material), length-drop 32 material),
      omega (arith, whole, length-take 16 (drop 64 material), length-drop 64 material),
    )
