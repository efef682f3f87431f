-- ===== src/Crypto.antt =====
-- The crypto helpers of common/cell.go. AES-256-GCM, X25519 and SHA-256 are parameters with their
-- documented laws.
pub mod Layers
pub mod Toy
use sbnet.Base.{
  ℕ, zero, suc, ◌+◌, ◌≡◌, Option, none, some, List, [], ◌∷◌, ◌++◌, ltb, ◌==◌, nat_comparable,
  if◌then◌else◌, length, take, drop, Result, ok, err, ◌>>=◌, or_fail, not,
}
use sbnet.Base.Bytes.{Bytes, rand_bytes}

-- crypto/cipher: GCM with a 12-byte nonce and a 16-byte tag. What was sealed opens, and a text that
-- opens is 16 bytes longer than its plaintext.
pub record Aead : Type 0 where
  pub seal : Bytes → Bytes → Bytes → Bytes
  pub unseal : Bytes → Bytes → Bytes → Option Bytes
  pub unseal-seal : (key nonce p : Bytes) → unseal key nonce (seal key nonce p) ≡ some p
  pub length-seal : (key nonce p : Bytes) → length (seal key nonce p) ≡ length p + 16
  pub length-unseal :
      (key nonce c : Bytes) {p : Bytes} → unseal key nonce c ≡ some p → length c ≡ length p + 16

-- curve25519 and sha256: public keys and digests are 32 bytes long, and both sides of an exchange
-- reach one secret.
pub record KeyExchange : Type 0 where
  pub base_mult : Bytes → Bytes
  pub scalar_mult : Bytes → Bytes → Bytes
  pub sum256 : Bytes → Bytes
  pub length-base_mult : (priv : Bytes) → length (base_mult priv) ≡ 32
  pub length-sum256 : (s : Bytes) → length (sum256 s) ≡ 32
  pub agree : (a b : Bytes) → scalar_mult a (base_mult b) ≡ scalar_mult b (base_mult a)

pub data CryptoError : Type 0 where
  bad_key_length : ℕ → CryptoError
  ciphertext_too_short : ℕ → CryptoError
  authentication_failed : CryptoError

module _ (x : KeyExchange) where
  -- The private and the public key, from 32 random bytes.
  unfoldable pub gen_key_pair : (ℕ → ℕ) → Bytes × Bytes
  gen_key_pair noise = let priv = rand_bytes noise 32 in (priv, x.base_mult priv)

  unfoldable pub derive_key : Bytes → Bytes → Bytes
  derive_key priv their_pub = x.sum256 (x.scalar_mult priv their_pub)

module _ (a : Aead) where
  -- The nonce is 12 random bytes, and stands in front of the sealed text.
  unfoldable pub encrypt : (ℕ → ℕ) → Bytes → Bytes → Result CryptoError Bytes
  encrypt noise key plaintext =
      if not (length key == 32)
      then err (bad_key_length (length key))
      else let nonce = rand_bytes noise 12 in ok (nonce ++ a.seal key nonce plaintext)

  unfoldable pub decrypt : Bytes → Bytes → Result CryptoError Bytes
  decrypt key ciphertext =
      if not (length key == 32)
      then err (bad_key_length (length key))
      else if ltb (length ciphertext) 28
      then err (ciphertext_too_short (length ciphertext))
      else or_fail (a.unseal key (take 12 ciphertext) (drop 12 ciphertext)) authentication_failed
