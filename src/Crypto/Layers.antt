-- ===== src/Crypto/Layers.antt =====
-- Encrypt and Decrypt, and onion layers: the client's loops in client/main.go wrap a payload under
-- the keys of the hops, the last hop's first, and peel a response from the first hop's on.
use sbnet.Base.{
  ℕ, suc, ◌+◌, ◌*◌, ◌≤◌, ◌≡◌, ◌≢◌, refl, ap, some, List, [], ◌∷◌, ◌++◌, arith, ◌==◌, nat_comparable,
  length, take, drop, Result, ok, err, ◌>>=◌, not, All, length-append, length-drop, take-append,
  drop-append, le→ltb, Result-cases, inl, inr, false,
}
use sbnet.Base.Bytes.{Bytes, rand_bytes, length-rand_bytes}
use sbnet.Crypto.{
  Aead, KeyExchange, CryptoError, bad_key_length, gen_key_pair, derive_key, encrypt, decrypt,
}

abbrev pub IsKey : Bytes → Type 0
IsKey key = length key ≡ 32

key_test : (key : Bytes) → IsKey key → not (length key == 32) ≡ false
key_test key h = ground arith

-- Both ends of an exchange derive the same key, and it has 32 bytes.
pub derive_key_agree :
    (x : KeyExchange) (n m : ℕ → ℕ)
    → (derive_key x (gen_key_pair x n).0 (gen_key_pair x m).1
        ≡ derive_key x (gen_key_pair x m).0 (gen_key_pair x n).1)
      × IsKey (derive_key x (gen_key_pair x n).0 (gen_key_pair x m).1)
unfolding derive_key gen_key_pair
derive_key_agree x n m =
    (ap x.sum256 (x.agree (rand_bytes n 32) (rand_bytes m 32)), x.length-sum256 _)

module _ (a : Aead) where
  -- `for i := …; i >= 0; i--`, with one nonce for each layer.
  unfoldable pub wrap : (ℕ → ℕ → ℕ) → List Bytes → Bytes → Result CryptoError Bytes
  wrap noise [] payload = ok payload
  wrap noise (key ∷ keys) payload = do
    inner ← wrap (λ i. noise (suc i)) keys payload
    encrypt a (noise 0) key inner

  -- `for i := 0; i < 3; i++`
  unfoldable pub peel : List Bytes → Bytes → Result CryptoError Bytes
  peel [] text = ok text
  peel (key ∷ keys) text = decrypt a key text >>= peel keys

  pub encrypt_ok :
      (noise : ℕ → ℕ) (key p : Bytes)
      → IsKey key
      → encrypt a noise key p ≡ ok (rand_bytes noise 12 ++ a.seal key (rand_bytes noise 12) p)
  unfolding encrypt
  encrypt_ok noise key p h = rw (key_test key h)

  -- Encrypt refuses exactly the keys that are not 32 bytes long; otherwise it adds 28 bytes, and
  -- Decrypt with the same key returns the plaintext.
  pub decrypt-encrypt :
      (noise : ℕ → ℕ) (key p : Bytes)
      → IsKey key
      → (c : Bytes) × (encrypt a noise key p ≡ ok c)
        × (length c ≡ length p + 28)
        × (decrypt a key c ≡ ok p)
  unfolding decrypt
  decrypt-encrypt noise key p h =
      let nonce = rand_bytes noise 12 in
      let c = nonce ++ a.seal key nonce p in
      let n = length-rand_bytes noise 12 in
      let e : length c ≡ length p + 28 =
        omega (arith, length-append nonce (a.seal key nonce p), a.length-seal key nonce p, n) in
      (
        c,
        encrypt_ok noise key p h,
        e,
        rw (
          key_test key h,
          le→ltb (length c) 28 (omega arith),
          take-append 12 nonce (a.seal key nonce p) n,
          drop-append 12 nonce (a.seal key nonce p) n,
          a.unseal-seal key nonce p,
        ),
      )

  decrypt_inv :
      (key c : Bytes) {p : Bytes}
      → decrypt a key c ≡ ok p
      → IsKey key × (28 ≤ length c) × (a.unseal key (take 12 c) (drop 12 c) ≡ some p)
  unfolding decrypt
  decrypt_inv key c h = ground arith

  -- A text that Decrypt accepts is 28 bytes longer than the plaintext, and the key has 32 bytes.
  pub length-decrypt :
      (key c : Bytes) {p : Bytes} → decrypt a key c ≡ ok p → (length c ≡ length p + 28) × IsKey key
  length-decrypt key c h =
      let (k, long, opened) = decrypt_inv key c h in
      (omega (arith, a.length-unseal key (take 12 c) (drop 12 c) opened, length-drop 12 c), k)

  -- Under keys of 32 bytes each, wrapping succeeds and adds 28 bytes for each layer; peeling with
  -- the same keys returns the payload.
  pub peel-wrap :
      (noise : ℕ → ℕ → ℕ) (keys : List Bytes) (p : Bytes)
      → All IsKey keys
      → (c : Bytes) × (wrap noise keys p ≡ ok c)
        × (length c ≡ length p + 28 * length keys)
        × (peel keys c ≡ ok p)
  unfolding wrap peel
  peel-wrap noise [] p h = (p, refl, omega arith, refl)
  peel-wrap noise (key ∷ keys) p h =
      let (inner, wrapped, more, back) = peel-wrap (λ i. noise (suc i)) keys p h.1 in
      let (c, sealed, longer, opened) = decrypt-encrypt (noise 0) key inner h.0 in
      (c, rw wrapped sealed, omega arith, rw opened back)

  -- With a key that is not 32 bytes long among them, wrapping fails.
  pub wrap_bad_key :
      (noise : ℕ → ℕ → ℕ) (key : Bytes) (keys : List Bytes) (p : Bytes)
      → length key ≢ 32
      → (e : CryptoError) × (wrap noise (key ∷ keys) p ≡ err e)
  unfolding wrap encrypt
  wrap_bad_key noise key keys p h = elim (Result-cases (wrap (λ i. noise (suc i)) keys p)) [
    | inl (inner, e) ↦ (bad_key_length (length key), ground (arith, e))
    | inr (x, e) ↦ (x, rw e)
  ]
