-- ===== src/Crypto/Toy.antt =====
-- Concrete functions that meet the laws of the cryptographic parameters, so that the theorems can
-- be applied. They are no cipher and no key exchange.
use sbnet.Base.{
  ◌+◌, ◌-◌, ◌≡◌, refl, ap, Option, none, some, ◌++◌, arith, ltb, if◌then◌else◌, length, take,
  replicate, length-append, length-take, take-append, le→ltb,
}
use sbnet.Base.Bytes.{Bytes}
use sbnet.Crypto.{Aead, KeyExchange}

-- The tag is sixteen zeros.
abbrev pub toy_seal : Bytes → Bytes → Bytes → Bytes
toy_seal key nonce p = p ++ replicate 16 0

abbrev pub toy_unseal : Bytes → Bytes → Bytes → Option Bytes
toy_unseal key nonce c = if ltb (length c) 16 then none else some (take (length c - 16) c)

pub length-toy_seal : (key nonce p : Bytes) → length (toy_seal key nonce p) ≡ length p + 16
length-toy_seal key nonce p = omega (arith, length-append p (replicate 16 0))

pub unseal-toy_seal : (key nonce p : Bytes) → toy_unseal key nonce (toy_seal key nonce p) ≡ some p
unseal-toy_seal key nonce p =
    let e = length-toy_seal key nonce p in
    rw (le→ltb (length (toy_seal key nonce p)) 16 (omega arith))
      (ap some (take-append (length (toy_seal key nonce p) - 16) p (replicate 16 0) (omega arith)))

pub length-toy_unseal :
    (key nonce c : Bytes) {p : Bytes} → toy_unseal key nonce c ≡ some p → length c ≡ length p + 16
length-toy_unseal key nonce c h = ground (arith, length-take (length c - 16) c)

abbrev pub toy : Aead
toy = record {
  seal = toy_seal;
  unseal = toy_unseal;
  unseal-seal = unseal-toy_seal;
  length-seal = length-toy_seal;
  length-unseal = length-toy_unseal;
}

-- Every secret is the same.
abbrev pub toy_exchange : KeyExchange
toy_exchange = record {
  base_mult = λ priv. replicate 32 0;
  scalar_mult = λ priv pub_key. replicate 32 0;
  sum256 = λ s. replicate 32 0;
  length-base_mult = λ priv. refl;
  length-sum256 = λ s. refl;
  agree = λ x y. refl;
}
