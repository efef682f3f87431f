-- ===== src/Consensus/Trust.antt =====
-- What a verified consensus of common/consensus.go is, and what its signature does not cover.
use sbnet.Base.{
  ◌≡◌, ◌∙◌, refl, Bool, true, false, ◌||◌, Option, some, List, Result, ok, ◌>>=◌, or_fail, arith,
  bind_inv, or_fail_inv,
}
use sbnet.Base.Bytes.{Bytes}
use sbnet.Base.Int.{ℤ, pos, negsuc, neg_ℕ, ◌-ℤ◌, ltb_ℤ, Within}
use sbnet.Types.{SignedConsensus, RelayDescriptor, BrokerDescriptor}
use sbnet.Consensus.{
  Verifier, Responses, FetchError, bad_signature, check_signature, check_age, directory_key,
  document, fetch_verified_consensus,
}
use Prim.Native.String.{◌++◌}

-- The test of the age.
abbrev stale : ℤ → ℤ → Bool
stale now t = ltb_ℤ (pos 600) (now -ℤ t) || ltb_ℤ (now -ℤ t) (neg_ℕ 60)

stale_sound : (a b : ℤ) → stale a b ≡ false → Within 600 b a × Within 60 a b
unfolding ◌-ℤ◌
stale_sound (pos a) (pos b) h = ground arith
stale_sound (pos a) (negsuc b) h = ground arith
stale_sound (negsuc a) (pos b) h = ground arith
stale_sound (negsuc a) (negsuc b) h = ground arith

stale_complete : (a b : ℤ) → Within 600 b a → Within 60 a b → stale a b ≡ false
unfolding ◌-ℤ◌
stale_complete (pos a) (pos b) h k = ground arith
stale_complete (pos a) (negsuc b) h k = ground arith
stale_complete (negsuc a) (pos b) h k = ground arith
stale_complete (negsuc a) (negsuc b) h k = ground arith

same_key :
    (v : Verifier) (r : Responses) (d : Option (Option SignedConsensus))
    → directory_key v (record r { consensus = d }) ≡ directory_key v r
unfolding directory_key
same_key v r d = refl

abbrev after_decode :
    Verifier → ℤ → Bytes → SignedConsensus → Bytes → Result FetchError SignedConsensus
after_decode v now key c sig = check_signature v key c sig >>= check_age now

abbrev after_document : Verifier → ℤ → Bytes → SignedConsensus → Result FetchError SignedConsensus
after_document v now key c =
    or_fail (v.hex_decode c.signature) bad_signature >>= after_decode v now key c

abbrev after_key : Verifier → Responses → ℤ → Bytes → Result FetchError SignedConsensus
after_key v r now key = document r >>= after_document v now key

checks_inv :
    (v : Verifier) (now : ℤ) (key : Bytes) (d c : SignedConsensus) (sig : Bytes)
    → after_decode v now key d sig ≡ ok c
    → (c ≡ d)
      × (v.verify key (d.relays_json ++ d.brokers_json) sig ≡ true)
      × (stale now d.timestamp ≡ false)
unfolding check_signature check_age
checks_inv v now key d c sig h = ground arith

checks_ok :
    (v : Verifier) (now : ℤ) (key : Bytes) (d : SignedConsensus) (sig : Bytes)
    → v.verify key (d.relays_json ++ d.brokers_json) sig ≡ true
    → stale now d.timestamp ≡ false
    → after_decode v now key d sig ≡ ok d
unfolding check_signature check_age
checks_ok v now key d sig h k = rw (h, k)

fetch_inv :
    (v : Verifier) (r : Responses) (now : ℤ) (c : SignedConsensus)
    → fetch_verified_consensus v r now ≡ ok c
    → (key : Bytes) × (sig : Bytes) × (directory_key v r ≡ ok key)
      × (document r ≡ ok c)
      × (v.hex_decode c.signature ≡ some sig)
      × (v.verify key (c.relays_json ++ c.brokers_json) sig ≡ true)
      × (stale now c.timestamp ≡ false)
unfolding fetch_verified_consensus
fetch_inv v r now c h =
    let (key, found, h1) = bind_inv (directory_key v r) (after_key v r now) h in
    let (d, parsed, h2) = bind_inv (document r) (after_document v now key) h1 in
    let (sig, decoded, h3) =
      or_fail_inv (v.hex_decode d.signature) bad_signature (after_decode v now key d) h2 in
    let (same, verified, fresh) = checks_inv v now key d c sig h3 in
    rw same (key, sig, found, parsed, decoded, verified, fresh)

-- What a consensus that is returned has passed: it is the document that was received, its signature
-- over the two JSON texts verifies under the key that the directory gave, and its timestamp is at
-- most 600 seconds old and at most 60 seconds in the future.
pub fetch_verified_consensus_sound :
    (v : Verifier) (r : Responses) (now : ℤ) (c : SignedConsensus)
    → fetch_verified_consensus v r now ≡ ok c
    → ((key : Bytes) × (sig : Bytes) × (directory_key v r ≡ ok key)
        × (document r ≡ ok c)
        × (v.hex_decode c.signature ≡ some sig)
        × (v.verify key (c.relays_json ++ c.brokers_json) sig ≡ true))
      × Within 600 c.timestamp now
      × Within 60 now c.timestamp
fetch_verified_consensus_sound v r now c h =
    let (key, sig, found, parsed, decoded, verified, fresh) = fetch_inv v r now c h in
    let (late, early) = stale_sound now c.timestamp fresh in
    ((key, sig, found, parsed, decoded, verified), late, early)

-- Only the two JSON texts are signed. A document that was accepted is accepted just as well with
-- any other lists of relays and brokers in it, which are what the callers use, and with any other
-- timestamp that is recent.
pub fetch_verified_consensus_swapped :
    (v : Verifier) (r : Responses) (now later : ℤ) (c : SignedConsensus)
    (relays : List RelayDescriptor) (brokers : List BrokerDescriptor) (t : ℤ)
    → fetch_verified_consensus v r now ≡ ok c
    → Within 600 t later
    → Within 60 later t
    → let forged = record c { relays = relays; brokers = brokers; timestamp = t } in
      fetch_verified_consensus v (record r { consensus = some (some forged) }) later ≡ ok forged
unfolding fetch_verified_consensus document
fetch_verified_consensus_swapped v r now later c relays brokers t h late early =
    let (key, sig, found, parsed, decoded, verified, fresh) = fetch_inv v r now c h in
    rw
      (same_key v r (some (some (record c { relays = relays; brokers = brokers; timestamp = t })))
        ∙ found)
      (rw decoded (
        checks_ok v later key (record c { relays = relays; brokers = brokers; timestamp = t }) sig
          verified (stale_complete later t late early)))
