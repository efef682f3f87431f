-- ===== src/Consensus.antt =====
-- FetchVerifiedConsensus of common/consensus.go. The responses of the directory, the clock, the
-- hexadecimal decoder and the ed25519 check are arguments.
pub mod Trust
use sbnet.Base.{
  ℕ, Bool, ◌||◌, not, Option, none, some, String, if◌then◌else◌, Result, ok, err, ◌>>=◌, or_fail,
  length, nat_beq,
}
use sbnet.Base.Bytes.{Bytes}
use sbnet.Base.Int.{ℤ, pos, neg_ℕ, ◌-ℤ◌, ltb_ℤ}
use sbnet.Types.{SignedConsensus}
use Prim.Native.String.{◌++◌}

-- hex.DecodeString, strings.TrimSpace and ed25519.Verify (public key, message, signature).
pub record Verifier : Type 0 where
  pub hex_decode : String → Option Bytes
  pub trim_space : String → String
  pub verify : Bytes → String → Bytes → Bool

pub data FetchError : Type 0 where
  no_client no_pubkey bad_pubkey no_consensus bad_consensus bad_signature : FetchError
  signature_invalid : FetchError
  timestamp_out_of_range : ℤ → FetchError

-- What the network gives: whether the HTTP client could be built, the body of GET /pubkey, and the
-- body of GET /consensus, if it came and if it decodes.
pub record Responses : Type 0 where
  pub client : Option (Unit {0})
  pub pubkey : Option String
  pub consensus : Option (Option SignedConsensus)

unfoldable pub check_key : Bytes → Result FetchError Bytes
check_key key = if not (nat_beq (length key) 32) then err bad_pubkey else ok key

unfoldable pub check_signature :
    Verifier → Bytes → SignedConsensus → Bytes → Result FetchError SignedConsensus
check_signature v key c sig =
    if not (v.verify key (c.relays_json ++ c.brokers_json) sig) then err signature_invalid else ok c

unfoldable pub check_age : ℤ → SignedConsensus → Result FetchError SignedConsensus
check_age now c =
    let age = now -ℤ c.timestamp in
    if ltb_ℤ (pos 600) age || ltb_ℤ age (neg_ℕ 60) then err (timestamp_out_of_range age) else ok c

-- The part up to the key, and the part that reads the document.
unfoldable pub directory_key : Verifier → Responses → Result FetchError Bytes
unfolding check_key
directory_key v r = do
  client ← or_fail r.client no_client
  body ← or_fail r.pubkey no_pubkey
  decoded ← or_fail (v.hex_decode (v.trim_space body)) bad_pubkey
  check_key decoded

unfoldable pub document : Responses → Result FetchError SignedConsensus
document r = do response ← or_fail r.consensus no_consensus; or_fail response bad_consensus

unfoldable pub fetch_verified_consensus :
    Verifier → Responses → ℤ → Result FetchError SignedConsensus
fetch_verified_consensus v r now = do
  key ← directory_key v r
  c ← document r
  sig ← or_fail (v.hex_decode c.signature) bad_signature
  signed ← check_signature v key c sig
  check_age now signed
