-- ===== src/Examples/Directories.antt =====
-- The directory and the consensus at concrete inputs.
use sbnet.Base.{
  ◌≡◌, refl, true, some, none, [], ◌∷◌, arith, String, ok, map, All, ◌==◌, string_comparable,
  replicate,
}
use sbnet.Base.Bytes.{Bytes}
use sbnet.Base.Int.{ℤ, pos, Within, ◌-ℤ◌}
use sbnet.Types.{RelayDescriptor, RegisterRequest, SignedConsensus, kind_relay}
use sbnet.Directory.{
  DirectoryServer, Mac, Publisher, Post, hmac_message, verify_hmac, gossip, handle_register,
  handle_sync,
}
use sbnet.Directory.Auth.{verify_hmac_sound, verify_hmac_replayed}
use sbnet.Directory.Gossip.{handlers-Keeps, gossip_accepted}
use sbnet.Directory.Store.{Keeps}
use sbnet.Consensus.{
  Verifier, Responses, directory_key, document, check_key, check_signature, check_age,
  fetch_verified_consensus,
}
use sbnet.Consensus.Trust.{fetch_verified_consensus_sound, fetch_verified_consensus_swapped}
use Prim.Native.String.{◌++◌}

-- A stand-in for HMAC-SHA256.
abbrev pub joined : Mac
joined secret msg = secret ++ msg

abbrev pub relay_at : ℤ → RelayDescriptor
relay_at t = record {
  id = "r1";
  ip = "10.0.0.1";
  port = pos 9001;
  role = "entry";
  public_key = "ab";
  country = "NL";
  region = "";
  oper_mode = "normal";
  bandwidth = pos 1000;
  version = "1.0.0";
  last_seen = t;
}

abbrev pub request_at : ℤ → RegisterRequest
request_at t = record {
  kind = kind_relay;
  relay = some (relay_at (pos 0));
  broker = none;
  timestamp = t;
  hmac = "sr110.0.0.1entryab";
}

abbrev pub empty_server : DirectoryServer
empty_server = record {
  reg_secret = "s";
  peer_dirs = "p" ∷ "q" ∷ [];
  consensus_max_age = pos 300;
  relays = [];
  brokers = [];
}

abbrev full_server : DirectoryServer
full_server = record empty_server { relays = ("r1", relay_at (pos 1000)) ∷ [] }

passes : verify_hmac joined empty_server (pos 500) (request_at (pos 490)) 30 ≡ true
unfolding verify_hmac hmac_message ◌-ℤ◌
passes = refl

verify_hmac_sound_example :
    Within 30 (pos 490) (pos 500)
    × Within 30 (pos 500) (pos 490)
    × ((msg : String) × (hmac_message (request_at (pos 490)) ≡ some msg)
        × ((request_at (pos 490)).hmac ≡ joined "s" msg))
verify_hmac_sound_example =
    verify_hmac_sound joined empty_server (pos 500) (request_at (pos 490)) 30 passes

verify_hmac_replayed_example :
    verify_hmac joined empty_server
      (pos 9999)
      (record (request_at (pos 490)) { relay = some (relay_at (pos 77)); timestamp = pos 9999 })
      120
    ≡ true
verify_hmac_replayed_example =
    verify_hmac_replayed joined empty_server (pos 500) (pos 9999) (request_at (pos 490)) 30 120
      (relay_at (pos 0)) (relay_at (pos 77)) refl refl refl refl refl refl passes

handlers-Keeps_example :
    Keeps full_server
      (handle_register joined full_server (pos 500) (some (request_at (pos 490)))).server
    × Keeps full_server
        (handle_sync joined full_server (pos 500) (some (request_at (pos 490)))).server
    × ((handle_sync joined full_server (pos 500) (some (request_at (pos 490)))).posts ≡ [])
handlers-Keeps_example = handlers-Keeps joined full_server (pos 500) (some (request_at (pos 490)))

gossip_accepted_example :
    (map (λ (post : Post). post.peer) (gossip joined empty_server (pos 500) (request_at (pos 490)))
      ≡ "p" ∷ "q" ∷ [])
    × All
        (λ (post : Post). verify_hmac joined full_server (pos 560) post.request 120 ≡ true)
        (gossip joined empty_server (pos 500) (request_at (pos 490)))
gossip_accepted_example =
    gossip_accepted joined empty_server full_server (pos 500) (pos 560) (request_at (pos 490))
      "r110.0.0.1entryab" (unfold hmac_message in refl) refl (omega arith) (omega arith)

-- A stand-in for the encoder and the signature.
abbrev pub publisher : Publisher
publisher = record {
  relays_json = λ rs. some "[]";
  brokers_json = λ bs. some "[]";
  sign = λ text. "sig";
}

abbrev pub listed : SignedConsensus
listed = record {
  relays = relay_at (pos 500) ∷ [];
  brokers = [];
  timestamp = pos 600;
  signature = "sig";
  relays_json = "[]";
  brokers_json = "[]";
}

-- A stand-in for the verifier, which accepts one text for a signature.
abbrev pub verifier : Verifier
verifier = record {
  hex_decode = λ text. some (replicate 32 0);
  trim_space = λ text. text;
  verify = λ key text sig. text == "[][]";
}

abbrev pub responses : Responses
responses = record { client = some tt; pubkey = some "00"; consensus = some (some listed) }

pub fetched : fetch_verified_consensus verifier responses (pos 640) ≡ ok listed
unfolding fetch_verified_consensus directory_key document check_key check_signature check_age ◌-ℤ◌
fetched = refl

fetch_verified_consensus_sound_example :
    ((key : Bytes) × (sig : Bytes) × (directory_key verifier responses ≡ ok key)
      × (document responses ≡ ok listed)
      × (verifier.hex_decode "sig" ≡ some sig)
      × (verifier.verify key "[][]" sig ≡ true))
    × Within 600 (pos 600) (pos 640)
    × Within 60 (pos 640) (pos 600)
fetch_verified_consensus_sound_example =
    fetch_verified_consensus_sound verifier responses (pos 640) listed fetched

fetch_verified_consensus_swapped_example :
    let forged : SignedConsensus = record listed {
      relays = relay_at (pos 1) ∷ relay_at (pos 2) ∷ [];
      brokers = [];
      timestamp = pos 9000;
    } in
    fetch_verified_consensus verifier
      (record responses { consensus = some (some forged) })
      (pos 9000)
    ≡ ok forged
fetch_verified_consensus_swapped_example =
    fetch_verified_consensus_swapped verifier responses (pos 640) (pos 9000) listed
      (relay_at (pos 1) ∷ relay_at (pos 2) ∷ []) [] (pos 9000) fetched (omega arith) (omega arith)
