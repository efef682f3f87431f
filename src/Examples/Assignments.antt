-- ===== src/Examples/Assignments.antt =====
-- The registrations of relays and brokers, and the broker's assignment, at concrete inputs.
use mathlib.Core.List.{Memᴰ}
use sbnet.Base.{
  ℕ, ◌+◌, ◌/◌, inl, ◌≡◌, refl, some, none, List, [], ◌∷◌, arith, ltb, nat_comparable,
  string_comparable, ok, err, All,
}
use sbnet.Base.Int.{pos, ◌-ℤ◌}
use sbnet.Base.Maps.{lookup, insert}
use sbnet.Types.{RelayDescriptor, AssignRequest}
use sbnet.Config.{RelayConfig, BrokerConfig}
use sbnet.Directory.{
  handle_register, handle_consensus, store_registration, store_relay, verify_hmac, hmac_message,
  gossip, fresh_relays, fresh_brokers,
}
use sbnet.Relay.KeepAlive.{
  registration_secret, relay_descriptor, relay_registration, keep_alive_listed,
}
use sbnet.Broker.{token_ttl, issue}
use sbnet.Broker.KeepAlive.{broker_registration, keep_alive_stored}
use sbnet.Broker.Assign.{
  Float64, score, candidates, place, sort_slice, pick, BrokerServer, AssignResponse, handle_assign,
  handle_validate, BrokerStep, to_assign, to_validate, collect, run_broker,
}
use sbnet.Broker.Assign.Best.{IsOrder, Best, pick-Best}
use sbnet.Broker.Assign.Candidates.{Suits}
use sbnet.Broker.Assign.Session.{assign_validated}
use sbnet.Examples.{constant_noise}
use sbnet.Examples.Directories.{joined, publisher, empty_server, listed, relay_at}

abbrev relay_config : RelayConfig
relay_config = record {
  id = "r1";
  ip = "10.0.0.1";
  port = pos 9001;
  health_port = pos 8001;
  role = "entry";
  country = "NL";
  region = "";
  oper_mode = "normal";
  bandwidth = pos 1000;
  version = "1.0.0";
  dir_url = "";
  dir_tls_ca = "";
  reg_secret = "s";
  key_file = "";
  internal_dns = "";
  log_level = "";
  circuit_idle_secs = pos 300;
}

published :
    handle_consensus publisher
      (handle_register joined empty_server
        (pos 500)
        (relay_registration joined relay_config "" "ab" (pos 490))).server
      (pos 600)
    ≡ ok listed
unfolding handle_consensus handle_register store_registration store_relay verify_hmac hmac_message
    gossip lookup insert fresh_relays fresh_brokers ◌-ℤ◌ relay_registration registration_secret
    relay_descriptor
published = refl

keep_alive_listed_example :
    let body = relay_registration joined relay_config "" "ab" (pos 490) in
    ((handle_register joined empty_server (pos 500) body).reply.status ≡ 200)
    × Memᴰ
        (record {
          id = relay_config.id;
          ip = relay_config.ip;
          port = relay_config.port;
          role = relay_config.role;
          public_key = "ab";
          country = relay_config.country;
          region = relay_config.region;
          oper_mode = relay_config.oper_mode;
          bandwidth = relay_config.bandwidth;
          version = relay_config.version;
          last_seen = pos 500;
        })
        listed.relays
keep_alive_listed_example =
    keep_alive_listed joined publisher empty_server relay_config "" "ab" (pos 490) (pos 500)
      (pos 600) listed (unfold registration_secret in refl) (inl refl) (omega arith) (omega arith)
      (unfold lookup in refl) (unfold ◌-ℤ◌ in refl) published

abbrev broker_config : BrokerConfig
broker_config = record {
  id = "b1";
  ip = "10.0.0.2";
  port = pos 7100;
  country = "NL";
  region = "";
  modes = "normal" ∷ [];
  dir_url = "";
  dir_tls_ca = "";
  reg_secret = "";
  key_file = "";
  tls_cert = "";
  tls_key = "";
  log_level = "";
  stun_servers = [];
}

keep_alive_stored_example :
    let handled =
      handle_register joined empty_server
        (pos 500)
        (broker_registration joined broker_config "s" "cd" (pos 490)) in
    (handled.reply.status ≡ 200)
    × (lookup "b1" handled.server.brokers
        ≡ some (record {
          id = "b1";
          ip = "10.0.0.2";
          port = pos 7100;
          public_key = "cd";
          country = "NL";
          region = "";
          modes = "normal" ∷ [];
          last_seen = pos 500;
        }))
keep_alive_stored_example =
    keep_alive_stored joined empty_server broker_config "s" "cd" (pos 490) (pos 500)
      (unfold registration_secret in refl) (omega arith) (omega arith) (unfold lookup in refl)

-- Scores in units of 1/2560; the part of the bandwidth is left at its limit.
abbrev counted_scores : Float64
counted_scores = record {
  F = ℕ;
  zero_f = 0;
  add_f = λ a b. a + b;
  three = 7680;
  two = 5120;
  bandwidth_part = λ bandwidth. 25600;
  jitter = λ b. b;
  greater = λ a b. ltb b a;
}

counted_scores-IsOrder : IsOrder counted_scores
counted_scores-IsOrder = record { asym = λ a b h. ground arith; trans = λ a b c h k. ground arith }

abbrev pool : List RelayDescriptor
pool = relay_at (pos 500) ∷ record (relay_at (pos 400)) { country = "DE" } ∷ []

abbrev wanted : AssignRequest
wanted = record { role = "entry"; country = "NL"; region = ""; mode = "" }

pick-Best_example :
    ((rd : RelayDescriptor)
      → pick counted_scores wanted constant_noise pool ≡ some rd
      → Suits wanted rd × Best counted_scores counted_scores-IsOrder wanted constant_noise pool rd)
    × (pick counted_scores wanted constant_noise pool ≡ none → All (λ rd. ¬ Suits wanted rd) pool)
pick-Best_example = pick-Best counted_scores counted_scores-IsOrder wanted constant_noise pool

abbrev broker : BrokerServer
broker = record { pool = pool; tokens = [] }

abbrev answer : AssignResponse
answer = record { relay = relay_at (pos 500); token = "t"; expires_at = 300 }

abbrev after : BrokerServer
after = record broker {
  tokens = ("t", record { relay = relay_at (pos 500); expires_at = 100 + token_ttl }) ∷ [];
}

assigns :
    handle_assign counted_scores constant_noise 100 "t" broker (some wanted) ≡ (after, ok answer)
unfolding handle_assign pick sort_slice place candidates score issue insert
assigns = refl

-- The token is used twice, and the old ones are collected.
abbrev uses : List BrokerStep
uses =
    to_validate 200 (some "t")
    ∷ collect 300
    ∷ to_assign 350 "u" constant_noise (some wanted)
    ∷ to_validate 400 (some "t")
    ∷ []

assign_validated_example :
    (pick counted_scores wanted constant_noise pool ≡ some answer.relay)
    × (answer.expires_at ≡ (100 + 300000000000) / 1000000000)
    × ((handle_validate 500 (run_broker counted_scores uses after) (some answer.token)).1
        ≡ ok answer.relay.id)
    × ((handle_validate 300000000101 (run_broker counted_scores uses after) (some answer.token)).1
        ≡ err 401)
assign_validated_example =
    assign_validated counted_scores constant_noise 100 500 300000000101 "t" broker after wanted
      answer uses assigns (omega arith, (omega arith, (refl, (omega arith, _)))) (omega arith)
      (omega arith)
