-- ===== src/Examples/Extends.antt =====
-- A circuit of one hop that is extended to a second relay, at concrete inputs.
use sbnet.Base.{ℕ, none, some, [], ◌∷◌, nat_comparable, true, set}
use sbnet.Base.Bytes.{Bytes}
use sbnet.Cell.{Cell}
use sbnet.Crypto.Toy.{toy_exchange}
use sbnet.Relay.{Circuit, RelayServer, Network}
use sbnet.Client.{ClientCircuit, no_keys}
use sbnet.Client.Extend.{create_answer}
use sbnet.Examples.{constant_noise, key_a}

abbrev other_noise : ℕ → ℕ
other_noise i = 9

abbrev host : Bytes
host = 49 ∷ 58 ∷ 57 ∷ []

abbrev first_hop : Circuit
first_hop = record { id = 9; in_conn = 1; out_conn = none; key = key_a }

abbrev first_relay : RelayServer
first_relay = record { role = "entry"; circuits = (9, first_hop) ∷ []; reasm = []; timeout = [] }

abbrev second_relay : RelayServer
second_relay = record { role = "middle"; circuits = []; reasm = []; timeout = [] }

abbrev one_hop : ClientCircuit
one_hop = record { circ_id = 9; keys = set no_keys 0 key_a; built = 5 }

abbrev network : Network
network = record {
  dial = λ addr. some 2;
  obfs_handshake = λ conn. true;
  answer = λ conn c. create_answer 0 constant_noise toy_exchange other_noise second_relay 4 c;
}
