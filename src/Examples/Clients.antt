-- ===== src/Examples/Clients.antt =====
-- The client at concrete inputs, with the relay where both take part.
use sbnet.Base.{
  ℕ, ◌+◌, ◌≤◌, ◌<◌, ◌≡◌, refl, true, some, none, [], ◌∷◌, arith, length, take, Result, ok,
  replicate, nat_comparable, ◌==◌, if◌then◌else◌,
}
use sbnet.Base.Bytes.{Bytes}
use sbnet.Base.Maps.{lookup}
use sbnet.Cell.{Cell, CellError, cell_of, cmd_create, cmd_created, cmd_relay, cmd_extended}
use sbnet.Cell.Wire.{transmit}
use sbnet.Crypto.{gen_key_pair, derive_key, encrypt}
use sbnet.Crypto.Layers.{IsKey, peel, wrap}
use sbnet.Crypto.Toy.{toy, toy_exchange}
use sbnet.Relay.{Circuit, RelayServer, write, key_cell, handle_create}
use sbnet.Relay.Exit.{Resolver, Origin}
use sbnet.Client.{
  ClientCircuit, request_payload, receive, send_request, request_too_large, extend_cell,
  extend_circuit, build_hops,
}
use sbnet.Client.Request.{send_request_lem}
use sbnet.Client.Create.{create_shares_key}
use sbnet.Examples.{constant_noise, layer_noise, key_a, key_b, key_c}

abbrev empty_relay : RelayServer
empty_relay = record { role = "entry"; circuits = []; reasm = []; timeout = [] }

create_shares_key_example :
    (asked : Cell) × (reply : Cell) × (answered : Cell) × (circ : Circuit) × (transmit 1
        constant_noise
        (key_cell 9 cmd_create (gen_key_pair toy_exchange constant_noise).1)
      ≡ ok asked)
    × ((handle_create toy_exchange constant_noise empty_relay asked 4).1 ≡ write 4 reply ∷ [])
    × (transmit 2 constant_noise reply ≡ ok answered)
    × (answered.circ_id ≡ 9)
    × (answered.command ≡ cmd_created)
    × (lookup 9 (handle_create toy_exchange constant_noise empty_relay asked 4).0.circuits
        ≡ some circ)
    × (circ.out_conn ≡ none)
    × (derive_key toy_exchange (gen_key_pair toy_exchange constant_noise).0 (take 32 answered.body)
        ≡ circ.key)
    × IsKey circ.key
create_shares_key_example =
    create_shares_key toy_exchange constant_noise constant_noise 1 2 constant_noise empty_relay 9 4
      (omega arith)

-- One name server, and an origin that answers in two pieces.
abbrev pub resolver : Resolver
resolver = record { lookup_host = λ host. (49 ∷ []) ∷ []; query = λ dns host. [] }

abbrev pub origin : Origin
origin = record {
  dial = λ ip port. true;
  write_ok = λ req. true;
  reads = (1 ∷ 2 ∷ []) ∷ [] ∷ (3 ∷ []) ∷ [];
  bad_gateway = λ e. [];
}

abbrev pub three_keys : ClientCircuit
three_keys = record { circ_id = 9; keys = key_a ∷ key_b ∷ key_c ∷ []; built = 0 }

abbrev pub host_a : Bytes
host_a = 104 ∷ []

abbrev pub req_a : Bytes
req_a = 71 ∷ 72 ∷ []

send_request_lem_example :
    (length host_a + length req_a ≤ 417
      → (onion : Bytes) × (peel toy three_keys.keys onion ≡ ok (request_payload host_a 80 req_a))
        × (length onion ≤ 505)
        × (send_request toy layer_noise (λ cell. []) three_keys host_a 80 req_a
            ≡ (some (cell_of 9 cmd_relay onion), receive toy three_keys.keys [] [])))
    × (417 < length host_a + length req_a
        → send_request toy layer_noise (λ cell. []) three_keys host_a 80 req_a ≡ (
          none,
          record {
            response = [];
            error = some (request_too_large (88 + length host_a + length req_a));
          },
        ))
send_request_lem_example =
    send_request_lem toy layer_noise (λ cell. []) three_keys host_a 80 req_a
      (refl, (refl, (refl, _))) refl

-- Every peer answers with the same key part.
abbrev pub answering : ℕ → Cell → Result CellError Cell
answering i c = ok (record {
  circ_id = 9;
  command = if i == 0 then cmd_created else cmd_extended;
  used = 32;
  body = key_a;
})

abbrev pub built_circuit : ClientCircuit
built_circuit = record {
  circ_id = 9;
  keys = replicate 32 0 ∷ replicate 32 0 ∷ replicate 32 0 ∷ [];
  built = 5;
}

pub builds :
    build_hops toy toy_exchange layer_noise
      (λ i. layer_noise)
      answering
      5
      9
      (some host_a)
      (some host_a)
    ≡ ok built_circuit
unfolding build_hops extend_circuit extend_cell wrap encrypt derive_key gen_key_pair
builds = refl
