-- ===== src/Examples/Relays.antt =====
-- The relay at concrete inputs.
use sbnet.Base.{
  ◌≡◌, refl, false, some, none, List, [], ◌∷◌, ◌++◌, arith, map, String, ok, err, ◌>>=◌, ◌⊎◌, inl,
  replicate, nat_comparable,
}
use sbnet.Base.Bytes.{Bytes}
use sbnet.Base.Maps.{lookup, insert}
use sbnet.Cell.{Cell, cell_of, content, cmd_relay, cmd_destroy, read_failed}
use sbnet.Cell.Wire.{transmit}
use sbnet.Crypto.{encrypt, decrypt}
use sbnet.Crypto.Layers.{wrap, peel}
use sbnet.Crypto.Toy.{toy, toy_exchange}
use sbnet.Relay.{
  Circuit, RelayServer, Network, Effect, start_exit, bare_cell, handle_cell, handle_relay,
  sweep_circuits,
}
use sbnet.Relay.Exit.{reply_cell}
use sbnet.Relay.Onion.{OnPath, AtExit, downstream, onion_delivered}
use sbnet.Relay.Response.{hop_key, upstream, response_arrives}
use sbnet.Relay.Circuits.{IsValid, insert-IsValid, handle_cell-IsValid}
use sbnet.Relay.Outcomes.{Relayed, handle_relay_outcomes}
use sbnet.Examples.{constant_noise, layer_noise, key_a, key_b, key_c}

abbrev hi : Bytes
hi = 104 ∷ 105 ∷ []

abbrev pub closed_network : Network
closed_network = record {
  dial = λ addr. none;
  obfs_handshake = λ conn. false;
  answer = λ conn c. err read_failed;
}

abbrev pub entry_circuit : Circuit
entry_circuit = record { id = 9; in_conn = 1; out_conn = some 2; key = key_a }

abbrev pub middle_circuit : Circuit
middle_circuit = record { id = 9; in_conn = 2; out_conn = some 3; key = key_b }

abbrev pub exit_circuit : Circuit
exit_circuit = record { id = 9; in_conn = 3; out_conn = none; key = key_c }

abbrev server_with : String → Circuit → RelayServer
server_with role circ = record {
  role = role;
  circuits = (9, circ) ∷ [];
  reasm = [];
  timeout = (9, 100) ∷ [];
}

abbrev pub entry_server : RelayServer
entry_server = server_with "entry" entry_circuit

abbrev pub middle_server : RelayServer
middle_server = server_with "middle" middle_circuit

abbrev pub exit_server : RelayServer
exit_server = server_with "exit" exit_circuit

held : (role : String) (circ : Circuit) → lookup 9 (server_with role circ).circuits ≡ some circ
unfolding lookup
held role circ = refl

pub at_entry : OnPath 9 key_a entry_server
at_entry = record {
  circ = entry_circuit;
  out = 2;
  found = held "entry" entry_circuit;
  same_key = refl;
  linked = refl;
  not_exit = refl;
}

pub at_middle : OnPath 9 key_b middle_server
at_middle = record {
  circ = middle_circuit;
  out = 3;
  found = held "middle" middle_circuit;
  same_key = refl;
  linked = refl;
  not_exit = refl;
}

pub at_exit : AtExit 9 key_c exit_server exit_circuit
at_exit = record { found = held "exit" exit_circuit; same_key = refl; is_exit = refl }

onion_delivered_example :
    (onion : Bytes) × (got : Cell) × (wrap toy layer_noise ((key_a ∷ key_b ∷ []) ++ key_c ∷ []) hi
      ≡ ok onion)
    × (transmit (constant_noise 0) constant_noise (cell_of 9 cmd_relay onion) ≡ ok got)
    × (downstream toy toy_exchange closed_network constant_noise 5 70000 200 1 constant_noise
          (entry_server ∷ middle_server ∷ [])
          exit_server
          got
        ≡ start_exit exit_circuit hi ∷ [])
onion_delivered_example =
    onion_delivered toy toy_exchange closed_network constant_noise 5 70000 200 1 constant_noise
      layer_noise (key_a ∷ key_b ∷ []) (entry_server ∷ middle_server ∷ []) 9 key_c hi exit_server
      exit_circuit (omega arith) (refl, (refl, _)) refl (at_entry, (at_middle, _)) at_exit
      (omega arith)

response_arrives_example :
    (reply : Cell) × (out : Cell) × (got : Cell) × (reply_cell toy exit_circuit cmd_relay
        (encrypt toy constant_noise key_c hi)
      ≡ some reply)
    × (upstream toy constant_noise layer_noise (entry_circuit ∷ middle_circuit ∷ []) reply
        ≡ some out)
    × (transmit 4 constant_noise out ≡ ok got)
    × (got.circ_id ≡ 9)
    × (got.command ≡ cmd_relay)
    × ((peel toy (map hop_key (entry_circuit ∷ middle_circuit ∷ [])) (content got)
          >>= decrypt toy key_c)
        ≡ ok hi)
response_arrives_example =
    response_arrives toy constant_noise layer_noise constant_noise constant_noise 4
      (entry_circuit ∷ middle_circuit ∷ []) exit_circuit cmd_relay hi (inl refl) (omega arith)
      (refl, (refl, _)) refl (omega arith)

no_circuit-IsValid : IsValid []
unfolding lookup
no_circuit-IsValid = record { entry = λ id circ h. cc }

one_circuit-IsValid : IsValid entry_server.circuits
unfolding insert
one_circuit-IsValid = insert-IsValid [] 9 entry_circuit no_circuit-IsValid refl refl

handle_cell-IsValid_example :
    ((t : RelayServer) (effects : List Effect)
      → handle_cell toy toy_exchange closed_network constant_noise 5 70000 200 entry_server
          (bare_cell 9 cmd_destroy)
          1
        ≡ some (t, effects)
      → IsValid t.circuits)
    × IsValid (sweep_circuits entry_server 200 300).0.circuits
handle_cell-IsValid_example =
    handle_cell-IsValid toy_exchange toy closed_network constant_noise 5 70000 200 300 entry_server
      (bare_cell 9 cmd_destroy) 1 one_circuit-IsValid

handle_relay_outcomes_example :
    let c = cell_of 9 cmd_relay (replicate 40 0) in
    (handle_relay toy 5 entry_server c (lookup c.circ_id entry_server.circuits) ≡ [])
    ⊎ ((circ : Circuit) × (payload : Bytes) × (lookup c.circ_id entry_server.circuits ≡ some circ)
        × (decrypt toy circ.key (content c) ≡ ok payload)
        × Relayed toy 5 entry_server c circ payload
            (handle_relay toy 5 entry_server c (lookup c.circ_id entry_server.circuits)))
handle_relay_outcomes_example =
    handle_relay_outcomes toy 5 entry_server (cell_of 9 cmd_relay (replicate 40 0))
      (unfold cell_of in omega arith)
