-- ===== src/Examples/Journeys.antt =====
-- A client, three relays and an origin at concrete inputs.
use sbnet.Base.{◌≡◌, refl, some, none, [], ◌∷◌, arith}
use sbnet.Cell.{Cell}
use sbnet.Crypto.Toy.{toy, toy_exchange}
use sbnet.Relay.Exit.{resolve_host}
use sbnet.Client.{send_request}
use sbnet.Client.Request.{concat}
use sbnet.Client.Exchange.{pieces}
use sbnet.Client.Reply.{IsBuilt}
use sbnet.Client.Journey.{Serving, journey, request_answered}
use sbnet.Examples.{constant_noise, layer_noise}
use sbnet.Examples.Relays.{
  closed_network, entry_circuit, middle_circuit, exit_circuit, entry_server, middle_server,
  exit_server, at_entry, at_middle, at_exit,
}
use sbnet.Examples.Clients.{resolver, origin, three_keys, host_a, req_a}

abbrev serving : Serving
serving = record { resolver = resolver; internal_dns = []; origin = origin }

built :
    IsBuilt three_keys
      (entry_circuit ∷ middle_circuit ∷ [])
      (entry_server ∷ middle_server ∷ [])
      exit_server
      exit_circuit
built = record {
  id_lt = omega arith;
  two_relays = refl;
  same_keys = refl;
  hop_keys = (refl, (refl, _));
  exit_key = refl;
  exit_id = refl;
  on_path = (at_entry, (at_middle, _));
  at_exit = at_exit;
}

request_answered_example :
    (cell : Cell) × (send_request toy layer_noise
        (journey toy toy_exchange closed_network constant_noise 5 70000 200 1 constant_noise
          layer_noise layer_noise
          (entry_circuit ∷ middle_circuit ∷ [])
          (entry_server ∷ middle_server ∷ [])
          exit_server
          serving)
        three_keys
        host_a
        80
        req_a
      ≡ (some cell, record { response = concat (pieces origin.reads); error = none }))
request_answered_example =
    request_answered toy toy_exchange closed_network constant_noise 5 70000 200 1 constant_noise
      layer_noise layer_noise (entry_circuit ∷ middle_circuit ∷ [])
      (entry_server ∷ middle_server ∷ []) exit_server serving built layer_noise host_a 80 req_a
      (omega arith) (omega arith) (unfold resolve_host in refl) refl refl
