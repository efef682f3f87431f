-- ===== src/Examples/Pools.antt =====
-- The circuit pool at concrete inputs.
use sbnet.Base.{
  arith, ℕ, ◌+◌, ◌≡◌, refl, true, none, some, [], ◌∷◌, List, length, nat_comparable,
  string_comparable, String, ok, err, All,
}
use sbnet.Base.Int.{pos}
use sbnet.Types.{RelayDescriptor}
use sbnet.Crypto.Layers.{IsKey}
use sbnet.Crypto.Toy.{toy, toy_exchange}
use sbnet.Client.{ClientError, cancelled, Answer}
use sbnet.Client.Guard.{with_role, pick_relay, load_or_pick_guard}
use sbnet.Client.Pool.{
  PoolCircuit, CircuitPool, new_circuit_pool, built, closed, not_rebuilt, request_failed, Built,
  send, call_build_all, call_send, run_calls,
}
use sbnet.Client.Pool.Balance.{held, times_built, times_closed, pool_balance}
use sbnet.Client.Pool.Retry.{send_lem}
use sbnet.Client.{build_circuit_on_conn}
use sbnet.Client.Build.{Outside, Chances, build_circuit, build_direct}
use sbnet.Client.Build.Sound.{Listed, Extended, build_direct_sound}
use sbnet.Examples.{layer_noise}
use sbnet.Examples.Clients.{three_keys, answering, built_circuit, builds, host_a}
use sbnet.Examples.Directories.{relay_at}

abbrev pooled : ℕ → PoolCircuit
pooled conn = record { conn = conn; circuit = three_keys }

abbrev fails : PoolCircuit → Answer
fails c = record { response = []; error = some cancelled }

abbrev answers : PoolCircuit → Answer
answers c = record { response = 1 ∷ []; error = none }

pool_balance_example :
    let (p, events) =
      run_calls
        (call_build_all (λ i. ok (pooled i)) 2
          ∷ call_send 5 (err tt) (ok (pooled 9)) fails answers
          ∷ [])
        new_circuit_pool in
    times_built 9 events ≡ held 9 p.circuits + times_closed 9 events
pool_balance_example =
    pool_balance
      (call_build_all (λ i. ok (pooled i)) 2
        ∷ call_send 5 (err tt) (ok (pooled 9)) fails answers
        ∷ [])
      9

abbrev two_circuits : CircuitPool
two_circuits = record {
  circuits = pooled 1 ∷ pooled 2 ∷ [];
  ready = true;
  relays = [];
  brokers = [];
  counter = 1;
}

send_lem_example :
    let moved = record two_circuits { counter = 2 } in
    let result = send 5 (err tt) (ok (pooled 9)) fails answers two_circuits in
    ((fails (pooled 2)).error ≡ none → result ≡ (moved, [], ok (fails (pooled 2)).response))
    × ((e : ClientError)
        → (fails (pooled 2)).error ≡ some e
        → (let rebuild : Built = ok (pooled 9) in rebuild) ≡ err tt
        → result ≡ (moved, [], err (not_rebuilt e)))
    × ((e : ClientError) (new : PoolCircuit)
        → (fails (pooled 2)).error ≡ some e
        → (let rebuild : Built = ok (pooled 9) in rebuild) ≡ ok new
        → (result.0 ≡ record moved { circuits = pooled 1 ∷ new ∷ [] })
          × (result.1 ≡ built new ∷ closed (pooled 2) ∷ [])
          × ((answers new).error ≡ none → result.2 ≡ ok (answers new).response)
          × ((x : ClientError) → (answers new).error ≡ some x → result.2 ≡ err (request_failed x)))
send_lem_example =
    send_lem 5 (err tt) two_circuits (pooled 1 ∷ []) [] (pooled 2) refl refl (omega arith)
      (omega arith) (ok (pooled 9)) fails answers ((λ e. absurd (omega arith)), _)

abbrev one_of : String → RelayDescriptor
one_of role = record (relay_at (pos 0)) { role = role }

abbrev three_roles : List RelayDescriptor
three_roles = one_of "entry" ∷ one_of "middle" ∷ one_of "exit" ∷ []

abbrev outside : Outside
outside = record {
  dial = λ rd. some 3;
  obfs_handshake = λ conn. true;
  answer = λ conn. answering;
  client_dial = λ url. none;
  assign = λ bd role. none;
  address = λ rd. host_a;
  write_file = λ file state. some state;
}

abbrev chances : Chances
chances = record {
  circ_id = 9;
  now = 5;
  noise = layer_noise;
  layers = λ i. layer_noise;
  guard_byte = 0;
  middle_byte = 0;
  exit_byte = 0;
}

builds_direct :
    (build_direct toy toy_exchange outside chances (pos 7) none three_roles).0
    ≡ ok (record { conn = 3; circuit = built_circuit })
unfolding build_direct load_or_pick_guard pick_relay with_role build_circuit build_circuit_on_conn
builds_direct = rw builds refl

build_direct_sound_example :
    (entry : RelayDescriptor) × (middle : RelayDescriptor) × (exit : RelayDescriptor) × Listed
      "entry" three_roles entry
    × Listed "middle" three_roles middle
    × Listed "exit" three_roles exit
    × (outside.dial entry ≡ some 3)
    × (outside.obfs_handshake 3 ≡ true)
    × (length built_circuit.keys ≡ 3)
    × All IsKey built_circuit.keys
    × Extended toy toy_exchange outside chances 3
        (outside.address middle)
        (outside.address exit)
        built_circuit
build_direct_sound_example =
    build_direct_sound toy toy_exchange outside chances (pos 7) none three_roles
      (record { conn = 3; circuit = built_circuit }) builds_direct
