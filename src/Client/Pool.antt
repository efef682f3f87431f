-- ===== src/Client/Pool.antt =====
-- The circuit pool of client/main.go. A circuit's connection is a number, which stands for the
-- pointer as well; times are nanoseconds. Each call is one step: calls that overlap are not
-- modelled, nor what a panic leaves locked.
pub mod Balance
pub mod Retry
use sbnet.Base.{
  ℕ, zero, suc, ◌+◌, ◌-◌, ◌%◌, ◌^◌, Bool, true, false, not, Option, none, some, List, [], ◌∷◌, ◌++◌,
  map, ltb, ◌==◌, nat_comparable, if◌then◌else◌, length, get_elem?, set, Result, ok, err,
}
use sbnet.Base.Bytes.{Bytes}
use sbnet.Types.{RelayDescriptor, BrokerDescriptor}
use sbnet.Cell.{cmd_destroy}
use sbnet.Relay.{Effect, write, close, bare_cell}
use sbnet.Client.{ClientCircuit, ClientError, Answer}

pub record PoolCircuit : Type 0 where
  pub conn : ℕ
  pub circuit : ClientCircuit

abbrev pub circuit_lifetime : ℕ
circuit_lifetime = 600000000000

abbrev pub expired : ℕ → PoolCircuit → Bool
expired now c = ltb circuit_lifetime (now - c.circuit.built)

-- What close does.
abbrev pub close_circuit : PoolCircuit → List Effect
close_circuit c = write c.conn (bare_cell c.circuit.circ_id cmd_destroy) ∷ close c.conn ∷ []

pub record CircuitPool : Type 0 where
  pub circuits : List PoolCircuit
  pub ready : Bool
  pub relays : List RelayDescriptor
  pub brokers : List BrokerDescriptor
  pub counter : ℕ

unfoldable pub new_circuit_pool : CircuitPool
new_circuit_pool = record { circuits = []; ready = false; relays = []; brokers = []; counter = 0 }

unfoldable pub set_relays : List RelayDescriptor → List BrokerDescriptor → CircuitPool → CircuitPool
set_relays relays brokers p = record p { relays = relays; brokers = brokers }

-- A circuit that was built, and one that was closed.
pub data PoolEvent : Type 0 where
  built : PoolCircuit → PoolEvent
  closed : PoolCircuit → PoolEvent

pub data PoolError : Type 0 where
  no_circuits : PoolError
  panicked : PoolError
  request_failed : ClientError → PoolError
  not_rebuilt : ClientError → PoolError
  all_failed : PoolError

-- What a call of buildOne returns; `err` is any of its errors.
abbrev pub Built : Type 0
Built = Result (Unit {0}) PoolCircuit

abbrev pub events_of : Built → List PoolEvent → List PoolEvent
events_of (err e) events = events
events_of (ok c) events = built c ∷ events

abbrev pub circuits_of : Built → List PoolCircuit → List PoolCircuit
circuits_of (err e) circuits = circuits
circuits_of (ok c) circuits = c ∷ circuits

-- The loop of buildAll: `build i` is its i-th call of buildOne.
unfoldable pub build_loop : (ℕ → Built) → ℕ → List PoolCircuit
build_loop build zero = []
build_loop build (suc n) = circuits_of (build 0) (build_loop (λ i. build (suc i)) n)

-- The old circuits are closed before the new ones are built.
unfoldable pub build_all :
    (ℕ → Built) → ℕ → CircuitPool → CircuitPool × List PoolEvent × Option PoolError
build_all build count p =
    let circuits = build_loop build count in
    let none_built = length circuits == 0 in
    (
      record p { circuits = circuits; ready = not none_built },
      map closed p.circuits ++ map built circuits,
      if none_built then some all_failed else none,
    )

-- `int(u) % n` of a uint64: the int is negative from 2 ^ 63 on, and so is the remainder then, unless
-- it is 0. A negative one is `none`.
unfoldable pub int_mod : ℕ → ℕ → Option ℕ
int_mod u n =
    if ltb u (2 ^ 63) then some (u % n) else if (2 ^ 64 - u) % n == 0 then some 0 else none

-- The counter is a uint64.
abbrev pub counted : CircuitPool → CircuitPool
counted p = record p { counter = (p.counter + 1) % 2 ^ 64 }

-- An expired circuit gives way to a new one, if that is built.
abbrev pub replace_expired :
    CircuitPool → ℕ → PoolCircuit → Built → CircuitPool × List PoolEvent × PoolCircuit
replace_expired p index c (err e) = (p, [], c)
replace_expired p index c (ok new) =
    (record p { circuits = set p.circuits index new }, built new ∷ closed c ∷ [], new)

abbrev pub Got : Type 0
Got = CircuitPool × List PoolEvent × Result PoolError PoolCircuit

unfoldable pub get_circuit : ℕ → Built → CircuitPool → ℕ → Option PoolCircuit → Got
get_circuit now build p index none = (p, [], err no_circuits)
get_circuit now build p index (some c) =
    let (p', events, got) = replace_expired p index c build in
    if not (expired now c) then (p, [], ok c) else (p', events, ok got)

-- A negative index panics, after the counter was moved.
unfoldable pub get_at : ℕ → Built → CircuitPool → Option ℕ → Got
get_at now build p none = (p, [], err panicked)
get_at now build p (some index) = get_circuit now build p index (get_elem? p.circuits index)

unfoldable pub get : ℕ → Built → CircuitPool → Got
get now build p =
    if length p.circuits == 0
    then (p, [], err no_circuits)
    else get_at now build (counted p) (int_mod p.counter (length p.circuits))

-- The first circuit that is the same pointer.
unfoldable pub replace : ℕ → PoolCircuit → List PoolCircuit → List PoolCircuit
replace conn new [] = []
replace conn new (c ∷ cs) =
    let rest = replace conn new cs in if c.conn == conn then new ∷ cs else c ∷ rest

abbrev pub answer_of : Answer → Result PoolError Bytes
answer_of a = elim a.error [ none ↦ ok a.response | some e ↦ err (request_failed e) ]

-- After a request that failed with `e`: one new circuit, and one more request over it.
abbrev pub retry :
    (PoolCircuit → Answer)
    → ClientError
    → PoolCircuit
    → CircuitPool
    → List PoolEvent
    → Built
    → CircuitPool × List PoolEvent × Result PoolError Bytes
retry again e c p events (err x) = (p, events, err (not_rebuilt e))
retry again e c p events (ok new) = (
  record p { circuits = replace c.conn new p.circuits },
  events ++ built new ∷ closed c ∷ [],
  answer_of (again new),
)

abbrev pub first_try :
    (PoolCircuit → Answer)
    → Built
    → PoolCircuit
    → CircuitPool
    → List PoolEvent
    → Bytes
    → Option ClientError
    → CircuitPool × List PoolEvent × Result PoolError Bytes
first_try again rebuild c p events response none = (p, events, ok response)
first_try again rebuild c p events response (some e) = retry again e c p events rebuild

abbrev pub send_on :
    (PoolCircuit → Answer)
    → (PoolCircuit → Answer)
    → Built
    → Got
    → CircuitPool × List PoolEvent × Result PoolError Bytes
send_on request again rebuild (p, events, err e) = (p, events, err e)
send_on request again rebuild (p, events, ok c) =
    first_try again rebuild c p events (request c).response (request c).error

-- `request` and `again` are the two calls of sendRequest, on the circuit that they are given.
unfoldable pub send :
    ℕ
    → Built
    → Built
    → (PoolCircuit → Answer)
    → (PoolCircuit → Answer)
    → CircuitPool
    → CircuitPool × List PoolEvent × Result PoolError Bytes
send now build rebuild request again p = send_on request again rebuild (get now build p)

pub data PoolCall : Type 0 where
  call_set_relays : List RelayDescriptor → List BrokerDescriptor → PoolCall
  call_build_all : (ℕ → Built) → ℕ → PoolCall
  call_get : ℕ → Built → PoolCall
  call_send : ℕ → Built → Built → (PoolCircuit → Answer) → (PoolCircuit → Answer) → PoolCall

unfoldable pub run_call : PoolCall → CircuitPool → CircuitPool × List PoolEvent
run_call (call_set_relays relays brokers) p = (set_relays relays brokers p, [])
run_call (call_build_all build count) p = ((build_all build count p).0, (build_all build count p).1)
run_call (call_get now build) p = ((get now build p).0, (get now build p).1)
run_call (call_send now build rebuild request again) p =
    ((send now build rebuild request again p).0, (send now build rebuild request again p).1)

unfoldable pub run_calls : List PoolCall → CircuitPool → CircuitPool × List PoolEvent
run_calls [] p = (p, [])
run_calls (call ∷ calls) p =
    let (p', events) = run_call call p in
    let (p'', later) = run_calls calls p' in (p'', events ++ later)
