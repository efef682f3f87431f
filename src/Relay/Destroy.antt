-- ===== src/Relay/Destroy.antt =====
-- destroyCircuit of relay/main.go, and the sweep of idle circuits.
use sbnet.Base.{
  ℕ, ◌≡◌, ◌≢◌, refl, ap, ◌∙◌, Bool, none, some, List, [], ◌∷◌, arith, nat_comparable,
  string_comparable, if◌then◌else◌, nat_beq_iff,
}
use sbnet.Base.Maps.{lookup, lookup-delete, lookup-delete_self}
use sbnet.Cell.{cmd_destroy}
use sbnet.Relay.{
  Circuit, RelayServer, write, close, bare_cell, destroy_circuit, destroy_all, sweep_circuits,
}
use sbnet.Timeout.{sweep}
use sbnet.Timeout.Laws.{Distinct, is_idle, member, sweep_expired}

-- After destroyCircuit the circuit is not held and not timed, every other circuit is as before, and
-- the relay behind it, if there is one, was sent a Destroy for it before the connection was closed.
pub destroy_circuit_lem :
    (s : RelayServer) (id : ℕ)
    → (lookup id (destroy_circuit s id).0.circuits ≡ none)
      × (lookup id (destroy_circuit s id).0.timeout ≡ none)
      × ((j : ℕ) → id ≢ j → lookup j (destroy_circuit s id).0.circuits ≡ lookup j s.circuits)
      × ((circ : Circuit) (out : ℕ)
          → lookup id s.circuits ≡ some circ
          → circ.out_conn ≡ some out
          → (destroy_circuit s id).1 ≡ write out (bare_cell id cmd_destroy) ∷ close out ∷ [])
unfolding destroy_circuit
destroy_circuit_lem s id = (
  lookup-delete_self id s.circuits,
  lookup-delete_self id s.timeout,
  (λ j differ. lookup-delete id j s.circuits ∙ ground (arith, nat_beq_iff id j)),
  (λ circ out e f. rw (e, f) refl),
)

lookup-destroy_all :
    (ids : List ℕ) (s : RelayServer) (id : ℕ)
    → lookup id (destroy_all s ids).0.circuits
      ≡ (if member id ids then none else lookup id s.circuits)
unfolding destroy_all destroy_circuit
lookup-destroy_all [] s id = refl
lookup-destroy_all (x ∷ ids) s id =
    lookup-destroy_all ids (destroy_circuit s x).0 id
    ∙ ground (arith, lookup-delete x id s.circuits)

-- A tick of the timeout tracker destroys exactly the circuits that have been idle for longer than
-- the idle time; a circuit that is not timed stays.
pub sweep_circuits_lem :
    (s : RelayServer) (now idle id : ℕ)
    → Distinct s.timeout
    → lookup id (sweep_circuits s now idle).0.circuits
      ≡ (if is_idle now idle (lookup id s.timeout) then none else lookup id s.circuits)
unfolding sweep_circuits
sweep_circuits_lem s now idle id d =
    lookup-destroy_all (sweep now idle s.timeout).1
      (record s { timeout = (sweep now idle s.timeout).0 }) id
    ∙ ap (λ (b : Bool). if b then none else lookup id s.circuits)
        (sweep_expired now idle id s.timeout d)
