-- ===== src/Client/Pool/Retry.antt =====
-- A request over the pool of client/main.go: the circuit that it goes over, and the second try.
use sbnet.Base.{
  ℕ, suc, ◌+◌, ◌%◌, ◌^◌, ◌<◌, ◌≤◌, ◌≡◌, ◌≢◌, refl, sym, ap, ◌∙◌, false, none, some, List, [], ◌∷◌,
  ◌++◌, nat_comparable, length, length-append, get_elem?, Result, ok, err, All, ◌==◌, lt→ltb, arith,
}
use sbnet.Base.Maps.{beq_refl, beq_false}
use sbnet.Base.Bytes.{Bytes}
use sbnet.Client.{ClientError, Answer}
use sbnet.Client.Pool.{
  PoolCircuit, expired, CircuitPool, PoolEvent, built, closed, PoolError, not_rebuilt,
  request_failed, answer_of, Built, counted, int_mod, get_circuit, get_at, get, replace, send_on,
  send,
}

abbrev Sent : Type 0
Sent = CircuitPool × List PoolEvent × Result PoolError Bytes

get_elem?-middle :
    (before after : List PoolCircuit) (c : PoolCircuit)
    → get_elem? (before ++ c ∷ after) (length before) ≡ some c
get_elem?-middle [] after c = refl
get_elem?-middle (d ∷ before) after c = get_elem?-middle before after c

-- The first circuit on the connection is the one that is replaced.
replace-middle :
    (before after : List PoolCircuit) (c new : PoolCircuit)
    → All (λ (d : PoolCircuit). d.conn ≢ c.conn) before
    → replace c.conn new (before ++ c ∷ after) ≡ before ++ new ∷ after
unfolding replace
replace-middle [] after c new apart = rw (beq_refl c.conn) refl
replace-middle (d ∷ before) after c new apart =
    rw (beq_false d.conn c.conn apart.0)
      (ap (λ cs. d ∷ cs) (replace-middle before after c new apart.1))

module _ (now : ℕ) (build : Built) (p : CircuitPool) (before after : List PoolCircuit)
    (c : PoolCircuit) (place : p.circuits ≡ before ++ c ∷ after)
    (turn : length before ≡ p.counter % (length before + 1 + length after))
    (small : p.counter < 2 ^ 63) (fresh : now ≤ c.circuit.built + 600000000000) where
  some_circuits : length p.circuits ≡ length before + 1 + length after
  some_circuits =
      ap length place
      ∙ length-append before (c ∷ after)
      ∙ (let e : length before + suc (length after) ≡ length before + 1 + length after =
            omega arith in
          e)

  get_turn : get now build p ≡ (counted p, [], ok c)
  unfolding get get_at get_circuit int_mod
  get_turn =
      let filled : (length p.circuits == 0) ≡ false =
        ap (λ (n : ℕ). n == 0) some_circuits
        ∙ beq_false (length before + 1 + length after) 0 (λ e. absurd (omega arith)) in
      let index : p.counter % length p.circuits ≡ length before =
        ap (λ (n : ℕ). p.counter % n) some_circuits ∙ sym turn in
      let there : get_elem? p.circuits (length before) ≡ some c =
        ap (λ cs. get_elem? cs (length before)) place ∙ get_elem?-middle before after c in
      let young : expired now c ≡ false = ground arith in
      rw (filled, lt→ltb p.counter (2 ^ 63) small, index, there, young) refl

  -- A request on a pool whose turn is at a circuit in it that was built at most ten minutes ago, up
  -- to a counter of 2 ^ 63; the circuits in front of that one have other connections. The counter
  -- moves on by one. If the request goes through, its response is the result and nothing is built.
  -- If it fails and no new circuit is built, the result is an error and the circuit stays. If it
  -- fails and a new circuit is built, the old one is closed, the new one stands exactly in its place,
  -- and the result is the response of one more request over the new one, or that one's error.
  pub send_lem :
      (rebuild : Built) (request again : PoolCircuit → Answer)
      → All (λ (d : PoolCircuit). d.conn ≢ c.conn) before
      → let moved = record p { counter = (p.counter + 1) % 2 ^ 64 } in
        let result = send now build rebuild request again p in
        ((request c).error ≡ none → result ≡ (moved, [], ok (request c).response))
        × ((e : ClientError)
            → (request c).error ≡ some e
            → rebuild ≡ err tt
            → result ≡ (moved, [], err (not_rebuilt e)))
        × ((e : ClientError) (new : PoolCircuit)
            → (request c).error ≡ some e
            → rebuild ≡ ok new
            → (result.0 ≡ record moved { circuits = before ++ new ∷ after })
              × (result.1 ≡ built new ∷ closed c ∷ [])
              × ((again new).error ≡ none → result.2 ≡ ok (again new).response)
              × ((x : ClientError)
                  → (again new).error ≡ some x
                  → result.2 ≡ err (request_failed x)))
  unfolding send
  send_lem rebuild request again apart =
      let on = ap (send_on request again rebuild) get_turn in
      (
        (λ fine. on ∙ rw fine refl),
        (λ e failed no_circuit. on ∙ rw (failed, no_circuit) refl),
        (λ e new failed rebuilt.
            let done : send_on request again rebuild (get now build p) ≡ (
              record (counted p) { circuits = replace c.conn new p.circuits },
              built new ∷ closed c ∷ [],
              answer_of (again new),
            ) =
              on ∙ rw (failed, rebuilt) refl in
            (
              ap (λ (z : Sent). z.0) done
                  ∙ ap (λ cs. record (counted p) { circuits = cs })
                      (ap (replace c.conn new) place ∙ replace-middle before after c new apart),
              ap (λ (z : Sent). z.1) done,
              (λ fine. ap (λ (z : Sent). z.2) done ∙ rw fine refl),
              (λ x bad. ap (λ (z : Sent). z.2) done ∙ rw bad refl),
            )),
      )
