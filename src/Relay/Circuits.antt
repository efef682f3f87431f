-- ===== src/Relay/Circuits.antt =====
-- The circuits that a relay of relay/main.go holds: what every call of handleCell keeps.
use sbnet.Base.{
  ℕ, ◌≡◌, refl, subst, ◌∙◌, Bool, true, false, ◌||◌, Option, none, some, List, [], ◌∷◌, ◌==◌,
  nat_comparable, string_comparable, if◌then◌else◌, Bool-cases, Option-cases, inl, inr, Result, ok,
  err, nat_beq_iff,
}
use sbnet.Base.Bytes.{Bytes}
use sbnet.Base.Maps.{Map, lookup, insert, delete, lookup-insert, lookup-delete}
use sbnet.Cell.{
  Cell, CellError, cmd_destroy, cmd_create, cmd_created, cmd_extend, cmd_relay, cmd_ping,
  cmd_fragment, cmd_frag_final,
}
use sbnet.Crypto.{Aead, KeyExchange, CryptoError, derive_key}
use sbnet.Crypto.Layers.{IsKey}
use sbnet.Fragment.{Added, pending, complete, running, add, Reassembler}
use sbnet.Relay.{
  Circuit, RelayServer, Network, Effect, write, destroy_circuit, destroy_all, sweep_circuits, whole,
  reassemble, Reassembled, proceed, wait, stuck, held_reassembler, handle_create, extended, dialled,
  extend_here, extend_circuit, handle_extend, forward_extend, finished, handle_relay, pong_cell,
  dispatch, handle_cell,
}
use sbnet.Timeout.{sweep, touch}

-- Every circuit stands under its own number, with a key of 32 bytes.
pub record IsValid (m : Map ℕ Circuit) : Type 0 where
  pub entry : (id : ℕ) (circ : Circuit) → lookup id m ≡ some circ → (circ.id ≡ id) × IsKey circ.key

pub insert-IsValid :
    (m : Map ℕ Circuit) (id : ℕ) (circ : Circuit)
    → IsValid m
    → circ.id ≡ id
    → IsKey circ.key
    → IsValid (insert id circ m)
insert-IsValid m id circ v same key = record {
  entry = λ j found h. elim (Bool-cases (id == j)) [
    | inl e ↦
        let it : circ ≡ found = (let h' = rw (lookup-insert id j circ m, e) at h in cc) in
        subst (λ (y : Circuit). (y.id ≡ j) × IsKey y.key) it (same ∙ (nat_beq_iff id j).0 e, key)
    | inr e ↦ v.entry j found (rw (lookup-insert id j circ m, e) at h)
  ];
}

delete-IsValid : (m : Map ℕ Circuit) (id : ℕ) → IsValid m → IsValid (delete id m)
delete-IsValid m id v = record {
  entry = λ j found h. elim (Bool-cases (id == j)) [
    | inl e ↦ absurd (let gone = rw (lookup-delete id j m, e) at h in cc)
    | inr e ↦ v.entry j found (rw (lookup-delete id j m, e) at h)
  ];
}

-- The reassembly does not touch the circuits.
abbrev IsValidAfter : Reassembled → Type 0
IsValidAfter (proceed s c) = IsValid s.circuits
IsValidAfter (wait s) = IsValid s.circuits
IsValidAfter stuck = Unit

after_if :
    (b : Bool) (r q : Reassembled)
    → IsValidAfter r
    → IsValidAfter q
    → IsValidAfter (if b then r else q)
after_if true r q v w = v
after_if false r q v w = w

some_inv {ℓ} : {A : Type ℓ} {y z : A} → some y ≡ some z → y ≡ z
some_inv h = cc

module _ (x : KeyExchange) (a : Aead) (net : Network) (noise : ℕ → ℕ) (seq_id : ℕ) where
  create-IsValid :
      (s : RelayServer) (c : Cell) (conn : ℕ)
      → IsValid s.circuits
      → IsValid (handle_create x noise s c conn).0.circuits
  unfolding handle_create derive_key
  create-IsValid s c conn v = insert-IsValid s.circuits c.circ_id _ v refl (x.length-sum256 _)

  extended-IsValid :
      (s : RelayServer) (c : Cell) (conn : ℕ) (circ : Circuit) (next : ℕ) (create : Cell)
      (answer : Result CellError Cell)
      → IsValid s.circuits
      → lookup c.circ_id s.circuits ≡ some circ
      → IsValid (extended a net s c conn circ next create answer).0.circuits
  unfolding extended
  extended-IsValid s c conn circ next create (err e) v h = v
  extended-IsValid s c conn circ next create (ok created) v h =
      elim (Bool-cases (created.command == cmd_created)) [
        | inl e ↦ rw e (
            insert-IsValid s.circuits c.circ_id _ v (v.entry c.circ_id circ h).0
              (v.entry c.circ_id circ h).1)
        | inr e ↦ rw e v
      ]

  dialled-IsValid :
      (s : RelayServer) (c : Cell) (conn : ℕ) (circ : Circuit) (client_pub : Bytes)
      (dial : Option ℕ)
      → IsValid s.circuits
      → lookup c.circ_id s.circuits ≡ some circ
      → IsValid (dialled a net s c conn circ client_pub dial).0.circuits
  unfolding dialled
  dialled-IsValid s c conn circ client_pub none v h = v
  dialled-IsValid s c conn circ client_pub (some next) v h =
      elim (Bool-cases (net.obfs_handshake next)) [
        | inl e ↦ rw e (extended-IsValid s c conn circ next _ _ v h)
        | inr e ↦ rw e v
      ]

  circuits_if :
      (b : Bool) (y z : RelayServer × List Effect)
      → IsValid y.0.circuits
      → IsValid z.0.circuits
      → IsValid (if b then y else z).0.circuits
  circuits_if true y z h k = h
  circuits_if false y z h k = k

  extend_here-IsValid :
      (s : RelayServer) (c : Cell) (conn : ℕ) (circ : Circuit) (payload : Bytes)
      → IsValid s.circuits
      → lookup c.circ_id s.circuits ≡ some circ
      → IsValid (extend_here a net s c conn circ payload).0.circuits
  unfolding extend_here
  extend_here-IsValid s c conn circ payload v h =
      circuits_if _ _ _ v (dialled-IsValid s c conn circ _ _ v h)

  forward_or_extend :
      (s : RelayServer) (c : Cell) (conn : ℕ) (circ : Circuit) (payload : Bytes)
      (out_conn : Option ℕ)
      → IsValid s.circuits
      → lookup c.circ_id s.circuits ≡ some circ
      → IsValid (forward_extend a net s c conn circ payload out_conn).0.circuits
  unfolding forward_extend
  forward_or_extend s c conn circ payload none v h = extend_here-IsValid s c conn circ payload v h
  forward_or_extend s c conn circ payload (some out) v h = circuits_if _ _ _ v v

  extend_circuit-IsValid :
      (s : RelayServer) (c : Cell) (conn : ℕ) (circ : Circuit) (o : Result CryptoError Bytes)
      → IsValid s.circuits
      → lookup c.circ_id s.circuits ≡ some circ
      → IsValid (extend_circuit a net s c conn circ o).0.circuits
  unfolding extend_circuit
  extend_circuit-IsValid s c conn circ (err e) v h = v
  extend_circuit-IsValid s c conn circ (ok payload) v h =
      forward_or_extend s c conn circ payload circ.out_conn v h

  handle_extend-IsValid :
      (s : RelayServer) (c : Cell) (conn : ℕ)
      → IsValid s.circuits
      → IsValid (handle_extend a net s c conn (lookup c.circ_id s.circuits)).0.circuits
  unfolding handle_extend
  handle_extend-IsValid s c conn v = elim (Option-cases (lookup c.circ_id s.circuits)) [
    | inl e ↦ rw e v
    | inr (circ, e) ↦ rw e (extend_circuit-IsValid s c conn circ _ v e)
  ]

  destroy-IsValid :
      (s : RelayServer) (id : ℕ) → IsValid s.circuits → IsValid (destroy_circuit s id).0.circuits
  unfolding destroy_circuit
  destroy-IsValid s id v = delete-IsValid s.circuits id v

  dispatch-IsValid :
      (s : RelayServer) (c : Cell) (conn : ℕ)
      → IsValid s.circuits
      → IsValid (dispatch a x net noise seq_id s c conn).0.circuits
  unfolding dispatch
  dispatch-IsValid s c conn v =
      circuits_if (c.command == cmd_create) (handle_create x noise s c conn) _
        (create-IsValid s c conn v)
        (circuits_if (c.command == cmd_extend)
          (handle_extend a net s c conn (lookup c.circ_id s.circuits)) _
          (handle_extend-IsValid s c conn v)
          (circuits_if (c.command == cmd_relay)
            (s, handle_relay a seq_id s c (lookup c.circ_id s.circuits)) _ v
            (circuits_if (c.command == cmd_ping) (s, write conn (pong_cell c) ∷ []) _ v
              (circuits_if (c.command == cmd_destroy) (destroy_circuit s c.circ_id) (s, [])
                (destroy-IsValid s c.circ_id v) v))))

  destroy_all-IsValid :
      (ids : List ℕ) (s : RelayServer) → IsValid s.circuits → IsValid (destroy_all s ids).0.circuits
  unfolding destroy_all
  destroy_all-IsValid [] s v = v
  destroy_all-IsValid (id ∷ ids) s v =
      destroy_all-IsValid ids (destroy_circuit s id).0 (destroy-IsValid s id v)

  -- The circuits after a call that ends.
  circuits_after :
      (r : Reassembled) (conn : ℕ) (v : IsValidAfter r) (t : RelayServer) (effects : List Effect)
      → finished a x net noise seq_id conn r ≡ some (t, effects)
      → IsValid t.circuits
  unfolding finished
  circuits_after (proceed s c) conn v t effects h =
      subst (λ (o : RelayServer × List Effect). IsValid o.0.circuits) (some_inv h)
        (dispatch-IsValid s c conn v)
  circuits_after (wait s) conn v t effects h =
      subst (λ (o : RelayServer × List Effect). IsValid o.0.circuits) (some_inv h) v
  circuits_after stuck conn v t effects h = cc

  whole-IsValid :
      (s : RelayServer) (id : ℕ) (ra : Reassembler) (added : Added)
      → IsValid s.circuits
      → IsValidAfter (whole s id ra added)
  whole-IsValid s id ra running v = _
  whole-IsValid s id ra pending v = v
  whole-IsValid s id ra (complete payload) v = v

  reassemble-IsValid :
      (fuel : ℕ) (s : RelayServer) (c : Cell)
      → IsValid s.circuits
      → IsValidAfter (reassemble fuel s c)
  unfolding reassemble
  reassemble-IsValid fuel s c v =
      let next = add fuel (held_reassembler (lookup c.circ_id s.reasm)) c in
      after_if ((c.command == cmd_fragment) || (c.command == cmd_frag_final))
        (whole s c.circ_id next.0 next.1) (proceed s c) (whole-IsValid s c.circ_id next.0 next.1 v)
        v

  -- Every call of handleCell that ends, and every tick of the timeout tracker, keeps each circuit
  -- under its own number and with a key of 32 bytes.
  pub handle_cell-IsValid :
      (fuel now idle : ℕ) (s : RelayServer) (c : Cell) (conn : ℕ)
      → IsValid s.circuits
      → ((t : RelayServer) (effects : List Effect)
          → handle_cell a x net noise seq_id fuel now s c conn ≡ some (t, effects)
          → IsValid t.circuits)
        × IsValid (sweep_circuits s now idle).0.circuits
  unfolding handle_cell sweep_circuits
  handle_cell-IsValid fuel now idle s c conn v = (
    circuits_after _ conn
        (reassemble-IsValid fuel (record s { timeout = touch now c.circ_id s.timeout }) c v),
    destroy_all-IsValid (sweep now idle s.timeout).1
        (record s { timeout = (sweep now idle s.timeout).0 }) v,
  )
