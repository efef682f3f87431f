-- ===== src/Client/Telescope.antt =====
-- The handshake that builds a circuit: buildCircuitOnConn and extendCircuit of client/main.go, with
-- the Create and Extend of relay/main.go.
use sbnet.Base.{
  ℕ, suc, ◌+◌, ◌-◌, ◌<◌, ◌≡◌, refl, ap, subst, ◌∙◌, true, Option, none, some, [], ◌∷◌, ◌++◌, arith,
  nat_comparable, length, take, drop, get_or, set, All, Result, ok, ◌>>=◌, bind_inv, le→ltb,
  length-append, take-append, drop-append, take_all,
}
use sbnet.Base.Bytes.{Bytes, slice}
use sbnet.Base.Maps.{lookup, insert}
use sbnet.Cell.{Cell, CellError, content, cmd_create, cmd_created, cmd_extended}
use sbnet.Crypto.{Aead, KeyExchange, CryptoError, gen_key_pair, derive_key, decrypt}
use sbnet.Crypto.Layers.{IsKey}
use sbnet.Relay.{
  Circuit, RelayServer, Network, write, start_forward, key_cell, extended, dialled, extend_here,
  forward_extend, extend_circuit, handle_extend,
}
use sbnet.Client.{
  ClientCircuit, ClientError, no_keys, created_failed, extended_failed, expect, created_circuit,
  extend_payload, extend_cell, build_hops,
}
use sbnet.Client
use sbnet.Client.Create.{derive_key-IsKey}

-- The relay's parser of an Extend payload.
pub extend_payload_parse :
    (addr pub_key : Bytes)
    → length addr < 256
    → length pub_key ≡ 32
    → (get_or (extend_payload addr pub_key) 0 0 ≡ length addr)
      × (slice (extend_payload addr pub_key) 1 (1 + length addr) ≡ addr)
      × (slice (extend_payload addr pub_key) (1 + length addr) (1 + length addr + 32) ≡ pub_key)
      × (length (extend_payload addr pub_key) ≡ 33 + length addr)
extend_payload_parse addr pub_key h full =
    let first : 1 + length addr - 1 ≡ length addr = omega arith in
    let behind : 1 + length addr ≡ suc (length addr) = omega arith in
    let rest : 1 + length addr + 32 - (1 + length addr) ≡ 32 = omega arith in
    (
      omega arith,
      ap (λ n. take n (addr ++ pub_key)) first ∙ take-append (length addr) addr pub_key refl,
      ap (λ n. take n (drop (1 + length addr) (extend_payload addr pub_key))) rest
          ∙ ap (λ (n : ℕ). take 32 (drop n (extend_payload addr pub_key))) behind
          ∙ ap (λ b. take 32 b) (drop-append (length addr) addr pub_key refl)
          ∙ take_all 32 pub_key (omega arith),
      omega (arith, length-append addr pub_key),
    )

module _ (a : Aead) (net : Network) where
  extend_here_lem :
      (s : RelayServer) (c : Cell) (conn : ℕ) (circ : Circuit) (p addr pub_key : Bytes)
      → get_or p 0 0 ≡ length addr
      → slice p 1 (1 + length addr) ≡ addr
      → slice p (1 + length addr) (1 + length addr + 32) ≡ pub_key
      → length p ≡ 33 + length addr
      → 0 < length addr
      → extend_here a net s c conn circ p ≡ dialled a net s c conn circ pub_key (net.dial addr)
  unfolding extend_here
  extend_here_lem s c conn circ p addr pub_key h1 h2 h3 h4 nonempty =
      rw
        (
          h1,
          le→ltb (length p) 34 (omega arith),
          le→ltb (length p) (1 + length addr + 32) (omega arith),
          h2,
          h3,
        )
        refl

  dialled_lem :
      (s : RelayServer) (c created : Cell) (conn next : ℕ) (circ : Circuit) (pub_key : Bytes)
      → net.obfs_handshake next ≡ true
      → net.answer next (key_cell c.circ_id cmd_create pub_key) ≡ ok created
      → created.command ≡ cmd_created
      → let linked : Circuit = record circ { out_conn = some next } in
        dialled a net s c conn circ pub_key (some next) ≡ (
          record s { circuits = insert c.circ_id linked s.circuits },
          write next (key_cell c.circ_id cmd_create pub_key)
              ∷ start_forward linked
              ∷ write conn (key_cell c.circ_id cmd_extended (take 32 created.body))
              ∷ [],
        )
  unfolding dialled extended
  dialled_lem s c created conn next circ pub_key handshake answered is_created =
      rw (handshake, answered, is_created) refl

  -- An Extend that comes to the last relay of a circuit so far: the relay dials the address that
  -- the client put in, sends it a Create with the client's own public key, and, when a Created comes
  -- back, links the circuit to that connection and sends its key part back in an Extended cell.
  pub extend_reaches :
      (s : RelayServer) (c created : Cell) (conn next : ℕ) (circ : Circuit) (addr pub_key : Bytes)
      → lookup c.circ_id s.circuits ≡ some circ
      → circ.out_conn ≡ none
      → decrypt a circ.key (content c) ≡ ok (extend_payload addr pub_key)
      → length pub_key ≡ 32
      → 0 < length addr
      → length addr < 256
      → net.dial addr ≡ some next
      → net.obfs_handshake next ≡ true
      → net.answer next (key_cell c.circ_id cmd_create pub_key) ≡ ok created
      → created.command ≡ cmd_created
      → let linked : Circuit = record circ { out_conn = some next } in
        handle_extend a net s c conn (lookup c.circ_id s.circuits) ≡ (
          record s { circuits = insert c.circ_id linked s.circuits },
          write next (key_cell c.circ_id cmd_create pub_key)
              ∷ start_forward linked
              ∷ write conn (key_cell c.circ_id cmd_extended (take 32 created.body))
              ∷ [],
        )
  unfolding handle_extend extend_circuit forward_extend
  extend_reaches s c created conn next circ addr pub_key found last opened full nonempty short
        dialled_ok handshake answered is_created =
      let (h1, h2, h3, h4) = extend_payload_parse addr pub_key short full in
      ap (λ (o : Option Circuit). handle_extend a net s c conn o) found
      ∙ ap (λ (o : Result CryptoError Bytes). extend_circuit a net s c conn circ o) opened
      ∙ ap (λ (o : Option ℕ). forward_extend a net s c conn circ (extend_payload addr pub_key) o)
          last
      ∙ extend_here_lem s c conn circ (extend_payload addr pub_key) addr pub_key h1 h2 h3 h4
          nonempty
      ∙ ap (λ (o : Option ℕ). dialled a net s c conn circ pub_key o) dialled_ok
      ∙ dialled_lem s c created conn next circ pub_key handshake answered is_created

ok_inv :
    {y z : ClientCircuit} (r q : Result ClientError ClientCircuit)
    → r ≡ ok y
    → q ≡ ok z
    → r ≡ q
    → y ≡ z
ok_inv r q e f h = cc

module _ (a : Aead) (x : KeyExchange) where
  -- What extendCircuit does with the answer, and after its cell is made.
  abbrev after_reply : (ℕ → ℕ) → ClientCircuit → ℕ → Cell → Result ClientError ClientCircuit
  after_reply noise circ hop reply = ok (record circ {
    keys = set circ.keys hop (derive_key x (gen_key_pair x noise).0 (take 32 reply.body));
  })

  abbrev after_cell :
      (ℕ → ℕ)
      → (Cell → Result CellError Cell)
      → ClientCircuit
      → ℕ
      → Cell
      → Result ClientError ClientCircuit
  after_cell noise answer circ hop cell =
      expect cmd_extended extended_failed (answer cell) >>= after_reply noise circ hop

  extend_circuit_keys :
      (noise : ℕ → ℕ) (layers : ℕ → ℕ → ℕ) (answer : Cell → Result CellError Cell)
      (circ next : ClientCircuit) (addr : Bytes) (hop : ℕ)
      → Client.extend_circuit a x noise layers answer circ addr hop ≡ ok next
      → (key : Bytes) × IsKey key × (record circ { keys = set circ.keys hop key } ≡ next)
  unfolding Client.extend_circuit
  extend_circuit_keys noise layers answer circ next addr hop h =
      let (cell, sent, h1) =
        bind_inv (extend_cell a x layers circ addr hop (gen_key_pair x noise).1)
          (after_cell noise answer circ hop) h in
      let (reply, got, h2) =
        bind_inv (expect cmd_extended extended_failed (answer cell)) (after_reply noise circ hop)
          h1 in
      (
        derive_key x (gen_key_pair x noise).0 (take 32 reply.body),
        derive_key-IsKey x _ _,
        ok_inv _ _ refl refl h2,
      )

  -- The three steps of a circuit that is built: the answer to the Create, the circuit of two hops
  -- over the middle relay, and the one of three over the exit.
  pub build_hops_inv :
      (noise : ℕ → ℕ → ℕ) (layers : ℕ → ℕ → ℕ → ℕ) (answer : ℕ → Cell → Result CellError Cell)
      (now circ_id : ℕ) (middle exit : Bytes) (circ : ClientCircuit)
      → build_hops a x noise layers answer now circ_id (some middle) (some exit) ≡ ok circ
      → (created : Cell) × (two : ClientCircuit) × (expect cmd_created created_failed
            (answer 0 (key_cell circ_id cmd_create (gen_key_pair x (noise 0)).1))
          ≡ ok created)
        × (Client.extend_circuit a x
              (noise 1)
              (layers 1)
              (answer 1)
              (created_circuit a x circ_id now (gen_key_pair x (noise 0)).0 created)
              middle
              1
            ≡ ok two)
        × (Client.extend_circuit a x (noise 2) (layers 2) (answer 2) two exit 2 ≡ ok circ)
  unfolding build_hops
  build_hops_inv noise layers answer now circ_id middle exit circ h =
      let (created, answered, h1) =
        bind_inv
          (expect cmd_created created_failed
            (answer 0 (key_cell circ_id cmd_create (gen_key_pair x (noise 0)).1)))
          (λ c.
            Client.extend_circuit a x (noise 1) (layers 1) (answer 1)
              (created_circuit a x circ_id now (gen_key_pair x (noise 0)).0 c) middle 1
            >>= (λ two. Client.extend_circuit a x (noise 2) (layers 2) (answer 2) two exit 2))
          h in
      let (two, h2, h3) =
        bind_inv
          (Client.extend_circuit a x (noise 1) (layers 1) (answer 1)
            (created_circuit a x circ_id now (gen_key_pair x (noise 0)).0 created) middle 1)
          (λ two. Client.extend_circuit a x (noise 2) (layers 2) (answer 2) two exit 2) h1 in
      (created, two, answered, h2, h3)

  -- A circuit that buildCircuitOnConn returns has three keys, of 32 bytes each, under the number
  -- that was asked for.
  pub build_hops_keys :
      (noise : ℕ → ℕ → ℕ) (layers : ℕ → ℕ → ℕ → ℕ) (answer : ℕ → Cell → Result CellError Cell)
      (now circ_id : ℕ) (middle exit : Bytes) (circ : ClientCircuit)
      → build_hops a x noise layers answer now circ_id (some middle) (some exit) ≡ ok circ
      → (circ.circ_id ≡ circ_id) × (length circ.keys ≡ 3) × All IsKey circ.keys
  build_hops_keys noise layers answer now circ_id middle exit circ h =
      let (created, two, answered, h2, h3) =
        build_hops_inv noise layers answer now circ_id middle exit circ h in
      let (k1, is1, e1) = extend_circuit_keys (noise 1) (layers 1) (answer 1) _ two middle 1 h2 in
      let (k2, is2, e2) = extend_circuit_keys (noise 2) (layers 2) (answer 2) two circ exit 2 h3 in
      subst (λ (z : ClientCircuit). (z.circ_id ≡ circ_id) × (length z.keys ≡ 3) × All IsKey z.keys)
        e2
        (subst
          (λ (y : ClientCircuit).
            (y.circ_id ≡ circ_id) × (length (set y.keys 2 k2) ≡ 3) × All IsKey (set y.keys 2 k2))
          e1 (refl, refl, (derive_key-IsKey x _ _, (is1, (is2, _)))))
