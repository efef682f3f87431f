-- ===== src/Bridge/Keys.antt =====
-- buildCircuitViaBridge of client/main.go through bridge/main.go to an entry relay of
-- relay/main.go: which keys the two ends of the circuit then have.
use sbnet.Base.{
  ℕ, ◌<◌, ◌≤◌, ◌≡◌, refl, sym, ap, ◌∙◌, ◌≢◌, if◌then◌else◌, true, some, List, [], ◌∷◌, map, arith,
  ◌==◌, nat_comparable, length, set, Result, ok, err,
}
use sbnet.Base.Bytes.{Bytes}
use sbnet.Base.Maps.{lookup, beq_refl, beq_false}
use sbnet.Types.{RelayDescriptor}
use sbnet.Cell.{Cell, CellError, read_failed, cmd_create, cmd_created}
use sbnet.Cell.Wire.{Carries, transmit, transmit-Carries}
use sbnet.Crypto.{Aead, KeyExchange, gen_key_pair, derive_key}
use sbnet.Crypto.Layers.{derive_key_agree}
use sbnet.Relay.{Circuit, RelayServer, key_cell, handle_create}
use sbnet.Client.{ClientCircuit, no_keys, created_circuit, build_circuit_via_bridge}
use sbnet.Client.Dial.{dial_bridge, or_not_built, built_after, connect_bridge}
use sbnet.Client.Extend.{create_answer}
use sbnet.Client.Create.{create_held, length-pub, key_cell-Carries, key_of-Carries}
use sbnet.Bridge.{
  BridgeServer, Upstream, BridgeEffect, send, hang_up, tunnel, bridge_sentinel, pick_foreign_entry,
  foreign_dial, handle_client_conn, pipe,
}
use sbnet.Bridge.Handshake.{handshake_accepted}
use sbnet.Bridge.Tunnel.{renumbered-Carries, session_opens}

first_hop_built :
    (a : Aead) (x : KeyExchange) (noise : ℕ → ℕ) (answer : Cell → Result CellError Cell) (now : ℕ)
    (created : Cell)
    → answer (key_cell bridge_sentinel cmd_create (gen_key_pair x noise).1) ≡ ok created
    → created.command ≡ cmd_created
    → build_circuit_via_bridge a x noise answer now
      ≡ ok (created_circuit a x bridge_sentinel now (gen_key_pair x noise).0 created)
unfolding build_circuit_via_bridge
first_hop_built a x noise answer now created h k = rw (h, k) refl

module _ (x : KeyExchange) (r : ℕ) (pad : ℕ → ℕ) where
  -- What the client reads first of what a session sends it, behind what goes to the entry.
  abbrev first_sent : ℕ → List BridgeEffect → Result CellError Cell
  first_sent conn [] = err read_failed
  first_sent conn (send out c ∷ effects) =
      let rest = first_sent conn effects in if out == conn then transmit r pad c else rest
  first_sent conn (hang_up out ∷ effects) = first_sent conn effects
  first_sent conn (tunnel one other id ∷ effects) = first_sent conn effects

  create_answer-Carries :
      (relay : ℕ → ℕ) (s : RelayServer) (conn circ_id : ℕ) (pub_key : Bytes)
      → circ_id < 4294967296
      → length pub_key ≡ 32
      → (created : Cell) × (create_answer r pad x relay s conn (key_cell circ_id cmd_create pub_key)
          ≡ ok created)
        × Carries circ_id cmd_created (gen_key_pair x relay).1 created
  unfolding create_answer
  create_answer-Carries relay s conn circ_id pub_key h full =
      let (asked, read, v) =
        transmit-Carries r pad _
          (key_cell-Carries circ_id cmd_create pub_key h (omega arith) full) in
      let (reply, circ, replied, w, held, last, key) = create_held x relay s conn asked v h full in
      let (created, back, u) = transmit-Carries r pad reply w in
      (created, rw (read, replied, beq_refl conn) back, u)

  module _ (a : Aead) (first second relay_one relay_two : ℕ → ℕ) (up : Upstream) (b : BridgeServer)
      (s later : RelayServer) (conn q new_circ_id entry_conn now : ℕ)
      (entry : RelayDescriptor) where
    -- The foreign network with this entry relay in it.
    abbrev pub with_entry : Upstream
    with_entry = record up { answer = create_answer r pad x relay_one s }

    -- The first cell that comes back to the client through the bridge.
    unfoldable pub bridge_answer : Cell → Cell → Result CellError Cell
    bridge_answer handshake create =
        first_sent conn
          (handle_client_conn with_entry b conn q new_circ_id true (transmit r pad handshake))

    bridge_answers :
        length b.token ≤ 471
        → new_circ_id < 4294967296
        → entry_conn ≢ conn
        → pick_foreign_entry q b ≡ some entry
        → foreign_dial with_entry b entry ≡ (some entry_conn, [])
        → up.obfs_handshake entry_conn ≡ true
        → (cell : Cell) × (got : Cell) × (dial_bridge x first true true b.token ≡ ok cell)
          × (bridge_answer cell (key_cell bridge_sentinel cmd_create (gen_key_pair x second).1)
              ≡ ok got)
          × Carries bridge_sentinel cmd_created (gen_key_pair x relay_one).1 got
    unfolding bridge_answer
    bridge_answers short small apart picked dialled greeted =
        let (cell, read, written, delivered, accepted, refused) =
          (handshake_accepted x first r pad b.token b.token).0 short in
        let (created, answered, v) =
          create_answer-Carries relay_one s entry_conn new_circ_id (gen_key_pair x first).1 small
            (length-pub x first) in
        let (got, back, w) =
          transmit-Carries r pad (record created { circ_id = bridge_sentinel })
            (renumbered-Carries bridge_sentinel created (omega arith) v) in
        let opened =
          (session_opens with_entry b conn q new_circ_id entry_conn entry (ok read)
              (gen_key_pair x first).1 (accepted refl) picked dialled greeted).0
            created answered v.same_command in
        (
          cell,
          got,
          written,
          rw (delivered, opened, beq_false entry_conn conn apart, beq_refl conn) back,
          w,
        )

    pub bridge_keys :
        length b.token ≤ 471
        → new_circ_id < 4294967296
        → entry_conn ≢ conn
        → pick_foreign_entry q b ≡ some entry
        → foreign_dial with_entry b entry ≡ (some entry_conn, [])
        → up.obfs_handshake entry_conn ≡ true
        → let create = key_cell bridge_sentinel cmd_create (gen_key_pair x second).1 in
          (circ : ClientCircuit) × (asked : Cell) × (held : Circuit) × (connect_bridge a x first
              second true true b.token bridge_answer now
            ≡ ok circ)
          × (circ.keys
              ≡ set no_keys 0 (derive_key x (gen_key_pair x second).0 (gen_key_pair x relay_one).1))
          × (map (transmit r pad) (pipe new_circ_id (λ i. true) (transmit r pad create ∷ []))
              ≡ ok asked ∷ [])
          × (lookup new_circ_id (handle_create x relay_two later asked entry_conn).0.circuits
              ≡ some held)
          × (held.key ≡ derive_key x (gen_key_pair x second).0 (gen_key_pair x relay_two).1)
    unfolding connect_bridge pipe
    bridge_keys short small apart picked dialled greeted =
        let (cell, got, written, answered, v) =
          bridge_answers short small apart picked dialled greeted in
        let (c, sent, w) = transmit-Carries r pad _ (
          key_cell-Carries bridge_sentinel cmd_create (gen_key_pair x second).1 (omega arith)
            (omega arith) (length-pub x second)) in
        let (asked, arrived, u) =
          transmit-Carries r pad (record c { circ_id = new_circ_id })
            (renumbered-Carries new_circ_id c small w) in
        let (reply, held, replied, z, stored, last, key) =
          create_held x relay_two later entry_conn asked u small (length-pub x second) in
        (
          created_circuit a x bridge_sentinel now (gen_key_pair x second).0 got,
          asked,
          held,
          ap (built_after a x second bridge_answer now) written
              ∙ ap or_not_built
                  (first_hop_built a x second (bridge_answer cell) now got answered v.same_command),
          ap (λ k. set no_keys 0 (derive_key x (gen_key_pair x second).0 k))
              (key_of-Carries got v (length-pub x relay_one)),
          rw (sent, arrived) refl,
          stored,
          key ∙ sym (derive_key_agree x second relay_two).0,
        )
