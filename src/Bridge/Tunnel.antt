-- ===== src/Bridge/Tunnel.antt =====
-- A session of bridge/main.go behind its handshake: the Create that the bridge sends on, and the
-- pipe between the client and the entry relay.
use sbnet.Base.{
  ℕ, ◌<◌, ◌≡◌, refl, ◌≢◌, true, nat_beq_iff, Bool-cases, inl, inr, some, List, [], ◌∷◌, ◌++◌, map,
  ◌==◌, nat_comparable, Result, ok, err,
}
use sbnet.Base.Bytes.{Bytes}
use sbnet.Types.{RelayDescriptor}
use sbnet.Cell.{Cell, CellError, cmd_create, cmd_created}
use sbnet.Cell.Wire.{Carries, transmit, transmit-Carries}
use sbnet.Relay.{key_cell}
use sbnet.Bridge.{
  BridgeServer, Upstream, BridgeEffect, send, hang_up, tunnel, bridge_sentinel, pick_foreign_entry,
  foreign_dial, open_tunnel, created_back, connect_entry, serve_handshake, parse_handshake,
  handle_client_conn, pipe,
}

-- Cells of a circuit that carry messages of a command and bytes each, in order.
abbrev pub AllCarry : ℕ → List (ℕ × Bytes) → List Cell → Type 0
AllCarry circ_id [] [] = Unit {0}
AllCarry circ_id [] (c ∷ cs) = ⊥
AllCarry circ_id (m ∷ ms) [] = ⊥
AllCarry circ_id (m ∷ ms) (c ∷ cs) = Carries circ_id m.0 m.1 c × AllCarry circ_id ms cs

pub renumbered-Carries :
    (to : ℕ) {from command : ℕ} {p : Bytes} (c : Cell)
    → to < 4294967296
    → Carries from command p c
    → Carries to command p (record c { circ_id = to })
renumbered-Carries to c h v = record {
  is_cell = record {
    circ_id_lt = h;
    command_lt = v.is_cell.command_lt;
    used_lt = v.is_cell.used_lt;
    length_body = v.is_cell.length_body;
  };
  same_id = refl;
  same_command = v.same_command;
  used_length = v.used_length;
  same_content = v.same_content;
  fits = v.fits;
}

-- Either direction of the pipe, while its writes succeed: the cells that one side writes under its
-- number for the circuit are read by the other side under its own of 32 bits, each once, in order,
-- with the same commands and contents, whatever these are.
pub pipe_carries :
    (r q : ℕ) (noise pad : ℕ → ℕ) (from to : ℕ) (ms : List (ℕ × Bytes)) (cs : List Cell)
    → to < 4294967296
    → AllCarry from ms cs
    → (gots : List Cell) × (map (transmit q pad) (pipe to (λ i. true) (map (transmit r noise) cs))
        ≡ map ok gots)
      × AllCarry to ms gots
unfolding pipe
pipe_carries r q noise pad from to [] [] h all = ([], refl, _)
pipe_carries r q noise pad from to [] (c ∷ cs) h all = absurd all
pipe_carries r q noise pad from to (m ∷ ms) [] h all = absurd all
pipe_carries r q noise pad from to (m ∷ ms) (c ∷ cs) h all =
    let (c', delivered, v) = transmit-Carries r noise c all.0 in
    let (got, arrived, w) =
      transmit-Carries q pad (record c' { circ_id = to }) (renumbered-Carries to c' h v) in
    let (gots, same, rest) = pipe_carries r q noise pad from to ms cs h all.1 in
    (got ∷ gots, rw (delivered, arrived, same) refl, (w, rest))

-- No Created came.
abbrev pub Refused : Result CellError Cell → Type 0
Refused (err e) = Unit
Refused (ok c) = c.command ≢ cmd_created

Refused-created_back :
    (conn entry_conn new_circ_id : ℕ) (answered : Result CellError Cell)
    → Refused answered
    → created_back conn entry_conn new_circ_id answered ≡ []
unfolding created_back
Refused-created_back conn entry_conn new_circ_id (err e) h = refl
Refused-created_back conn entry_conn new_circ_id (ok c) h =
    elim (Bool-cases (c.command == cmd_created)) [
      | inl e ↦ absurd (h ((nat_beq_iff c.command cmd_created).0 e))
      | inr e ↦ rw e refl
    ]

module _ (up : Upstream) (b : BridgeServer) (conn r new_circ_id entry_conn : ℕ) where
  -- What the session does if the entry's answer to its Create leads to `back`.
  session_back :
      (entry : RelayDescriptor) (first : Result CellError Cell) (client_pub : Bytes)
      {back : List BridgeEffect}
      → parse_handshake b.token first ≡ some client_pub
      → pick_foreign_entry r b ≡ some entry
      → foreign_dial up b entry ≡ (some entry_conn, [])
      → up.obfs_handshake entry_conn ≡ true
      → created_back conn entry_conn new_circ_id
          (up.answer entry_conn (key_cell new_circ_id cmd_create client_pub))
        ≡ back
      → handle_client_conn up b conn r new_circ_id true first
        ≡ send entry_conn (key_cell new_circ_id cmd_create client_pub)
            ∷ (back ++ hang_up entry_conn ∷ [])
          ++ hang_up conn ∷ []
  unfolding handle_client_conn serve_handshake connect_entry open_tunnel
  session_back entry first client_pub parsed picked dialled greeted answered =
      rw (parsed, picked, dialled, greeted, answered) refl

  -- With a handshake that the bridge accepts, an entry relay in its list, and a connection to that
  -- relay that opens and passes the preamble, the session sends the entry a Create with the
  -- client's own public key under a number of the bridge's. If a Created comes back, it goes to
  -- the client under the reserved number and the pipe starts; if another cell or none comes back,
  -- nothing goes to the client. Both connections are closed at the end, the entry's first.
  pub session_opens :
      (entry : RelayDescriptor) (first : Result CellError Cell) (client_pub : Bytes)
      → parse_handshake b.token first ≡ some client_pub
      → pick_foreign_entry r b ≡ some entry
      → foreign_dial up b entry ≡ (some entry_conn, [])
      → up.obfs_handshake entry_conn ≡ true
      → let create = key_cell new_circ_id cmd_create client_pub in
        ((created : Cell)
          → up.answer entry_conn create ≡ ok created
          → created.command ≡ cmd_created
          → handle_client_conn up b conn r new_circ_id true first
            ≡ send entry_conn create
              ∷ send conn (record created { circ_id = bridge_sentinel })
              ∷ tunnel conn entry_conn new_circ_id
              ∷ hang_up entry_conn
              ∷ hang_up conn
              ∷ [])
        × (Refused (up.answer entry_conn create)
            → handle_client_conn up b conn r new_circ_id true first
              ≡ send entry_conn create ∷ hang_up entry_conn ∷ hang_up conn ∷ [])
  unfolding created_back
  session_opens entry first client_pub parsed picked dialled greeted = (
    (λ created answered is_created.
        let back : created_back conn entry_conn new_circ_id
              (up.answer entry_conn (key_cell new_circ_id cmd_create client_pub))
            ≡ send conn (record created { circ_id = bridge_sentinel })
              ∷ tunnel conn entry_conn new_circ_id
              ∷ [] =
          rw (answered, is_created) refl in
        session_back entry first client_pub parsed picked dialled greeted back),
    (λ refused.
        session_back entry first client_pub parsed picked dialled greeted
          (Refused-created_back conn entry_conn new_circ_id _ refused)),
  )
