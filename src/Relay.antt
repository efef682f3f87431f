-- ===== src/Relay.antt =====
-- relay/main.go: the relay server's circuits, handleCell, and forwardCells. A connection is a
-- number; what a handler writes, closes and starts is a list of effects, in order. A handler's call
-- is one step: calls for one circuit that overlap are not modelled.
pub mod Exit
pub mod Destroy
pub mod Circuits
pub mod Outcomes
pub mod Onion
pub mod Response
pub mod KeepAlive
use sbnet.Base.{
  ℕ, ◌+◌, ◌%◌, ◌||◌, Bool, true, false, not, Option, none, some, List, [], ◌∷◌, ◌++◌, map, String,
  ltb, ◌==◌, nat_comparable, string_comparable, if◌then◌else◌, length, take, drop, get_or, Result,
  ok, err,
}
use sbnet.Base.Bytes.{Bytes, slice, copy_into}
use sbnet.Base.Maps.{Map, lookup, insert, delete}
use sbnet.Cell.{
  Cell, CellError, cell_body_max, cell_of, content, cmd_create, cmd_created, cmd_extend,
  cmd_extended, cmd_relay, cmd_destroy, cmd_ping, cmd_pong, cmd_fragment, cmd_frag_final,
  cmd_relay_done,
}
use sbnet.Fragment.{Reassembler, new_reassembler, Added, pending, complete, running, add, fragment}
use sbnet.Crypto.{Aead, KeyExchange, CryptoError, gen_key_pair, derive_key, encrypt, decrypt}
use sbnet.Timeout.{LastSeen, touch, remove, sweep}

pub record Circuit : Type 0 where
  pub id : ℕ
  pub in_conn : ℕ
  pub out_conn : Option ℕ
  pub key : Bytes

pub record RelayServer : Type 0 where
  pub role : String
  pub circuits : Map ℕ Circuit
  pub reasm : Map ℕ Reassembler
  pub timeout : LastSeen

pub data Effect : Type 0 where
  write : ℕ → Cell → Effect
  close : ℕ → Effect
  start_forward : Circuit → Effect
  start_exit : Circuit → Bytes → Effect

-- `common.Cell{CircID: circID, Command: command}`, and with 32 bytes in the body.
abbrev pub bare_cell : ℕ → ℕ → Cell
bare_cell circ_id command = cell_of circ_id command []

abbrev pub key_cell : ℕ → ℕ → Bytes → Cell
key_cell circ_id command pub_key = record (cell_of circ_id command pub_key) { used = 32 }

abbrev pub hang_up : ℕ → Option ℕ → List Effect
hang_up circ_id none = []
hang_up circ_id (some out) = write out (bare_cell circ_id cmd_destroy) ∷ close out ∷ []

abbrev pub farewell : ℕ → Option Circuit → List Effect
farewell circ_id none = []
farewell circ_id (some circ) = hang_up circ_id circ.out_conn

-- Removing a circuit that is not there changes nothing, as the source's guard has it.
unfoldable pub destroy_circuit : RelayServer → ℕ → RelayServer × List Effect
destroy_circuit s circ_id = (
  record s { circuits = delete circ_id s.circuits; timeout = remove circ_id s.timeout },
  farewell circ_id (lookup circ_id s.circuits),
)

destroy_all : RelayServer → List ℕ → RelayServer × List Effect
destroy_all s [] = (s, [])
destroy_all s (id ∷ ids) =
    let (s', first) = destroy_circuit s id in
    let (s'', rest) = destroy_all s' ids in (s'', first ++ rest)

-- A tick of the timeout tracker, whose callback is destroyCircuit.
pub sweep_circuits : RelayServer → ℕ → ℕ → RelayServer × List Effect
unfolding destroy_all
sweep_circuits s now idle =
    let (kept, expired) = sweep now idle s.timeout in
    destroy_all (record s { timeout = kept }) expired

-- What becomes of the cell in the reassembly at the head of handleCell. `stuck` is the call that
-- does not end.
pub data Reassembled : Type 0 where
  proceed : RelayServer → Cell → Reassembled
  wait : RelayServer → Reassembled
  stuck : Reassembled

abbrev held_reassembler : Option Reassembler → Reassembler
held_reassembler none = new_reassembler
held_reassembler (some ra) = ra

abbrev whole : RelayServer → ℕ → Reassembler → Added → Reassembled
whole s circ_id ra running = stuck
whole s circ_id ra pending = wait (record s { reasm = insert circ_id ra s.reasm })
whole s circ_id ra (complete payload) =
    proceed (record s { reasm = delete circ_id (insert circ_id ra s.reasm) })
      (cell_of circ_id cmd_relay
        (if ltb cell_body_max (length payload) then take cell_body_max payload else payload))

unfoldable pub reassemble : ℕ → RelayServer → Cell → Reassembled
reassemble fuel s c =
    if (c.command == cmd_fragment) || (c.command == cmd_frag_final)
    then (let (ra, added) = add fuel (held_reassembler (lookup c.circ_id s.reasm)) c in
        whole s c.circ_id ra added)
    else proceed s c

-- What the network answers when the relay extends a circuit: the connection that a dial opens, the
-- result of the handshake on it, and the cell that is read from it after one was written to it.
pub record Network : Type 0 where
  pub dial : Bytes → Option ℕ
  pub obfs_handshake : ℕ → Bool
  pub answer : ℕ → Cell → Result CellError Cell

module _ (x : KeyExchange) where
  unfoldable pub handle_create : (ℕ → ℕ) → RelayServer → Cell → ℕ → RelayServer × List Effect
  handle_create noise s c conn =
      let (priv, pub_key) = gen_key_pair x noise in
      let key = derive_key x priv (take 32 c.body) in
      let circ : Circuit = record { id = c.circ_id; in_conn = conn; out_conn = none; key = key } in
      (
        record s { circuits = insert c.circ_id circ s.circuits },
        write conn (key_cell c.circ_id cmd_created pub_key) ∷ [],
      )

module _ (a : Aead) (net : Network) where
  -- The answer to the cell `create` that was sent on `next`.
  unfoldable pub extended :
      RelayServer
      → Cell
      → ℕ
      → Circuit
      → ℕ
      → Cell
      → Result CellError Cell
      → RelayServer × List Effect
  extended s c conn circ next create (err e) = (s, write next create ∷ close next ∷ [])
  extended s c conn circ next create (ok created) =
      let sent = write next create in
      if not (created.command == cmd_created)
      then (s, sent ∷ close next ∷ [])
      else let circ' = record circ { out_conn = some next } in
        (
          record s { circuits = insert c.circ_id circ' s.circuits },
          sent
              ∷ start_forward circ'
              ∷ write conn (key_cell c.circ_id cmd_extended (take 32 created.body))
              ∷ [],
        )

  unfoldable pub dialled :
      RelayServer → Cell → ℕ → Circuit → Bytes → Option ℕ → RelayServer × List Effect
  dialled s c conn circ client_pub none = (s, [])
  dialled s c conn circ client_pub (some next) =
      let create = key_cell c.circ_id cmd_create client_pub in
      if net.obfs_handshake next
      then extended s c conn circ next create (net.answer next create)
      else (s, close next ∷ [])

  -- The payload is addrLen(1) | addr | clientPub(32).
  unfoldable pub extend_here : RelayServer → Cell → ℕ → Circuit → Bytes → RelayServer × List Effect
  extend_here s c conn circ payload =
      let addr_len = get_or payload 0 0 in
      if ltb (length payload) 34 || ltb (length payload) (1 + addr_len + 32)
      then (s, [])
      else dialled s c conn circ (slice payload (1 + addr_len) (1 + addr_len + 32))
          (net.dial (slice payload 1 (1 + addr_len)))

  unfoldable pub forward_extend :
      RelayServer → Cell → ℕ → Circuit → Bytes → Option ℕ → RelayServer × List Effect
  forward_extend s c conn circ payload none = extend_here s c conn circ payload
  forward_extend s c conn circ payload (some out) =
      if ltb cell_body_max (length payload)
      then (s, [])
      else (s, write out (cell_of c.circ_id cmd_extend payload) ∷ [])

  -- The test of OutConn, after the decryption that both branches begin with.
  unfoldable pub extend_circuit :
      RelayServer → Cell → ℕ → Circuit → Result CryptoError Bytes → RelayServer × List Effect
  extend_circuit s c conn circ (err e) = (s, [])
  extend_circuit s c conn circ (ok payload) = forward_extend s c conn circ payload circ.out_conn

  unfoldable pub handle_extend : RelayServer → Cell → ℕ → Option Circuit → RelayServer × List Effect
  handle_extend s c conn none = (s, [])
  handle_extend s c conn (some circ) = extend_circuit s c conn circ (decrypt a circ.key (content c))

module _ (a : Aead) where
  -- `seq_id` is the random sequence number.
  unfoldable pub pass_on : ℕ → Cell → Bytes → Option ℕ → List Effect
  pass_on seq_id c payload none = []
  pass_on seq_id c payload (some out) =
      if ltb cell_body_max (length payload + 28)
      then map (write out) (fragment c.circ_id seq_id payload)
      else write out (cell_of c.circ_id cmd_relay payload) ∷ []

  unfoldable pub relay_payload :
      ℕ → String → Cell → Circuit → Result CryptoError Bytes → List Effect
  relay_payload seq_id role c circ (err e) = []
  relay_payload seq_id role c circ (ok payload) =
      if role == "exit"
      then start_exit circ payload ∷ []
      else pass_on seq_id c payload circ.out_conn

  unfoldable pub handle_relay : ℕ → RelayServer → Cell → Option Circuit → List Effect
  handle_relay seq_id s c none = []
  handle_relay seq_id s c (some circ) =
      relay_payload seq_id s.role c circ (decrypt a circ.key (content c))

-- `copy(pong.Body[:], c.Body[:c.Length])` under the received length.
abbrev pub pong_cell : Cell → Cell
pong_cell c = record (cell_of c.circ_id cmd_pong (content c)) { used = c.used }

module _ (a : Aead) (x : KeyExchange) (net : Network) (noise : ℕ → ℕ) (seq_id : ℕ) where
  -- The switch of handleCell.
  unfoldable pub dispatch : RelayServer → Cell → ℕ → RelayServer × List Effect
  dispatch s c conn =
      if c.command == cmd_create
      then handle_create x noise s c conn
      else if c.command == cmd_extend
      then handle_extend a net s c conn (lookup c.circ_id s.circuits)
      else if c.command == cmd_relay
      then (s, handle_relay a seq_id s c (lookup c.circ_id s.circuits))
      else if c.command == cmd_ping
      then (s, write conn (pong_cell c) ∷ [])
      else if c.command == cmd_destroy
      then destroy_circuit s c.circ_id
      else (s, [])

  -- `none` is a call that does not end.
  unfoldable pub finished : ℕ → Reassembled → Option (RelayServer × List Effect)
  finished conn (proceed s c) = some (dispatch s c conn)
  finished conn (wait s) = some (s, [])
  finished conn stuck = none

  unfoldable pub handle_cell : ℕ → ℕ → RelayServer → Cell → ℕ → Option (RelayServer × List Effect)
  handle_cell fuel now s c conn =
      finished conn (reassemble fuel (record s { timeout = touch now c.circ_id s.timeout }) c)
