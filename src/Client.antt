-- ===== src/Client.antt =====
-- client/main.go: the circuit that a client builds hop by hop, and the request that it sends over
-- it. Addresses are the bytes that fmt.Sprintf("%s:%d") prints.
pub mod Guard
pub mod Request
pub mod Exchange
pub mod Reply
pub mod Journey
pub mod Dial
pub mod Uri
pub mod Pool
pub mod Build
pub mod Socks
pub mod Create
pub mod Telescope
pub mod Extend
use sbnet.Base.{
  ℕ, zero, suc, ◌+◌, ◌%◌, ◌&&◌, Bool, true, false, not, Option, none, some, List, [], ◌∷◌, ◌++◌,
  ltb, ◌==◌, nat_comparable, if◌then◌else◌, length, take, set, Result, ok, err, ◌>>=◌,
}
use sbnet.Base.Bytes.{Bytes, put_u16}
use sbnet.Cell.{
  Cell, CellError, cell_body_max, cell_of, content, cmd_create, cmd_created, cmd_extend,
  cmd_extended, cmd_relay, cmd_relay_done,
}
use sbnet.Crypto.{Aead, KeyExchange, CryptoError, gen_key_pair, derive_key}
use sbnet.Crypto.Layers.{wrap, peel}
use sbnet.Relay.{Effect, close, key_cell}

-- `keys` has three elements; the zero value of each is nil.
pub record ClientCircuit : Type 0 where
  pub circ_id : ℕ
  pub keys : List Bytes
  pub built : ℕ

pub data ClientError : Type 0 where
  nil_relay : ClientError
  created_failed : ClientError
  encrypt_failed : CryptoError → ClientError
  extend_too_large : ℕ → ClientError
  extended_failed : ClientError
  request_too_large : ℕ → ClientError
  decrypt_failed : CryptoError → ClientError
  cancelled : ClientError

abbrev pub no_keys : List Bytes
no_keys = [] ∷ [] ∷ [] ∷ []

-- addrLen(1) | addr | clientPub(32)
abbrev pub extend_payload : Bytes → Bytes → Bytes
extend_payload addr pub_key = (length addr % 256) ∷ (addr ++ pub_key)

-- An answer must have been read and must have the command.
abbrev pub expect : ℕ → ClientError → Result CellError Cell → Result ClientError Cell
expect command e (err x) = err e
expect command e (ok c) = if not (c.command == command) then err e else ok c

abbrev pub or_encrypt_failed : Result CryptoError Bytes → Result ClientError Bytes
or_encrypt_failed (ok b) = ok b
or_encrypt_failed (err e) = err (encrypt_failed e)

abbrev pub fit : ClientError → Bytes → Result ClientError Bytes
fit e wrapped = if ltb cell_body_max (length wrapped) then err e else ok wrapped

abbrev pub closed_on_error : ℕ → Result ClientError ClientCircuit → List Effect
closed_on_error conn (err e) = close conn ∷ []
closed_on_error conn (ok circ) = []

module _ (a : Aead) (x : KeyExchange) where
  -- The cell that extendCircuit writes to extend a circuit to its hop `hop_idx`.
  unfoldable pub extend_cell :
      (ℕ → ℕ → ℕ) → ClientCircuit → Bytes → ℕ → Bytes → Result ClientError Cell
  extend_cell layers circ addr hop_idx pub_key = do
    wrapped ←
        or_encrypt_failed (wrap a layers (take hop_idx circ.keys) (extend_payload addr pub_key))
    fitting ← fit (extend_too_large (length wrapped)) wrapped
    ok (cell_of circ.circ_id cmd_extend fitting)

  -- `answer` is the cell that comes back for one that is written. The key pair is made of `noise`.
  unfoldable pub extend_circuit :
      (ℕ → ℕ)
      → (ℕ → ℕ → ℕ)
      → (Cell → Result CellError Cell)
      → ClientCircuit
      → Bytes
      → ℕ
      → Result ClientError ClientCircuit
  extend_circuit noise layers answer circ addr hop_idx = do
    cell ← extend_cell layers circ addr hop_idx (gen_key_pair x noise).1
    extended ← expect cmd_extended extended_failed (answer cell)
    ok (record circ {
      keys = set circ.keys hop_idx (derive_key x (gen_key_pair x noise).0 (take 32 extended.body));
    })

  abbrev pub created_circuit : ℕ → ℕ → Bytes → Cell → ClientCircuit
  created_circuit circ_id now priv created = record {
    circ_id = circ_id;
    keys = set no_keys 0 (derive_key x priv (take 32 created.body));
    built = now;
  }

  -- `none` is a nil relay. Each hop has its own key pair, layers and answer.
  unfoldable pub build_hops :
      (ℕ → ℕ → ℕ)
      → (ℕ → ℕ → ℕ → ℕ)
      → (ℕ → Cell → Result CellError Cell)
      → ℕ
      → ℕ
      → Option Bytes
      → Option Bytes
      → Result ClientError ClientCircuit
  build_hops noise layers answer now circ_id none exit = err nil_relay
  build_hops noise layers answer now circ_id (some middle) none = err nil_relay
  build_hops noise layers answer now circ_id (some middle) (some exit) = do
    created ←
        expect cmd_created created_failed
          (answer 0 (key_cell circ_id cmd_create (gen_key_pair x (noise 0)).1))
    one ← ok (created_circuit circ_id now (gen_key_pair x (noise 0)).0 created)
    two ← extend_circuit (noise 1) (layers 1) (answer 1) one middle 1
    extend_circuit (noise 2) (layers 2) (answer 2) two exit 2

  -- buildCircuitOnConn on a connection: each of its errors closes that.
  unfoldable pub build_circuit_on_conn :
      ℕ
      → (ℕ → ℕ → ℕ)
      → (ℕ → ℕ → ℕ → ℕ)
      → (ℕ → Cell → Result CellError Cell)
      → ℕ
      → ℕ
      → Option Bytes
      → Option Bytes
      → Result ClientError ClientCircuit × List Effect
  build_circuit_on_conn conn noise layers answer now circ_id middle exit =
      let built = build_hops noise layers answer now circ_id middle exit in
      (built, closed_on_error conn built)

  -- buildCircuitViaBridge after its handshake cell: one hop, and no more.
  unfoldable pub build_circuit_via_bridge :
      (ℕ → ℕ) → (Cell → Result CellError Cell) → ℕ → Result ClientError ClientCircuit
  build_circuit_via_bridge noise answer now = do
    created ←
        expect cmd_created created_failed
          (answer (key_cell 4294967295 cmd_create (gen_key_pair x noise).1))
    ok (created_circuit 4294967295 now (gen_key_pair x noise).0 created)

-- hostLen(2) | host | port(2) | request
abbrev pub request_payload : Bytes → ℕ → Bytes → Bytes
request_payload host port req = put_u16 (length host) ++ (host ++ (put_u16 port ++ req))

-- What a round of the response loop meets.
pub data Event : Type 0 where
  done : Event
  read : Result CellError Cell → Event

-- The response, and the error beside it.
pub record Answer : Type 0 where
  pub response : Bytes
  pub error : Option ClientError

module _ (a : Aead) where
  -- The loop of sendRequest; where the events end, so does the connection.
  unfoldable pub receive : List Bytes → List Event → Bytes → Answer
  receive keys [] response = record { response = response; error = none }
  receive keys (done ∷ events) response = record { response = response; error = some cancelled }
  receive keys (read (err e) ∷ events) response = record { response = response; error = none }
  receive keys (read (ok c) ∷ events) response =
      if not (c.command == cmd_relay) && not (c.command == cmd_relay_done)
      then receive keys events response
      else elim (peel a keys (content c)) [
        | err e ↦ record { response = response; error = some (decrypt_failed e) }
        | ok bytes ↦
            if c.command == cmd_relay_done
            then record { response = response; error = none }
            else receive keys events (response ++ bytes)
      ]

  abbrev pub seal_request : ClientCircuit → Result CryptoError Bytes → Result ClientError Cell
  seal_request circ wrapping = do
    wrapped ← or_encrypt_failed wrapping
    fitting ← fit (request_too_large (length wrapped)) wrapped
    ok (cell_of circ.circ_id cmd_relay fitting)

  -- The cell that is written, if one is, and the result.
  abbrev pub sent :
      (Cell → List Event) → ClientCircuit → Result ClientError Cell → Option Cell × Answer
  sent events circ (err e) = (none, record { response = []; error = some e })
  sent events circ (ok cell) = (some cell, receive circ.keys (events cell) [])

  -- `events` come after the cell.
  unfoldable pub send_request :
      (ℕ → ℕ → ℕ) → (Cell → List Event) → ClientCircuit → Bytes → ℕ → Bytes → Option Cell × Answer
  send_request layers events circ host port req =
      sent events circ (seal_request circ (wrap a layers circ.keys (request_payload host port req)))
