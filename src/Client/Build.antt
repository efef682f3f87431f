-- ===== src/Client/Build.antt =====
-- buildOne of client/main.go and the three ways in which it builds a circuit: over the pinned
-- guard, over relays that a broker assigns, and through a volunteer.
pub mod Sound
use sbnet.Base.{
  ℕ, zero, suc, Bool, true, false, not, ◌&&◌, ◌||◌, Option, none, some, List, [], ◌∷◌, String, ◌==◌,
  string_comparable, if◌then◌else◌, length, Result, ok, err, ◌>>=◌, or_fail,
}
use sbnet.Base.Bytes.{Bytes}
use sbnet.Base.Int.{ℤ}
use sbnet.Types.{RelayDescriptor, BrokerDescriptor}
use sbnet.Config.{ClientConfig}
use sbnet.Cell.{Cell, CellError}
use sbnet.Crypto.{Aead, KeyExchange}
use sbnet.Client.{ClientCircuit, ClientError, build_circuit_on_conn}
use sbnet.Client.Guard.{GuardState, WriteFile, pick_relay, load_or_pick_guard}
use sbnet.Client.Pool.{PoolCircuit}

pub data BuildError : Type 0 where
  not_enough_relays : BuildError
  entry_unreachable : BuildError
  obfs_failed : BuildError
  kind_unreachable : BuildError
  broker_not_found : BuildError
  broker_refused : BuildError
  handshake_failed : ClientError → BuildError

-- What the network does: the dial of an entry relay, the preamble handshake on a connection, the
-- answers to what is written on it, the connection through a volunteer, and a broker's answer to
-- a request for a role. `address` prints "%s:%d", and `write_file` writes the guard file.
pub record Outside : Type 0 where
  pub dial : RelayDescriptor → Option ℕ
  pub obfs_handshake : ℕ → Bool
  pub answer : ℕ → ℕ → Cell → Result CellError Cell
  pub client_dial : String → Option ℕ
  pub assign : BrokerDescriptor → String → Option RelayDescriptor
  pub address : RelayDescriptor → Bytes
  pub write_file : WriteFile

-- The random numbers and the clock of one call.
pub record Chances : Type 0 where
  pub circ_id : ℕ
  pub now : ℕ
  pub noise : ℕ → ℕ → ℕ
  pub layers : ℕ → ℕ → ℕ → ℕ
  pub guard_byte : ℕ
  pub middle_byte : ℕ
  pub exit_byte : ℕ

-- The connection is closed already where the handshake has failed.
abbrev pub as_pooled : ℕ → Result ClientError ClientCircuit → Result BuildError PoolCircuit
as_pooled conn (err e) = err (handshake_failed e)
as_pooled conn (ok circ) = ok (record { conn = conn; circuit = circ })

abbrev pub greeted : Outside → ℕ → Result BuildError ℕ
greeted w conn = if w.obfs_handshake conn then ok conn else err obfs_failed

module _ (a : Aead) (x : KeyExchange) (w : Outside) (z : Chances) where
  abbrev pub on_conn : RelayDescriptor → RelayDescriptor → ℕ → Result BuildError PoolCircuit
  on_conn middle exit conn = as_pooled conn (
      (build_circuit_on_conn a x conn z.noise z.layers (w.answer conn) z.now z.circ_id
        (some (w.address middle)) (some (w.address exit))).0)

  unfoldable pub build_circuit :
      RelayDescriptor → RelayDescriptor → RelayDescriptor → Result BuildError PoolCircuit
  build_circuit entry middle exit = do
    dialled ← or_fail (w.dial entry) entry_unreachable
    conn ← greeted w dialled
    on_conn middle exit conn

  abbrev pub three_relays :
      Option RelayDescriptor
      → Option RelayDescriptor
      → Option RelayDescriptor
      → Result BuildError PoolCircuit
  three_relays guard middle exit = do
    g ← or_fail guard not_enough_relays
    m ← or_fail middle not_enough_relays
    e ← or_fail exit not_enough_relays
    build_circuit g m e

  -- The guard file is written before the other two relays are tested.
  unfoldable pub build_direct :
      ℤ
      → Option GuardState
      → List RelayDescriptor
      → Result BuildError PoolCircuit × Option GuardState
  build_direct time file relays =
      let (guard, file') = load_or_pick_guard w.write_file z.guard_byte time file relays in
      (
        three_relays guard (pick_relay z.middle_byte relays "middle")
            (pick_relay z.exit_byte relays "exit"),
        file',
      )

  unfoldable pub build_via_kind :
      ClientConfig → List RelayDescriptor → Result BuildError PoolCircuit
  build_via_kind config relays = do
    middle ← or_fail (pick_relay z.middle_byte relays "middle") not_enough_relays
    exit ← or_fail (pick_relay z.exit_byte relays "exit") not_enough_relays
    dialled ← or_fail (w.client_dial config.kind_broker_url) kind_unreachable
    conn ← greeted w dialled
    on_conn middle exit conn

  -- The first broker of that name; any broker would do for no name.
  unfoldable pub find_broker : String → List BrokerDescriptor → Option BrokerDescriptor
  find_broker id [] = none
  find_broker id (bd ∷ brokers) =
      let rest = find_broker id brokers in if (id == "") || (bd.id == id) then some bd else rest

  unfoldable pub build_via_broker :
      ClientConfig → List BrokerDescriptor → Result BuildError PoolCircuit
  build_via_broker config brokers = do
    broker ← or_fail (find_broker config.broker_id brokers) broker_not_found
    entry ← or_fail (w.assign broker "entry") broker_refused
    middle ← or_fail (w.assign broker "middle") broker_refused
    exit ← or_fail (w.assign broker "exit") broker_refused
    build_circuit entry middle exit

  abbrev pub some_listed : List BrokerDescriptor → Bool
  some_listed [] = false
  some_listed (bd ∷ brokers) = true

  -- With the guard file after the call.
  unfoldable pub build_one :
      ClientConfig
      → ℤ
      → Option GuardState
      → List RelayDescriptor
      → List BrokerDescriptor
      → Result BuildError PoolCircuit × Option GuardState
  build_one config time file relays brokers =
      if not (config.kind_broker_url == "")
      then (build_via_kind config relays, file)
      else if not (config.broker_id == "") && some_listed brokers
      then (build_via_broker config brokers, file)
      else build_direct time file relays
