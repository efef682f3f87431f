-- ===== src/Client/Dial.antt =====
-- dialBridge and buildCircuitViaBridge of client/main.go: the handshake that a client begins with
-- at a bridge.
use sbnet.Base.{ℕ, ◌+◌, ◌%◌, Bool, not, ltb, nat_comparable, if◌then◌else◌, length, Result, ok, err}
use sbnet.Base.Bytes.{Bytes, put_u16, copy_at}
use sbnet.Cell.{Cell, CellError, cell_body_max, cmd_create, empty_body}
use sbnet.Crypto.{Aead, KeyExchange, gen_key_pair}
use sbnet.Client.{ClientCircuit, ClientError, build_circuit_via_bridge}

pub data DialError : Type 0 where
  unreachable : DialError
  obfs_failed : DialError
  token_too_long : DialError
  not_built : ClientError → DialError

-- tokenLen(2) | token | clientPub(32), written one after the other into a zeroed body.
unfoldable pub handshake_cell : Bytes → Bytes → Cell
handshake_cell token pub_key = record {
  circ_id = 4294967295;
  command = cmd_create;
  used = (2 + length token + 32) % 65536;
  body =
      copy_at (2 + length token) (copy_at 2 (copy_at 0 empty_body (put_u16 (length token))) token)
        pub_key;
}

-- The cell that is written on a connection, if the dial and the preamble handshake succeed.
unfoldable pub dial_bridge : KeyExchange → (ℕ → ℕ) → Bool → Bool → Bytes → Result DialError Cell
dial_bridge x noise dialled obfs_ok token =
    let (priv, pub_key) = gen_key_pair x noise in
    if not dialled
    then err unreachable
    else if not obfs_ok
    then err obfs_failed
    else if ltb cell_body_max (2 + length token + 32)
    then err token_too_long
    else ok (handshake_cell token pub_key)

abbrev pub or_not_built : Result ClientError ClientCircuit → Result DialError ClientCircuit
or_not_built (err e) = err (not_built e)
or_not_built (ok circ) = ok circ

abbrev pub built_after :
    Aead
    → KeyExchange
    → (ℕ → ℕ)
    → (Cell → Cell → Result CellError Cell)
    → ℕ
    → Result DialError Cell
    → Result DialError ClientCircuit
built_after a x noise answer now (err e) = err e
built_after a x noise answer now (ok handshake) =
    or_not_built (build_circuit_via_bridge a x noise (answer handshake) now)

-- The whole of buildCircuitViaBridge: `answer` is the cell that comes back for the two cells that
-- are written, the handshake and the Create. Each has its own key pair.
unfoldable pub connect_bridge :
    Aead
    → KeyExchange
    → (ℕ → ℕ)
    → (ℕ → ℕ)
    → Bool
    → Bool
    → Bytes
    → (Cell → Cell → Result CellError Cell)
    → ℕ
    → Result DialError ClientCircuit
connect_bridge a x first second dialled obfs_ok token answer now =
    built_after a x second answer now (dial_bridge x first dialled obfs_ok token)
