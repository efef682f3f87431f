-- ===== src/Lib.antt =====
-- sbnet: an onion-routing network in Go. A client builds a circuit of three relays, exchanging a key
-- with each (client/main.go, relay/main.go), and sends requests in cells that it encrypts once for
-- each relay; an exit relay serves the request, and its response comes back the same way. Relays and
-- brokers register with a directory (directory/main.go), which signs a list of them, the consensus;
-- clients and brokers fetch and verify it (common/consensus.go). A broker (broker/) hands out relays
-- with tokens, and brings clients and volunteers together. What the programs share is in common/.
--
-- The files, and what they model:
--   Base and below: Booleans, lists, Go's byte slices, maps, integers and error results.
--   Cell: the wire format, common/cell.go (MarshalCell, UnmarshalCell, ReadCell); Cell/Wire is a cell
--     between two programs.
--   Fragment: Fragment and Reassembler.Add of common/cell.go.
--   Crypto: GenKeyPair, DeriveKey, Encrypt and Decrypt of common/cell.go, and the onion's layers.
--   Types, Config, Timeout, Obfs: common/types.go, config.go, replay.go and obfs.go.
--   Directory, Consensus: directory/main.go and common/consensus.go; Directory/Register: what the
--     directory is to hold of relays, written without its operations.
--   Relay: handleCell, the circuits and forwardCells of relay/main.go; Relay/Exit: the exit relay;
--     Relay/Onion and Relay/Response: cells through several relays; Relay/KeepAlive: keepAlive.
--   Client: the handshake and sendRequest of client/main.go; Client/Extend: one hop more, with both
--     relays; Client/Guard: its choice of relays;
--     Client/Pool and Client/Build: CircuitPool and buildOne; Client/Dial and Client/Uri: the bridge's
--     address and handshake; Client/Socks: handleSOCKS5Conn; Client/Journey: a client, three relays
--     and an origin together.
--   Bridge: bridge/main.go; Bridge/Keys: a client, a bridge and an entry relay together.
--   Broker: the token store of broker/main.go and the rendezvous of broker/kind.go; Broker/Assign:
--     the relay pool, /assign and /validate; Broker/KeepAlive: keepAlive.
--   Kind: the volunteer of kind/main.go, against the broker.
--   Examples: the theorems at concrete inputs.
--
-- A byte is a number below 256, an array of bytes a list; the casts of the code to uint16 and byte
-- are written as remainders. Go's int and int64 are integers without a bound: they hold times and
-- configured values. A map is an association list. A connection is a number, and what a handler
-- writes is a list of cells or effects; random bytes and the clock are arguments. A call of a
-- handler is one step; calls that overlap are not modelled.
--
-- Fragment's loop runs on the length of its data, and each round takes a byte at least. Reassembler's
-- loops run on fuel: more fuel than there are fragments is enough, except in the case of 65536
-- fragments, where no fuel is.
--
-- Parameters, with their documented behaviour as laws: AES-GCM, X25519 and SHA-256 (Crypto), and the
-- order of float64 (Broker/Assign). Without laws: HMAC, ed25519, JSON, hexadecimal text, the text of
-- an IP address, the network, name servers and the origin.
--
-- Not modelled: HTTP and TLS serving, the client's HTTP and CONNECT proxies, rate limits, the command
-- line, logging, key files (common/keys.go), the WebRTC adapter (webrtcx/) and the scripts.
pub mod Base
pub mod Bridge
pub mod Broker
pub mod Cell
pub mod Client
pub mod Config
pub mod Consensus
pub mod Crypto
pub mod Directory
pub mod Examples
pub mod Fragment
pub mod Kind
pub mod Obfs
pub mod Relay
pub mod Timeout
pub mod Types
