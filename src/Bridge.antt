-- ===== src/Bridge.antt =====
-- bridge/main.go: the gateway between a client and an entry relay of a foreign network. Connections
-- are numbers; what a session writes, closes and starts is a list of effects, in order. The foreign
-- network is a parameter.
pub mod Uri
pub mod Handshake
pub mod Tunnel
pub mod Keys
pub mod Foreign
use sbnet.Base.{
  ℕ, zero, suc, ◌+◌, ◌||◌, ◌&&◌, Bool, not, Option, none, some, List, [], ◌∷◌, ◌++◌, String, ltb,
  ◌==◌, nat_comparable, string_comparable, if◌then◌else◌, Result, ok, err,
}
use sbnet.Base.Bytes.{Bytes, slice, u16_at}
use sbnet.Base.Int.{ℤ}
use sbnet.Types.{RelayDescriptor}
use sbnet.Cell.{Cell, CellError, cmd_create, cmd_created}
use sbnet.Config.{BridgeServerConfig}
use sbnet.Consensus.{Verifier, Responses, FetchError, fetch_verified_consensus}
use sbnet.Timeout.{same_bytes}
use sbnet.Client.Guard.{with_role, choose}
use sbnet.Relay.{key_cell}

abbrev pub bridge_sentinel : ℕ
bridge_sentinel = 4294967295

-- `token` is []byte(b.cfg.Token).
pub record BridgeServer : Type 0 where
  pub config : BridgeServerConfig
  pub token : Bytes
  pub foreign_relays : List RelayDescriptor

-- How the bridge reaches the foreign network: a dial of an address and a port through its dialer,
-- the TLS and the preamble handshake on a connection, and the cell that is read from it after a
-- cell was written.
pub record Upstream : Type 0 where
  pub dial : String → ℤ → Option ℕ
  pub tls_handshake : ℕ → Bool
  pub obfs_handshake : ℕ → Bool
  pub answer : ℕ → Cell → Result CellError Cell

-- `tunnel` starts the two directions of the pipe.
pub data BridgeEffect : Type 0 where
  send : ℕ → Cell → BridgeEffect
  hang_up : ℕ → BridgeEffect
  tunnel : ℕ → ℕ → ℕ → BridgeEffect

-- The client's key part if its first cell is a handshake with the token.
unfoldable pub parse_handshake : Bytes → Result CellError Cell → Option Bytes
parse_handshake token (err e) = none
parse_handshake token (ok c) =
    let token_len = u16_at c.body 0 in
    if not (c.circ_id == bridge_sentinel) || not (c.command == cmd_create)
    then none
    else if ltb c.used 2
    then none
    else if ltb c.used (2 + token_len + 32)
    then none
    else if not (same_bytes (slice c.body 2 (2 + token_len)) token)
    then none
    else some (slice c.body (2 + token_len) (2 + token_len + 32))

-- `r` is the random byte.
unfoldable pub pick_foreign_entry : ℕ → BridgeServer → Option RelayDescriptor
pick_foreign_entry r b = choose r (with_role "entry" b.foreign_relays)

unfoldable pub foreign_secure : Upstream → Bool → Option ℕ → Option ℕ × List BridgeEffect
foreign_secure up tls none = (none, [])
foreign_secure up tls (some conn) =
    if tls
    then (if up.tls_handshake conn then (some conn, []) else (none, hang_up conn ∷ []))
    else (some conn, [])

unfoldable pub foreign_dial :
    Upstream → BridgeServer → RelayDescriptor → Option ℕ × List BridgeEffect
foreign_dial up b entry = foreign_secure up (b.config.obfs == "tls") (up.dial entry.ip entry.port)

-- The entry's answer to the Create.
unfoldable pub created_back : ℕ → ℕ → ℕ → Result CellError Cell → List BridgeEffect
created_back conn entry_conn new_circ_id (err e) = []
created_back conn entry_conn new_circ_id (ok created) =
    if not (created.command == cmd_created)
    then []
    else send conn (record created { circ_id = bridge_sentinel })
      ∷ tunnel conn entry_conn new_circ_id
      ∷ []

-- The handshake with the entry that was dialled; its connection is closed at the end.
unfoldable pub open_tunnel :
    Upstream → ℕ → ℕ → Bytes → Option ℕ × List BridgeEffect → List BridgeEffect
open_tunnel up conn new_circ_id client_pub (none, effects) = effects
open_tunnel up conn new_circ_id client_pub (some entry_conn, effects) =
    let create = key_cell new_circ_id cmd_create client_pub in
    effects
    ++ (if up.obfs_handshake entry_conn
        then send entry_conn create
          ∷ created_back conn entry_conn new_circ_id (up.answer entry_conn create)
        else [])
    ++ hang_up entry_conn ∷ []

unfoldable pub connect_entry :
    Upstream → BridgeServer → ℕ → ℕ → Bytes → Option RelayDescriptor → List BridgeEffect
connect_entry up b conn new_circ_id client_pub none = []
connect_entry up b conn new_circ_id client_pub (some entry) =
    open_tunnel up conn new_circ_id client_pub (foreign_dial up b entry)

unfoldable pub serve_handshake :
    Upstream → BridgeServer → ℕ → ℕ → ℕ → Option Bytes → List BridgeEffect
serve_handshake up b conn r new_circ_id none = []
serve_handshake up b conn r new_circ_id (some client_pub) =
    connect_entry up b conn new_circ_id client_pub (pick_foreign_entry r b)

-- A session: `obfs_ok` is the preamble handshake with the client, and `first` its first cell.
unfoldable pub handle_client_conn :
    Upstream → BridgeServer → ℕ → ℕ → ℕ → Bool → Result CellError Cell → List BridgeEffect
handle_client_conn up b conn r new_circ_id obfs_ok first =
    (if obfs_ok
      then serve_handshake up b conn r new_circ_id (parse_handshake b.token first)
      else [])
    ++ hang_up conn ∷ []

-- One direction of the pipe, with the circuit's number on the other side: the cells that are
-- written, up to the first read or write that fails.
unfoldable pub pipe : ℕ → (ℕ → Bool) → List (Result CellError Cell) → List Cell
pipe circ_id write_ok [] = []
pipe circ_id write_ok (err e ∷ reads) = []
pipe circ_id write_ok (ok c ∷ reads) =
    let rest = pipe circ_id (λ i. write_ok (suc i)) reads in
    if write_ok 0 then record c { circ_id = circ_id } ∷ rest else []

pub data ForeignError : Type 0 where
  no_directory : ForeignError
  not_verified : FetchError → ForeignError

-- The responses are those to the configured directory.
unfoldable pub fetch_foreign_consensus :
    Verifier → BridgeServerConfig → Responses → ℤ → Result ForeignError (List RelayDescriptor)
fetch_foreign_consensus v config responses now =
    if config.foreign_dir_url == ""
    then err no_directory
    else elim (fetch_verified_consensus v responses now) [
      | err e ↦ err (not_verified e)
      | ok c ↦ ok c.relays
    ]

-- A round of refreshForeignConsensus.
abbrev pub refreshed : BridgeServer → Result ForeignError (List RelayDescriptor) → BridgeServer
refreshed b (err e) = b
refreshed b (ok relays) = record b { foreign_relays = relays }

unfoldable pub refresh_foreign_consensus :
    Verifier → List (Responses × ℤ) → BridgeServer → BridgeServer
refresh_foreign_consensus v [] b = b
refresh_foreign_consensus v ((responses, now) ∷ rounds) b =
    refresh_foreign_consensus v rounds
      (refreshed b (fetch_foreign_consensus v b.config responses now))

-- The dialer of newBridgeServer, from the scheme, the host and the user of the proxy's URL, if it
-- parses.
pub record ProxyUrl : Type 0 where
  pub scheme : String
  pub host : String
  pub user : Option (String × String)

pub data Dialer : Type 0 where
  direct : Dialer
  socks5 : String → Option (String × String) → Dialer

pub data ProxyError : Type 0 where
  bad_url : ProxyError
  no_socks5_dialer : ProxyError
  unsupported_scheme : String → ProxyError

abbrev pub proxy_dialer : Bool → Option ProxyUrl → Result ProxyError Dialer
proxy_dialer socks5_ok none = err bad_url
proxy_dialer socks5_ok (some u) =
    if u.scheme == "socks5"
    then (if socks5_ok then ok (socks5 u.host u.user) else err no_socks5_dialer)
    else err (unsupported_scheme u.scheme)

-- `parse` is url.Parse, and `socks5_ok` whether proxy.SOCKS5 returns a dialer.
unfoldable pub bridge_dialer :
    (String → Option ProxyUrl) → Bool → BridgeServerConfig → Result ProxyError Dialer
bridge_dialer parse socks5_ok config =
    if config.upstream_proxy == ""
    then ok direct
    else proxy_dialer socks5_ok (parse config.upstream_proxy)

-- A bridge that starts: a dialer, and a first consensus, without which it does not serve.
abbrev pub first_relays :
    BridgeServerConfig → Bytes → Result ForeignError (List RelayDescriptor) → Option BridgeServer
first_relays config token (err e) = none
first_relays config token (ok relays) =
    some (record { config = config; token = token; foreign_relays = relays })

unfoldable pub start_bridge :
    Verifier
    → BridgeServerConfig
    → Bytes
    → Result ProxyError Dialer
    → Responses
    → ℤ
    → Option BridgeServer
start_bridge v config token (err e) responses now = none
start_bridge v config token (ok dialer) responses now =
    first_relays config token (fetch_foreign_consensus v config responses now)

-- buildListener: the key pair that LoadX509KeyPair returns, if it does.
pub data Listener : Type 0 where
  tls_listener : String → Listener
  tcp_listener : String → Listener

unfoldable pub build_listener : BridgeServerConfig → Bool → (Listener → Bool) → Option Listener
build_listener config loaded listens =
    let secure = tls_listener config.listen_addr in
    let plain = tcp_listener config.listen_addr in
    if (config.obfs == "tls") && not (config.tls_cert == "") && not (config.tls_key == "")
    then (if loaded && listens secure then some secure else none)
    else if listens plain
    then some plain
    else none
