-- ===== src/Examples/Bridges.antt =====
-- The bridge at concrete inputs, with a client and an entry relay.
use mathlib.Core.List.{Memᴰ}
use sbnet.Base.{
  ◌==◌, false, ◌≡◌, ◌≢◌, refl, true, some, none, [], ◌∷◌, List, arith, length, map, ok, err, ◌>>=◌,
  ◌⊎◌, ◌<◌, ◌≤◌, nat_comparable, string_comparable,
}
use sbnet.Base.Bytes.{Bytes}
use sbnet.Base.Query.Printed.{byte-IsPlain}
use sbnet.Base.Int.{ℤ, pos}
use sbnet.Types.{RelayDescriptor, BridgeConfig, SignedConsensus}
use sbnet.Config.{BridgeServerConfig}
use sbnet.Cell.{Cell, cell_of, empty_body, cmd_create, cmd_created, cmd_relay}
use sbnet.Cell.Wire.{transmit, cell_of-Carries}
use sbnet.Crypto.{gen_key_pair}
use sbnet.Crypto.Toy.{toy_exchange}
use sbnet.Relay.{RelayServer}
use sbnet.Client.Dial.{dial_bridge, token_too_long}
use sbnet.Client.Uri.{parse_bridge_uri, require_token, parse_bridge_uri_lem}
use sbnet.Bridge.{
  BridgeServer, Upstream, bridge_sentinel, hang_up, parse_handshake, pick_foreign_entry,
  foreign_dial, foreign_secure, handle_client_conn, pipe, refresh_foreign_consensus, direct,
  start_bridge, fetch_foreign_consensus,
}
use sbnet.Bridge.Uri.{no_token, bridge_uri, AllPlain, completed, parse_bridge_uri as bridge_parse}
use sbnet.Bridge.Handshake.{Admitted, handshake_accepted, session-Admitted}
use sbnet.Bridge.Tunnel.{AllCarry, pipe_carries}
use sbnet.Bridge.Foreign.{Verified, AllFail, foreign_relays-Verified}
use sbnet.Consensus.{Responses, fetch_verified_consensus}
use sbnet.Timeout.{same_bytes}
use sbnet.Examples.{constant_noise, key_a, key_b}
use sbnet.Examples.Directories.{verifier, responses, listed, fetched}

abbrev token_a : Bytes
token_a = 115 ∷ 101 ∷ []

abbrev token_b : Bytes
token_b = 120 ∷ []

handshake_accepted_example :
    (length token_a ≤ 471
      → (cell : Cell) × (got : Cell) × (dial_bridge toy_exchange constant_noise true true token_a
          ≡ ok cell)
        × (transmit 3 constant_noise cell ≡ ok got)
        × (token_a ≡ token_b
            → parse_handshake token_b (ok got) ≡ some (gen_key_pair toy_exchange constant_noise).1)
        × (token_a ≢ token_b → parse_handshake token_b (ok got) ≡ none))
    × (471 < length token_a
        → dial_bridge toy_exchange constant_noise true true token_a ≡ err token_too_long)
handshake_accepted_example =
    handshake_accepted toy_exchange constant_noise 3 constant_noise token_a token_b

abbrev entry_relay : RelayDescriptor
entry_relay = record {
  id = "e";
  ip = "10.0.0.1";
  port = pos 9001;
  role = "entry";
  public_key = "";
  country = "";
  region = "";
  oper_mode = "";
  bandwidth = pos 1;
  version = "";
  last_seen = pos 0;
}

abbrev bridge_config : BridgeServerConfig
bridge_config = record {
  foreign_dir_url = "https://dir";
  foreign_dir_tls_ca = "";
  upstream_proxy = "";
  listen_addr = ":9000";
  token = "se";
  obfs = "none";
  mode = "secure";
  tls_cert = "";
  tls_key = "";
  key_file = "";
  log_level = "info";
}

abbrev bridge : BridgeServer
bridge = record { config = bridge_config; token = token_a; foreign_relays = entry_relay ∷ [] }

abbrev created : Cell
created = cell_of 7 cmd_created key_b

abbrev upstream : Upstream
upstream = record {
  dial = λ ip port. some 2;
  tls_handshake = λ conn. true;
  obfs_handshake = λ conn. true;
  answer = λ conn c. ok created;
}

abbrev first_cell : Cell
first_cell = cell_of bridge_sentinel cmd_create (0 ∷ 2 ∷ 115 ∷ 101 ∷ key_a)

session-Admitted_example :
    (handle_client_conn upstream bridge 1 0 7 true (ok first_cell) ≡ hang_up 1 ∷ [])
    ⊎ ((true ≡ true) × Admitted bridge.token (ok first_cell))
session-Admitted_example = session-Admitted upstream bridge 1 0 7 true (ok first_cell)

parses : parse_handshake bridge.token (ok first_cell) ≡ some key_a
unfolding parse_handshake cell_of empty_body same_bytes
parses = refl

dials : foreign_dial upstream bridge entry_relay ≡ (some 2, [])
unfolding foreign_dial foreign_secure
dials = refl

abbrev relayed : Cell
relayed = cell_of bridge_sentinel cmd_relay (1 ∷ 2 ∷ 3 ∷ [])

pipe_carries_example :
    (gots : List Cell) × (map
        (transmit 4 constant_noise)
        (pipe 7 (λ i. true) (map (transmit 3 constant_noise) (relayed ∷ [])))
      ≡ map ok gots)
    × AllCarry 7 ((cmd_relay, 1 ∷ 2 ∷ 3 ∷ []) ∷ []) gots
pipe_carries_example =
    pipe_carries 3 4 constant_noise constant_noise bridge_sentinel 7
      ((cmd_relay, 1 ∷ 2 ∷ 3 ∷ []) ∷ []) (relayed ∷ []) (omega arith)
      (
        cell_of-Carries bridge_sentinel cmd_relay (1 ∷ 2 ∷ 3 ∷ []) (omega arith) (omega arith)
            (omega arith),
        _,
      )

abbrev no_circuits : RelayServer
no_circuits = record { role = "entry"; circuits = []; reasm = []; timeout = [] }

starts :
    start_bridge verifier bridge_config token_a (ok direct) responses (pos 640)
    ≡ some (record bridge { foreign_relays = listed.relays })
unfolding start_bridge fetch_foreign_consensus
starts = rw fetched refl

foreign_relays-Verified_example :
    let later =
      refresh_foreign_consensus verifier
        ((responses, pos 640) ∷ [])
        (record bridge { foreign_relays = listed.relays }) in
    Verified verifier ((responses, pos 640) ∷ (responses, pos 640) ∷ []) later.foreign_relays
    × ((failing : List (Responses × ℤ))
        → AllFail verifier failing
        → (refresh_foreign_consensus verifier failing later).foreign_relays ≡ later.foreign_relays)
    × ((received : Responses) (time : ℤ) (c : SignedConsensus)
        → (later.config.foreign_dir_url == "") ≡ false
        → fetch_verified_consensus verifier received time ≡ ok c
        → (refresh_foreign_consensus verifier ((received, time) ∷ []) later).foreign_relays
          ≡ c.relays)
    × ((entry : RelayDescriptor)
        → pick_foreign_entry 0 later ≡ some entry
        → Memᴰ entry later.foreign_relays × (entry.role ≡ "entry"))
foreign_relays-Verified_example =
    foreign_relays-Verified verifier bridge_config token_a (ok direct) responses (pos 640)
      (record bridge { foreign_relays = listed.relays }) ((responses, pos 640) ∷ []) 0 starts

abbrev bridge_address : BridgeConfig
bridge_address = record { endpoint = 104 ∷ 58 ∷ 57 ∷ []; token = token_a; obfs = []; mode = [] }

address-AllPlain : AllPlain bridge_address
address-AllPlain = record {
  endpoint = (byte-IsPlain 104 refl, (byte-IsPlain 58 refl, (byte-IsPlain 57 refl, _)));
  token = (byte-IsPlain 115 refl, (byte-IsPlain 101 refl, _));
  obfs = _;
  mode = _;
}

parse_bridge_uri_lem_example :
    (parse_bridge_uri token_a ≡ (bridge_parse token_a >>= require_token))
    × (bridge_parse (bridge_uri bridge_address) ≡ ok (completed bridge_address))
    × (bridge_address.token ≢ []
        → parse_bridge_uri (bridge_uri bridge_address) ≡ ok (completed bridge_address))
    × (bridge_address.token ≡ [] → parse_bridge_uri (bridge_uri bridge_address) ≡ err no_token)
parse_bridge_uri_lem_example =
    parse_bridge_uri_lem token_a bridge_address address-AllPlain (λ e. absurd cc)
