-- ===== src/Directory.antt =====
-- directory/main.go: the directory authority. The clock, the HMAC, the signature, the JSON encoder
-- and the decoded requests are arguments; the rate limiter stands in front of the handlers and is
-- not modelled.
pub mod Auth
pub mod Store
pub mod Gossip
pub mod Merge
pub mod Valid
pub mod Listing
pub mod Register
pub mod Refinement
use sbnet.Base.{
  ℕ, Bool, true, false, ◌&&◌, ◌||◌, not, Option, none, some, List, [], ◌∷◌, map, String, ◌==◌,
  string_comparable, nat_beq, if◌then◌else◌, Result, ok, err, ◌>>=◌, or_fail,
}
use sbnet.Base.Int.{ℤ, ◌-ℤ◌, ltb_ℤ, out_of_window}
use sbnet.Base.Maps.{Map, lookup, insert}
use sbnet.Types.{
  RelayDescriptor, BrokerDescriptor, RegisterRequest, SignedConsensus, kind_relay, kind_broker,
}
use Prim.Native.String.{◌++◌}

pub record DirectoryServer : Type 0 where
  pub reg_secret : String
  pub peer_dirs : List String
  pub consensus_max_age : ℤ
  pub relays : Map String RelayDescriptor
  pub brokers : Map String BrokerDescriptor

-- hex(HMAC-SHA256(secret, message))
abbrev pub Mac : Type 0
Mac = String → String → String

pub hmac_message_of_relay : Option RelayDescriptor → Option String
hmac_message_of_relay none = none
hmac_message_of_relay (some rd) = some (rd.id ++ (rd.ip ++ (rd.role ++ rd.public_key)))

pub hmac_message_of_broker : Option BrokerDescriptor → Option String
hmac_message_of_broker none = none
hmac_message_of_broker (some bd) = some (bd.id ++ (bd.ip ++ bd.public_key))

-- The pair ("", false) is `none`.
unfoldable pub hmac_message : RegisterRequest → Option String
unfolding hmac_message_of_relay hmac_message_of_broker
hmac_message req =
    if req.kind == kind_relay
    then hmac_message_of_relay req.relay
    else if req.kind == kind_broker
    then hmac_message_of_broker req.broker
    else none

unfoldable pub verify_hmac : Mac → DirectoryServer → ℤ → RegisterRequest → ℕ → Bool
verify_hmac mac s now req window =
    let delta = now -ℤ req.timestamp in
    if out_of_window window delta
    then false
    else elim (hmac_message req) [ none ↦ false | some msg ↦ req.hmac == mac s.reg_secret msg ]

-- What storeRegistration returns, beside the new server.
pub record Stored : Type 0 where
  pub out : RegisterRequest
  pub changed : Bool
  pub msg : String
  pub code : ℕ

-- `old, ok := m[id]; !ok || last_seen > old.LastSeen`
abbrev pub newer_relay : Option RelayDescriptor → ℤ → Bool
newer_relay none last_seen = true
newer_relay (some old) last_seen = ltb_ℤ old.last_seen last_seen

abbrev pub newer_broker : Option BrokerDescriptor → ℤ → Bool
newer_broker none last_seen = true
newer_broker (some old) last_seen = ltb_ℤ old.last_seen last_seen

abbrev pub is_role : String → Bool
is_role role = (role == "entry") || ((role == "middle") || (role == "exit"))

abbrev pub refused : RegisterRequest → String → Stored
refused req msg = record { out = req; changed = false; msg = msg; code = 400 }

abbrev pub stamp_relay : ℤ → Bool → RelayDescriptor → RelayDescriptor
stamp_relay now stamp_now rd = if stamp_now then record rd { last_seen = now } else rd

abbrev pub stamp_broker : ℤ → Bool → BrokerDescriptor → BrokerDescriptor
stamp_broker now stamp_now bd = if stamp_now then record bd { last_seen = now } else bd

-- The two cases of the switch in storeRegistration.
unfoldable pub store_relay :
    DirectoryServer → ℤ → RegisterRequest → Bool → Option RelayDescriptor → DirectoryServer × Stored
store_relay s now req stamp_now none = (s, refused req "missing relay")
store_relay s now req stamp_now (some given) =
    if not (is_role given.role)
    then (s, refused req "invalid role")
    else let rd = stamp_relay now stamp_now given in
      let changed = newer_relay (lookup rd.id s.relays) rd.last_seen in
      (
        if changed then record s { relays = insert rd.id rd s.relays } else s,
        record { out = record req { relay = some rd }; changed = changed; msg = ""; code = 0 },
      )

unfoldable pub store_broker :
    DirectoryServer
    → ℤ
    → RegisterRequest
    → Bool
    → Option BrokerDescriptor
    → DirectoryServer × Stored
store_broker s now req stamp_now none = (s, refused req "missing broker")
store_broker s now req stamp_now (some given) =
    let bd = stamp_broker now stamp_now given in
    let changed = newer_broker (lookup bd.id s.brokers) bd.last_seen in
    (
      if changed then record s { brokers = insert bd.id bd s.brokers } else s,
      record { out = record req { broker = some bd }; changed = changed; msg = ""; code = 0 },
    )

unfoldable pub store_registration :
    DirectoryServer → ℤ → RegisterRequest → Bool → DirectoryServer × Stored
store_registration s now req stamp_now =
    if req.kind == kind_relay
    then store_relay s now req stamp_now req.relay
    else if req.kind == kind_broker
    then store_broker s now req stamp_now req.broker
    else (s, refused req "unknown kind")

-- One POST to a peer's /sync.
pub record Post : Type 0 where
  pub peer : String
  pub request : RegisterRequest

unfoldable pub gossip : Mac → DirectoryServer → ℤ → RegisterRequest → List Post
gossip mac s now req = elim (hmac_message req) [
  | none ↦ []
  | some msg ↦
      let out = record req { timestamp = now; hmac = mac s.reg_secret msg } in
      map (λ peer. record { peer = peer; request = out }) s.peer_dirs
]

-- A status line with a body.
pub record Reply : Type 0 where
  pub status : ℕ
  pub body : String

-- What a handler leaves: the server, the reply, and the posts to its peers.
pub record Handled : Type 0 where
  pub server : DirectoryServer
  pub reply : Reply
  pub posts : List Post

abbrev pub rejected : DirectoryServer → ℕ → String → Handled
rejected s status body = record {
  server = s;
  reply = record { status = status; body = body };
  posts = [];
}

-- `none` stands for a body that does not decode.
unfoldable pub handle_register : Mac → DirectoryServer → ℤ → Option RegisterRequest → Handled
handle_register mac s now none = rejected s 400 "bad request"
handle_register mac s now (some req) =
    if not (verify_hmac mac s now req 30)
    then rejected s 401 "unauthorized"
    else let (s', stored) = store_registration s now req true in
      if not (nat_beq stored.code 0) then rejected s' stored.code stored.msg else record {
        server = s';
        reply = record { status = 200; body = "" };
        posts = if stored.changed then gossip mac s' now stored.out else [];
      }

unfoldable pub handle_sync : Mac → DirectoryServer → ℤ → Option RegisterRequest → Handled
handle_sync mac s now none = rejected s 400 "bad request"
handle_sync mac s now (some req) =
    if not (verify_hmac mac s now req 120)
    then rejected s 401 "unauthorized"
    else let (s', stored) = store_registration s now req false in
      if not (nat_beq stored.code 0) then rejected s' stored.code stored.msg else rejected s' 200 ""

-- `for _, rd := range s.relays`: those that are fresh. (Go's order of a map is not specified.)
unfoldable pub fresh_relays : ℤ → ℤ → Map String RelayDescriptor → List RelayDescriptor
fresh_relays now max_age [] = []
fresh_relays now max_age ((k, rd) ∷ m) =
    let rest = fresh_relays now max_age m in
    if ltb_ℤ (now -ℤ rd.last_seen) max_age then rd ∷ rest else rest

unfoldable pub fresh_brokers : ℤ → ℤ → Map String BrokerDescriptor → List BrokerDescriptor
fresh_brokers now max_age [] = []
fresh_brokers now max_age ((k, bd) ∷ m) =
    let rest = fresh_brokers now max_age m in
    if ltb_ℤ (now -ℤ bd.last_seen) max_age then bd ∷ rest else rest

-- encoding/json on the two lists, and the hexadecimal ed25519 signature of a text.
pub record Publisher : Type 0 where
  pub relays_json : List RelayDescriptor → Option String
  pub brokers_json : List BrokerDescriptor → Option String
  pub sign : String → String

abbrev internal_error : Reply
internal_error = record { status = 500; body = "internal error" }

unfoldable pub handle_consensus : Publisher → DirectoryServer → ℤ → Result Reply SignedConsensus
handle_consensus p s now = do
  let relay_list = fresh_relays now s.consensus_max_age s.relays
  let broker_list = fresh_brokers now s.consensus_max_age s.brokers
  relays_json ← or_fail (p.relays_json relay_list) internal_error
  brokers_json ← or_fail (p.brokers_json broker_list) internal_error
  ok (record {
    relays = relay_list;
    brokers = broker_list;
    timestamp = now;
    signature = p.sign (relays_json ++ brokers_json);
    relays_json = relays_json;
    brokers_json = brokers_json;
  })
