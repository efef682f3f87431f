-- ===== src/Directory/Refinement.antt =====
-- What the handlers of directory/main.go promise of relays: a register of the newest announcement
-- of each name.
use sbnet.Base.{
  ℕ, ◌≡◌, refl, ap, ◌∙◌, fun_ext, Bool, true, false, Option, none, some, List, [], ◌∷◌, map, String,
  ◌==◌, string_comparable, nat_beq, if◌then◌else◌, Bool-cases, inl, inr,
}
use sbnet.Base.Int.{ℤ}
use Prim.Native.String.{◌++◌}
use sbnet.Base.Maps.{lookup, insert}
use sbnet.Types.{RelayDescriptor, BrokerDescriptor, RegisterRequest, kind_relay, kind_broker}
use sbnet.Directory.{
  DirectoryServer, Mac, hmac_message, hmac_message_of_relay, hmac_message_of_broker, verify_hmac,
  is_role, stamp_relay, stamp_broker, newer_relay, newer_broker, store_relay, store_broker,
  store_registration, handle_register, handle_sync,
}
use sbnet.Directory.Store.{newest, lookup-store_relay, store_relay_invalid, store_broker-relays}
use sbnet.Directory.Register.{
  Register, latest, announce, announce_all, DirectoryRequest, to_register, to_sync, signed_text,
  authentic, valid_relay, relay_in, announced,
}

-- The handlers, one request after the other.
unfoldable pub handle_request : Mac → DirectoryServer → DirectoryRequest → DirectoryServer
handle_request mac s (to_register now body) = (handle_register mac s now body).server
handle_request mac s (to_sync now body) = (handle_sync mac s now body).server

unfoldable pub handle_requests : Mac → DirectoryServer → List DirectoryRequest → DirectoryServer
handle_requests mac s [] = s
handle_requests mac s (q ∷ qs) = handle_requests mac (handle_request mac s q) qs

abbrev pub register_of : DirectoryServer → Register
register_of s id = lookup id s.relays

latest-newest :
    (old : Option RelayDescriptor) (rd : RelayDescriptor) → newest old rd ≡ latest old rd
latest-newest none rd = refl
latest-newest (some old) rd = refl

message_of :
    (given : Option RelayDescriptor)
    → hmac_message_of_relay given ≡ (elim given [
      | none ↦ none
      | some rd ↦ some (rd.id ++ (rd.ip ++ (rd.role ++ rd.public_key)))
    ])
unfolding hmac_message_of_relay
message_of none = refl
message_of (some rd) = refl

broker_message_of :
    (given : Option BrokerDescriptor)
    → hmac_message_of_broker given
      ≡ (elim given [ none ↦ none | some bd ↦ some (bd.id ++ (bd.ip ++ bd.public_key)) ])
unfolding hmac_message_of_broker
broker_message_of none = refl
broker_message_of (some bd) = refl

signed_text-hmac_message :
    (req : RegisterRequest) → hmac_message req ≡ signed_text req.kind req.relay req.broker
unfolding hmac_message
signed_text-hmac_message req = rw (message_of req.relay, broker_message_of req.broker) refl

verify_hmac-authentic :
    (mac : Mac) (s : DirectoryServer) (now : ℤ) (req : RegisterRequest) (window : ℕ)
    → verify_hmac mac s now req window ≡ authentic mac s.reg_secret now req window
unfolding verify_hmac
verify_hmac-authentic mac s now req window = rw (signed_text-hmac_message req) refl

store_relay_refines :
    (s : DirectoryServer) (now : ℤ) (req : RegisterRequest) (b : Bool)
    (given : Option RelayDescriptor) (id : String)
    → lookup id (store_relay s now req b given).0.relays
      ≡ announce (valid_relay now b given) (register_of s) id
store_relay_refines s now req b none id = unfold store_relay in refl
store_relay_refines s now req b (some given) id = elim (Bool-cases (is_role given.role)) [
  | inl valid ↦ rw valid (
      lookup-store_relay s now req b given id valid
      ∙ ap (λ o. if (stamp_relay now b given).id == id then o else lookup id s.relays)
          (latest-newest (lookup id s.relays) (stamp_relay now b given)))
  | inr invalid ↦ rw (invalid, store_relay_invalid s now req b given invalid) refl
]

store_registration_refines :
    (s : DirectoryServer) (now : ℤ) (req : RegisterRequest) (b : Bool) (id : String)
    → lookup id (store_registration s now req b).0.relays
      ≡ announce (relay_in now b req) (register_of s) id
unfolding store_registration
store_registration_refines s now req b id = elim (Bool-cases (req.kind == kind_relay)) [
  | inl relay ↦ rw relay (store_relay_refines s now req b req.relay id)
  | inr other ↦ elim (Bool-cases (req.kind == kind_broker)) [
    | inl broker ↦ rw (other, broker, store_broker-relays s now req b req.broker) refl
    | inr unknown ↦ rw (other, unknown) refl
  ]
]

register_server :
    (mac : Mac) (s : DirectoryServer) (now : ℤ) (req : RegisterRequest)
    → (handle_register mac s now (some req)).server
      ≡ (if authentic mac s.reg_secret now req 30 then (store_registration s now req true).0 else s)
unfolding handle_register
register_server mac s now req = elim (Bool-cases (authentic mac s.reg_secret now req 30)) [
  | inl fine ↦ elim (Bool-cases (nat_beq (store_registration s now req true).1.code 0)) [
    | inl stored ↦ rw (verify_hmac-authentic mac s now req 30, fine, stored) refl
    | inr failed ↦ rw (verify_hmac-authentic mac s now req 30, fine, failed) refl
  ]
  | inr bad ↦ rw (verify_hmac-authentic mac s now req 30, bad) refl
]

sync_server :
    (mac : Mac) (s : DirectoryServer) (now : ℤ) (req : RegisterRequest)
    → (handle_sync mac s now (some req)).server ≡ (
        if authentic mac s.reg_secret now req 120
        then (store_registration s now req false).0
        else s)
unfolding handle_sync
sync_server mac s now req = elim (Bool-cases (authentic mac s.reg_secret now req 120)) [
  | inl fine ↦ elim (Bool-cases (nat_beq (store_registration s now req false).1.code 0)) [
    | inl stored ↦ rw (verify_hmac-authentic mac s now req 120, fine, stored) refl
    | inr failed ↦ rw (verify_hmac-authentic mac s now req 120, fine, failed) refl
  ]
  | inr bad ↦ rw (verify_hmac-authentic mac s now req 120, bad) refl
]

guarded_refines :
    (fine : Bool) (s s' : DirectoryServer) (o : Option RelayDescriptor) (id : String)
    → lookup id s'.relays ≡ announce o (register_of s) id
    → lookup id (if fine then s' else s).relays
      ≡ announce (if fine then o else none) (register_of s) id
guarded_refines true s s' o id h = h
guarded_refines false s s' o id h = refl

handle_request_refines :
    (mac : Mac) (s : DirectoryServer) (q : DirectoryRequest) (id : String)
    → lookup id (handle_request mac s q).relays
      ≡ announce (announced mac s.reg_secret q) (register_of s) id
unfolding handle_request
handle_request_refines mac s (to_register now none) id = unfold handle_register in refl
handle_request_refines mac s (to_register now (some req)) id =
    ap (λ (t : DirectoryServer). lookup id t.relays) (register_server mac s now req)
    ∙ guarded_refines (authentic mac s.reg_secret now req 30) s
        (store_registration s now req true).0 (relay_in now true req) id
        (store_registration_refines s now req true id)
handle_request_refines mac s (to_sync now none) id = unfold handle_sync in refl
handle_request_refines mac s (to_sync now (some req)) id =
    ap (λ (t : DirectoryServer). lookup id t.relays) (sync_server mac s now req)
    ∙ guarded_refines (authentic mac s.reg_secret now req 120) s
        (store_registration s now req false).0 (relay_in now false req) id
        (store_registration_refines s now req false id)

guarded_secret :
    (fine : Bool) (s s' : DirectoryServer)
    → s'.reg_secret ≡ s.reg_secret
    → (if fine then s' else s).reg_secret ≡ s.reg_secret
guarded_secret true s s' h = h
guarded_secret false s s' h = refl

store_relay_secret :
    (s : DirectoryServer) (now : ℤ) (req : RegisterRequest) (b : Bool)
    (given : Option RelayDescriptor)
    → (store_relay s now req b given).0.reg_secret ≡ s.reg_secret
unfolding store_relay
store_relay_secret s now req b none = refl
store_relay_secret s now req b (some given) = elim (Bool-cases (is_role given.role)) [
  | inl valid ↦
      let rd = stamp_relay now b given in
      rw (valid, store_relay)
        (guarded_secret (newer_relay (lookup rd.id s.relays) rd.last_seen) s
          (record s { relays = insert rd.id rd s.relays }) refl)
  | inr invalid ↦ rw (store_relay_invalid s now req b given invalid) refl
]

store_broker_secret :
    (s : DirectoryServer) (now : ℤ) (req : RegisterRequest) (b : Bool)
    (given : Option BrokerDescriptor)
    → (store_broker s now req b given).0.reg_secret ≡ s.reg_secret
unfolding store_broker
store_broker_secret s now req b none = refl
store_broker_secret s now req b (some given) =
    let bd = stamp_broker now b given in
    guarded_secret (newer_broker (lookup bd.id s.brokers) bd.last_seen) s
      (record s { brokers = insert bd.id bd s.brokers }) refl

store_registration_secret :
    (s : DirectoryServer) (now : ℤ) (req : RegisterRequest) (b : Bool)
    → (store_registration s now req b).0.reg_secret ≡ s.reg_secret
unfolding store_registration
store_registration_secret s now req b = elim (Bool-cases (req.kind == kind_relay)) [
  | inl relay ↦ rw relay (store_relay_secret s now req b req.relay)
  | inr other ↦ elim (Bool-cases (req.kind == kind_broker)) [
    | inl broker ↦ rw (other, broker) (store_broker_secret s now req b req.broker)
    | inr unknown ↦ rw (other, unknown) refl
  ]
]

handle_request_secret :
    (mac : Mac) (s : DirectoryServer) (q : DirectoryRequest)
    → (handle_request mac s q).reg_secret ≡ s.reg_secret
unfolding handle_request
handle_request_secret mac s (to_register now none) = unfold handle_register in refl
handle_request_secret mac s (to_register now (some req)) =
    ap (λ (t : DirectoryServer). t.reg_secret) (register_server mac s now req)
    ∙ guarded_secret (authentic mac s.reg_secret now req 30) s _
        (store_registration_secret s now req true)
handle_request_secret mac s (to_sync now none) = unfold handle_sync in refl
handle_request_secret mac s (to_sync now (some req)) =
    ap (λ (t : DirectoryServer). t.reg_secret) (sync_server mac s now req)
    ∙ guarded_secret (authentic mac s.reg_secret now req 120) s _
        (store_registration_secret s now req false)

-- The handlers implement the register of the newest announcements. Whatever requests come to the
-- two handlers, in any order and at any times, what the directory then holds under a name is what
-- the announcements give that are in the authentic requests of a relay with a valid role, the
-- newest for each name and the earlier one among equals; and which relay a request announces does
-- not depend on what came before it.
pub handle_requests_refines :
    (mac : Mac) (s : DirectoryServer) (qs : List DirectoryRequest) (id : String)
    → lookup id (handle_requests mac s qs).relays
      ≡ announce_all (map (announced mac s.reg_secret) qs) (register_of s) id
unfolding handle_requests
handle_requests_refines mac s [] id = refl
handle_requests_refines mac s (q ∷ qs) id =
    handle_requests_refines mac (handle_request mac s q) qs id
    ∙ ap
        (λ secret.
          announce_all (map (announced mac secret) qs) (register_of (handle_request mac s q)) id)
        (handle_request_secret mac s q)
    ∙ ap (λ (held : Register). announce_all (map (announced mac s.reg_secret) qs) held id)
        (fun_ext (λ i. handle_request_refines mac s q i))
