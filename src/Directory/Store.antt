-- ===== src/Directory/Store.antt =====
-- storeRegistration of directory/main.go: what it keeps of each node.
use sbnet.Base.{
  ◌≡◌, refl, ◌∙◌, Bool, true, false, Option, none, some, String, arith, ◌==◌, string_comparable,
  nat_beq, if◌then◌else◌, Bool-cases, inl, inr,
}
use sbnet.Base.Int.{ℤ, ◌≤ℤ◌, ltb_ℤ}
use sbnet.Base.Maps.{Map, lookup, insert, lookup-insert_if}
use sbnet.Types.{RelayDescriptor, BrokerDescriptor, RegisterRequest, kind_relay, kind_broker}
use sbnet.Directory.{
  DirectoryServer, is_role, newer_relay, newer_broker, stamp_relay, stamp_broker, refused,
  store_relay, store_broker, store_registration,
}

-- What is held under the name of a node after a descriptor with that name arrives.
abbrev pub newest : Option RelayDescriptor → RelayDescriptor → Option RelayDescriptor
newest old rd = if newer_relay old rd.last_seen then some rd else old

abbrev pub newest_broker : Option BrokerDescriptor → BrokerDescriptor → Option BrokerDescriptor
newest_broker old bd = if newer_broker old bd.last_seen then some bd else old

if_relays :
    (b : Bool) (s : DirectoryServer) (m : Map String RelayDescriptor)
    → (if b then record s { relays = m } else s).relays ≡ (if b then m else s.relays)
if_relays true s m = refl
if_relays false s m = refl

if_relays-brokers :
    (b : Bool) (s : DirectoryServer) (m : Map String RelayDescriptor)
    → (if b then record s { relays = m } else s).brokers ≡ s.brokers
if_relays-brokers true s m = refl
if_relays-brokers false s m = refl

if_brokers :
    (b : Bool) (s : DirectoryServer) (m : Map String BrokerDescriptor)
    → (if b then record s { brokers = m } else s).brokers ≡ (if b then m else s.brokers)
if_brokers true s m = refl
if_brokers false s m = refl

-- A relay registration with a valid role changes its own entry only, and that to the newest.
pub lookup-store_relay :
    (s : DirectoryServer) (now : ℤ) (req : RegisterRequest) (stamp_now : Bool)
    (given : RelayDescriptor) (id : String)
    → is_role given.role ≡ true
    → lookup id (store_relay s now req stamp_now (some given)).0.relays ≡ (
        if (stamp_relay now stamp_now given).id == id
        then newest (lookup id s.relays) (stamp_relay now stamp_now given)
        else lookup id s.relays)
unfolding store_relay
lookup-store_relay s now req stamp_now given id h =
    let rd = stamp_relay now stamp_now given in
    rw
      (h, if_relays (newer_relay (lookup rd.id s.relays) rd.last_seen) s (insert rd.id rd s.relays))
      (lookup-insert_if (λ o. newer_relay o rd.last_seen) rd.id id rd s.relays)

pub lookup-store_broker :
    (s : DirectoryServer) (now : ℤ) (req : RegisterRequest) (stamp_now : Bool)
    (given : BrokerDescriptor) (id : String)
    → lookup id (store_broker s now req stamp_now (some given)).0.brokers ≡ (
        if (stamp_broker now stamp_now given).id == id
        then newest_broker (lookup id s.brokers) (stamp_broker now stamp_now given)
        else lookup id s.brokers)
unfolding store_broker
lookup-store_broker s now req stamp_now given id =
    let bd = stamp_broker now stamp_now given in
    rw
      (if_brokers (newer_broker (lookup bd.id s.brokers) bd.last_seen) s
        (insert bd.id bd s.brokers))
      (lookup-insert_if (λ o. newer_broker o bd.last_seen) bd.id id bd s.brokers)

-- No node is forgotten, and what is held of it is never replaced by something older.
pub record Keeps (s t : DirectoryServer) : Type 0 where
  pub relays :
      (id : String) (old : RelayDescriptor)
      → lookup id s.relays ≡ some old
      → (new : RelayDescriptor) × (lookup id t.relays ≡ some new) × (old.last_seen ≤ℤ new.last_seen)
  pub brokers :
      (id : String) (old : BrokerDescriptor)
      → lookup id s.brokers ≡ some old
      → (new : BrokerDescriptor) × (lookup id t.brokers ≡ some new)
        × (old.last_seen ≤ℤ new.last_seen)

pub Keeps-refl : (s : DirectoryServer) → Keeps s s
Keeps-refl s = record {
  relays = λ id old e. (old, e, omega arith);
  brokers = λ id old e. (old, e, omega arith);
}

newest_grows :
    (same : Bool) (old rd : RelayDescriptor)
    → (new : RelayDescriptor) × ((if same then newest (some old) rd else some old) ≡ some new)
      × (old.last_seen ≤ℤ new.last_seen)
newest_grows false old rd = (old, refl, omega arith)
newest_grows true old rd = elim (Bool-cases (ltb_ℤ old.last_seen rd.last_seen)) [
  | inl later ↦ (rd, rw later, ground arith)
  | inr sooner ↦ (old, rw sooner, omega arith)
]

newest_broker_grows :
    (same : Bool) (old bd : BrokerDescriptor)
    → (new : BrokerDescriptor) × ((if same then newest_broker (some old) bd else some old)
        ≡ some new)
      × (old.last_seen ≤ℤ new.last_seen)
newest_broker_grows false old bd = (old, refl, omega arith)
newest_broker_grows true old bd = elim (Bool-cases (ltb_ℤ old.last_seen bd.last_seen)) [
  | inl later ↦ (bd, rw later, ground arith)
  | inr sooner ↦ (old, rw sooner, omega arith)
]

pub store_relay-brokers :
    (s : DirectoryServer) (now : ℤ) (req : RegisterRequest) (stamp_now : Bool)
    (given : Option RelayDescriptor)
    → (store_relay s now req stamp_now given).0.brokers ≡ s.brokers
unfolding store_relay
store_relay-brokers s now req stamp_now none = refl
store_relay-brokers s now req stamp_now (some given) = elim (Bool-cases (is_role given.role)) [
  | inl valid ↦ rw (valid, store_relay) (if_relays-brokers _ s _)
  | inr invalid ↦ rw (invalid, store_relay)
]

pub store_broker-relays :
    (s : DirectoryServer) (now : ℤ) (req : RegisterRequest) (stamp_now : Bool)
    (given : Option BrokerDescriptor)
    → (store_broker s now req stamp_now given).0.relays ≡ s.relays
unfolding store_broker
store_broker-relays s now req stamp_now none = refl
store_broker-relays s now req stamp_now (some given) = ground arith

pub store_relay_invalid :
    (s : DirectoryServer) (now : ℤ) (req : RegisterRequest) (stamp_now : Bool)
    (given : RelayDescriptor)
    → is_role given.role ≡ false
    → store_relay s now req stamp_now (some given) ≡ (s, refused req "invalid role")
unfolding store_relay
store_relay_invalid s now req stamp_now given h = rw h

store_relay-Keeps :
    (s : DirectoryServer) (now : ℤ) (req : RegisterRequest) (stamp_now : Bool)
    (given : Option RelayDescriptor)
    → Keeps s (store_relay s now req stamp_now given).0
store_relay-Keeps s now req stamp_now none = unfold store_relay in Keeps-refl s
store_relay-Keeps s now req stamp_now (some given) = elim (Bool-cases (is_role given.role)) [
  | inl valid ↦ record {
    relays = λ id old e.
        let rd = stamp_relay now stamp_now given in
        let (new, is_new, grows) = newest_grows (rd.id == id) old rd in
        (new, lookup-store_relay s now req stamp_now given id valid ∙ rw e is_new, grows);
    brokers =
        λ id old e. (old, rw (store_relay-brokers s now req stamp_now (some given)) e, omega arith);
  }
  | inr invalid ↦ rw (store_relay_invalid s now req stamp_now given invalid) (Keeps-refl s)
]

store_broker-Keeps :
    (s : DirectoryServer) (now : ℤ) (req : RegisterRequest) (stamp_now : Bool)
    (given : Option BrokerDescriptor)
    → Keeps s (store_broker s now req stamp_now given).0
store_broker-Keeps s now req stamp_now none = unfold store_broker in Keeps-refl s
store_broker-Keeps s now req stamp_now (some given) = record {
  relays =
      λ id old e. (old, rw (store_broker-relays s now req stamp_now (some given)) e, omega arith);
  brokers = λ id old e.
      let bd = stamp_broker now stamp_now given in
      let (new, is_new, grows) = newest_broker_grows (bd.id == id) old bd in
      (new, lookup-store_broker s now req stamp_now given id ∙ rw e is_new, grows);
}

pub store_registration-Keeps :
    (s : DirectoryServer) (now : ℤ) (req : RegisterRequest) (stamp_now : Bool)
    → Keeps s (store_registration s now req stamp_now).0
unfolding store_registration
store_registration-Keeps s now req stamp_now = elim (Bool-cases (req.kind == kind_relay)) [
  | inl relay ↦ rw relay (store_relay-Keeps s now req stamp_now req.relay)
  | inr other ↦ elim (Bool-cases (req.kind == kind_broker)) [
    | inl broker ↦ rw (other, broker) (store_broker-Keeps s now req stamp_now req.broker)
    | inr unknown ↦ rw (other, unknown) (Keeps-refl s)
  ]
]

store_relay_error :
    (s : DirectoryServer) (now : ℤ) (req : RegisterRequest) (stamp_now : Bool)
    (given : Option RelayDescriptor)
    → nat_beq (store_relay s now req stamp_now given).1.code 0 ≡ false
    → (store_relay s now req stamp_now given).0 ≡ s
store_relay_error s now req stamp_now none h = unfold store_relay in refl
store_relay_error s now req stamp_now (some given) h = elim (Bool-cases (is_role given.role)) [
  | inl valid ↦ unfold store_relay in cc (rw (valid, store_relay) at h)
  | inr invalid ↦ rw (store_relay_invalid s now req stamp_now given invalid)
]

store_broker_error :
    (s : DirectoryServer) (now : ℤ) (req : RegisterRequest) (stamp_now : Bool)
    (given : Option BrokerDescriptor)
    → nat_beq (store_broker s now req stamp_now given).1.code 0 ≡ false
    → (store_broker s now req stamp_now given).0 ≡ s
unfolding store_broker
store_broker_error s now req stamp_now none h = refl
store_broker_error s now req stamp_now (some given) h = cc

-- An error leaves the server as it was.
pub store_registration_error :
    (s : DirectoryServer) (now : ℤ) (req : RegisterRequest) (stamp_now : Bool)
    → nat_beq (store_registration s now req stamp_now).1.code 0 ≡ false
    → (store_registration s now req stamp_now).0 ≡ s
unfolding store_registration
store_registration_error s now req stamp_now h = elim (Bool-cases (req.kind == kind_relay)) [
  | inl relay ↦ rw relay (store_relay_error s now req stamp_now req.relay (rw relay at h))
  | inr other ↦ elim (Bool-cases (req.kind == kind_broker)) [
    | inl broker ↦
        rw (other, broker)
          (store_broker_error s now req stamp_now req.broker (rw (other, broker) at h))
    | inr unknown ↦ rw (other, unknown)
  ]
]
