-- ===== src/Directory/Valid.antt =====
-- The invariant of the two maps of directory/main.go.
use sbnet.Base.{
  ◌≡◌, refl, sym, ap, ◌∙◌, Bool, true, false, Option, none, some, String, ◌==◌, string_comparable,
  if◌then◌else◌, Bool-cases, if_some, inl, inr, ◌⊎◌,
}
use sbnet.Base.Int.{ℤ, ltb_ℤ}
use sbnet.Base.Maps.{Map, lookup}
use sbnet.Types.{RelayDescriptor, BrokerDescriptor, RegisterRequest, kind_relay, kind_broker}
use sbnet.Directory.{
  DirectoryServer, Mac, is_role, stamp_relay, store_relay, store_broker, store_registration,
  handle_register, handle_sync, Handled, stamp_broker,
}
use sbnet.Directory.Store.{
  newest, newest_broker, lookup-store_relay, lookup-store_broker, store_relay_invalid,
  store_relay-brokers, store_broker-relays,
}
use text.Mathlib.TextEquality.{eq_iff}

-- Every entry stands under its node's name, and a relay's role is one of the three.
pub record IsValid (s : DirectoryServer) : Type 0 where
  pub relay_entry :
      (id : String) (rd : RelayDescriptor)
      → lookup id s.relays ≡ some rd
      → (rd.id ≡ id) × (is_role rd.role ≡ true)
  pub broker_entry :
      (id : String) (bd : BrokerDescriptor) → lookup id s.brokers ≡ some bd → bd.id ≡ id

stamped_role : (now : ℤ) (b : Bool) (rd : RelayDescriptor) → (stamp_relay now b rd).role ≡ rd.role
stamped_role now true rd = refl
stamped_role now false rd = refl

newest_cases :
    (o : Option RelayDescriptor) (given rd : RelayDescriptor)
    → newest o given ≡ some rd
    → (rd ≡ given) ⊎ (o ≡ some rd)
newest_cases none given rd e = if_some true given rd none e
newest_cases (some old) given rd e =
    if_some (ltb_ℤ old.last_seen given.last_seen) given rd (some old) e

newest_broker_cases :
    (o : Option BrokerDescriptor) (given bd : BrokerDescriptor)
    → newest_broker o given ≡ some bd
    → (bd ≡ given) ⊎ (o ≡ some bd)
newest_broker_cases none given bd e = if_some true given bd none e
newest_broker_cases (some old) given bd e =
    if_some (ltb_ℤ old.last_seen given.last_seen) given bd (some old) e

store_relay-IsValid :
    (s : DirectoryServer) (now : ℤ) (req : RegisterRequest) (b : Bool)
    (given : Option RelayDescriptor)
    → IsValid s
    → IsValid (store_relay s now req b given).0
store_relay-IsValid s now req b none v = unfold store_relay in v
store_relay-IsValid s now req b (some given) v = elim (Bool-cases (is_role given.role)) [
  | inl valid ↦ record {
    relay_entry = λ id rd e.
        relay_after id rd (Bool-cases ((stamp_relay now b given).id == id))
          (sym (lookup-store_relay s now req b given id valid) ∙ e) valid;
    broker_entry = λ id bd e. v.broker_entry id bd (
        sym (
          ap (λ (m : Map String BrokerDescriptor). lookup id m)
            (store_relay-brokers s now req b (some given)))
        ∙ e);
  }
  | inr invalid ↦ rw (store_relay_invalid s now req b given invalid) v
]
  where
    relay_after :
        (id : String) (rd : RelayDescriptor)
        → (((stamp_relay now b given).id == id) ≡ true)
          ⊎ (((stamp_relay now b given).id == id) ≡ false)
        → (if (stamp_relay now b given).id == id
            then newest (lookup id s.relays) (stamp_relay now b given)
            else lookup id s.relays)
          ≡ some rd
        → is_role given.role ≡ true
        → (rd.id ≡ id) × (is_role rd.role ≡ true)
    relay_after id rd (inl same) e valid =
        elim (newest_cases (lookup id s.relays) (stamp_relay now b given) rd (rw same at e)) [
          | inl new ↦
              rw new (
                (eq_iff (stamp_relay now b given).id id).0 same,
                rw (stamped_role now b given) valid,
              )
          | inr old ↦ v.relay_entry id rd old
        ]
    relay_after id rd (inr other) e valid = v.relay_entry id rd (rw other at e)

store_broker-IsValid :
    (s : DirectoryServer) (now : ℤ) (req : RegisterRequest) (b : Bool)
    (given : Option BrokerDescriptor)
    → IsValid s
    → IsValid (store_broker s now req b given).0
store_broker-IsValid s now req b none v = unfold store_broker in v
store_broker-IsValid s now req b (some given) v = record {
  relay_entry = λ id rd e. v.relay_entry id rd (
      sym (
        ap (λ (m : Map String RelayDescriptor). lookup id m)
          (store_broker-relays s now req b (some given)))
      ∙ e);
  broker_entry = λ id bd e.
      broker_after id bd (Bool-cases ((stamp_broker now b given).id == id))
        (sym (lookup-store_broker s now req b given id) ∙ e);
}
  where
    broker_after :
        (id : String) (bd : BrokerDescriptor)
        → (((stamp_broker now b given).id == id) ≡ true)
          ⊎ (((stamp_broker now b given).id == id) ≡ false)
        → (if (stamp_broker now b given).id == id
            then newest_broker (lookup id s.brokers) (stamp_broker now b given)
            else lookup id s.brokers)
          ≡ some bd
        → bd.id ≡ id
    broker_after id bd (inl same) e =
        elim (newest_broker_cases (lookup id s.brokers) (stamp_broker now b given) bd
          (rw same at e)) [
            | inl new ↦ rw new ((eq_iff (stamp_broker now b given).id id).0 same)
            | inr old ↦ v.broker_entry id bd old
          ]
    broker_after id bd (inr other) e = v.broker_entry id bd (rw other at e)

store_registration-IsValid :
    (s : DirectoryServer) (now : ℤ) (req : RegisterRequest) (b : Bool)
    → IsValid s
    → IsValid (store_registration s now req b).0
unfolding store_registration
store_registration-IsValid s now req b v = elim (Bool-cases (req.kind == kind_relay)) [
  | inl relay ↦ rw relay (store_relay-IsValid s now req b req.relay v)
  | inr other ↦ elim (Bool-cases (req.kind == kind_broker)) [
    | inl broker ↦ rw (other, broker) (store_broker-IsValid s now req b req.broker v)
    | inr unknown ↦ rw (other, unknown) v
  ]
]

IsValid-if :
    (b : Bool) (x y : Handled)
    → IsValid x.server
    → IsValid y.server
    → IsValid (if b then x else y).server
IsValid-if true x y h k = h
IsValid-if false x y h k = k

-- Both handlers keep every entry under its node's name and every relay in one of the three roles.
pub handlers-IsValid :
    (mac : Mac) (s : DirectoryServer) (now : ℤ) (body : Option RegisterRequest)
    → IsValid s
    → IsValid (handle_register mac s now body).server × IsValid (handle_sync mac s now body).server
unfolding handle_register handle_sync
handlers-IsValid mac s now none v = (v, v)
handlers-IsValid mac s now (some req) v =
    let registered = store_registration-IsValid s now req true v in
    let received = store_registration-IsValid s now req false v in
    (
      IsValid-if _ _ _ v (IsValid-if _ _ _ registered registered),
      IsValid-if _ _ _ v (IsValid-if _ _ _ received received),
    )
