-- ===== src/Directory/Listing.antt =====
-- GET /consensus of directory/main.go after POST /register.
use mathlib.Core.List.{Memᴰ}
use sbnet.Base.{
  ◌≡◌, refl, sym, ap, ◌∙◌, Bool, true, false, some, List, [], ◌∷◌, String, ◌==◌, string_comparable,
  if◌then◌else◌, if_some, Option-cases, inl, inr, Result, ok, err,
}
use sbnet.Base.Int.{ℤ, ◌-ℤ◌, ltb_ℤ}
use sbnet.Base.Maps.{Map, lookup, insert, lookup-insert_self}
use sbnet.Types.{RelayDescriptor, RegisterRequest, SignedConsensus, kind_relay}
use sbnet.Directory.{
  DirectoryServer, Mac, Publisher, Reply, is_role, verify_hmac, store_registration, handle_register,
  fresh_relays, handle_consensus, newer_relay, fresh_brokers, store_relay,
}
use text.Mathlib.TextEquality.{eq_iff}

skip_or_not :
    (b : Bool) (rd x : RelayDescriptor) (rest : List RelayDescriptor)
    → Memᴰ rd rest
    → Memᴰ rd (if b then x ∷ rest else rest)
skip_or_not true rd x rest h = Memᴰ.tail h
skip_or_not false rd x rest h = h

-- What is held and fresh is listed.
pub fresh_relays_listed :
    (now max_age : ℤ) (id : String) (rd : RelayDescriptor) (m : Map String RelayDescriptor)
    → lookup id m ≡ some rd
    → ltb_ℤ (now -ℤ rd.last_seen) max_age ≡ true
    → Memᴰ rd (fresh_relays now max_age m)
unfolding fresh_relays
fresh_relays_listed now max_age id rd [] e h = unfold lookup in cc (e)
fresh_relays_listed now max_age id rd ((k, x) ∷ m) e h =
    elim (if_some (k == id) x rd (lookup id m) (unfold lookup in e)) [
      | inl same ↦
          rw (ap (λ (y : RelayDescriptor). ltb_ℤ (now -ℤ y.last_seen) max_age) (sym same) ∙ h)
            (Memᴰ.head same)
      | inr later ↦ skip_or_not _ rd x _ (fresh_relays_listed now max_age id rd m later h)
    ]

if_max_age :
    (b : Bool) (s : DirectoryServer) (m : Map String RelayDescriptor)
    → (if b then record s { relays = m } else s).consensus_max_age ≡ s.consensus_max_age
if_max_age true s m = refl
if_max_age false s m = refl

listed : Result Reply SignedConsensus → List RelayDescriptor
listed (ok c) = c.relays
listed (err e) = []

consensus_relays :
    (p : Publisher) (s : DirectoryServer) (now : ℤ) (c : SignedConsensus)
    → handle_consensus p s now ≡ ok c
    → c.relays ≡ fresh_relays now s.consensus_max_age s.relays
unfolding handle_consensus listed
consensus_relays p s now c h =
    elim (Option-cases (p.relays_json (fresh_relays now s.consensus_max_age s.relays))) [
      | inl e ↦ absurd (let bad = rw e at h in cc)
      | inr (x, e) ↦
          elim (Option-cases (p.brokers_json (fresh_brokers now s.consensus_max_age s.brokers))) [
            | inl f ↦ absurd (let bad = rw (e, f) at h in cc)
            | inr (y, f) ↦ sym (ap listed (rw (e, f) at h))
          ]
    ]

pub registered :
    (mac : Mac) (s : DirectoryServer) (now : ℤ) (req : RegisterRequest) (given : RelayDescriptor)
    → verify_hmac mac s now req 30 ≡ true
    → req.kind ≡ kind_relay
    → req.relay ≡ some given
    → is_role given.role ≡ true
    → newer_relay (lookup given.id s.relays) now ≡ true
    → ((handle_register mac s now (some req)).server
        ≡ record s { relays = insert given.id (record given { last_seen = now }) s.relays })
      × ((handle_register mac s now (some req)).reply.status ≡ 200)
unfolding handle_register store_registration store_relay
registered mac s now req given passed k r v newer = (
  rw (passed, (eq_iff req.kind kind_relay).1 k, r, v, newer),
  rw (passed, (eq_iff req.kind kind_relay).1 k, r, v) refl,
)

-- A relay registration that passes its checks, with no entry under its name as new as the present
-- second, is answered 200; and every consensus published from then on, until the maximal age has
-- passed, lists the relay with LastSeen set to the second of the registration.
pub registered_listed :
    (mac : Mac) (p : Publisher) (s : DirectoryServer) (now later : ℤ) (req : RegisterRequest)
    (given : RelayDescriptor) (c : SignedConsensus)
    → verify_hmac mac s now req 30 ≡ true
    → req.kind ≡ kind_relay
    → req.relay ≡ some given
    → is_role given.role ≡ true
    → newer_relay (lookup given.id s.relays) now ≡ true
    → ltb_ℤ (later -ℤ now) s.consensus_max_age ≡ true
    → handle_consensus p (handle_register mac s now (some req)).server later ≡ ok c
    → ((handle_register mac s now (some req)).reply.status ≡ 200)
      × Memᴰ (record given { last_seen = now }) c.relays
registered_listed mac p s now later req given c passed k r v newer fresh published =
    let (stored, status) = registered mac s now req given passed k r v newer in
    let served =
      ap (λ (t : DirectoryServer). handle_consensus p t later) (sym stored) ∙ published in
    (
      status,
      rw (consensus_relays p _ later c served) (
          fresh_relays_listed later s.consensus_max_age given.id _ _
            (lookup-insert_self given.id (record given { last_seen = now }) s.relays) fresh),
    )
