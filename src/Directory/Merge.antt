-- ===== src/Directory/Merge.antt =====
-- storeRegistration of directory/main.go as a merge: order and repetition.
use sbnet.Base.{
  ◌≡◌, refl, sym, ap, ◌∙◌, Bool, true, false, Option, none, some, String, arith, ◌==◌,
  string_comparable, if◌then◌else◌, ◌⊎◌,
}
use sbnet.Base.Int.{ℤ, ◌≤ℤ◌, ltb_ℤ, ltb_ℤ-irrefl}
use sbnet.Base.Maps.{lookup}
use sbnet.Types.{RelayDescriptor, RegisterRequest, kind_relay}
use sbnet.Directory.{
  DirectoryServer, is_role, newer_relay, stamp_relay, store_relay, store_registration,
}
use sbnet.Directory.Store.{newest, lookup-store_relay}
use text.Mathlib.TextEquality.{eq_iff}

-- A relay descriptor from a peer.
abbrev pub synced : DirectoryServer → ℤ → RegisterRequest → RelayDescriptor → DirectoryServer
synced s now req rd = (store_relay s now req false (some rd)).0

newest_comm :
    (o : Option RelayDescriptor) (a b : RelayDescriptor)
    → (ltb_ℤ a.last_seen b.last_seen ≡ true) ⊎ (ltb_ℤ b.last_seen a.last_seen ≡ true)
    → newest (newest o a) b ≡ newest (newest o b) a
newest_comm none a b h = ground arith
newest_comm (some o) a b h = ground arith

merge_twice :
    (x y : Bool) (o : Option RelayDescriptor) (a b : RelayDescriptor)
    → (x ≡ true → y ≡ true → newest (newest o a) b ≡ newest (newest o b) a)
    → (if y then newest (if x then newest o a else o) b else if x then newest o a else o)
      ≡ (if x then newest (if y then newest o b else o) a else if y then newest o b else o)
merge_twice true true o a b h = h refl refl
merge_twice true false o a b h = refl
merge_twice false true o a b h = refl
merge_twice false false o a b h = refl

-- Two synchronised relay descriptors leave the same entries in either order of arrival, if they
-- name two nodes or differ in LastSeen.
pub synced_comm :
    (s : DirectoryServer) (now later : ℤ) (q r : RegisterRequest) (a b : RelayDescriptor)
    → is_role a.role ≡ true
    → is_role b.role ≡ true
    → (a.id ≡ b.id
        → (ltb_ℤ a.last_seen b.last_seen ≡ true) ⊎ (ltb_ℤ b.last_seen a.last_seen ≡ true))
    → (id : String)
    → lookup id (synced (synced s now q a) later r b).relays
      ≡ lookup id (synced (synced s later r b) now q a).relays
synced_comm s now later q r a b va vb differ id =
    lookup-store_relay (synced s now q a) later r false b id vb
    ∙ cc (lookup-store_relay s now q false a id va)
    ∙ merge_twice (a.id == id) (b.id == id) (lookup id s.relays) a b (λ x y.
      newest_comm (lookup id s.relays) a b
        (differ ((eq_iff a.id id).0 x ∙ sym ((eq_iff b.id id).0 y))))
    ∙ cc (lookup-store_relay s later r false b id vb)
    ∙ sym (lookup-store_relay (synced s later r b) now q false a id va)

not_newer_twice :
    (o : Option RelayDescriptor) (rd : RelayDescriptor)
    → newer_relay (newest o rd) rd.last_seen ≡ false
not_newer_twice none rd = ltb_ℤ-irrefl rd.last_seen
not_newer_twice (some o) rd = ground arith

held_newest :
    (s : DirectoryServer) (now : ℤ) (req : RegisterRequest) (rd : RelayDescriptor)
    → is_role rd.role ≡ true
    → lookup rd.id (synced s now req rd).relays ≡ newest (lookup rd.id s.relays) rd
held_newest s now req rd v =
    lookup-store_relay s now req false rd rd.id v
    ∙ ap (λ (t : Bool). if t then newest (lookup rd.id s.relays) rd else lookup rd.id s.relays)
        ((eq_iff rd.id rd.id).1 refl)

store_relay_older :
    (s : DirectoryServer) (now : ℤ) (req : RegisterRequest) (stamp_now : Bool)
    (given : RelayDescriptor)
    → is_role given.role ≡ true
    → newer_relay (lookup given.id s.relays) (stamp_relay now stamp_now given).last_seen ≡ false
    → ((store_relay s now req stamp_now (some given)).0 ≡ s)
      × ((store_relay s now req stamp_now (some given)).1.changed ≡ false)
      × ((store_relay s now req stamp_now (some given)).1.code ≡ 0)
unfolding store_relay
store_relay_older s now req true given v old = (rw (v, old), rw (v, old), rw v)
store_relay_older s now req false given v old = (rw (v, old), rw (v, old), rw v)

-- A synchronised relay descriptor that comes a second time changes nothing, and is reported as no
-- change.
pub synced_twice :
    (s : DirectoryServer) (now later : ℤ) (req again : RegisterRequest) (rd : RelayDescriptor)
    → is_role rd.role ≡ true
    → ((store_relay (synced s now req rd) later again false (some rd)).0 ≡ synced s now req rd)
      × ((store_relay (synced s now req rd) later again false (some rd)).1.changed ≡ false)
synced_twice s now later req again rd v =
    let old =
      ap (λ (o : Option RelayDescriptor). newer_relay o rd.last_seen) (held_newest s now req rd v)
      ∙ not_newer_twice (lookup rd.id s.relays) rd in
    let (same, unchanged, fine) =
      store_relay_older (synced s now req rd) later again false rd v old in
    (same, unchanged)

pub store_registration_relay :
    (s : DirectoryServer) (now : ℤ) (req : RegisterRequest) (b : Bool)
    → req.kind ≡ kind_relay
    → store_registration s now req b ≡ store_relay s now req b req.relay
unfolding store_registration
store_registration_relay s now req b k = rw ((eq_iff req.kind kind_relay).1 k)

-- A direct registration is dropped without an error if an entry with the same name is held whose
-- LastSeen is not before the present second.
pub register_dropped :
    (s : DirectoryServer) (now : ℤ) (req : RegisterRequest) (given old : RelayDescriptor)
    → req.kind ≡ kind_relay
    → req.relay ≡ some given
    → is_role given.role ≡ true
    → lookup given.id s.relays ≡ some old
    → now ≤ℤ old.last_seen
    → ((store_registration s now req true).0 ≡ s)
      × ((store_registration s now req true).1.changed ≡ false)
      × ((store_registration s now req true).1.code ≡ 0)
register_dropped s now req given old k r v held future =
    let older =
      store_relay_older s now req true given v
        (ap (λ (o : Option RelayDescriptor). newer_relay o now) held ∙ ground arith) in
    rw
      (store_registration_relay s now req true k
        ∙ ap (λ (o : Option RelayDescriptor). store_relay s now req true o) r)
      older
