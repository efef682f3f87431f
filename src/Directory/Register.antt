-- ===== src/Directory/Register.antt =====
-- The specification of what directory/main.go holds of relays: a register of the newest announcement
-- of each name. Nothing of the directory's own operations is used in it.
use sbnet.Base.{
  ℕ, Bool, true, false, Option, none, some, List, [], ◌∷◌, String, ◌==◌, string_comparable,
  if◌then◌else◌, ◌||◌,
}
use sbnet.Base.Int.{ℤ, pos, neg_ℕ, ◌-ℤ◌, ltb_ℤ}
use Prim.Native.String.{◌++◌}
use sbnet.Types.{RelayDescriptor, BrokerDescriptor, RegisterRequest}
use sbnet.Directory.{Mac}

-- The specification: a relay, or none, under each name, and an announcement that replaces what is
-- older.
abbrev pub Register : Type 0
Register = String → Option RelayDescriptor

-- The later of two, and the one that is held among equals.
abbrev pub latest : Option RelayDescriptor → RelayDescriptor → Option RelayDescriptor
latest none rd = some rd
latest (some old) rd = if ltb_ℤ old.last_seen rd.last_seen then some rd else some old

abbrev pub announce : Option RelayDescriptor → Register → Register
announce none held = held
announce (some rd) held = λ id. if rd.id == id then latest (held id) rd else held id

abbrev pub announce_all : List (Option RelayDescriptor) → Register → Register
announce_all [] held = held
announce_all (rd ∷ rds) held = announce_all rds (announce rd held)

-- A request to one of the two handlers at a time, with its decoded body.
pub data DirectoryRequest : Type 0 where
  to_register : ℤ → Option RegisterRequest → DirectoryRequest
  to_sync : ℤ → Option RegisterRequest → DirectoryRequest

-- The text that is signed.
abbrev pub signed_text : String → Option RelayDescriptor → Option BrokerDescriptor → Option String
signed_text kind relay broker =
    if kind == "relay"
    then elim relay [
      | none ↦ none
      | some rd ↦ some (rd.id ++ (rd.ip ++ (rd.role ++ rd.public_key)))
    ]
    else if kind == "broker"
    then elim broker [ none ↦ none | some bd ↦ some (bd.id ++ (bd.ip ++ bd.public_key)) ]
    else none

-- Whether a request carries the HMAC of its identity under the secret, at a time in the window.
abbrev pub authentic : Mac → String → ℤ → RegisterRequest → ℕ → Bool
authentic mac secret now req window =
    if ltb_ℤ (pos window) (now -ℤ req.timestamp) || ltb_ℤ (now -ℤ req.timestamp) (neg_ℕ window)
    then false
    else elim (signed_text req.kind req.relay req.broker) [
      | none ↦ false
      | some msg ↦ req.hmac == mac secret msg
    ]

abbrev pub valid_relay : ℤ → Bool → Option RelayDescriptor → Option RelayDescriptor
valid_relay now stamp_now none = none
valid_relay now stamp_now (some given) =
    if (given.role == "entry") || ((given.role == "middle") || (given.role == "exit"))
    then some (if stamp_now then record given { last_seen = now } else given)
    else none

abbrev pub relay_in : ℤ → Bool → RegisterRequest → Option RelayDescriptor
relay_in now stamp_now req =
    if req.kind == "relay" then valid_relay now stamp_now req.relay else none

-- The relay that a request announces: no state of the directory is looked at.
abbrev pub announced : Mac → String → DirectoryRequest → Option RelayDescriptor
announced mac secret (to_register now none) = none
announced mac secret (to_register now (some req)) =
    if authentic mac secret now req 30 then relay_in now true req else none
announced mac secret (to_sync now none) = none
announced mac secret (to_sync now (some req)) =
    if authentic mac secret now req 120 then relay_in now false req else none
