-- ===== src/Timeout.antt =====
-- common/replay.go: ReplayFilter, and TimeoutTracker with its sweep. Times are nanoseconds since a
-- common start; the text "%d:%x" that keys the filter is the pair it prints.
pub mod Laws
use sbnet.Base.{
  ℕ, ◌+◌, Bool, true, false, ◌&&◌, Option, none, some, List, [], ◌∷◌, ltb, ◌==◌, nat_comparable,
  if◌then◌else◌,
}
use sbnet.Base.Bytes.{Bytes}
use sbnet.Base.Maps.{Map, lookup, insert, delete}

abbrev pub replay_window : ℕ
replay_window = 600000000000

-- `seen`, with the circuit and the nonce for the key.
pub record Seen : Type 0 where
  pub circ_id : ℕ
  pub nonce : Bytes
  pub time : ℕ

unfoldable pub same_bytes : Bytes → Bytes → Bool
same_bytes [] [] = true
same_bytes [] (y ∷ ys) = false
same_bytes (x ∷ xs) [] = false
same_bytes (x ∷ xs) (y ∷ ys) = (x == y) && same_bytes xs ys

abbrev pub is_entry : ℕ → Bytes → Seen → Bool
is_entry circ_id nonce e = (e.circ_id == circ_id) && same_bytes e.nonce nonce

-- `_, exists := rf.seen[key]`
unfoldable pub is_seen : ℕ → Bytes → List Seen → Bool
is_seen circ_id nonce [] = false
is_seen circ_id nonce (e ∷ es) = if is_entry circ_id nonce e then true else is_seen circ_id nonce es

unfoldable pub allow : ℕ → ℕ → Bytes → List Seen → List Seen × Bool
allow now circ_id nonce seen =
    if is_seen circ_id nonce seen
    then (seen, false)
    else (record { circ_id = circ_id; nonce = nonce; time = now } ∷ seen, true)

-- One tick of gc.
unfoldable pub gc : ℕ → List Seen → List Seen
gc now [] = []
gc now (e ∷ es) =
    let rest = gc now es in if ltb (e.time + replay_window) now then rest else e ∷ rest

-- TimeoutTracker.lastSeen
abbrev pub LastSeen : Type 0
LastSeen = Map ℕ ℕ

abbrev pub touch : ℕ → ℕ → LastSeen → LastSeen
touch now circ_id last_seen = insert circ_id now last_seen

abbrev pub remove : ℕ → LastSeen → LastSeen
remove circ_id last_seen = delete circ_id last_seen

-- One tick of sweep: what stays, and the circuits that the callback is called for.
unfoldable pub sweep : ℕ → ℕ → LastSeen → LastSeen × List ℕ
sweep now idle [] = ([], [])
sweep now idle ((id, t) ∷ m) =
    let (kept, expired) = sweep now idle m in
    if ltb (t + idle) now then (kept, id ∷ expired) else ((id, t) ∷ kept, expired)
