-- ===== src/Kind.antt =====
-- kind/main.go: the volunteer that takes a waiting client from the broker and connects it to an
-- entry relay. The WebRTC library and the dial are parameters; connections are numbers.
pub mod Matched
use sbnet.Base.{
  ℕ, zero, suc, ◌%◌, Bool, true, false, Option, none, some, List, [], ◌∷◌, String, Result, ok, err,
  if◌then◌else◌,
}
use sbnet.Base.Int.{ℤ, pos}
use sbnet.Types.{RelayDescriptor}
use sbnet.Consensus.{Verifier, Responses, fetch_verified_consensus}
use sbnet.Client.Guard.{with_role, choose}
use sbnet.Broker.{KindRendezvous, KindReply, Body, offered, kind_poll, kind_answer}

pub record KindProxy : Type 0 where
  pub entries : List RelayDescriptor

-- One load of refreshConsensus.
unfoldable pub load_entries : Verifier → Responses → ℤ → KindProxy → KindProxy
load_entries v responses now p = elim (fetch_verified_consensus v responses now) [
  | err e ↦ p
  | ok c ↦ record p { entries = with_role "entry" c.relays }
]

-- `r` is the random uint32.
unfoldable pub pick_entry : ℕ → KindProxy → Option RelayDescriptor
pick_entry r p = choose r p.entries

-- The session's identifier and the offer; any other status is no work.
unfoldable pub poll_result : KindReply → Option (String × String)
poll_result (offered id sdp) = some (id, sdp)
poll_result reply = none

-- VolunteerAnswer, as the body in which it is submitted, with the connection that opens later, if
-- it does; whether the answer's POST
-- comes through; and the dial of an entry relay.
pub record Reach : Type 0 where
  pub volunteer_answer : String → Option (Body × Option ℕ)
  pub post_ok : Bool
  pub dial : String → ℤ → Option ℕ

pub data Served : Type 0 where
  idle : Served
  no_answer : Served
  not_submitted : Served
  not_opened : Served
  no_entry : ℕ → Served
  entry_unreachable : ℕ → Served
  tunnelled : ℕ → ℕ → Served

-- The end of serve: `conn` is closed in each case, after the pipe in the last.
abbrev pub to_relay : ℕ → Option ℕ → Served
to_relay conn none = entry_unreachable conn
to_relay conn (some relay_conn) = tunnelled conn relay_conn

abbrev pub to_entry : Reach → ℕ → Option RelayDescriptor → Served
to_entry w conn none = no_entry conn
to_entry w conn (some entry) = to_relay conn (w.dial entry.ip entry.port)

abbrev pub opened : Reach → KindProxy → ℕ → Option ℕ → Served
opened w p r none = not_opened
opened w p r (some conn) = to_entry w conn (pick_entry r p)

-- serve, against a broker: the answer is submitted there before the channel opens.
unfoldable pub serve_answer :
    Reach
    → KindProxy
    → ℕ
    → KindRendezvous
    → String
    → Option (Body × Option ℕ)
    → KindRendezvous × Served
serve_answer w p r k id none = (k, no_answer)
serve_answer w p r k id (some (body, channel)) =
    if w.post_ok then ((kind_answer id body k).0, opened w p r channel) else (k, not_submitted)

abbrev pub serve_polled :
    Reach → KindProxy → ℕ → KindRendezvous → Option (String × String) → KindRendezvous × Served
serve_polled w p r k none = (k, idle)
serve_polled w p r k (some (id, offer)) = serve_answer w p r k id (w.volunteer_answer offer)

-- One round of worker.
unfoldable pub worker_round : Reach → KindProxy → ℕ → KindRendezvous → KindRendezvous × Served
worker_round w p r k = let (k', reply) = kind_poll k in serve_polled w p r k' (poll_result reply)
