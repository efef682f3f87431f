-- ===== src/Broker/Assign.antt =====
-- POST /assign and POST /validate of broker/main.go, and the choice of a relay.
pub mod Candidates
pub mod Best
pub mod Session
use sbnet.Base.{
  ℕ, suc, ◌+◌, ◌/◌, Bool, true, false, not, ◌&&◌, ◌||◌, Option, none, some, List, [], ◌∷◌, String,
  ◌==◌, string_comparable, if◌then◌else◌, Result, ok, err,
}
use sbnet.Base.Int.{ℤ}
use sbnet.Types.{RelayDescriptor, AssignRequest, SignedConsensus}
use sbnet.Consensus.{FetchError, Verifier, Responses, fetch_verified_consensus}
use sbnet.Broker.{Tokens, issue, validate, gc, token_ttl}

-- What the source uses of float64: the sum, the constants 3 and 2, the bandwidth's part
-- math.Min(float64(r.Bandwidth)*0.01, 10), the part of a random byte, and `>`.
pub record Float64 : Type 1 where
  pub F : Type 0
  pub zero_f : F
  pub add_f : F → F → F
  pub three : F
  pub two : F
  pub bandwidth_part : ℤ → F
  pub jitter : ℕ → F
  pub greater : F → F → Bool

abbrev pub fits_request : AssignRequest → RelayDescriptor → Bool
fits_request req rd = (rd.role == req.role) && ((req.mode == "") || (rd.oper_mode == req.mode))

module _ (f : Float64) where
  abbrev pub Scored : Type 0
  Scored = RelayDescriptor × f.F

  abbrev pub bonus : Bool → f.F → f.F → f.F
  bonus b amount s = if b then f.add_f s amount else s

  unfoldable pub score : AssignRequest → RelayDescriptor → ℕ → f.F
  score req rd random =
      let country = not (req.country == "") && (rd.country == req.country) in
      let region = not (req.region == "") && (rd.region == req.region) in
      f.add_f
        (f.add_f (bonus region f.two (bonus country f.three f.zero_f))
          (f.bandwidth_part rd.bandwidth))
        (f.jitter random)

  -- `random` gives each relay its byte.
  unfoldable pub candidates : AssignRequest → (ℕ → ℕ) → List RelayDescriptor → List Scored
  candidates req random [] = []
  candidates req random (rd ∷ relays) =
      let rest = candidates req (λ i. random (suc i)) relays in
      if fits_request req rd then (rd, score req rd (random 0)) ∷ rest else rest

  -- sort.Slice by a greater score first. Where scores are equal, Go does not say which comes first;
  -- here the order stays.
  unfoldable pub place : Scored → List Scored → List Scored
  place c [] = c ∷ []
  place c (d ∷ sorted) =
      let rest = place c sorted in if f.greater d.1 c.1 then d ∷ rest else c ∷ d ∷ sorted

  unfoldable pub sort_slice : List Scored → List Scored
  sort_slice [] = []
  sort_slice (c ∷ cs) = place c (sort_slice cs)

  abbrev pub head_relay : List Scored → Option RelayDescriptor
  head_relay [] = none
  head_relay (c ∷ cs) = some c.0

  unfoldable pub pick : AssignRequest → (ℕ → ℕ) → List RelayDescriptor → Option RelayDescriptor
  pick req random relays = head_relay (sort_slice (candidates req random relays))

-- The broker's state, without its rendezvous.
pub record BrokerServer : Type 0 where
  pub pool : List RelayDescriptor
  pub tokens : Tokens

abbrev pub fetched_pool : BrokerServer → Result FetchError SignedConsensus → BrokerServer
fetched_pool b (err e) = b
fetched_pool b (ok c) = record b { pool = c.relays }

-- One fetch of pollConsensus.
unfoldable pub poll_consensus : Verifier → Responses → ℤ → BrokerServer → BrokerServer
poll_consensus v responses now b = fetched_pool b (fetch_verified_consensus v responses now)

pub record AssignResponse : Type 0 where
  pub relay : RelayDescriptor
  pub token : String
  pub expires_at : ℕ

-- A status other than 200, or the answer, whose time is in seconds.
abbrev pub Assigned : Type 0
Assigned = BrokerServer × Result ℕ AssignResponse

abbrev pub assign_to : ℕ → String → BrokerServer → Option RelayDescriptor → Assigned
assign_to now token b none = (b, err 503)
assign_to now token b (some relay) = (
  record b { tokens = issue now token relay b.tokens },
  ok (record { relay = relay; token = token; expires_at = (now + token_ttl) / 1000000000 }),
)

-- `none` stands for a body that does not decode, and `token` is the text of the random bytes.
unfoldable pub handle_assign :
    Float64 → (ℕ → ℕ) → ℕ → String → BrokerServer → Option AssignRequest → Assigned
handle_assign f random now token b none = (b, err 400)
handle_assign f random now token b (some req) =
    if req.role == "" then (b, err 400) else assign_to now token b (pick f req random b.pool)

-- The relay's name, or a status.
abbrev pub validated :
    BrokerServer → Tokens × Option RelayDescriptor → BrokerServer × Result ℕ String
validated b (tokens, none) = (record b { tokens = tokens }, err 401)
validated b (tokens, some relay) = (record b { tokens = tokens }, ok relay.id)

unfoldable pub handle_validate : ℕ → BrokerServer → Option String → BrokerServer × Result ℕ String
handle_validate now b none = (b, err 400)
handle_validate now b (some token) = validated b (validate now token b.tokens)

-- What changes the broker's state: its two handlers, a tick of gc, and a fetch of the consensus.
pub data BrokerStep : Type 0 where
  to_assign : ℕ → String → (ℕ → ℕ) → Option AssignRequest → BrokerStep
  to_validate : ℕ → Option String → BrokerStep
  collect : ℕ → BrokerStep
  fetch : Verifier → Responses → ℤ → BrokerStep

unfoldable pub broker_step : Float64 → BrokerStep → BrokerServer → BrokerServer
broker_step f (to_assign now token random req) b = (handle_assign f random now token b req).0
broker_step f (to_validate now token) b = (handle_validate now b token).0
broker_step f (collect now) b = record b { tokens = gc now b.tokens }
broker_step f (fetch v responses now) b = poll_consensus v responses now b

unfoldable pub run_broker : Float64 → List BrokerStep → BrokerServer → BrokerServer
run_broker f [] b = b
run_broker f (q ∷ qs) b = run_broker f qs (broker_step f q b)
