-- ===== src/Broker/Assign/Session.antt =====
-- A token of broker/main.go from /assign to /validate.
use sbnet.Base.{
  ℕ, ◌+◌, ◌/◌, ◌≤◌, ◌<◌, ◌≡◌, refl, sym, ap, ◌∙◌, false, Option, none, some, List, [], ◌∷◌, String,
  ltb, ◌==◌, string_comparable, ok, err, le→ltb, lt→ltb, Bool-cases, Result, inl, inr,
}
use sbnet.Base.Maps.{lookup, lookup-insert, lookup-insert_self, lookup-delete}
use text.Mathlib.TextEquality.{eq_iff}
use sbnet.Types.{RelayDescriptor, AssignRequest, SignedConsensus}
use sbnet.Consensus.{FetchError, fetch_verified_consensus}
use sbnet.Broker.{TokenEntry, Tokens, token_ttl, issue, judge, validate}
use sbnet.Broker.Tokens.{gc_keeps}
use sbnet.Broker.Assign.{
  Float64, pick, BrokerServer, AssignResponse, Assigned, assign_to, handle_assign, validated,
  handle_validate, poll_consensus, fetched_pool, BrokerStep, to_assign, to_validate, collect, fetch,
  broker_step, run_broker,
}

abbrev server_of : Assigned → BrokerServer
server_of a = a.0

abbrev answer_or : AssignResponse → Assigned → AssignResponse
answer_or d (b, ok answer) = answer
answer_or d (b, err status) = d

assign_inv :
    (now : ℕ) (token : String) (b b' : BrokerServer) (o : Option RelayDescriptor)
    (answer : AssignResponse)
    → assign_to now token b o ≡ (b', ok answer)
    → (o ≡ some answer.relay)
      × (answer.token ≡ token)
      × (answer.expires_at ≡ (now + token_ttl) / 1000000000)
      × (b'.tokens ≡ issue now token answer.relay b.tokens)
assign_inv now token b b' none answer h = absurd (let bad = ap (λ (a : Assigned). a.1) h in cc)
assign_inv now token b b' (some relay) answer h =
    let same = ap (answer_or answer) h in
    (
      ap (λ (x : AssignResponse). some x.relay) same,
      sym (ap (λ (x : AssignResponse). x.token) same),
      sym (ap (λ (x : AssignResponse). x.expires_at) same),
      sym (ap (λ (a : Assigned). a.0.tokens) h)
          ∙ ap (λ (x : AssignResponse). issue now token x.relay b.tokens) same,
    )

-- The steps that leave a token alone: those that look at a clock not yet past its time, and the
-- issue of other tokens.
abbrev pub Spares : String → ℕ → BrokerStep → Type 0
Spares token limit (to_assign now other random req) = (other == token) ≡ false
Spares token limit (to_validate now other) = now ≤ limit
Spares token limit (collect now) = now ≤ limit
Spares token limit (fetch v responses now) = Unit {0}

abbrev pub AllSpare : String → ℕ → List BrokerStep → Type 0
AllSpare token limit [] = Unit {0}
AllSpare token limit (q ∷ qs) = Spares token limit q × AllSpare token limit qs

abbrev Holds : String → TokenEntry → BrokerServer → Type 0
Holds token e b = lookup token b.tokens ≡ some e

assign_to-Holds :
    (now : ℕ) (other : String) (b : BrokerServer) (o : Option RelayDescriptor) (token : String)
    (e : TokenEntry)
    → (other == token) ≡ false
    → Holds token e b
    → Holds token e (assign_to now other b o).0
unfolding issue
assign_to-Holds now other b none token e apart h = h
assign_to-Holds now other b (some relay) token e apart h =
    rw
      (
        lookup-insert other token (record { relay = relay; expires_at = now + token_ttl }) b.tokens,
        apart,
      )
      h

assign-Holds :
    (f : Float64) (random : ℕ → ℕ) (now : ℕ) (other : String) (b : BrokerServer)
    (req : Option AssignRequest) (token : String) (e : TokenEntry)
    → (other == token) ≡ false
    → Holds token e b
    → Holds token e (handle_assign f random now other b req).0
unfolding handle_assign
assign-Holds f random now other b none token e apart h = h
assign-Holds f random now other b (some req) token e apart h = elim (Bool-cases (req.role == "")) [
  | inl bad ↦ rw bad h
  | inr fine ↦ rw fine (assign_to-Holds now other b (pick f req random b.pool) token e apart h)
]

-- The entry of another token goes, or of none.
judge-kept :
    (now : ℕ) (other token : String) (tokens : Tokens) (e : TokenEntry) (o : Option TokenEntry)
    → now ≤ e.expires_at
    → lookup other tokens ≡ o
    → lookup token tokens ≡ some e
    → lookup token (judge now other tokens o).0 ≡ some e
unfolding judge
judge-kept now other token tokens e none live at h = elim (Bool-cases (other == token)) [
  | inl same ↦ absurd (let n : other ≡ token = (eq_iff other token).0 same in cc)
  | inr apart ↦ rw (lookup-delete other token tokens, apart) h
]
judge-kept now other token tokens e (some x) live at h = elim (Bool-cases (other == token)) [
  | inl same ↦
      let n : other ≡ token = (eq_iff other token).0 same in
      let this : x ≡ e = cc in
      let fresh : ltb x.expires_at now ≡ false =
        ap (λ (y : TokenEntry). ltb y.expires_at now) this ∙ le→ltb e.expires_at now live in
      rw fresh h
  | inr apart ↦ elim (Bool-cases (ltb x.expires_at now)) [
    | inl old ↦ rw (old, lookup-delete other token tokens, apart) h
    | inr fresh ↦ rw fresh h
  ]
]

validated_tokens :
    (b : BrokerServer) (v : Tokens × Option RelayDescriptor) → (validated b v).0.tokens ≡ v.0
validated_tokens b (tokens, none) = refl
validated_tokens b (tokens, some relay) = refl

validate-Holds :
    (now : ℕ) (other : Option String) (b : BrokerServer) (token : String) (e : TokenEntry)
    → now ≤ e.expires_at
    → Holds token e b
    → Holds token e (handle_validate now b other).0
unfolding handle_validate validate
validate-Holds now none b token e live h = h
validate-Holds now (some other) b token e live h =
    ap (λ (ts : Tokens). lookup token ts)
      (validated_tokens b (judge now other b.tokens (lookup other b.tokens)))
    ∙ judge-kept now other token b.tokens e (lookup other b.tokens) live refl h

fetched_tokens :
    (b : BrokerServer) (c : Result FetchError SignedConsensus)
    → (fetched_pool b c).tokens ≡ b.tokens
fetched_tokens b (err e) = refl
fetched_tokens b (ok c) = refl

step-Holds :
    (f : Float64) (q : BrokerStep) (b : BrokerServer) (token : String) (e : TokenEntry)
    → Spares token e.expires_at q
    → Holds token e b
    → Holds token e (broker_step f q b)
unfolding broker_step poll_consensus
step-Holds f (to_assign now other random req) b token e apart h =
    assign-Holds f random now other b req token e apart h
step-Holds f (to_validate now other) b token e live h = validate-Holds now other b token e live h
step-Holds f (collect now) b token e live h =
    gc_keeps now token e b.tokens h (le→ltb e.expires_at now live)
step-Holds f (fetch v responses now) b token e live h =
    ap (λ (ts : Tokens). lookup token ts)
      (fetched_tokens b (fetch_verified_consensus v responses now))
    ∙ h

run-Holds :
    (f : Float64) (qs : List BrokerStep) (b : BrokerServer) (token : String) (e : TokenEntry)
    → AllSpare token e.expires_at qs
    → Holds token e b
    → Holds token e (run_broker f qs b)
unfolding run_broker
run-Holds f [] b token e spare h = h
run-Holds f (q ∷ qs) b token e spare h =
    run-Holds f qs (broker_step f q b) token e spare.1 (step-Holds f q b token e spare.0 h)

held_accepted :
    (now : ℕ) (b : BrokerServer) (token : String) (e : TokenEntry)
    → Holds token e b
    → now ≤ e.expires_at
    → (handle_validate now b (some token)).1 ≡ ok e.relay.id
unfolding handle_validate validate judge
held_accepted now b token e h live = rw (h, le→ltb e.expires_at now live) refl

held_refused :
    (later : ℕ) (b : BrokerServer) (token : String) (e : TokenEntry)
    → Holds token e b
    → e.expires_at < later
    → (handle_validate later b (some token)).1 ≡ err 401
unfolding handle_validate validate judge
held_refused later b token e h late = rw (h, lt→ltb e.expires_at later late) refl

-- An answer to /assign names the relay that was picked and the second in which its token ends, five
-- minutes after it was issued. Up to then /validate accepts the token for that relay, however often
-- it was validated before, and whatever other assignments, validations, collections of old tokens
-- and fetches came in between, at times up to then and with other tokens issued; after that,
-- /validate answers 401.
pub assign_validated :
    (f : Float64) (random : ℕ → ℕ) (issued now later : ℕ) (token : String) (b b' : BrokerServer)
    (req : AssignRequest) (answer : AssignResponse) (qs : List BrokerStep)
    → handle_assign f random issued token b (some req) ≡ (b', ok answer)
    → AllSpare token (issued + 300000000000) qs
    → now ≤ issued + 300000000000
    → issued + 300000000000 < later
    → (pick f req random b.pool ≡ some answer.relay)
      × (answer.expires_at ≡ (issued + 300000000000) / 1000000000)
      × ((handle_validate now (run_broker f qs b') (some answer.token)).1 ≡ ok answer.relay.id)
      × ((handle_validate later (run_broker f qs b') (some answer.token)).1 ≡ err 401)
unfolding handle_assign issue
assign_validated f random issued now later token b b' req answer qs h spare soon late =
    elim (Bool-cases (req.role == "")) [
      | inl e ↦ absurd (let bad = ap (λ (a : Assigned). a.1) (rw e at h) in cc)
      | inr e ↦
          let (picked, same, expires, stored) =
            assign_inv issued token b b' (pick f req random b.pool) answer (rw e at h) in
          let entry : TokenEntry = record {
            relay = answer.relay;
            expires_at = issued + token_ttl;
          } in
          let held = run-Holds f qs b' token entry spare (
            ap (λ (ts : Tokens). lookup token ts) stored
            ∙ lookup-insert_self token entry b.tokens) in
          (
            picked,
            expires,
            ap (λ t. (handle_validate now (run_broker f qs b') (some t)).1) same
                ∙ held_accepted now (run_broker f qs b') token entry held soon,
            ap (λ t. (handle_validate later (run_broker f qs b') (some t)).1) same
                ∙ held_refused later (run_broker f qs b') token entry held late,
          )
    ]
