-- ===== src/Client/Pool/Balance.antt =====
-- The circuits that the pool of client/main.go opens and closes.
use sbnet.Base.{
  Result, length, ◌==◌, ℕ, zero, suc, ◌+◌, ◌<◌, ◌≡◌, refl, sym, ap, ◌∙◌, Option, none, some, List,
  [], ◌∷◌, ◌++◌, map, arith, ◌==◌, nat_comparable, nat_beq_iff, if◌then◌else◌, length, get_elem?,
  set, ok, err, Bool-cases, inl, inr,
}
use sbnet.Base.Maps.{beq_refl}
use sbnet.Base.Bytes.{Bytes}
use sbnet.Client.{ClientError, Answer}
use sbnet.Client.Pool.{
  PoolCircuit, expired, CircuitPool, new_circuit_pool, set_relays, PoolEvent, built, closed, Built,
  build_loop, build_all, int_mod, counted, replace_expired, Got, get_circuit, get_at, PoolError,
  get, replace, retry, first_try, send_on, send, PoolCall, call_set_relays, call_build_all,
  call_get, call_send, run_call, run_calls,
}

-- How often a connection stands in the pool, was opened and was closed.
abbrev pub one : ℕ → PoolCircuit → ℕ
one k c = if c.conn == k then 1 else 0

abbrev pub held : ℕ → List PoolCircuit → ℕ
held k [] = 0
held k (c ∷ cs) = one k c + held k cs

abbrev pub times_built : ℕ → List PoolEvent → ℕ
times_built k [] = 0
times_built k (built c ∷ events) = one k c + times_built k events
times_built k (closed c ∷ events) = times_built k events

abbrev pub times_closed : ℕ → List PoolEvent → ℕ
times_closed k [] = 0
times_closed k (built c ∷ events) = times_closed k events
times_closed k (closed c ∷ events) = one k c + times_closed k events

times_built-append :
    (k : ℕ) (xs ys : List PoolEvent)
    → times_built k (xs ++ ys) ≡ times_built k xs + times_built k ys
times_built-append k [] ys = omega arith
times_built-append k (built c ∷ xs) ys = omega (arith, times_built-append k xs ys)
times_built-append k (closed c ∷ xs) ys = times_built-append k xs ys

times_closed-append :
    (k : ℕ) (xs ys : List PoolEvent)
    → times_closed k (xs ++ ys) ≡ times_closed k xs + times_closed k ys
times_closed-append k [] ys = omega arith
times_closed-append k (built c ∷ xs) ys = times_closed-append k xs ys
times_closed-append k (closed c ∷ xs) ys = omega (arith, times_closed-append k xs ys)

all_closed :
    (k : ℕ) (cs : List PoolCircuit)
    → (times_closed k (map closed cs) ≡ held k cs) × (times_built k (map closed cs) ≡ 0)
all_closed k [] = (refl, refl)
all_closed k (c ∷ cs) =
    let (e, none_built) = all_closed k cs in (ap (λ n. one k c + n) e, none_built)

all_built :
    (k : ℕ) (cs : List PoolCircuit)
    → (times_built k (map built cs) ≡ held k cs) × (times_closed k (map built cs) ≡ 0)
all_built k [] = (refl, refl)
all_built k (c ∷ cs) =
    let (e, none_closed) = all_built k cs in (ap (λ n. one k c + n) e, none_closed)

itself : (c : PoolCircuit) → one c.conn c ≡ 1
itself c = rw (beq_refl c.conn) refl

held-set :
    (k : ℕ) (cs : List PoolCircuit) (i : ℕ) (c new : PoolCircuit)
    → get_elem? cs i ≡ some c
    → (held k (set cs i new) + one k c ≡ held k cs + one k new)
      × (0 < held new.conn (set cs i new))
      × (0 < held c.conn cs)
held-set k [] i c new h = absurd cc
held-set k (x ∷ cs) zero c new h =
    let same : x ≡ c = cc in
    let e = ap (one k) same in
    let mine : one c.conn x ≡ 1 = ap (one c.conn) same ∙ itself c in
    (omega arith, omega (arith, itself new), omega arith)
held-set k (x ∷ cs) (suc i) c new h =
    let (e, here, there) = held-set k cs i c new h in (omega arith, omega arith, omega arith)

held-replace :
    (k conn : ℕ) (new c : PoolCircuit) (cs : List PoolCircuit)
    → c.conn ≡ conn
    → 0 < held conn cs
    → held k (replace conn new cs) + one k c ≡ held k cs + one k new
unfolding replace
held-replace k conn new c [] e h = absurd (omega arith)
held-replace k conn new c (x ∷ cs) e h = elim (Bool-cases (x.conn == conn)) [
  | inl same ↦
      let match : one k x ≡ one k c =
        ap (λ (j : ℕ). if j == k then 1 else 0) ((nat_beq_iff x.conn conn).0 same ∙ sym e) in
      rw same (omega arith)
  | inr apart ↦
      let later = rw apart at h in
      let rest = held-replace k conn new c cs e (omega arith) in rw apart (omega arith)
]

-- What was held and what was opened is held or was closed.
abbrev pub Balanced : ℕ → CircuitPool → CircuitPool → List PoolEvent → Type 0
Balanced k p p' events =
    held k p'.circuits + times_closed k events ≡ held k p.circuits + times_built k events

build_all-Balanced :
    (build : ℕ → Built) (count : ℕ) (p : CircuitPool) (k : ℕ)
    → Balanced k p (build_all build count p).0 (build_all build count p).1
unfolding build_all
build_all-Balanced build count p k =
    let new = build_loop build count in
    let (shut, no_more) = all_closed k p.circuits in
    let (opened, none_shut) = all_built k new in
    omega (
      arith,
      times_built-append k (map closed p.circuits) (map built new),
      times_closed-append k (map closed p.circuits) (map built new),
      shut,
      no_more,
      opened,
      none_shut,
    )

-- The circuit that get returns is in the pool then.
abbrev InPool : CircuitPool → Result PoolError PoolCircuit → Type 0
InPool p (err e) = Unit
InPool p (ok c) = 0 < held c.conn p.circuits

abbrev IsGot : ℕ → CircuitPool → Got → Type 0
IsGot k p (p', events, got) = Balanced k p p' events × InPool p' got

replace_expired-IsGot :
    (k : ℕ) (p : CircuitPool) (index : ℕ) (c : PoolCircuit) (build : Built)
    → get_elem? p.circuits index ≡ some c
    → let (p', events, got) = replace_expired p index c build in IsGot k p (p', events, ok got)
replace_expired-IsGot k p index c (err e) h = (refl, (held-set k p.circuits index c c h).2)
replace_expired-IsGot k p index c (ok new) h =
    let (e, here, there) = held-set k p.circuits index c new h in (omega arith, here)

get_circuit-IsGot :
    (k now : ℕ) (build : Built) (p : CircuitPool) (index : ℕ) (o : Option PoolCircuit)
    → get_elem? p.circuits index ≡ o
    → IsGot k p (get_circuit now build p index o)
unfolding get_circuit
get_circuit-IsGot k now build p index none h = (refl, _)
get_circuit-IsGot k now build p index (some c) h = elim (Bool-cases (expired now c)) [
  | inl e ↦ rw e (replace_expired-IsGot k p index c build h)
  | inr e ↦ rw e (refl, (held-set k p.circuits index c c h).2)
]

get_at-IsGot :
    (k now : ℕ) (build : Built) (p : CircuitPool) (index : Option ℕ)
    → IsGot k p (get_at now build p index)
unfolding get_at
get_at-IsGot k now build p none = (refl, _)
get_at-IsGot k now build p (some index) =
    get_circuit-IsGot k now build p index (get_elem? p.circuits index) refl

get-IsGot : (k now : ℕ) (build : Built) (p : CircuitPool) → IsGot k p (get now build p)
unfolding get
get-IsGot k now build p = elim (Bool-cases (length p.circuits == 0)) [
  | inl e ↦ rw e (refl, _)
  | inr e ↦ rw e (get_at-IsGot k now build (counted p) (int_mod p.counter (length p.circuits)))
]

retry-Balanced :
    (k : ℕ) (again : PoolCircuit → Answer) (e : ClientError) (c : PoolCircuit) (p p' : CircuitPool)
    (events : List PoolEvent) (rebuild : Built)
    → Balanced k p p' events
    → 0 < held c.conn p'.circuits
    → let (p'', all, result) = retry again e c p' events rebuild in Balanced k p p'' all
retry-Balanced k again e c p p' events (err x) h in_pool = h
retry-Balanced k again e c p p' events (ok new) h in_pool = omega (
  arith,
  h,
  held-replace k c.conn new c p'.circuits refl in_pool,
  times_built-append k events (built new ∷ closed c ∷ []),
  times_closed-append k events (built new ∷ closed c ∷ []),
)

first_try-Balanced :
    (k : ℕ) (again : PoolCircuit → Answer) (rebuild : Built) (c : PoolCircuit) (p p' : CircuitPool)
    (events : List PoolEvent) (response : Bytes) (o : Option ClientError)
    → Balanced k p p' events
    → 0 < held c.conn p'.circuits
    → let (p'', all, result) = first_try again rebuild c p' events response o in
      Balanced k p p'' all
first_try-Balanced k again rebuild c p p' events response none h in_pool = h
first_try-Balanced k again rebuild c p p' events response (some e) h in_pool =
    retry-Balanced k again e c p p' events rebuild h in_pool

send_on-Balanced :
    (k : ℕ) (request again : PoolCircuit → Answer) (rebuild : Built) (p : CircuitPool) (got : Got)
    → IsGot k p got
    → let (p'', all, result) = send_on request again rebuild got in Balanced k p p'' all
send_on-Balanced k request again rebuild p (p', events, err e) h = h.0
send_on-Balanced k request again rebuild p (p', events, ok c) h =
    first_try-Balanced k again rebuild c p p' events (request c).response (request c).error h.0 h.1

run_call-Balanced :
    (k : ℕ) (call : PoolCall) (p : CircuitPool)
    → Balanced k p (run_call call p).0 (run_call call p).1
unfolding run_call set_relays send
run_call-Balanced k (call_set_relays relays brokers) p = refl
run_call-Balanced k (call_build_all build count) p = build_all-Balanced build count p k
run_call-Balanced k (call_get now build) p = (get-IsGot k now build p).0
run_call-Balanced k (call_send now build rebuild request again) p =
    send_on-Balanced k request again rebuild p (get now build p) (get-IsGot k now build p)

run_calls-Balanced :
    (k : ℕ) (calls : List PoolCall) (p : CircuitPool)
    → Balanced k p (run_calls calls p).0 (run_calls calls p).1
unfolding run_calls
run_calls-Balanced k [] p = refl
run_calls-Balanced k (call ∷ calls) p =
    let (p', events) = run_call call p in
    let first = run_call-Balanced k call p in
    let rest = run_calls-Balanced k calls (run_call call p).0 in
    omega (
      arith,
      first,
      rest,
      times_built-append k (run_call call p).1 (run_calls calls (run_call call p).0).1,
      times_closed-append k (run_call call p).1 (run_calls calls (run_call call p).0).1,
    )

-- Over any calls of the pool from its start, whatever the builds and the requests return, every
-- connection was opened exactly as often as it stands in the pool or was closed. So with a
-- connection of its own for each circuit, none is lost open, none is closed twice, and none that
-- was closed stays in the pool.
pub pool_balance :
    (calls : List PoolCall) (conn : ℕ)
    → let (p, events) = run_calls calls new_circuit_pool in
      times_built conn events ≡ held conn p.circuits + times_closed conn events
unfolding new_circuit_pool
pool_balance calls conn = omega (arith, run_calls-Balanced conn calls new_circuit_pool)
