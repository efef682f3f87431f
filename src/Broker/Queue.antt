-- ===== src/Broker/Queue.antt =====
-- The queue of waiting clients in broker/kind.go: each comes to its turn.
use sbnet.Base.{
  ℕ, zero, suc, ◌+◌, ◌≡◌, refl, ap, ◌∙◌, Bool, true, false, Option, none, some, List, [], ◌∷◌, ◌++◌,
  String, arith, leb, ◌==◌, string_comparable, if◌then◌else◌, length, get_elem?, Bool-cases, inl,
  inr,
}
use sbnet.Base.Maps.{Map, lookup, insert, lookup-insert, lookup-delete}
use sbnet.Broker.{
  KindSession, KindRendezvous, KindReply, offered, KindRequest, connect, connect_end, poll, answer,
  sdp_of, Woken, heard, timed_out, hung_up, answer_in, leave, hear, kind_connect, kind_connect_end,
  kind_poll, kind_answer, poll_from, poll_reply, answer_to, put_answer, serve_kind, run_kind,
}
use sbnet.Broker.Rendezvous.{Leaves, AllLeave}

-- How many volunteers have polled.
abbrev pub polls_in : KindRequest → ℕ
polls_in (connect id sdp) = 0
polls_in (connect_end id woken) = 0
polls_in poll = 1
polls_in (answer id sdp) = 0

abbrev pub all_polls : List KindRequest → ℕ
all_polls [] = 0
all_polls (q ∷ qs) = polls_in q + all_polls qs

-- The client's session is pending.
abbrev pub Pending : String → KindRendezvous → Type 0
Pending id k = (live : KindSession) × (lookup id k.pending ≡ some live)

-- A session with so many offers in front of it, whose client still waits.
abbrev pub Waits : ℕ → KindSession → KindRendezvous → Type 0
Waits i sess k = (get_elem? k.offers i ≡ some sess) × Pending sess.id k

get_elem?-append :
    (xs ys : List KindSession) (i : ℕ) {x : KindSession}
    → get_elem? xs i ≡ some x
    → get_elem? (xs ++ ys) i ≡ some x
get_elem?-append [] ys i h = absurd cc
get_elem?-append (y ∷ xs) ys zero h = h
get_elem?-append (y ∷ xs) ys (suc i) h = get_elem?-append xs ys i h

Waits-if :
    (b : Bool) (x y : KindRendezvous × KindReply) (i : ℕ) (sess : KindSession)
    → Waits i sess x.0
    → Waits i sess y.0
    → Waits i sess (if b then x else y).0
Waits-if true x y i sess h k = h
Waits-if false x y i sess h k = k

-- One more pending session does not touch another.
insert-Pending :
    (id other : String) (s : KindSession) (m : Map String KindSession) (live : KindSession)
    → (other == id) ≡ false
    → lookup id m ≡ some live
    → lookup id (insert other s m) ≡ some live
insert-Pending id other s m live apart h = rw (lookup-insert other id s m, apart) h

answer_to-Waits :
    (other sdp : String) (k : KindRendezvous) (o : Option KindSession) (i : ℕ) (sess : KindSession)
    → Waits i sess k
    → Waits i sess (answer_to other sdp k o).0
answer_to-Waits other sdp k none i sess h = h
answer_to-Waits other sdp k (some it) i sess (at, (live, held)) =
    elim (Bool-cases (other == sess.id)) [
      | inl same ↦ (
        at,
        (
          put_answer sdp it,
          rw (lookup-insert other sess.id (put_answer sdp it) k.pending, same) refl,
        ),
      )
      | inr apart ↦
          (at, (live, insert-Pending sess.id other (put_answer sdp it) k.pending live apart held))
    ]

poll_from-Waits :
    (k : KindRendezvous) (l : List KindSession) (i : ℕ) (sess : KindSession)
    → get_elem? l (1 + i) ≡ some sess
    → Pending sess.id k
    → Waits i sess (poll_from k l).0
poll_from-Waits k [] i sess h p = absurd cc
poll_from-Waits k (x ∷ rest) i sess h p =
    (ap (λ (n : ℕ). get_elem? (x ∷ rest) n) (let e : suc i ≡ 1 + i = omega arith in e) ∙ h, p)

leave-Waits :
    (other : String) (k : KindRendezvous) (i : ℕ) (sess : KindSession)
    → (other == sess.id) ≡ false
    → Waits i sess k
    → Waits i sess (leave other k)
leave-Waits other k i sess apart (at, (live, held)) =
    (at, (live, rw (lookup-delete other sess.id k.pending, apart) held))

hear-Waits :
    (other : String) (k : KindRendezvous) (o : Option String) (i : ℕ) (sess : KindSession)
    → (other == sess.id) ≡ false
    → Waits i sess k
    → Waits i sess (hear other k o).0
hear-Waits other k none i sess apart h = h
hear-Waits other k (some sdp) i sess apart h = leave-Waits other k i sess apart h

connect_end-Waits :
    (other : String) (woken : Woken) (k : KindRendezvous) (i : ℕ) (sess : KindSession)
    → (other == sess.id) ≡ false
    → Waits i sess k
    → Waits i sess (kind_connect_end other woken k).0
unfolding kind_connect_end
connect_end-Waits other heard k i sess apart h =
    hear-Waits other k (answer_in (lookup other k.pending)) i sess apart h
connect_end-Waits other timed_out k i sess apart h = leave-Waits other k i sess apart h
connect_end-Waits other hung_up k i sess apart h = leave-Waits other k i sess apart h

serve-Waits :
    (q : KindRequest) (k : KindRendezvous) (i : ℕ) (sess : KindSession)
    → Leaves sess.id q
    → Waits (polls_in q + i) sess k
    → Waits i sess (serve_kind q k).0
unfolding serve_kind kind_connect kind_connect_end kind_poll kind_answer
serve-Waits (connect other body) k i sess apart (at, (live, held)) =
    let sdp = sdp_of body in
    let here = ap (λ (n : ℕ). get_elem? k.offers n) (let e : i ≡ 0 + i = omega arith in e) ∙ at in
    let new : KindSession = record { id = other; offer = sdp; answer = none } in
    let kept = insert-Pending sess.id other new k.pending live apart held in
    Waits-if (sdp == "") _ _ i sess (here, (live, held))
      (Waits-if (leb k.capacity (length k.offers)) _ _ i sess
        (here, (live, rw (lookup-delete other sess.id (insert other new k.pending), apart) kept))
        (get_elem?-append k.offers (new ∷ []) i here, (live, kept)))
serve-Waits (connect_end other woken) k i sess apart (at, p) =
    let here = ap (λ (n : ℕ). get_elem? k.offers n) (let e : i ≡ 0 + i = omega arith in e) ∙ at in
    connect_end-Waits other woken k i sess apart (here, p)
serve-Waits poll k i sess apart (at, p) = poll_from-Waits k k.offers i sess at p
serve-Waits (answer other body) k i sess apart (at, p) =
    let sdp = sdp_of body in
    let here = ap (λ (n : ℕ). get_elem? k.offers n) (let e : i ≡ 0 + i = omega arith in e) ∙ at in
    Waits-if (sdp == "") (k, _) _ i sess (here, p)
      (answer_to-Waits other sdp k (lookup other k.pending) i sess (here, p))

run-Waits :
    (qs : List KindRequest) (k : KindRendezvous) (i : ℕ) (sess : KindSession)
    → AllLeave sess.id qs
    → Waits (all_polls qs + i) sess k
    → Waits i sess (run_kind qs k)
unfolding run_kind
run-Waits [] k i sess apart (at, p) =
    (ap (λ (n : ℕ). get_elem? k.offers n) (let e : i ≡ 0 + i = omega arith in e) ∙ at, p)
run-Waits (q ∷ qs) k i sess apart (at, p) = run-Waits qs (serve_kind q k).0 i sess apart.1 (
    serve-Waits q k (all_polls qs + i) sess apart.0 (
      ap (λ (n : ℕ). get_elem? k.offers n)
            (let e : polls_in q + (all_polls qs + i) ≡ polls_in q + all_polls qs + i =
                omega arith in
              e)
          ∙ at,
      p,
    ))

poll_first :
    (k : KindRendezvous) (l : List KindSession) (sess : KindSession)
    → get_elem? l 0 ≡ some sess
    → Pending sess.id k
    → (poll_from k l).1 ≡ offered sess.id sess.offer
poll_first k [] sess h p = absurd cc
poll_first k (x ∷ rest) sess h (live, held) =
    let same : x ≡ sess = cc in
    ap (λ (s : KindSession). poll_reply s (lookup s.id k.pending)) same ∙ ap (poll_reply sess) held

-- A client comes to its turn. If so many offers stand in front of its own as volunteers poll in
-- the requests that come next, whatever else these do, short of the client's own end and of a
-- second client with the same identifier, then the poll after them is handed that client's offer.
pub offer_reached :
    (k : KindRendezvous) (qs : List KindRequest) (sess : KindSession)
    → AllLeave sess.id qs
    → Waits (all_polls qs) sess k
    → (serve_kind poll (run_kind qs k)).1 ≡ offered sess.id sess.offer
unfolding serve_kind kind_poll
offer_reached k qs sess apart (at, p) =
    let (here, pending) = run-Waits qs k 0 sess apart (
      ap (λ (n : ℕ). get_elem? k.offers n)
            (let e : all_polls qs + 0 ≡ all_polls qs = omega arith in e)
          ∙ at,
      p,
    ) in
    poll_first (run_kind qs k) (run_kind qs k).offers sess here pending
