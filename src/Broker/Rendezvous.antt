-- ===== src/Broker/Rendezvous.antt =====
-- The rendezvous of broker/kind.go over any requests.
use sbnet.Base.{
  ◌≤◌, ◌≡◌, refl, ap, ◌∙◌, Bool, true, false, Option, none, some, List, [], ◌∷◌, String, leb, ◌<◌,
  le→ltb, lt→ltb, ◌==◌, string_comparable, if◌then◌else◌, length, Bool-cases, inl, inr,
}
use sbnet.Base.Maps.{Map, lookup, insert, lookup-insert, lookup-delete, lookup-insert_self}
use sbnet.Broker.{
  KindSession, KindRendezvous, KindReply, answered, failed, KindRequest, connect, connect_end, poll,
  answer, Body, sdp_of, heard, timed_out, hung_up, answer_in, leave, hear, kind_connect,
  kind_connect_end, kind_poll, kind_answer, poll_from, answer_to, put_answer, serve_kind, run_kind,
}
use text.Mathlib.TextEquality.{eq_iff}

-- The requests that leave a session alone: the client that opened it is still waiting, and no other
-- client has the same identifier.
abbrev pub Leaves : String → KindRequest → Type 0
Leaves id (connect other sdp) = (other == id) ≡ false
Leaves id (connect_end other woken) = (other == id) ≡ false
Leaves id poll = Unit {0}
Leaves id (answer other sdp) = Unit {0}

abbrev pub AllLeave : String → List KindRequest → Type 0
AllLeave id [] = Unit {0}
AllLeave id (q ∷ qs) = Leaves id q × AllLeave id qs

-- The session waits for its client with this answer.
abbrev pub Answered : String → String → KindRendezvous → Type 0
Answered id sdp k =
    (sess : KindSession) × (lookup id k.pending ≡ some sess) × (sess.answer ≡ some sdp)

pending_if :
    (b : Bool) (x y : KindRendezvous × KindReply) (id sdp : String)
    → Answered id sdp x.0
    → Answered id sdp y.0
    → Answered id sdp (if b then x else y).0
pending_if true x y id sdp h k = h
pending_if false x y id sdp h k = k

poll_pending : (k : KindRendezvous) (l : List KindSession) → (poll_from k l).0.pending ≡ k.pending
poll_pending k [] = refl
poll_pending k (x ∷ l) = refl

put_answer_kept :
    (sdp offer : String) (sess : KindSession)
    → sess.answer ≡ some sdp
    → (put_answer offer sess).answer ≡ some sdp
put_answer_kept sdp offer sess h = rw h refl

-- An answer that comes later, to any session.
answer_to-Answered :
    (other offer : String) (k : KindRendezvous) (o : Option KindSession)
    → lookup other k.pending ≡ o
    → (id sdp : String) → Answered id sdp k
    → Answered id sdp (answer_to other offer k o).0
answer_to-Answered other offer k none e id sdp h = h
answer_to-Answered other offer k (some it) e id sdp (sess, held, h) =
    elim (Bool-cases (other == id)) [
      | inl same ↦
          let it_is : it ≡ sess = (let n : other ≡ id = (eq_iff other id).0 same in cc) in
          (
            put_answer offer it,
            rw (lookup-insert other id (put_answer offer it) k.pending, same) refl,
            put_answer_kept sdp offer it (ap (λ (y : KindSession). y.answer) it_is ∙ h),
          )
      | inr apart ↦
          (sess, rw (lookup-insert other id (put_answer offer it) k.pending, apart) held, h)
    ]

leave-Answered :
    (other : String) (k : KindRendezvous) (id sdp : String)
    → (other == id) ≡ false
    → Answered id sdp k
    → Answered id sdp (leave other k)
leave-Answered other k id sdp apart (sess, held, h) =
    (sess, rw (lookup-delete other id k.pending, apart) held, h)

hear-Answered :
    (other : String) (k : KindRendezvous) (o : Option String) (id sdp : String)
    → (other == id) ≡ false
    → Answered id sdp k
    → Answered id sdp (hear other k o).0
hear-Answered other k none id sdp apart h = h
hear-Answered other k (some offer) id sdp apart h = leave-Answered other k id sdp apart h

serve-Answered :
    (q : KindRequest) (k : KindRendezvous) (id sdp : String)
    → Leaves id q
    → Answered id sdp k
    → Answered id sdp (serve_kind q k).0
unfolding serve_kind kind_connect kind_connect_end kind_poll kind_answer
serve-Answered (connect other body) k id sdp apart (sess, held, h) =
    let offer = sdp_of body in
    pending_if (offer == "") _ _ id sdp (sess, held, h)
      (pending_if (leb k.capacity (length k.offers)) _ _ id sdp
        (
          sess,
          rw
              (
                lookup-delete other id (insert other _ k.pending),
                apart,
                lookup-insert other id _ k.pending,
                apart,
              )
              held,
          h,
        )
        (sess, rw (lookup-insert other id _ k.pending, apart) held, h))
serve-Answered (connect_end other heard) k id sdp apart (sess, held, h) =
    hear-Answered other k (answer_in (lookup other k.pending)) id sdp apart (sess, held, h)
serve-Answered (connect_end other timed_out) k id sdp apart h =
    leave-Answered other k id sdp apart h
serve-Answered (connect_end other hung_up) k id sdp apart h = leave-Answered other k id sdp apart h
serve-Answered poll k id sdp apart (sess, held, h) =
    (sess, ap (λ (m : Map String KindSession). lookup id m) (poll_pending k k.offers) ∙ held, h)
serve-Answered (answer other body) k id sdp apart (sess, held, h) =
    let offer = sdp_of body in
    pending_if (offer == "") (k, _) _ id sdp (sess, held, h)
      (answer_to-Answered other offer k (lookup other k.pending) refl id sdp (sess, held, h))

run-Answered :
    (qs : List KindRequest) (k : KindRendezvous) (id sdp : String)
    → AllLeave id qs
    → Answered id sdp k
    → Answered id sdp (run_kind qs k)
unfolding run_kind
run-Answered [] k id sdp apart h = h
run-Answered (q ∷ qs) k id sdp apart h =
    run-Answered qs (serve_kind q k).0 id sdp apart.1 (serve-Answered q k id sdp apart.0 h)

sdp_of_decoded :
    (body : Body) (sdp : String) → body.size ≤ 65536 → body.text ≡ some sdp → sdp_of body ≡ sdp
unfolding sdp_of
sdp_of_decoded body sdp small decoded = rw (le→ltb 65536 body.size small, decoded) refl

answer-Answered :
    (k : KindRendezvous) (id sdp : String) (body : Body) (sess : KindSession)
    → lookup id k.pending ≡ some sess
    → sess.answer ≡ none
    → sdp_of body ≡ sdp
    → (sdp == "") ≡ false
    → Answered id sdp (serve_kind (answer id body) k).0
unfolding serve_kind kind_answer
answer-Answered k id sdp body sess held empty decoded proper = (
  record sess { answer = some sdp },
  rw (decoded, proper, held, empty)
      (lookup-insert_self id (record sess { answer = some sdp }) k.pending),
  refl,
)

end_answers :
    (k : KindRendezvous) (id sdp : String)
    → Answered id sdp k
    → (serve_kind (connect_end id heard) k).1 ≡ answered sdp
unfolding serve_kind kind_connect_end
end_answers k id sdp (sess, held, h) = rw (held, h) refl

-- The first answer to a session, not empty, in a body that decodes and is at most 64 KiB long, is
-- the one that its client gets if its wait ends with an answer: whatever comes in between, short of
-- the client's own end and of a second client with the same identifier, further answers included.
-- A larger body is refused with 400 and leaves everything as it was.
pub first_answer :
    (k : KindRendezvous) (id sdp : String) (body : Body) (sess : KindSession)
    (qs : List KindRequest)
    → lookup id k.pending ≡ some sess
    → sess.answer ≡ none
    → body.text ≡ some sdp
    → (sdp == "") ≡ false
    → AllLeave id qs
    → (body.size ≤ 65536
        → (serve_kind (connect_end id heard) (run_kind qs (serve_kind (answer id body) k).0)).1
          ≡ answered sdp)
      × (65536 < body.size → serve_kind (answer id body) k ≡ (k, failed 400))
unfolding serve_kind kind_answer sdp_of
first_answer k id sdp body sess qs held empty decoded proper apart = (
  (λ small.
      unfold serve_kind in
      end_answers _ id sdp (
        run-Answered qs (serve_kind (answer id body) k).0 id sdp apart (
          answer-Answered k id sdp body sess held empty (sdp_of_decoded body sdp small decoded)
            proper))),
  (λ large. rw (lt→ltb 65536 body.size large) refl),
)
