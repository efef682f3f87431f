-- ===== src/Kind/Matched.antt =====
-- A client and a volunteer of kind/main.go, brought together by broker/kind.go.
use sbnet.Base.{
  ℕ, ◌≤◌, ◌≡◌, refl, ap, ◌∙◌, true, false, Option, none, some, List, ◌∷◌, String, ◌==◌,
  string_comparable,
}
use sbnet.Base.Maps.{lookup}
use sbnet.Broker.{
  KindSession, KindRendezvous, answered, Body, heard, offered, KindRequest, connect_end, kind_poll,
  kind_answer, poll_from, poll_reply, serve_kind, run_kind,
}
use sbnet.Broker.Rendezvous.{AllLeave, first_answer}
use sbnet.Kind.{KindProxy, poll_result, Reach, Served, opened, serve_answer, worker_round}

-- The poll of a broker whose first session is pending.
polled :
    (k : KindRendezvous) (offers : List KindSession) (sess live : KindSession)
    (rest : List KindSession)
    → offers ≡ sess ∷ rest
    → lookup sess.id k.pending ≡ some live
    → poll_from k offers ≡ (record k { offers = rest }, offered sess.id sess.offer)
polled k offers sess live rest first held =
    ap (poll_from k) first
    ∙ ap (λ (o : Option KindSession). (record k { offers = rest }, poll_reply sess o)) held

-- A round of a volunteer at a broker whose first offer is of a client that waits and has no answer
-- yet: if the volunteer makes an answer to the client's offer, which is not empty, and submits it in
-- a body of at most 64 KiB, then that answer is the one that the client gets if its wait ends with
-- an answer, whatever else comes to the broker before the client's end, short of a second client
-- with the same identifier.
pub worker_round_lem :
    (w : Reach) (p : KindProxy) (r : ℕ) (k : KindRendezvous) (sess live : KindSession)
    (rest : List KindSession) (sdp : String) (body : Body) (channel : Option ℕ)
    (qs : List KindRequest)
    → k.offers ≡ sess ∷ rest
    → lookup sess.id k.pending ≡ some live
    → live.answer ≡ none
    → w.volunteer_answer sess.offer ≡ some (body, channel)
    → body.text ≡ some sdp
    → body.size ≤ 65536
    → (sdp == "") ≡ false
    → w.post_ok ≡ true
    → AllLeave sess.id qs
    → (serve_kind (connect_end sess.id heard) (run_kind qs (worker_round w p r k).0)).1
      ≡ answered sdp
unfolding worker_round kind_poll poll_result serve_answer
worker_round_lem w p r k sess live rest sdp body channel qs first held empty made decoded small
      proper posted apart =
    let k' = record k { offers = rest } in
    let round : worker_round w p r k ≡ ((kind_answer sess.id body k').0, opened w p r channel) =
      rw (polled k k.offers sess live rest first held, made, posted) refl in
    ap
      (λ (s : KindRendezvous × Served).
        (serve_kind (connect_end sess.id heard) (run_kind qs s.0)).1)
      round
    ∙ unfold serve_kind in
      (first_answer k' sess.id sdp body live qs held empty decoded proper apart).0 small
