-- ===== src/Broker/Room.antt =====
-- The room for offers in broker/kind.go, over any requests.
use sbnet.Base.{
  ℕ, ◌≤◌, ◌≡◌, refl, Bool, true, false, Option, none, some, List, [], ◌∷◌, String, arith, leb, ◌==◌,
  string_comparable, if◌then◌else◌, length, length-append,
}
use sbnet.Base.Maps.{lookup, lookup-delete_self}
use sbnet.Broker.{
  KindSession, KindRendezvous, KindReply, failed, new_kind_rendezvous, KindRequest, connect,
  connect_end, poll, answer, Body, sdp_of, heard, timed_out, hung_up, answer_in, hear, kind_connect,
  kind_connect_end, kind_poll, kind_answer, poll_from, answer_to, serve_kind, run_kind,
}

-- The channel of offers has room for what is in it.
abbrev pub IsBounded : KindRendezvous → Type 0
IsBounded k = length k.offers ≤ k.capacity

IsBounded-if :
    (b : Bool) (x y : KindRendezvous × KindReply)
    → (b ≡ true → IsBounded x.0)
    → (b ≡ false → IsBounded y.0)
    → IsBounded (if b then x else y).0
IsBounded-if true x y h k = h refl
IsBounded-if false x y h k = k refl

poll-IsBounded :
    (k : KindRendezvous) (l : List KindSession)
    → length l ≤ k.capacity
    → length k.offers ≤ k.capacity
    → IsBounded (poll_from k l).0
poll-IsBounded k [] h b = b
poll-IsBounded k (x ∷ l) h b = omega arith

answer_to-IsBounded :
    (id sdp : String) (k : KindRendezvous) (o : Option KindSession)
    → IsBounded k
    → IsBounded (answer_to id sdp k o).0
answer_to-IsBounded id sdp k none b = b
answer_to-IsBounded id sdp k (some sess) b = b

hear-IsBounded :
    (id : String) (k : KindRendezvous) (o : Option String) → IsBounded k → IsBounded (hear id k o).0
hear-IsBounded id k none b = b
hear-IsBounded id k (some sdp) b = b

serve-IsBounded :
    (q : KindRequest) (k : KindRendezvous) → IsBounded k → IsBounded (serve_kind q k).0
unfolding serve_kind kind_connect kind_connect_end kind_poll kind_answer
serve-IsBounded (connect id body) k b =
    let sdp = sdp_of body in
    IsBounded-if (sdp == "") _ _ (λ e. b)
      (λ e.
        IsBounded-if (leb k.capacity (length k.offers)) _ _ (λ full. b)
          (λ room.
            ground (
              arith,
              length-append k.offers (record { id = id; offer = sdp; answer = none } ∷ []),
            )))
serve-IsBounded (connect_end id heard) k b = hear-IsBounded id k (answer_in (lookup id k.pending)) b
serve-IsBounded (connect_end id timed_out) k b = b
serve-IsBounded (connect_end id hung_up) k b = b
serve-IsBounded poll k b = poll-IsBounded k k.offers b b
serve-IsBounded (answer id body) k b =
    let sdp = sdp_of body in
    IsBounded-if (sdp == "") _ _ (λ e. b)
      (λ e. answer_to-IsBounded id sdp k (lookup id k.pending) b)

run-IsBounded :
    (qs : List KindRequest) (k : KindRendezvous) → IsBounded k → IsBounded (run_kind qs k)
unfolding run_kind
run-IsBounded [] k b = b
run-IsBounded (q ∷ qs) k b = run-IsBounded qs (serve_kind q k).0 (serve-IsBounded q k b)

-- Whatever is asked of a new rendezvous, no more offers wait than its channel holds, so a client
-- that finds room never blocks; and a client that finds none is refused and leaves no session
-- behind.
pub offers_bounded :
    (capacity : ℕ) (qs : List KindRequest) (id : String) (body : Body)
    → let k = run_kind qs (new_kind_rendezvous capacity) in
      (length k.offers ≤ k.capacity)
      × ((sdp_of body == "") ≡ false
          → leb k.capacity (length k.offers) ≡ true
          → ((serve_kind (connect id body) k).1 ≡ failed 503)
            × ((serve_kind (connect id body) k).0.offers ≡ k.offers)
            × (lookup id (serve_kind (connect id body) k).0.pending ≡ none))
unfolding serve_kind kind_connect new_kind_rendezvous
offers_bounded capacity qs id sdp = (
  run-IsBounded qs (new_kind_rendezvous capacity) (omega arith),
  (λ proper full. (
    rw (proper, full) refl,
    rw (proper, full) refl,
    rw (proper, full) (lookup-delete_self id _),
  )),
)
