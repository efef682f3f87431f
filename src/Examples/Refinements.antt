-- ===== src/Examples/Refinements.antt =====
-- Lists of requests at concrete inputs: the directory's register, and the rendezvous' queue.
use sbnet.Base.{◌≡◌, refl, true, some, none, [], ◌∷◌, map, arith, String, string_comparable}
use sbnet.Types.{RelayDescriptor}
use sbnet.Base.Int.{pos}
use sbnet.Base.Maps.{lookup}
use sbnet.Directory.Register.{DirectoryRequest, to_register, to_sync, announced, announce_all}
use sbnet.Directory.Refinement.{register_of, handle_requests, handle_requests_refines}
use sbnet.Broker.{
  KindRendezvous, KindSession, KindRequest, connect, connect_end, poll, answer, answered, Body,
  heard, timed_out, offered, serve_kind, run_kind,
}
use sbnet.Broker.Queue.{offer_reached}
use sbnet.Examples.Directories.{relay_at, joined, empty_server, request_at}
use sbnet.Kind.{KindProxy, Reach, worker_round}
use sbnet.Kind.Matched.{worker_round_lem}
use mathlib.Core.List.{List}

abbrev requests : List DirectoryRequest
requests =
    to_register (pos 500) (some (request_at (pos 490)))
    ∷ to_sync (pos 510) none
    ∷ to_sync (pos 520) (some (request_at (pos 490)))
    ∷ []

handle_requests_refines_example :
    lookup "r1" (handle_requests joined empty_server requests).relays
    ≡ announce_all (map (announced joined "s") requests) (register_of empty_server) "r1"
handle_requests_refines_example = handle_requests_refines joined empty_server requests "r1"

abbrev session : String → KindSession
session id = record { id = id; offer = id; answer = none }

abbrev two_offers : KindRendezvous
two_offers = record {
  capacity = 16;
  offers = session "a" ∷ session "b" ∷ [];
  pending = ("b", session "b") ∷ ("a", session "a") ∷ [];
}

abbrev body_of : String → Body
body_of text = record { size = 100; text = some text }

abbrev between : List KindRequest
between =
    connect "c" (body_of "x") ∷ answer "b" (body_of "early") ∷ poll ∷ connect_end "a" timed_out ∷ []

offer_reached_example : (serve_kind poll (run_kind between two_offers)).1 ≡ offered "b" "b"
offer_reached_example =
    offer_reached two_offers between (session "b") (refl, (_, (_, (refl, _))))
      (refl, (session "b", unfold lookup in refl))

abbrev fresh_offers : KindRendezvous
fresh_offers = record two_offers { pending = ("a", session "a") ∷ [] }

abbrev entry_at : RelayDescriptor
entry_at = relay_at (pos 0)

abbrev volunteer : KindProxy
volunteer = record { entries = entry_at ∷ [] }

abbrev reach : Reach
reach = record {
  volunteer_answer = λ offer. some (body_of "sdp", some 4);
  post_ok = true;
  dial = λ ip port. some 5;
}

worker_round_lem_example :
    (serve_kind (connect_end "a" heard) (
      run_kind
        (connect "c" (body_of "x") ∷ poll ∷ [])
        (worker_round reach volunteer 3 fresh_offers).0)).1
    ≡ answered "sdp"
worker_round_lem_example =
    worker_round_lem reach volunteer 3 fresh_offers (session "a") (session "a") (session "b" ∷ [])
      "sdp" (body_of "sdp") (some 4) (connect "c" (body_of "x") ∷ poll ∷ []) refl
      (unfold lookup in refl) refl refl refl (omega arith) refl refl (refl, (_, _))
