-- ===== src/Examples/Brokers.antt =====
-- The broker, the timeouts, the configurations and the client's guard at concrete inputs.
use sbnet.Base.{◌≡◌, ◌≤◌, ◌<◌, String, refl, some, none, [], ◌∷◌, string_comparable}
use sbnet.Base.Int.{pos}
use sbnet.Base.Maps.{lookup}
use sbnet.Types.{RelayDescriptor}
use sbnet.Broker.{
  KindRendezvous, KindSession, connect, connect_end, poll, answer, answered, failed, Body, heard,
  serve_kind, run_kind,
}
use sbnet.Broker.Rendezvous.{first_answer}
use sbnet.Client.Guard.{
  GuardState, WriteFile, with_role, pick_relay, load_or_pick_guard, guard_stays,
}
use mathlib.Core.List.{Memᴰ, List}

abbrev waiting_session : KindSession
waiting_session = record { id = "s"; offer = "o"; answer = none }

abbrev one_waiting : KindRendezvous
one_waiting = record { capacity = 64; offers = []; pending = ("s", waiting_session) ∷ [] }

abbrev body_of : String → Body
body_of text = record { size = 100; text = some text }

first_answer_example :
    ((body_of "first").size ≤ 65536
      → (serve_kind (connect_end "s" heard) (
          run_kind
            (poll ∷ answer "s" (body_of "late") ∷ connect "t" (body_of "x") ∷ [])
            (serve_kind (answer "s" (body_of "first")) one_waiting).0)).1
        ≡ answered "first")
    × (65536 < (body_of "first").size
        → serve_kind (answer "s" (body_of "first")) one_waiting ≡ (one_waiting, failed 400))
first_answer_example =
    first_answer one_waiting "s" "first" (body_of "first") waiting_session
      (poll ∷ answer "s" (body_of "late") ∷ connect "t" (body_of "x") ∷ []) (unfold lookup in refl)
      refl refl refl (_, (_, (refl, _)))

abbrev some_relay : RelayDescriptor
some_relay = record {
  id = "r1";
  ip = "10.0.0.1";
  port = pos 9001;
  role = "entry";
  public_key = "ab";
  country = "NL";
  region = "";
  oper_mode = "normal";
  bandwidth = pos 1000;
  version = "1.0.0";
  last_seen = pos 5;
}

abbrev one_listed : List RelayDescriptor
one_listed = some_relay ∷ []

abbrev pinned_state : GuardState
pinned_state = record { relay_id = "r1"; pinned_at = pos 50 }

-- A disk that takes every write.
abbrev keeps_all : WriteFile
keeps_all file state = some state

guard_stays_example :
    Memᴰ some_relay one_listed
    × (some_relay.role ≡ "entry")
    × (some pinned_state ≡ some pinned_state
        → (again : RelayDescriptor) × (load_or_pick_guard keeps_all 9
              (pos 70)
              (load_or_pick_guard keeps_all 200 (pos 50) none one_listed).1
              one_listed
            ≡ (some again, some pinned_state))
          × (again.id ≡ some_relay.id)
          × (again.role ≡ "entry"))
    × (some pinned_state ≡ none
        → load_or_pick_guard keeps_all 9
            (pos 70)
            (load_or_pick_guard keeps_all 200 (pos 50) none one_listed).1
            one_listed
          ≡ load_or_pick_guard keeps_all 9 (pos 70) none one_listed)
guard_stays_example =
    guard_stays keeps_all 200 9 (pos 50) (pos 70) one_listed some_relay
      (unfold load_or_pick_guard pick_relay with_role in refl)
