-- ===== src/Broker.antt =====
-- broker/main.go and broker/kind.go: the token store, and the rendezvous of clients and volunteers.
-- Times are nanoseconds; tokens and session identifiers are the texts of random bytes.
pub mod Tokens
pub mod Rendezvous
pub mod Room
pub mod Queue
pub mod KeepAlive
pub mod Assign
use sbnet.Base.{
  ℕ, ◌+◌, Bool, true, false, ◌||◌, Option, none, some, List, [], ◌∷◌, ◌++◌, String, ltb, leb, ◌==◌,
  string_comparable, if◌then◌else◌, length,
}
use sbnet.Base.Maps.{Map, lookup, insert, delete}
use sbnet.Types.{RelayDescriptor}

abbrev pub token_ttl : ℕ
token_ttl = 300000000000

pub record TokenEntry : Type 0 where
  pub relay : RelayDescriptor
  pub expires_at : ℕ

abbrev pub Tokens : Type 0
Tokens = Map String TokenEntry

unfoldable pub issue : ℕ → String → RelayDescriptor → Tokens → Tokens
issue now token relay tokens =
    insert token (record { relay = relay; expires_at = now + token_ttl }) tokens

-- The token's entry if it is there and not past its time.
unfoldable pub judge : ℕ → String → Tokens → Option TokenEntry → Tokens × Option RelayDescriptor
judge now token tokens none = (delete token tokens, none)
judge now token tokens (some e) =
    if ltb e.expires_at now then (delete token tokens, none) else (tokens, some e.relay)

unfoldable pub validate : ℕ → String → Tokens → Tokens × Option RelayDescriptor
validate now token tokens = judge now token tokens (lookup token tokens)

-- One tick of gc.
unfoldable pub gc : ℕ → Tokens → Tokens
gc now [] = []
gc now ((k, e) ∷ tokens) =
    let rest = gc now tokens in if ltb e.expires_at now then rest else (k, e) ∷ rest

-- A pending session, with what is in the buffer of its channel for the answer.
pub record KindSession : Type 0 where
  pub id : String
  pub offer : String
  pub answer : Option String

-- `offers` is a channel with room for `capacity` sessions.
pub record KindRendezvous : Type 0 where
  pub capacity : ℕ
  pub offers : List KindSession
  pub pending : Map String KindSession

unfoldable pub new_kind_rendezvous : ℕ → KindRendezvous
new_kind_rendezvous capacity = record {
  capacity = if ltb capacity 16 then 16 else capacity;
  offers = [];
  pending = [];
}

abbrev pub kind_max_sdp : ℕ
kind_max_sdp = 65536

-- A request's body: its bytes up to the end of its first JSON value, and what it decodes to.
pub record Body : Type 0 where
  pub size : ℕ
  pub text : Option String

abbrev pub text_or_empty : Option String → String
text_or_empty none = ""
text_or_empty (some text) = text

-- What is refused is the same for a body that is too large or does not decode and for an empty text.
unfoldable pub sdp_of : Body → String
sdp_of body = if ltb kind_max_sdp body.size then "" else text_or_empty body.text

-- Which of the ready cases ends the client's wait.
pub data Woken : Type 0 where
  heard : Woken
  timed_out : Woken
  hung_up : Woken

-- A status, and what the body says.
pub data KindReply : Type 0 where
  failed : ℕ → KindReply
  waiting : KindReply
  answered : String → KindReply
  offered : String → String → KindReply
  no_content : KindReply
  accepted : KindReply
  unwritten : KindReply

-- handleKindConnect up to the wait for the answer. The session leaves `pending` again if the
-- channel is full.
unfoldable pub kind_connect : String → Body → KindRendezvous → KindRendezvous × KindReply
kind_connect id body k =
    let sdp = sdp_of body in
    let sess : KindSession = record { id = id; offer = sdp; answer = none } in
    if sdp == ""
    then (k, failed 400)
    else if leb k.capacity (length k.offers)
    then (record k { pending = delete id (insert id sess k.pending) }, failed 503)
    else (record k { pending = insert id sess k.pending; offers = k.offers ++ sess ∷ [] }, waiting)

abbrev pub answer_in : Option KindSession → Option String
answer_in none = none
answer_in (some sess) = sess.answer

abbrev pub leave : String → KindRendezvous → KindRendezvous
leave id k = record k { pending = delete id k.pending }

abbrev pub hear : String → KindRendezvous → Option String → KindRendezvous × KindReply
hear id k none = (k, waiting)
hear id k (some sdp) = (leave id k, answered sdp)

-- The end of handleKindConnect. Go takes any of the ready cases; the one for an answer is not ready
-- without one, and the client waits on.
unfoldable pub kind_connect_end : String → Woken → KindRendezvous → KindRendezvous × KindReply
kind_connect_end id heard k = hear id k (answer_in (lookup id k.pending))
kind_connect_end id timed_out k = (leave id k, failed 504)
kind_connect_end id hung_up k = (leave id k, unwritten)

-- The first session of the channel is taken off it; it may have been given up meanwhile.
abbrev pub poll_reply : KindSession → Option KindSession → KindReply
poll_reply sess none = no_content
poll_reply sess (some live) = offered sess.id sess.offer

abbrev pub poll_from : KindRendezvous → List KindSession → KindRendezvous × KindReply
poll_from k [] = (k, no_content)
poll_from k (sess ∷ rest) = (record k { offers = rest }, poll_reply sess (lookup sess.id k.pending))

unfoldable pub kind_poll : KindRendezvous → KindRendezvous × KindReply
kind_poll k = poll_from k k.offers

-- The channel for the answer has room for one.
abbrev pub put_answer : String → KindSession → KindSession
put_answer sdp sess = elim sess.answer [
  | none ↦ record sess { answer = some sdp }
  | some held ↦ sess
]

abbrev pub answer_to :
    String → String → KindRendezvous → Option KindSession → KindRendezvous × KindReply
answer_to id sdp k none = (k, failed 410)
answer_to id sdp k (some sess) =
    (record k { pending = insert id (put_answer sdp sess) k.pending }, accepted)

unfoldable pub kind_answer : String → Body → KindRendezvous → KindRendezvous × KindReply
kind_answer id body k =
    let sdp = sdp_of body in
    if sdp == "" then (k, failed 400) else answer_to id sdp k (lookup id k.pending)

pub data KindRequest : Type 0 where
  connect : String → Body → KindRequest
  connect_end : String → Woken → KindRequest
  poll : KindRequest
  answer : String → Body → KindRequest

-- The broker's handlers, one request after the other.
unfoldable pub serve_kind : KindRequest → KindRendezvous → KindRendezvous × KindReply
serve_kind (connect id body) k = kind_connect id body k
serve_kind (connect_end id woken) k = kind_connect_end id woken k
serve_kind poll k = kind_poll k
serve_kind (answer id body) k = kind_answer id body k

unfoldable pub run_kind : List KindRequest → KindRendezvous → KindRendezvous
run_kind [] k = k
run_kind (q ∷ qs) k = run_kind qs (serve_kind q k).0
