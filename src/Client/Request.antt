-- ===== src/Client/Request.antt =====
-- sendRequest of client/main.go, with the exit's parser of relay/main.go.
use sbnet.Base.{
  ℕ, suc, ◌+◌, ◌-◌, ◌≤◌, ◌<◌, ◌≡◌, refl, sym, ap, ◌∙◌, ◌&&◌, Bool, not, none, some, List, [], ◌∷◌,
  ◌++◌, map, append-nil, append_assoc, arith, ltb, ◌==◌, nat_comparable, if◌then◌else◌, length,
  take, drop, get_or, Result, ok, err, All, le→ltb, lt→ltb, Bool-cases, drop-drop, set, inl, inr,
  length-append, bind_inv, take-append, drop-append,
}
use sbnet.Base.Bytes.{Bytes, slice, u16_at, put_u16}
use sbnet.Cell.{
  Cell, CellError, cell_of, content, cmd_relay, cmd_relay_done, cmd_create, cmd_created,
}
use sbnet.Crypto.{Aead, KeyExchange, CryptoError, derive_key, gen_key_pair}
use sbnet.Crypto.Layers.{IsKey, wrap, peel, peel-wrap, wrap_bad_key}
use sbnet.Client.{
  ClientCircuit, ClientError, request_payload, Event, read, receive, seal_request, sent,
  send_request, request_too_large, encrypt_failed, created_failed, no_keys, expect, created_circuit,
  build_circuit_via_bridge,
}
use sbnet.Relay.{key_cell}

-- A cell of the response whose layers come off to a text.
abbrev pub Peels : Aead → List Bytes → ℕ → Bytes → Cell → Type 0
Peels a keys command p c = (c.command ≡ command) × (peel a keys (content c) ≡ ok p)

-- Cells with the pieces of a response, in order.
abbrev pub AllPeel : Aead → List Bytes → List Bytes → List Cell → Type 0
AllPeel a keys [] [] = Unit {0}
AllPeel a keys [] (c ∷ cs) = ⊥
AllPeel a keys (p ∷ ps) [] = ⊥
AllPeel a keys (p ∷ ps) (c ∷ cs) = Peels a keys cmd_relay p c × AllPeel a keys ps cs

abbrev pub concat : List Bytes → Bytes
concat [] = []
concat (p ∷ ps) = p ++ concat ps

abbrev pub arrival : Cell → Event
arrival c = read (ok c)

pub length-request_payload :
    (host : Bytes) (port : ℕ) (req : Bytes)
    → length (request_payload host port req) ≡ 4 + length host + length req
length-request_payload host port req = omega (arith, length-append host (put_u16 port ++ req))

-- The tests of the loop.
abbrev other_command : ℕ → Bool
other_command command = not (command == cmd_relay) && not (command == cmd_relay_done)

abbrev is_done : ℕ → Bool
is_done command = command == cmd_relay_done

module _ (a : Aead) where
  -- The response is exactly the pieces one after the other; it ends at the cell that marks the end,
  -- whatever comes after that, and without an error.
  pub receive_all :
      (keys : List Bytes) (ps : List Bytes) (cs : List Cell) (end : Cell) (mark : Bytes)
      (later : List Event) (before : Bytes)
      → AllPeel a keys ps cs
      → Peels a keys cmd_relay_done mark end
      → receive a keys (map arrival cs ++ arrival end ∷ later) before
        ≡ record { response = before ++ concat ps; error = none }
  unfolding receive
  receive_all keys [] [] end mark later before all stop =
      rw (ap other_command stop.0, stop.1, ap is_done stop.0, append-nil before) refl
  receive_all keys [] (c ∷ cs) end mark later before all stop = absurd all
  receive_all keys (p ∷ ps) [] end mark later before all stop = absurd all
  receive_all keys (p ∷ ps) (c ∷ cs) end mark later before all stop =
      rw (ap other_command all.0.0, all.0.1, ap is_done all.0.0, receive)
        (receive_all keys ps cs end mark later (before ++ p) all.1 stop
          ∙ ap (λ (r : Bytes). record { response = r; error = none })
              (append_assoc before p (concat ps)))

  send_ok :
      (layers : ℕ → ℕ → ℕ) (events : Cell → List Event) (circ : ClientCircuit) (host : Bytes)
      (port : ℕ) (req : Bytes) {onion : Bytes}
      → wrap a layers circ.keys (request_payload host port req) ≡ ok onion
      → send_request a layers events circ host port req ≡ (
          if ltb 505 (length onion)
          then (none, record { response = []; error = some (request_too_large (length onion)) })
          else (
            some (cell_of circ.circ_id cmd_relay onion),
            receive a circ.keys (events (cell_of circ.circ_id cmd_relay onion)) [],
          ))
  unfolding send_request
  send_ok layers events circ host port req {onion} h =
      ap (λ (w : Result CryptoError Bytes). sent a events circ (seal_request a circ w)) h
      ∙ elim (Bool-cases (ltb 505 (length onion))) [
        | inl big ↦ rw big refl
        | inr fits ↦ rw fits refl
      ]

  -- On a circuit of three keys of 32 bytes each, a request is written in one relay cell of the
  -- circuit if its host and its bytes are together at most 417 bytes: the cell's content peels
  -- back to the payload with the keys in the order of the hops. A larger request is refused, and
  -- nothing is written.
  pub send_request_lem :
      (layers : ℕ → ℕ → ℕ) (events : Cell → List Event) (circ : ClientCircuit) (host : Bytes)
      (port : ℕ) (req : Bytes)
      → All IsKey circ.keys
      → length circ.keys ≡ 3
      → (length host + length req ≤ 417
          → (onion : Bytes) × (peel a circ.keys onion ≡ ok (request_payload host port req))
            × (length onion ≤ 505)
            × (send_request a layers events circ host port req ≡ (
              some (cell_of circ.circ_id cmd_relay onion),
              receive a circ.keys (events (cell_of circ.circ_id cmd_relay onion)) [],
            )))
        × (417 < length host + length req
            → send_request a layers events circ host port req ≡ (
              none,
              record {
                response = [];
                error = some (request_too_large (88 + length host + length req));
              },
            ))
  send_request_lem layers events circ host port req keys three =
      let (onion, wrapped, longer, back) =
        peel-wrap a layers circ.keys (request_payload host port req) keys in
      let size : length onion ≡ 88 + length host + length req =
        omega (arith, longer, three, length-request_payload host port req) in
      let out = send_ok layers events circ host port req wrapped in
      (
        (λ small. (
          onion,
          back,
          omega (arith, size),
          rw (le→ltb 505 (length onion) (omega (arith, size))) at out,
        )),
        (λ big. rw (lt→ltb 505 (length onion) (omega (arith, size)), size) at out),
      )

  send_fails :
      (layers : ℕ → ℕ → ℕ) (events : Cell → List Event) (circ : ClientCircuit) (host : Bytes)
      (port : ℕ) (req : Bytes) {e : CryptoError}
      → wrap a layers circ.keys (request_payload host port req) ≡ err e
      → send_request a layers events circ host port req
        ≡ (none, record { response = []; error = some (encrypt_failed e) })
  unfolding send_request
  send_fails layers events circ host port req h =
      ap (λ (w : Result CryptoError Bytes). sent a events circ (seal_request a circ w)) h

  wrap_one_key :
      (layers : ℕ → ℕ → ℕ) (key p : Bytes)
      → (e : CryptoError) × (wrap a layers (set no_keys 0 key) p ≡ err e)
  unfolding wrap
  wrap_one_key layers key p =
      let (e, h) =
        wrap_bad_key a (λ i. layers (suc i)) [] ([] ∷ []) p (λ bad. absurd (omega arith)) in
      (e, rw h refl)

  keys_of : Result ClientError ClientCircuit → List Bytes
  keys_of (ok circ) = circ.keys
  keys_of (err e) = []

  bridge_keys :
      (x : KeyExchange) (noise : ℕ → ℕ) (answer : Cell → Result CellError Cell) (now : ℕ)
      (circ : ClientCircuit)
      → build_circuit_via_bridge a x noise answer now ≡ ok circ
      → (key : Bytes) × (circ.keys ≡ set no_keys 0 key)
  unfolding build_circuit_via_bridge keys_of
  bridge_keys x noise answer now circ h =
      let (created, answered, made) =
        bind_inv
          (expect cmd_created created_failed
            (answer (key_cell 4294967295 cmd_create (gen_key_pair x noise).1)))
          (λ c. ok (created_circuit a x 4294967295 now (gen_key_pair x noise).0 c)) h in
      (derive_key x (gen_key_pair x noise).0 (take 32 created.body), sym (ap keys_of made))

  -- The circuit that buildCircuitViaBridge returns has a key for its first hop only, so no request
  -- can be sent over it: sendRequest fails, and writes nothing.
  pub bridge_never_sends :
      (x : KeyExchange) (noise : ℕ → ℕ) (answer : Cell → Result CellError Cell) (now : ℕ)
      (circ : ClientCircuit) (layers : ℕ → ℕ → ℕ) (events : Cell → List Event) (host : Bytes)
      (port : ℕ) (req : Bytes)
      → build_circuit_via_bridge a x noise answer now ≡ ok circ
      → (e : ClientError) × (send_request a layers events circ host port req
          ≡ (none, record { response = []; error = some e }))
  bridge_never_sends x noise answer now circ layers events host port req h =
      let (key, same) = bridge_keys x noise answer now circ h in
      let (e, fails) = wrap_one_key layers key (request_payload host port req) in
      (
        encrypt_failed e,
        send_fails layers events circ host port req (
            ap (λ (ks : List Bytes). wrap a layers ks (request_payload host port req)) same
            ∙ fails),
      )

get_or-append : (xs ys : Bytes) (i d : ℕ) → get_or (xs ++ ys) (length xs + i) d ≡ get_or ys i d
get_or-append [] ys i d = ap (λ (n : ℕ). get_or ys n d) (let e : 0 + i ≡ i = omega arith in e)
get_or-append (x ∷ xs) ys i d =
    ap (λ (n : ℕ). get_or (x ∷ (xs ++ ys)) n d)
      (let e : suc (length xs) + i ≡ suc (length xs + i) = omega arith in e)
    ∙ get_or-append xs ys i d

-- Behind the host.
payload_byte :
    (host : Bytes) (port : ℕ) (req : Bytes) (i at : ℕ)
    → at ≡ suc (suc (length host + i))
    → get_or (request_payload host port req) at 0 ≡ get_or (put_u16 port ++ req) i 0
payload_byte host port req i at e =
    ap (λ (n : ℕ). get_or (request_payload host port req) n 0) e
    ∙ get_or-append host (put_u16 port ++ req) i 0

-- The exit's parser of a payload: the four fields as the client put them in.
pub request_payload_parse :
    (host : Bytes) (port : ℕ) (req : Bytes)
    → length host < 65536
    → port < 65536
    → (u16_at (request_payload host port req) 0 ≡ length host)
      × (slice (request_payload host port req) 2 (2 + length host) ≡ host)
      × (u16_at (request_payload host port req) (2 + length host) ≡ port)
      × (drop (4 + length host) (request_payload host port req) ≡ req)
request_payload_parse host port req h k =
    let tail = put_u16 port ++ req in
    let e : 2 + length host - 2 ≡ length host = omega arith in
    let at : 4 + length host ≡ suc (suc (length host + 2)) = omega arith in
    let high = payload_byte host port req 0 (2 + length host) (omega arith) in
    let low = payload_byte host port req 1 (2 + length host + 1) (omega arith) in
    (
      omega arith,
      ap (λ n. take n (host ++ tail)) e ∙ take-append (length host) host tail refl,
      omega (arith, high, low),
      ap (λ (n : ℕ). drop n (request_payload host port req)) at
          ∙ sym (drop-drop 2 (length host) (host ++ tail))
          ∙ ap (λ (b : Bytes). drop 2 b) (drop-append (length host) host tail refl),
    )
