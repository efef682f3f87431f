-- ===== src/Client/Journey.antt =====
-- A request of client/main.go and its answer, over three relays of relay/main.go.
use sbnet.Base.{
  ℕ, suc, ◌+◌, ◌≤◌, ◌<◌, ◌≡◌, refl, sym, ap, subst, ◌∙◌, true, false, none, some, List, [], ◌∷◌,
  ◌++◌, map, arith, ◌==◌, nat_comparable, length, Result, ok, err, All, All-append, inr,
  length-append,
}
use sbnet.Base.Bytes.{Bytes}
use sbnet.Cell.{Cell, CellError, cell_of, cmd_relay, cmd_relay_done}
use sbnet.Cell.Wire.{transmit, transmit-Carries, cell_of-Carries}
use sbnet.Crypto.{Aead, KeyExchange}
use sbnet.Crypto.Layers.{IsKey, peel}
use sbnet.Relay.{Circuit, RelayServer, Network, Effect, start_exit}
use sbnet.Relay.Exit.{
  Resolver, resolve_host, Origin, send_done, stream, serve_exit, handle_exit_relay,
}
use sbnet.Relay.Onion.{downstream, downstream_peels}
use sbnet.Relay.Response.{hop_key}
use sbnet.Client.{ClientCircuit, Event, receive, send_request, request_payload}
use sbnet.Client.Request.{Peels, AllPeel, arrival, concat, receive_all, send_request_lem}
use sbnet.Client.Exchange.{pieces, map_append, exit_reads}
use sbnet.Client.Reply.{IsBuilt, length-hop_keys, hop_key-IsKey, come_back, piece_back, stream_back}

-- The exit's side of a request: its resolver, its internal name servers and the origin.
pub record Serving : Type 0 where
  pub resolver : Resolver
  pub internal_dns : Bytes
  pub origin : Origin

module _ (a : Aead) (x : KeyExchange) (net : Network) (noise : ℕ → ℕ) (seq_id fuel now conn : ℕ)
    (pad : ℕ → ℕ) (hop_noise exit_noise : ℕ → ℕ → ℕ) (circs : List Circuit) (ss : List RelayServer)
    (last : RelayServer) (v : Serving) where
  abbrev arrives : Result CellError Cell → List Effect
  arrives (err e) = []
  arrives (ok got) = downstream a x net noise seq_id fuel now conn (λ i. pad (suc i)) ss last got

  -- What the client reads for what the last relay starts.
  abbrev answers : List Effect → List Event
  answers (start_exit circ p ∷ []) =
      map (come_back a pad noise hop_noise circs)
        (handle_exit_relay a circ exit_noise v.resolver v.internal_dns v.origin p)
  answers effects = []

  -- What the client reads after it wrote a cell.
  unfoldable pub journey : Cell → List Event
  journey c = answers (arrives (transmit (pad 0) noise c))

  module _ {client : ClientCircuit} {exit : Circuit}
      (built : IsBuilt client circs ss last exit) where
    request_starts :
        (onion p : Bytes)
        → length onion ≤ 505
        → peel a client.keys onion ≡ ok p
        → arrives (transmit (pad 0) noise (cell_of client.circ_id cmd_relay onion))
          ≡ start_exit exit p ∷ []
    request_starts onion p short back =
        let (got, delivered, w) =
          transmit-Carries (pad 0) noise (cell_of client.circ_id cmd_relay onion)
            (cell_of-Carries client.circ_id cmd_relay onion built.id_lt (omega arith) short) in
        ap arrives delivered
        ∙ downstream_peels a x net noise seq_id fuel now conn (λ i. pad (suc i)) (map hop_key circs)
            ss last exit got built.on_path built.at_exit w
            (sym (ap (λ keys. peel a keys onion) built.same_keys) ∙ back)

    answer_back :
        (host : Bytes) (port : ℕ) (req : Bytes)
        → (length (resolve_host v.resolver v.internal_dns host) == 0) ≡ false
        → v.origin.dial (resolve_host v.resolver v.internal_dns host) port ≡ true
        → v.origin.write_ok req ≡ true
        → (gots : List Cell) × (end : Cell) × (map
              (come_back a pad noise hop_noise circs)
              (serve_exit a exit exit_noise v.resolver v.internal_dns v.origin host port req)
            ≡ map arrival gots ++ arrival end ∷ [])
          × AllPeel a client.keys (pieces v.origin.reads) gots
          × Peels a client.keys cmd_relay_done (0 ∷ []) end
    unfolding serve_exit send_done
    answer_back host port req resolved dialled written =
        let (gots, same, all) =
          stream_back a pad noise hop_noise circs built (λ i. exit_noise (suc i)) v.origin.reads in
        let (reply, end, replied, back, h) =
          piece_back a pad noise hop_noise circs built (exit_noise 0) cmd_relay_done (0 ∷ [])
            (inr refl) (omega arith) in
        (
          gots,
          end,
          rw
              (
                resolved,
                dialled,
                written,
                replied,
                map_append (come_back a pad noise hop_noise circs)
                    (stream a exit (λ i. exit_noise (suc i)) v.origin.reads) (reply ∷ []),
                same,
                back,
              )
              refl,
          all,
          h,
        )

    -- Over a circuit that is built, with keys of 32 bytes and a number of 32 bits, a request whose
    -- host and bytes are together at most 417 bytes, with a port of 16 bits, is written in one
    -- cell, and if the exit resolves the host, its dial at the port succeeds and so does its write
    -- of the request, then the client's answer is exactly the bytes that the origin's Reads
    -- returned, in order and without an error; the request came to the exit through two relays,
    -- and each cell of the answer came back through them.
    pub request_answered :
        (layers : ℕ → ℕ → ℕ) (host : Bytes) (port : ℕ) (req : Bytes)
        → length host + length req ≤ 417
        → port < 65536
        → (length (resolve_host v.resolver v.internal_dns host) == 0) ≡ false
        → v.origin.dial (resolve_host v.resolver v.internal_dns host) port ≡ true
        → v.origin.write_ok req ≡ true
        → (cell : Cell) × (send_request a layers journey client host port req
            ≡ (some cell, record { response = concat (pieces v.origin.reads); error = none }))
    unfolding journey
    request_answered layers host port req small k resolved dialled written =
        let three : length client.keys ≡ 3 =
          ap length built.same_keys
          ∙ omega (
            arith,
            length-append (map hop_key circs) (exit.key ∷ []),
            length-hop_keys circs,
            built.two_relays,
          ) in
        let keys : All IsKey client.keys = subst (All IsKey) (sym built.same_keys) (
          All-append IsKey (map hop_key circs) (exit.key ∷ []) (hop_key-IsKey circs built.hop_keys)
            (built.exit_key, _)) in
        let (onion, back, short, sent) =
          (send_request_lem a layers journey client host port req keys three).0 small in
        let (gots, end, read_all, all, stop) = answer_back host port req resolved dialled written in
        let heard : journey (cell_of client.circ_id cmd_relay onion)
            ≡ map arrival gots ++ arrival end ∷ [] =
          ap answers (request_starts onion (request_payload host port req) short back)
          ∙ ap (map (come_back a pad noise hop_noise circs)) (
              exit_reads a exit built.exit_key (omega (arith, built.exit_id, built.id_lt))
                exit_noise v.resolver v.internal_dns v.origin host port req (omega arith) k)
          ∙ read_all in
        (
          cell_of client.circ_id cmd_relay onion,
          sent
              ∙ ap
                  (λ events. (
                    some (cell_of client.circ_id cmd_relay onion),
                    receive a client.keys events [],
                  ))
                  heard
              ∙ ap (λ r. (some (cell_of client.circ_id cmd_relay onion), r))
                  (receive_all a client.keys (pieces v.origin.reads) gots end (0 ∷ []) [] [] all
                    stop),
        )
