-- ===== src/Client/Reply.antt =====
-- An answer of the exit of relay/main.go, as the client of client/main.go reads it.
use sbnet.Base.{
  ℕ, suc, ◌≤◌, ◌<◌, ◌≡◌, refl, sym, ap, ◌∙◌, fun_ext, Option, none, some, List, [], ◌∷◌, ◌++◌, map,
  arith, ◌==◌, nat_comparable, length, take, Result, ok, err, ◌>>=◌, All, Bool-cases, inl, inr,
  length-take,
}
use sbnet.Base.Bytes.{Bytes}
use sbnet.Cell.{Cell, read_failed, content, cmd_relay}
use sbnet.Cell.Wire.{transmit}
use sbnet.Crypto.{Aead, CryptoError, encrypt, decrypt}
use sbnet.Crypto.Layers.{IsKey, peel}
use sbnet.Relay.{Circuit, RelayServer}
use sbnet.Relay.Exit.{reply_cell, stream, chunk_max}
use sbnet.Relay.Onion.{OnPaths, AtExit}
use sbnet.Relay.Response.{hop_key, upstream, IsResponse, response_arrives}
use sbnet.Client.{ClientCircuit, Event, read}
use sbnet.Client.Request.{Peels, AllPeel, arrival}
use sbnet.Client.Exchange.{pieces}

-- A circuit that is built: the client has the keys of its three hops in order, the two relays
-- before the exit are linked, and the exit is one.
pub record IsBuilt (client : ClientCircuit) (circs : List Circuit) (ss : List RelayServer)
    (last : RelayServer) (exit : Circuit) : Type 0 where
  pub id_lt : client.circ_id < 4294967296
  pub two_relays : length circs ≡ 2
  pub same_keys : client.keys ≡ map hop_key circs ++ exit.key ∷ []
  pub hop_keys : All (λ x. IsKey x.key) circs
  pub exit_key : IsKey exit.key
  pub exit_id : exit.id ≡ client.circ_id
  pub on_path : OnPaths client.circ_id (map hop_key circs) ss
  pub at_exit : AtExit client.circ_id exit.key last exit

bind_ok : (r : Result CryptoError Bytes) → (r >>= (λ p. ok p)) ≡ r
bind_ok (ok p) = refl
bind_ok (err e) = refl

bind_assoc :
    (r : Result CryptoError Bytes) (f g : Bytes → Result CryptoError Bytes)
    → (r >>= f >>= g) ≡ (r >>= (λ p. f p >>= g))
bind_assoc (ok p) f g = refl
bind_assoc (err e) f g = refl

peel-append :
    (a : Aead) (keys : List Bytes) (key text : Bytes)
    → peel a (keys ++ key ∷ []) text ≡ (peel a keys text >>= decrypt a key)
unfolding peel
peel-append a [] key text = bind_ok (decrypt a key text)
peel-append a (k ∷ keys) key text =
    ap (λ f. decrypt a k text >>= f) (fun_ext (λ t. peel-append a keys key t))
    ∙ sym (bind_assoc (decrypt a k text) (peel a keys) (decrypt a key))

pub length-hop_keys : (circs : List Circuit) → length (map hop_key circs) ≡ length circs
length-hop_keys [] = refl
length-hop_keys (circ ∷ circs) = ap suc (length-hop_keys circs)

pub hop_key-IsKey :
    (circs : List Circuit) → All (λ x. IsKey x.key) circs → All IsKey (map hop_key circs)
hop_key-IsKey [] h = _
hop_key-IsKey (circ ∷ circs) h = (h.0, hop_key-IsKey circs h.1)

module _ (a : Aead) (pad noise : ℕ → ℕ) (hop_noise : ℕ → ℕ → ℕ) (circs : List Circuit) where
  abbrev what_is_read : Option Cell → Event
  what_is_read none = read (err read_failed)
  what_is_read (some out) = read (transmit (pad 0) noise out)

  -- What the client reads of a cell that the exit writes.
  unfoldable pub come_back : Cell → Event
  come_back c = what_is_read (upstream a pad hop_noise circs c)

  module _ {client : ClientCircuit} {ss : List RelayServer} {last : RelayServer} {exit : Circuit}
      (built : IsBuilt client circs ss last exit) where
    pub piece_back :
        (sealing : ℕ → ℕ) (command : ℕ) (p : Bytes)
        → IsResponse command
        → length p ≤ 421
        → (reply : Cell) × (got : Cell) × (reply_cell a exit command (encrypt a sealing exit.key p)
            ≡ some reply)
          × (come_back reply ≡ arrival got)
          × Peels a client.keys command p got
    unfolding come_back
    piece_back sealing command p resp short =
        let (reply, out, got, replied, sent, arrived, id, cmd, text) =
          response_arrives a pad hop_noise sealing noise (pad 0) circs exit command p resp
            (omega (arith, built.exit_id, built.id_lt)) built.hop_keys built.exit_key
            (omega (arith, built.two_relays)) in
        (
          reply,
          got,
          replied,
          ap what_is_read sent ∙ ap read arrived,
          (
            cmd,
            ap (λ keys. peel a keys (content got)) built.same_keys
                ∙ peel-append a (map hop_key circs) exit.key (content got)
                ∙ text,
          ),
        )

    pub stream_back :
        (sealing : ℕ → ℕ → ℕ) (reads : List Bytes)
        → (gots : List Cell) × (map come_back (stream a exit sealing reads) ≡ map arrival gots)
          × AllPeel a client.keys (pieces reads) gots
    unfolding stream pieces
    stream_back sealing [] = ([], refl, _)
    stream_back sealing (b ∷ reads) =
        let (gots, same, all) = stream_back (λ i. sealing (suc i)) reads in
        elim (Bool-cases (length (take chunk_max b) == 0)) [
          | inl e ↦ (gots, rw e same, rw e all)
          | inr e ↦
              let (reply, got, replied, back, h) =
                piece_back (sealing 0) cmd_relay (take chunk_max b) (inl refl)
                  (omega (arith, length-take chunk_max b)) in
              (got ∷ gots, rw (e, replied, back, same) refl, rw e (h, all))
        ]
