-- ===== src/Client/Create.antt =====
-- The first hop of a circuit: the Create of client/main.go and of relay/main.go.
use sbnet.Base.{
  ℕ, ◌%◌, ◌<◌, ◌≡◌, refl, sym, ap, subst, ◌∙◌, none, some, [], ◌∷◌, arith, nat_comparable, length,
  take, ok,
}
use sbnet.Base.Bytes.{Bytes, rand_bytes}
use sbnet.Base.Maps.{lookup, insert, lookup-insert_self}
use sbnet.Cell.{Cell, cell_of, cmd_create, cmd_created}
use sbnet.Cell.Wire.{Carries, transmit, transmit-Carries, cell_of-Carries}
use sbnet.Crypto.{KeyExchange, gen_key_pair, derive_key}
use sbnet.Crypto.Layers.{IsKey, derive_key_agree}
use sbnet.Relay.{Circuit, RelayServer, write, key_cell, handle_create}

pub length-pub : (x : KeyExchange) (noise : ℕ → ℕ) → length (gen_key_pair x noise).1 ≡ 32
unfolding gen_key_pair
length-pub x noise = x.length-base_mult (rand_bytes noise 32)

pub derive_key-IsKey : (x : KeyExchange) (priv pub_key : Bytes) → IsKey (derive_key x priv pub_key)
unfolding derive_key
derive_key-IsKey x priv pub_key = x.length-sum256 _

key_cell_lem :
    (circ_id command : ℕ) (p : Bytes)
    → length p ≡ 32
    → key_cell circ_id command p ≡ cell_of circ_id command p
unfolding cell_of
key_cell_lem circ_id command p h =
    ap (λ (n : ℕ). record (cell_of circ_id command p) { used = n })
      (let e : 32 ≡ length p % 65536 = omega arith in e)

pub key_cell-Carries :
    (circ_id command : ℕ) (p : Bytes)
    → circ_id < 4294967296
    → command < 256
    → length p ≡ 32
    → Carries circ_id command p (key_cell circ_id command p)
key_cell-Carries circ_id command p h k full =
    subst (λ (c : Cell). Carries circ_id command p c) (sym (key_cell_lem circ_id command p full))
      (cell_of-Carries circ_id command p h k (omega arith))

-- The first 32 bytes of the body.
pub key_of-Carries :
    {circ_id command : ℕ} {p : Bytes} (c : Cell)
    → Carries circ_id command p c
    → length p ≡ 32
    → take 32 c.body ≡ p
key_of-Carries c v full =
    ap (λ (n : ℕ). take n c.body) (let e : 32 ≡ c.used = omega (arith, v.used_length) in e)
    ∙ v.same_content

-- A Create as a relay reads it, with a client's public key of 32 bytes.
pub create_held :
    (x : KeyExchange) (relay : ℕ → ℕ) (s : RelayServer) (conn : ℕ) {circ_id : ℕ} {pub_key : Bytes}
    (asked : Cell)
    → Carries circ_id cmd_create pub_key asked
    → circ_id < 4294967296
    → length pub_key ≡ 32
    → (reply : Cell) × (circ : Circuit) × ((handle_create x relay s asked conn).1
        ≡ write conn reply ∷ [])
      × Carries circ_id cmd_created (gen_key_pair x relay).1 reply
      × (lookup circ_id (handle_create x relay s asked conn).0.circuits ≡ some circ)
      × (circ.out_conn ≡ none)
      × (circ.key ≡ derive_key x (gen_key_pair x relay).0 pub_key)
unfolding handle_create
create_held x relay s conn {circ_id} {pub_key} asked v h full =
    let circ : Circuit = record {
      id = asked.circ_id;
      in_conn = conn;
      out_conn = none;
      key = derive_key x (gen_key_pair x relay).0 (take 32 asked.body);
    } in
    (
      key_cell asked.circ_id cmd_created (gen_key_pair x relay).1,
      circ,
      refl,
      subst
          (λ (j : ℕ).
            Carries circ_id cmd_created (gen_key_pair x relay).1
              (key_cell j cmd_created (gen_key_pair x relay).1))
          (sym v.same_id)
          (key_cell-Carries circ_id cmd_created (gen_key_pair x relay).1 h (omega arith)
            (length-pub x relay)),
      ap (λ (j : ℕ). lookup j (insert asked.circ_id circ s.circuits)) (sym v.same_id)
          ∙ lookup-insert_self asked.circ_id circ s.circuits,
      refl,
      ap (λ b. derive_key x (gen_key_pair x relay).0 b) (key_of-Carries asked v full),
    )

-- For a circuit number of 32 bits, a Create, the relay's answer to it and what both sides then
-- hold: the client reads a Created cell of its circuit, the relay holds the circuit with no relay
-- behind it, and its key is the one that the client derives from the answer, of 32 bytes.
pub create_shares_key :
    (x : KeyExchange) (client relay : ℕ → ℕ) (r q : ℕ) (pad : ℕ → ℕ) (s : RelayServer)
    (circ_id conn : ℕ)
    → circ_id < 4294967296
    → (asked : Cell) × (reply : Cell) × (answered : Cell) × (circ : Circuit) × (transmit r pad
          (key_cell circ_id cmd_create (gen_key_pair x client).1)
        ≡ ok asked)
      × ((handle_create x relay s asked conn).1 ≡ write conn reply ∷ [])
      × (transmit q pad reply ≡ ok answered)
      × (answered.circ_id ≡ circ_id)
      × (answered.command ≡ cmd_created)
      × (lookup circ_id (handle_create x relay s asked conn).0.circuits ≡ some circ)
      × (circ.out_conn ≡ none)
      × (derive_key x (gen_key_pair x client).0 (take 32 answered.body) ≡ circ.key)
      × IsKey circ.key
create_shares_key x client relay r q pad s circ_id conn id =
    let (asked, read, v) = transmit-Carries r pad _ (
      key_cell-Carries circ_id cmd_create (gen_key_pair x client).1 id (omega arith)
        (length-pub x client)) in
    let (reply, circ, replied, carried, held, last, key) =
      create_held x relay s conn asked v id (length-pub x client) in
    let (answered, back, w) = transmit-Carries q pad reply carried in
    (
      asked,
      reply,
      answered,
      circ,
      read,
      replied,
      back,
      w.same_id,
      w.same_command,
      held,
      last,
      ap (λ b. derive_key x (gen_key_pair x client).0 b)
            (key_of-Carries answered w (length-pub x relay))
          ∙ (derive_key_agree x client relay).0
          ∙ sym key,
      subst IsKey (sym key) (derive_key-IsKey x _ _),
    )
