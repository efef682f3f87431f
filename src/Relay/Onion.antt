-- ===== src/Relay/Onion.antt =====
-- A request on its way to the exit, in relay/main.go: the client's onion through handleCell of the
-- relays of a circuit.
use sbnet.Base.{
  ℕ, suc, ◌+◌, ◌*◌, ◌≤◌, ◌<◌, ◌≡◌, refl, ◌∙◌, true, false, Option, none, some, List, [], ◌∷◌, ◌++◌,
  arith, ◌==◌, nat_comparable, string_comparable, length, ok, err, All, All-append, le→ltb,
  bind_inv, length-append,
}
use sbnet.Base.Bytes.{Bytes}
use sbnet.Base.Maps.{lookup}
use sbnet.Cell.{Cell, cell_of, cmd_relay}
use sbnet.Cell.Wire.{Carries, transmit, transmit-Carries, cell_of-Carries}
use sbnet.Crypto.{Aead, KeyExchange, decrypt}
use sbnet.Crypto.Layers.{IsKey, peel, wrap, peel-wrap, length-decrypt}
use sbnet.Relay.{
  Circuit, RelayServer, Network, Effect, write, start_exit, handle_cell, finished, handle_relay,
  relay_payload, pass_on, dispatch, reassemble,
}
use sbnet.Timeout.{touch}

abbrev pub touched : ℕ → Cell → RelayServer → RelayServer
touched now c s = record s { timeout = touch now c.circ_id s.timeout }

-- What a relay in the middle of a circuit holds of it, and what an exit holds of it.
pub record OnPath (circ_id : ℕ) (key : Bytes) (s : RelayServer) : Type 0 where
  pub circ : Circuit
  pub out : ℕ
  pub found : lookup circ_id s.circuits ≡ some circ
  pub same_key : circ.key ≡ key
  pub linked : circ.out_conn ≡ some out
  pub not_exit : (s.role == "exit") ≡ false

pub record AtExit (circ_id : ℕ) (key : Bytes) (s : RelayServer) (circ : Circuit) : Type 0 where
  pub found : lookup circ_id s.circuits ≡ some circ
  pub same_key : circ.key ≡ key
  pub is_exit : (s.role == "exit") ≡ true

-- The keys are those of the hops, in order.
abbrev pub OnPaths : ℕ → List Bytes → List RelayServer → Type 0
OnPaths circ_id [] [] = Unit
OnPaths circ_id [] (s ∷ ss) = ⊥
OnPaths circ_id (key ∷ keys) [] = ⊥
OnPaths circ_id (key ∷ keys) (s ∷ ss) = OnPath circ_id key s × OnPaths circ_id keys ss

-- The cell that a handler passed on, if that is all that it did.
abbrev pub passed_on : Option (RelayServer × List Effect) → Option Cell
passed_on (some (s, write out c ∷ [])) = some c
passed_on o = none

abbrev pub effects_of : Option (RelayServer × List Effect) → List Effect
effects_of none = []
effects_of (some (s, effects)) = effects

module _ (a : Aead) (x : KeyExchange) (net : Network) (noise : ℕ → ℕ)
    (seq_id fuel now conn : ℕ) where
  -- A cell through relays one after the other, each of which reads what the one in front of it
  -- wrote; and what the last one does with it.
  unfoldable pub downstream : (ℕ → ℕ) → List RelayServer → RelayServer → Cell → List Effect
  downstream pad [] last c = effects_of (handle_cell a x net noise seq_id fuel now last c conn)
  downstream pad (s ∷ ss) last c =
      elim (passed_on (handle_cell a x net noise seq_id fuel now s c conn)) [
        | none ↦ []
        | some c' ↦ elim (transmit (pad 0) noise c') [
          | err e ↦ []
          | ok got ↦ downstream (λ i. pad (suc i)) ss last got
        ]
      ]

  pub handle_cell_relay :
      (s : RelayServer) (c : Cell)
      → c.command ≡ cmd_relay
      → handle_cell a x net noise seq_id fuel now s c conn
        ≡ some (
          touched now c s,
          handle_relay a seq_id (touched now c s) c (lookup c.circ_id s.circuits),
        )
  unfolding handle_cell finished reassemble dispatch
  handle_cell_relay s c h = rw h refl

  relay_passes :
      {circ_id : ℕ} {key p text : Bytes} (s : RelayServer) (c : Cell) (h : OnPath circ_id key s)
      → Carries circ_id cmd_relay text c
      → decrypt a key text ≡ ok p
      → length p + 28 ≤ 505
      → passed_on (handle_cell a x net noise seq_id fuel now s c conn)
        ≡ some (cell_of circ_id cmd_relay p)
  unfolding handle_relay relay_payload pass_on
  relay_passes {p} s c h v opened fits =
      rw
        (
          handle_cell_relay s c v.same_command,
          v.same_id,
          h.found,
          h.same_key,
          v.same_content,
          opened,
          h.not_exit,
          h.linked,
          le→ltb 505 (length p + 28) fits,
        )
        refl

  exit_starts :
      {circ_id : ℕ} {key p text : Bytes} (s : RelayServer) (circ : Circuit) (c : Cell)
      (h : AtExit circ_id key s circ)
      → Carries circ_id cmd_relay text c
      → decrypt a key text ≡ ok p
      → effects_of (handle_cell a x net noise seq_id fuel now s c conn) ≡ start_exit circ p ∷ []
  unfolding handle_relay relay_payload
  exit_starts s circ c h v opened =
      rw
        (
          handle_cell_relay s c v.same_command,
          v.same_id,
          h.found,
          h.same_key,
          v.same_content,
          opened,
          h.is_exit,
        )
        refl

  downstream_step :
      (pad : ℕ → ℕ) (s : RelayServer) (ss : List RelayServer) (last : RelayServer) (c : Cell)
      {c' got : Cell}
      → passed_on (handle_cell a x net noise seq_id fuel now s c conn) ≡ some c'
      → transmit (pad 0) noise c' ≡ ok got
      → downstream pad (s ∷ ss) last c ≡ downstream (λ i. pad (suc i)) ss last got
  unfolding downstream
  downstream_step pad s ss last c h k = rw (h, k, downstream) refl

  pub downstream_peels :
      (pad : ℕ → ℕ) (keys : List Bytes) (ss : List RelayServer) {circ_id : ℕ} {key p text : Bytes}
      (last : RelayServer) (circ : Circuit) (c : Cell)
      → OnPaths circ_id keys ss
      → AtExit circ_id key last circ
      → Carries circ_id cmd_relay text c
      → peel a (keys ++ key ∷ []) text ≡ ok p
      → downstream pad ss last c ≡ start_exit circ p ∷ []
  unfolding downstream peel
  downstream_peels pad [] [] {key} {text} last circ c on at v h =
      let (inner, opened, done) = bind_inv (decrypt a key text) (peel a []) h in
      exit_starts last circ c at v (opened ∙ done)
  downstream_peels pad [] (s ∷ ss) last circ c on at v h = absurd on
  downstream_peels pad (k ∷ keys) [] last circ c on at v h = absurd on
  downstream_peels pad (k ∷ keys) (s ∷ ss) {circ_id} {key} {text} last circ c on at v h =
      let (inner, opened, rest) = bind_inv (decrypt a k text) (peel a (keys ++ key ∷ [])) h in
      let room : length inner + 28 ≤ 505 =
        omega (arith, (length-decrypt a k text opened).0, v.fits) in
      let sent =
        cell_of-Carries circ_id cmd_relay inner (omega (arith, v.is_cell.circ_id_lt, v.same_id))
          (omega arith) (omega arith) in
      let (got, read, v') = transmit-Carries (pad 0) noise (cell_of circ_id cmd_relay inner) sent in
      downstream_step pad s ss last c (relay_passes s c on.0 v opened room) read
      ∙ (downstream_peels (λ i. pad (suc i)) keys ss last circ got on.1 at v' rest)

  -- A payload that leaves room for a layer of 28 bytes for each hop comes to the exit whole: the
  -- client wraps it under the keys of the hops, each of 32 bytes, and sends it as a relay cell of
  -- the circuit's number of 32 bits; each relay, which holds the circuit with its key and a
  -- connection onward, passes on what it peeled in one cell; and all that the exit does is to
  -- start serving exactly that payload.
  pub onion_delivered :
      (pad : ℕ → ℕ) (layers : ℕ → ℕ → ℕ) (keys : List Bytes) (ss : List RelayServer) (circ_id : ℕ)
      (key p : Bytes) (last : RelayServer) (circ : Circuit)
      → circ_id < 4294967296
      → All IsKey keys
      → IsKey key
      → OnPaths circ_id keys ss
      → AtExit circ_id key last circ
      → length p + 28 * (length keys + 1) ≤ 505
      → (onion : Bytes) × (got : Cell) × (wrap a layers (keys ++ key ∷ []) p ≡ ok onion)
        × (transmit (pad 0) noise (cell_of circ_id cmd_relay onion) ≡ ok got)
        × (downstream (λ i. pad (suc i)) ss last got ≡ start_exit circ p ∷ [])
  onion_delivered pad layers keys ss circ_id key p last circ id all_keys last_key on at room =
      let (onion, wrapped, longer, back) =
        peel-wrap a layers (keys ++ key ∷ []) p
          (All-append IsKey keys (key ∷ []) all_keys (last_key, _)) in
      let sent =
        cell_of-Carries circ_id cmd_relay onion id (omega arith)
          (omega (arith, longer, length-append keys (key ∷ []))) in
      let (got, read, v) = transmit-Carries (pad 0) noise (cell_of circ_id cmd_relay onion) sent in
      (
        onion,
        got,
        wrapped,
        read,
        downstream_peels (λ i. pad (suc i)) keys ss last circ got on at v back,
      )
