-- ===== src/Relay/Response.antt =====
-- A response on its way to the client, in relay/main.go: the exit's cells through forwardCells of
-- the relays in front of it.
use sbnet.Base.{
  ℕ, suc, ◌+◌, ◌*◌, ◌%◌, ◌≤◌, ◌<◌, ◌≡◌, refl, ap, ◌∙◌, ◌||◌, true, Option, none, some, List, [],
  ◌∷◌, map, arith, ◌==◌, nat_comparable, length, ok, ◌>>=◌, All, le→ltb, ◌⊎◌, inl, inr,
}
use sbnet.Base.Bytes.{Bytes, copy_into}
use sbnet.Cell.{Cell, cell_of, content, cmd_relay, cmd_relay_done}
use sbnet.Cell.Wire.{Carries, transmit, transmit-Carries, cell_of-Carries, filled-Carries}
use sbnet.Crypto.{Aead, encrypt, decrypt}
use sbnet.Crypto.Layers.{IsKey, decrypt-encrypt, peel}
use sbnet.Relay.{Circuit}
use sbnet.Relay.Exit.{reply_cell, forward_cell}

abbrev pub hop_key : Circuit → Bytes
hop_key circ = circ.key

-- The two commands that carry a response.
abbrev pub IsResponse : ℕ → Type 0
IsResponse command = (command ≡ cmd_relay) ⊎ (command ≡ cmd_relay_done)

response_test :
    (command : ℕ)
    → IsResponse command
    → ((command == cmd_relay) || (command == cmd_relay_done)) ≡ true
response_test command (inl e) = rw e refl
response_test command (inr e) = rw e refl

response_lt : (command : ℕ) → IsResponse command → command < 256
response_lt command (inl e) = omega arith
response_lt command (inr e) = omega arith

module _ (a : Aead) where
  -- The relays between the client and the exit, the client's first hop first; each reads what the
  -- relay behind it wrote. `pad` and `noise` are each relay's padding and its random numbers.
  unfoldable pub upstream : (ℕ → ℕ) → (ℕ → ℕ → ℕ) → List Circuit → Cell → Option Cell
  upstream pad noise [] c = some c
  upstream pad noise (circ ∷ circs) c =
      elim (upstream (λ i. pad (suc i)) (λ i. noise (suc i)) circs c) [
        | none ↦ none
        | some c' ↦ forward_cell a circ (noise 0) (transmit (pad 0) (noise 0) c')
      ]

  forward_cell-Carries :
      (circ : Circuit) (noise : ℕ → ℕ) {circ_id command : ℕ} {p : Bytes} (c : Cell)
      → Carries circ_id command p c
      → IsResponse command
      → IsKey circ.key
      → length p + 28 ≤ 505
      → (enc : Bytes) × (c' : Cell) × (forward_cell a circ noise (ok c) ≡ some c')
        × Carries circ_id command enc c'
        × (length enc ≡ length p + 28)
        × (decrypt a circ.key enc ≡ ok p)
  unfolding forward_cell
  forward_cell-Carries circ noise {circ_id} {command} {p} c v resp key fits =
      let (enc, sealed, longer, opened) = decrypt-encrypt a noise circ.key p key in
      let is_resp =
        ap (λ (k : ℕ). (k == cmd_relay) || (k == cmd_relay_done)) v.same_command
        ∙ response_test command resp in
      let w = v.is_cell in
      let short : length enc ≤ 505 = omega (arith, longer) in
      (
        enc,
        record c { used = length enc % 65536; body = copy_into c.body enc },
        rw (is_resp, v.same_content, sealed, le→ltb 505 (length enc) short) refl,
        filled-Carries circ_id command c.body enc _ (omega (arith, w.circ_id_lt, v.same_id))
            (response_lt command resp) w.length_body short v.same_id v.same_command refl refl,
        longer,
        opened,
      )

  -- Each relay adds one layer, which the client peels in the order of the hops.
  upstream-Carries :
      (pad : ℕ → ℕ) (noise : ℕ → ℕ → ℕ) (circs : List Circuit) {circ_id command : ℕ} {p : Bytes}
      (c : Cell)
      → Carries circ_id command p c
      → IsResponse command
      → All (λ x. IsKey x.key) circs
      → length p + 28 * length circs ≤ 505
      → (enc : Bytes) × (c' : Cell) × (upstream pad noise circs c ≡ some c')
        × Carries circ_id command enc c'
        × (length enc ≡ length p + 28 * length circs)
        × (peel a (map hop_key circs) enc ≡ ok p)
  unfolding upstream peel
  upstream-Carries pad noise [] {p} c v resp keys fits = (p, c, refl, v, omega arith, refl)
  upstream-Carries pad noise (circ ∷ circs) {p} c v resp keys fits =
      let (inner, c', sent, v', longer, back) =
        upstream-Carries (λ i. pad (suc i)) (λ i. noise (suc i)) circs c v resp keys.1
          (omega arith) in
      let (c'', read, v'') = transmit-Carries (pad 0) (noise 0) c' v' in
      let (enc, out, forwarded, v3, more, opened) =
        forward_cell-Carries circ (noise 0) c'' v'' resp keys.0 (omega (arith, longer)) in
      (enc, out, rw (sent, read) forwarded, v3, omega (arith, longer, more), rw opened back)

  -- A piece of a response that leaves room for one layer of 28 bytes for each hop is written by
  -- the exit in a cell of either response command; each relay in front of it forwards it; and the
  -- client reads a cell of the same circuit and command, whose content it peels back to that
  -- piece with the keys of the hops. The keys have 32 bytes and the circuit's number 32 bits.
  pub response_arrives :
      (pad : ℕ → ℕ) (noise : ℕ → ℕ → ℕ) (last wire : ℕ → ℕ) (r : ℕ) (circs : List Circuit)
      (exit : Circuit) (command : ℕ) (p : Bytes)
      → IsResponse command
      → exit.id < 4294967296
      → All (λ x. IsKey x.key) circs
      → IsKey exit.key
      → length p + 28 * (1 + length circs) ≤ 505
      → (reply : Cell) × (out : Cell) × (got : Cell) × (reply_cell a exit command
            (encrypt a last exit.key p)
          ≡ some reply)
        × (upstream pad noise circs (reply) ≡ some out)
        × (transmit r wire out ≡ ok got)
        × (got.circ_id ≡ exit.id)
        × (got.command ≡ command)
        × ((peel a (map hop_key circs) (content got) >>= decrypt a exit.key) ≡ ok p)
  unfolding reply_cell
  response_arrives pad noise last wire r circs exit command p resp id keys key fits =
      let (enc, sealed, longer, opened) = decrypt-encrypt a last exit.key p key in
      let short : length enc ≤ 505 = omega (arith, longer) in
      let v = cell_of-Carries exit.id command enc id (response_lt command resp) short in
      let (wrapped, out, sent, v', more, back) =
        upstream-Carries pad noise circs (cell_of exit.id command enc) v resp keys
          (omega (arith, longer)) in
      let (got, read, v'') = transmit-Carries r wire out v' in
      (
        cell_of exit.id command enc,
        out,
        got,
        rw (sealed, le→ltb 505 (length enc) short) refl,
        sent,
        read,
        v''.same_id,
        v''.same_command,
        rw (v''.same_content, back) opened,
      )
