-- ===== src/Relay/Outcomes.antt =====
-- The branches of handleCell in relay/main.go.
use sbnet.Base.{
  ℕ, ◌+◌, ◌≤◌, ◌≡◌, refl, some, List, [], ◌∷◌, arith, ◌==◌, nat_comparable, string_comparable,
  length, le→ltb, Bool-cases, Option-cases, Result-cases, ◌⊎◌, inl, inr, ok, length-take,
}
use sbnet.Base.Bytes.{Bytes}
use sbnet.Base.Maps.{lookup}
use sbnet.Cell.{Cell, cell_of, content, cmd_relay}
use sbnet.Crypto.{Aead, decrypt}
use sbnet.Crypto.Layers.{length-decrypt}
use sbnet.Relay.{
  Circuit, RelayServer, Effect, write, start_exit, handle_relay, relay_payload, pass_on,
}
use text.Mathlib.TextEquality.{eq_iff}

module _ (a : Aead) (seq_id : ℕ) where
  -- What a relay does with a relay cell when it does something.
  abbrev pub Relayed : RelayServer → Cell → Circuit → Bytes → List Effect → Type 0
  Relayed s c circ payload effects =
      ((s.role ≡ "exit") × (effects ≡ start_exit circ payload ∷ []))
      ⊎ ((out : ℕ) × (circ.out_conn ≡ some out)
          × (length payload + 28 ≤ 505)
          × (effects ≡ write out (cell_of c.circ_id cmd_relay payload) ∷ []))

  content_le : (c : Cell) → c.used ≤ 505 → length (content c) ≤ 505
  content_le c h = omega (arith, length-take c.used c.body)

  -- A relay cell that ReadCell let in has one of two effects or none: the exit starts to serve the
  -- payload; another relay writes it downstream in one cell of the same circuit, never in fragments,
  -- since a layer less always leaves 28 bytes of room. Either happens only for a circuit that is
  -- held, with what its key opened.
  pub handle_relay_outcomes :
      (s : RelayServer) (c : Cell)
      → c.used ≤ 505
      → (handle_relay a seq_id s c (lookup c.circ_id s.circuits) ≡ [])
        ⊎ ((circ : Circuit) × (payload : Bytes) × (lookup c.circ_id s.circuits ≡ some circ)
            × (decrypt a circ.key (content c) ≡ ok payload)
            × Relayed s c circ payload (handle_relay a seq_id s c (lookup c.circ_id s.circuits)))
  unfolding handle_relay relay_payload pass_on
  handle_relay_outcomes s c h = elim (Option-cases (lookup c.circ_id s.circuits)) [
    | inl e ↦ inl (rw e refl)
    | inr (circ, e) ↦ elim (Result-cases (decrypt a circ.key (content c))) [
      | inr (x, f) ↦ inl (rw (e, f) refl)
      | inl (payload, f) ↦ elim (Bool-cases (s.role == "exit")) [
        | inl exit ↦
            inr (circ, payload, e, f, inl ((eq_iff s.role "exit").0 exit, rw (e, f, exit) refl))
        | inr other ↦ elim (Option-cases circ.out_conn) [
          | inl g ↦ inl (rw (e, f, other, g) refl)
          | inr (out, g) ↦
              let room : length payload + 28 ≤ 505 =
                omega (arith, content_le c h, (length-decrypt a circ.key (content c) f).0) in
              inr (
                circ,
                payload,
                e,
                f,
                inr (out, g, room, rw (e, f, other, g, le→ltb 505 (length payload + 28) room) refl),
              )
        ]
      ]
    ]
  ]
