-- ===== src/Client/Build/Sound.antt =====
-- What a circuit is that buildOne of client/main.go returns.
use mathlib.Core.List.{Memᴰ}
use text.Mathlib.TextEquality.{eq_iff}
use sbnet.Base.{
  ℕ, ◌≡◌, refl, sym, ap, subst, ◌∙◌, true, ◌&&◌, Option, none, some, List, [], ◌∷◌, String, ◌==◌,
  arith, string_comparable, length, Result, ok, err, ◌>>=◌, or_fail, bind_inv, or_fail_inv, All,
  Bool-cases, inl, inr,
}
use sbnet.Base.Int.{ℤ}
use sbnet.Types.{RelayDescriptor}
use sbnet.Crypto.{Aead, KeyExchange, gen_key_pair}
use sbnet.Cell.{Cell, cmd_create, cmd_created}
use sbnet.Relay.{key_cell}
use sbnet.Base.Bytes.{Bytes}
use sbnet.Crypto.Layers.{IsKey}
use sbnet.Client.{
  ClientCircuit, ClientError, created_failed, expect, created_circuit, build_circuit_on_conn,
}
use sbnet.Client.Guard.{
  GuardState, WriteFile, with_role, choose-Mem, with_role-Mem, pick_relay, find_guard, pinned,
  new_guard, load_or_pick_guard, keep_or_pick,
}
use sbnet.Client
use sbnet.Client.Telescope.{build_hops_inv, build_hops_keys}
use sbnet.Client.Pool.{PoolCircuit}
use sbnet.Client.Build.{
  BuildError, not_enough_relays, entry_unreachable, Outside, Chances, as_pooled, greeted, on_conn,
  build_circuit, build_direct,
}

abbrev pub Listed : String → List RelayDescriptor → RelayDescriptor → Type 0
Listed role relays rd = Memᴰ rd relays × (rd.role ≡ role)

pick_relay-Listed :
    (r : ℕ) (relays : List RelayDescriptor) (role : String) (rd : RelayDescriptor)
    → pick_relay r relays role ≡ some rd
    → Listed role relays rd
unfolding pick_relay
pick_relay-Listed r relays role rd h =
    with_role-Mem role relays rd (choose-Mem r (with_role role relays) rd h)

find_guard-Listed :
    (id : String) (relays : List RelayDescriptor) (rd : RelayDescriptor)
    → find_guard id relays ≡ some rd
    → Listed "entry" relays rd
unfolding find_guard
find_guard-Listed id [] rd h = absurd cc
find_guard-Listed id (y ∷ relays) rd h = elim (Bool-cases ((y.id == id) && (y.role == "entry"))) [
  | inl e ↦
      let found = rw e at h in
      let same : rd ≡ y = cc in
      (
        Memᴰ.head same,
        ap (λ (r : RelayDescriptor). r.role) same ∙ (eq_iff y.role "entry").0 (ground arith),
      )
  | inr e ↦ let (m, role) = find_guard-Listed id relays rd (rw e at h) in (Memᴰ.tail m, role)
]

new_guard_inv_any :
    (write : WriteFile) (time : ℤ) (file : Option GuardState) (o : Option RelayDescriptor)
    (guard : RelayDescriptor)
    → (new_guard write time file o).0 ≡ some guard
    → o ≡ some guard
new_guard_inv_any write time file none guard h = absurd cc
new_guard_inv_any write time file (some g) guard h = h

guard-Listed :
    (write : WriteFile) (r : ℕ) (time : ℤ) (file : Option GuardState)
    (relays : List RelayDescriptor) (o : Option RelayDescriptor) (guard : RelayDescriptor)
    → pinned file relays ≡ o
    → (keep_or_pick write r time file relays o).0 ≡ some guard
    → Listed "entry" relays guard
guard-Listed write r time file relays none guard e h =
    pick_relay-Listed r relays "entry" guard
      (new_guard_inv_any write time file (pick_relay r relays "entry") guard h)
guard-Listed write r time none relays (some g) guard e h = absurd cc
guard-Listed write r time (some state) relays (some g) guard e h =
    find_guard-Listed state.relay_id relays guard (e ∙ h)

abbrev pooled_or : PoolCircuit → Result BuildError PoolCircuit → PoolCircuit
pooled_or d (ok c) = c
pooled_or d (err e) = d

module _ (a : Aead) (x : KeyExchange) (w : Outside) (z : Chances) where
  as_pooled_inv :
      (conn : ℕ) (r : Result ClientError ClientCircuit) (c : PoolCircuit)
      → as_pooled conn r ≡ ok c
      → (c.conn ≡ conn) × (r ≡ ok c.circuit)
  as_pooled_inv conn (err e) c h = absurd cc
  as_pooled_inv conn (ok circ) c h =
      (sym (ap (λ r. (pooled_or c r).conn) h), ap (λ r. ok (pooled_or c r).circuit) h)

  greeted_inv :
      (dialled conn : ℕ)
      → greeted w dialled ≡ ok conn
      → (dialled ≡ conn) × (w.obfs_handshake dialled ≡ true)
  greeted_inv dialled conn h = ground arith

  -- A circuit on a connection over two further relays, as the handshake makes it: the Create was
  -- answered, the circuit then extended to the address of the first, and that to the address of the
  -- second.
  abbrev pub Extended : ℕ → Bytes → Bytes → ClientCircuit → Type 0
  Extended conn middle exit circ =
      (created : Cell) × (two : ClientCircuit) × (expect cmd_created created_failed
          (w.answer conn 0 (key_cell z.circ_id cmd_create (gen_key_pair x (z.noise 0)).1))
        ≡ ok created)
      × (Client.extend_circuit a x (z.noise 1) (z.layers 1) (w.answer conn 1)
            (created_circuit a x z.circ_id z.now (gen_key_pair x (z.noise 0)).0 created) middle 1
          ≡ ok two)
      × (Client.extend_circuit a x (z.noise 2) (z.layers 2) (w.answer conn 2) two exit 2 ≡ ok circ)

  -- The steps of a circuit over an entry relay.
  build_circuit_inv :
      (entry middle exit : RelayDescriptor) (c : PoolCircuit)
      → build_circuit a x w z entry middle exit ≡ ok c
      → (w.dial entry ≡ some c.conn)
        × (w.obfs_handshake c.conn ≡ true)
        × (length c.circuit.keys ≡ 3)
        × All IsKey c.circuit.keys
        × Extended c.conn (w.address middle) (w.address exit) c.circuit
  unfolding build_circuit build_circuit_on_conn
  build_circuit_inv entry middle exit c h =
      let (dialled, e1, h1) =
        or_fail_inv (w.dial entry) entry_unreachable
          (λ dialled. greeted w dialled >>= on_conn a x w z middle exit) h in
      let (conn, e2, h2) = bind_inv (greeted w dialled) (on_conn a x w z middle exit) h1 in
      let (same, handshake) = greeted_inv dialled conn e2 in
      let (at, built) = as_pooled_inv conn _ c h2 in
      let (id, three, keys) =
        build_hops_keys a x z.noise z.layers (w.answer conn) z.now z.circ_id (w.address middle)
          (w.address exit) c.circuit built in
      (
        e1 ∙ ap some (same ∙ sym at),
        ap w.obfs_handshake (at ∙ sym same) ∙ handshake,
        three,
        keys,
        subst (λ (n : ℕ). Extended n (w.address middle) (w.address exit) c.circuit) (sym at)
            (build_hops_inv a x z.noise z.layers (w.answer conn) z.now z.circ_id (w.address middle)
              (w.address exit) c.circuit built),
      )

  -- A circuit that buildDirect returns goes over a listed entry relay, a listed middle relay and a
  -- listed exit relay, whatever the guard file and the random bytes are: its connection is the one
  -- that the dial of that entry relay opened, the preamble handshake on it succeeded, the first
  -- extension was to the address of that middle relay and the second to the address of that exit
  -- relay, and it has three keys of 32 bytes each.
  pub build_direct_sound :
      (time : ℤ) (file : Option GuardState) (relays : List RelayDescriptor) (c : PoolCircuit)
      → (build_direct a x w z time file relays).0 ≡ ok c
      → (entry : RelayDescriptor) × (middle : RelayDescriptor) × (exit : RelayDescriptor) × Listed
          "entry" relays entry
        × Listed "middle" relays middle
        × Listed "exit" relays exit
        × (w.dial entry ≡ some c.conn)
        × (w.obfs_handshake c.conn ≡ true)
        × (length c.circuit.keys ≡ 3)
        × All IsKey c.circuit.keys
        × Extended c.conn (w.address middle) (w.address exit) c.circuit
  unfolding build_direct load_or_pick_guard
  build_direct_sound time file relays c h =
      let guard = (load_or_pick_guard w.write_file z.guard_byte time file relays).0 in
      let m = pick_relay z.middle_byte relays "middle" in
      let e = pick_relay z.exit_byte relays "exit" in
      let (entry, found, h1) =
        or_fail_inv guard not_enough_relays
          (λ g.
            or_fail m not_enough_relays
            >>= (λ mid. or_fail e not_enough_relays >>= (λ ex. build_circuit a x w z g mid ex)))
          h in
      let (middle, middle_found, h2) =
        or_fail_inv m not_enough_relays
          (λ mid. or_fail e not_enough_relays >>= (λ ex. build_circuit a x w z entry mid ex)) h1 in
      let (exit, exit_found, h3) =
        or_fail_inv e not_enough_relays (λ ex. build_circuit a x w z entry middle ex) h2 in
      let (dialled, greeted_ok, three, keys, over) = build_circuit_inv entry middle exit c h3 in
      (
        entry,
        middle,
        exit,
        guard-Listed w.write_file z.guard_byte time file relays (pinned file relays) entry refl
            found,
        pick_relay-Listed z.middle_byte relays "middle" middle middle_found,
        pick_relay-Listed z.exit_byte relays "exit" exit exit_found,
        dialled,
        greeted_ok,
        three,
        keys,
        over,
      )
