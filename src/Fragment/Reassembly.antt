-- ===== src/Fragment/Reassembly.antt =====
-- The fragments of one payload, delivered in any order and any number of times.
use sbnet.Base.{
  ℕ, zero, suc, ◌+◌, ◌-◌, ◌*◌, ◌≤◌, ◌<◌, ◌≡◌, refl, sym, ap, subst, ◌∙◌, Bool, true, false, ◌||◌,
  none, some, ◌++◌, List, [], ◌∷◌, arith, ◌==◌, nat_comparable, if◌then◌else◌, length, drop,
  length-take, take-append-drop, drop-drop, drop_all, le→ltb, Bool-cases, inl, inr, All,
}
use sbnet.Base.Bytes.{Bytes}
use sbnet.Base.Maps.{Map, lookup, insert}
use sbnet.Cell.{Cell, cmd_frag_final}
use sbnet.Fragment.{
  Reassembler, new_reassembler, Added, pending, complete, frag_cell, store, collect, add,
}
use sbnet.Fragment.Split.{chunk_at, chunk_count, cmd_at}
use sbnet.Fragment.Gather.{gather, gathered, collect-gather}
use sbnet.Fragment.Fields.{frag_cell_fields, frag_cell-command, seen_insert, gather_missing}

abbrev pub contains : List ℕ → ℕ → Bool
contains [] i = false
contains (j ∷ js) i = (j == i) || contains js i

module _ (circ_id seq_id : ℕ) (bytes : Bytes) where
  -- The fragment with index `j`, by the theorem `fragment_cells`.
  abbrev pub cell_at : ℕ → Cell
  cell_at j = frag_cell circ_id seq_id j (cmd_at bytes j) (chunk_at bytes j)

  -- The reassembler after the fragments with these indices came in, the latest first.
  pub after : ℕ → List ℕ → Reassembler
  after fuel [] = new_reassembler
  after fuel (j ∷ js) = (add fuel (after fuel js) (cell_at j)).0

  record Holds (seen : ℕ → Bool) (r : Reassembler) : Type 0 where
    pieces : (i : ℕ) → lookup i r.pieces ≡ (if seen i then some (chunk_at bytes i) else none)
    got_final : r.got_final ≡ seen (chunk_count bytes - 1)
    final_idx : r.got_final ≡ true → r.final_idx ≡ chunk_count bytes - 1

  length-chunk_at : (j : ℕ) → length (chunk_at bytes j) ≤ 499
  length-chunk_at j = omega (arith, length-take 499 (drop (499 * j) bytes))

  cmd_at_final :
      (j : ℕ)
      → j < chunk_count bytes
      → (cmd_at bytes j == cmd_frag_final) ≡ (j == chunk_count bytes - 1)
  cmd_at_final j h = ground arith

  -- The last fragment is the final one.
  stored : Reassembler → ℕ → Reassembler
  stored r j =
      let final = j == chunk_count bytes - 1 in
      record {
        pieces = insert j (chunk_at bytes j) r.pieces;
        final_idx = if final then j else r.final_idx;
        got_final = if final then true else r.got_final;
      }

  store-cell_at :
      (r : Reassembler) (j : ℕ)
      → chunk_count bytes ≤ 65535
      → j < chunk_count bytes
      → store r (cell_at j) ≡ stored r j
  unfolding store stored
  store-cell_at r j small h =
      let (used, idx, chunk) =
        frag_cell_fields circ_id seq_id j (cmd_at bytes j) (chunk_at bytes j) (omega arith)
          (length-chunk_at j) in
      let final =
        ap (λ (c : ℕ). c == cmd_frag_final)
          (frag_cell-command circ_id seq_id j (cmd_at bytes j) (chunk_at bytes j))
        ∙ cmd_at_final j h in
      rw (chunk, idx, final)

  -- Storing one fragment adds its index to those seen.
  stored-Holds :
      (seen : ℕ → Bool) (r : Reassembler) (j : ℕ)
      → Holds seen r
      → Holds (λ i. (j == i) || seen i) (stored r j)
  unfolding stored
  stored-Holds seen r j v = record {
    pieces = λ i. seen_insert (chunk_at bytes) (seen i) j i r.pieces (v.pieces i);
    got_final = ground (arith, v.got_final);
    final_idx = λ e. ground (arith, v.final_idx);
  }

  add-cell_at :
      (fuel : ℕ) (r : Reassembler) (j : ℕ)
      → chunk_count bytes ≤ 65535
      → j < chunk_count bytes
      → add fuel r (cell_at j) ≡ (stored r j, collect fuel (stored r j))
  unfolding add
  add-cell_at fuel r j small h =
      let (used, idx, chunk) =
        frag_cell_fields circ_id seq_id j (cmd_at bytes j) (chunk_at bytes j) (omega arith)
          (length-chunk_at j) in
      rw (le→ltb (cell_at j).used 6 (omega arith), store-cell_at r j small h)

  after-Holds :
      (fuel : ℕ) (js : List ℕ)
      → chunk_count bytes ≤ 65535
      → All (λ j. j < chunk_count bytes) js
      → Holds (contains js) (after fuel js)
  unfolding after
  after-Holds fuel [] small h = record {
    pieces = λ i. unfold lookup in refl;
    got_final = refl;
    final_idx = λ e. cc;
  }
  after-Holds fuel (j ∷ js) small h =
      subst (λ (r : Reassembler). Holds (contains (j ∷ js)) r)
        (sym (ap (λ (p : Reassembler × Added). p.0) (add-cell_at fuel (after fuel js) j small h.0)))
        (stored-Holds (contains js) (after fuel js) j (after-Holds fuel js small h.1))

  next_drop : (i : ℕ) → drop (499 * (i + 1)) bytes ≡ drop 499 (drop (499 * i) bytes)
  next_drop i =
      ap (λ (n : ℕ). drop n bytes) (let e : 499 * (i + 1) ≡ 499 * i + 499 = omega arith in e)
      ∙ sym (drop-drop 499 (499 * i) bytes)

  gather_all :
      (k i : ℕ) (m : Map ℕ Bytes)
      → ((j : ℕ) → j < i + k → lookup j m ≡ some (chunk_at bytes j))
      → length bytes ≤ 499 * (i + k)
      → gather k i m ≡ some (drop (499 * i) bytes)
  unfolding gather
  gather_all zero i m all h = ap some (sym (drop_all (499 * i) bytes (omega arith)))
  gather_all (suc k) i m all h =
      rw
        (
          all i (omega arith),
          gather,
          gather_all k (i + 1) m (λ j l. all j (omega arith)) (omega arith),
        )
        (ap some (
          ap (λ (t : Bytes). chunk_at bytes i ++ t) (next_drop i)
          ∙ take-append-drop 499 (drop (499 * i) bytes)))

  module _ (fuel : ℕ) (seen : ℕ → Bool) (r : Reassembler) (nonempty : 0 < length bytes)
      (small : chunk_count bytes ≤ 65535) (enough : chunk_count bytes < fuel)
      (v : Holds seen r) where
    collect_seen :
        r.got_final ≡ true → collect fuel r ≡ gathered (gather (chunk_count bytes) 0 r.pieces)
    collect_seen g =
        let last = v.final_idx g in
        let e : r.final_idx + 1 ≡ chunk_count bytes = omega arith in
        collect-gather fuel r (omega arith) (omega arith)
        ∙ cc (g, ap (λ (n : ℕ). gathered (gather n 0 r.pieces)) e)

    collect_all :
        ((i : ℕ) → i < chunk_count bytes → seen i ≡ true) → collect fuel r ≡ complete bytes
    collect_all all =
        collect_seen (v.got_final ∙ all (chunk_count bytes - 1) (omega arith))
        ∙ ap gathered (
            gather_all (chunk_count bytes) 0 r.pieces
              (λ i h.
                v.pieces i
                ∙ ap (λ (b : Bool). if b then some (chunk_at bytes i) else none)
                    (all i (omega arith)))
              (omega arith))

    collect_some : (i : ℕ) → i < chunk_count bytes → seen i ≡ false → collect fuel r ≡ pending
    collect_some i h missing = elim (Bool-cases r.got_final) [
      | inl g ↦
          collect_seen g
          ∙ ap gathered (
              gather_missing (chunk_count bytes) 0 i r.pieces
                (v.pieces i
                  ∙ ap (λ (b : Bool). if b then some (chunk_at bytes i) else none) missing)
                (omega arith) (omega arith))
      | inr g ↦ unfold collect in rw g
    ]

  module _ (fuel : ℕ) (js : List ℕ) (j : ℕ) (nonempty : 0 < length bytes)
      (small : chunk_count bytes ≤ 65535) (enough : chunk_count bytes < fuel)
      (before : All (λ i. i < chunk_count bytes) js) (now : j < chunk_count bytes) where
    last_state : Holds (contains (j ∷ js)) (stored (after fuel js) j)
    last_state = stored-Holds (contains js) (after fuel js) j (after-Holds fuel js small before)

    answer : (add fuel (after fuel js) (cell_at j)).1 ≡ collect fuel (stored (after fuel js) j)
    answer = ap (λ (p : Reassembler × Added). p.1) (add-cell_at fuel (after fuel js) j small now)

    -- Add answers with the whole payload as soon as every fragment has come in, in whatever order
    -- and however often, for a payload of at most 65535 fragments that is not empty.
    pub reassembles :
        ((i : ℕ) → i < chunk_count bytes → contains (j ∷ js) i ≡ true)
        → (add fuel (after fuel js) (cell_at j)).1 ≡ complete bytes
    reassembles all =
        answer
        ∙ collect_all fuel (contains (j ∷ js)) (stored (after fuel js) j) nonempty small enough
            last_state all

    -- Until then it answers that the payload is incomplete.
    pub waits :
        (i : ℕ)
        → i < chunk_count bytes
        → contains (j ∷ js) i ≡ false
        → (add fuel (after fuel js) (cell_at j)).1 ≡ pending
    waits i h missing =
        answer
        ∙ collect_some fuel (contains (j ∷ js)) (stored (after fuel js) j) nonempty small enough
            last_state i h missing
