-- ===== src/Fragment/Gather.antt =====
-- The two loops of Add against one pass over the indices.
use sbnet.Base.{
  ℕ, zero, suc, ◌+◌, ◌-◌, ◌%◌, ◌≤◌, ◌<◌, ◌≡◌, refl, ap, Bool, true, false, Option, none, some, ◌++◌,
  [], inl, inr, arith, nat_comparable, if◌then◌else◌, append_assoc, append-nil, Option-cases,
  Bool-cases, ◌==◌, le→ltb,
}
use sbnet.Base.Bytes.{Bytes, u16_at, slice}
use sbnet.Base.Maps.{Map, lookup, insert, lookup-insert}
use sbnet.Cell.{Cell, cmd_frag_final}
use sbnet.Fragment.{
  Reassembler, Added, pending, complete, running, present_loop, append_loop, collect, add, store,
}

-- The pieces from index `i` on, `k` of them, one after the other; nothing if one is missing.
unfoldable pub gather : ℕ → ℕ → Map ℕ Bytes → Option Bytes
gather zero i pieces = some []
gather (suc k) i pieces = elim (lookup i pieces) [
  | none ↦ none
  | some p ↦ elim (gather k (i + 1) pieces) [ none ↦ none | some out ↦ some (p ++ out) ]
]

abbrev is_some : Option Bytes → Bool
is_some none = false
is_some (some p) = true

present_loop-gather :
    (k fuel i final : ℕ) (pieces : Map ℕ Bytes)
    → i + k ≡ final + 1
    → final < 65535
    → k < fuel
    → present_loop fuel i final pieces ≡ some (is_some (gather k i pieces))
unfolding present_loop gather
present_loop-gather k zero i final pieces e lt f = absurd (omega arith)
present_loop-gather zero (suc fuel) i final pieces e lt f = ground arith
present_loop-gather (suc k) (suc fuel) i final pieces e lt f =
    ground (arith, present_loop-gather k fuel (i + 1) final pieces)

gather_inv :
    (k i : ℕ) (pieces : Map ℕ Bytes) (got : Bytes)
    → gather (suc k) i pieces ≡ some got
    → (p : Bytes) × (rest : Bytes) × (lookup i pieces ≡ some p)
      × (gather k (i + 1) pieces ≡ some rest)
      × (got ≡ p ++ rest)
unfolding gather
gather_inv k i pieces got g = ground arith

append_loop-gather :
    (k fuel i final : ℕ) (pieces : Map ℕ Bytes) (out got : Bytes)
    → i + k ≡ final + 1
    → final < 65535
    → k < fuel
    → gather k i pieces ≡ some got
    → append_loop fuel i final pieces out ≡ some (out ++ got)
unfolding append_loop gather
append_loop-gather k zero i final pieces out got e lt f g = absurd (omega arith)
append_loop-gather zero (suc fuel) i final pieces out got e lt f g = ground (arith, append-nil out)
append_loop-gather (suc k) (suc fuel) i final pieces out got e lt f g =
    let (p, rest, here, there, whole) = gather_inv k i pieces got g in
    ground (
      arith,
      append_assoc out p rest,
      append_loop-gather k fuel (i + 1) final pieces (out ++ p) rest,
    )

abbrev pub gathered : Option Bytes → Added
gathered none = pending
gathered (some out) = complete out

-- Below the last uint16 index the two loops of Add end, and they return one pass over the pieces:
-- their concatenation if all are there, and nothing otherwise.
pub collect-gather :
    (fuel : ℕ) (r : Reassembler)
    → r.final_idx < 65535
    → r.final_idx + 1 < fuel
    → collect fuel r
      ≡ (if r.got_final then gathered (gather (r.final_idx + 1) 0 r.pieces) else pending)
unfolding collect
collect-gather fuel r lt f = elim (Option-cases (gather (r.final_idx + 1) 0 r.pieces)) [
  | inl e ↦ ground (arith, e, present_loop-gather (r.final_idx + 1) fuel 0 r.final_idx r.pieces)
  | inr (got, e) ↦ ground (
    arith,
    e,
    present_loop-gather (r.final_idx + 1) fuel 0 r.final_idx r.pieces,
    append_loop-gather (r.final_idx + 1) fuel 0 r.final_idx r.pieces [] got,
  )
]

-- With all 65536 indices present and the last of them final, the test `i <= r.finalIdx` never fails.
present_loop-runs :
    (fuel i : ℕ) (pieces : Map ℕ Bytes)
    → i < 65536
    → ((j : ℕ) → j < 65536 → (p : Bytes) × (lookup j pieces ≡ some p))
    → present_loop fuel i 65535 pieces ≡ none
unfolding present_loop
present_loop-runs zero i pieces h all = refl
present_loop-runs (suc fuel) i pieces h all =
    ground (arith, all i h, present_loop-runs fuel ((i + 1) % 65536) pieces (omega arith) all)

collect-running :
    (fuel : ℕ) (r : Reassembler)
    → r.got_final ≡ true
    → r.final_idx ≡ 65535
    → ((j : ℕ) → j < 65536 → (p : Bytes) × (lookup j r.pieces ≡ some p))
    → collect fuel r ≡ running
unfolding collect
collect-running fuel r g f all = ground (arith, present_loop-runs fuel 0 r.pieces (omega arith) all)

all_present :
    (k : ℕ) (chunk : Bytes) (pieces : Map ℕ Bytes)
    → ((j : ℕ) → j < k → (p : Bytes) × (lookup j pieces ≡ some p))
    → (j : ℕ) → j < suc k
    → (p : Bytes) × (lookup j (insert k chunk pieces) ≡ some p)
all_present k chunk pieces all j h = elim (Bool-cases (k == j)) [
  | inl same ↦ (chunk, rw (lookup-insert k j chunk pieces, same))
  | inr other ↦
      let (p, e) = all j (ground arith) in (p, rw (lookup-insert k j chunk pieces, other) e)
]

store_final :
    (r : Reassembler) (c : Cell)
    → c.command ≡ cmd_frag_final
    → u16_at c.body 4 ≡ 65535
    → ((store r c).got_final ≡ true)
      × ((store r c).final_idx ≡ 65535)
      × ((chunk : Bytes) × ((store r c).pieces ≡ insert 65535 chunk r.pieces))
unfolding store
store_final r c final idx =
    let chunk = slice c.body 6 (6 + (c.used - 6)) in
    (ground arith, ground arith, (chunk, ap (λ k. insert k chunk r.pieces) idx))

-- Add does not return, however long it runs, on a final fragment with index 65535 once the
-- reassembler holds all the indices below: its uint16 counter never passes 65535.
pub add-running :
    (fuel : ℕ) (r : Reassembler) (c : Cell)
    → 6 ≤ c.used
    → c.command ≡ cmd_frag_final
    → u16_at c.body 4 ≡ 65535
    → ((j : ℕ) → j < 65535 → (p : Bytes) × (lookup j r.pieces ≡ some p))
    → (add fuel r c).1 ≡ running
unfolding add
add-running fuel r c long final idx all =
    let (g, f, stored) = store_final r c final idx in
    rw (le→ltb c.used 6 long) (
      collect-running fuel (store r c) g f
        (rw (stored.1) (all_present 65535 stored.0 r.pieces all)))
