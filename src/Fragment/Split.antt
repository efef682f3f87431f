-- ===== src/Fragment/Split.antt =====
-- What Fragment makes: the cells by their index.
use sbnet.Base.{
  ℕ, zero, suc, ◌+◌, ◌-◌, ◌*◌, ◌/◌, ◌%◌, ◌≤◌, ◌<◌, ◌≡◌, refl, sym, ap, ◌∙◌, some, [], ◌∷◌, arith,
  ltb, if◌then◌else◌, length, take, drop, get_elem?, length-take, length-drop, take_all, drop-drop,
  Bool-cases, inl, inr, min,
}
use sbnet.Base.Bytes.{Bytes}
use sbnet.Cell.{cmd_fragment, cmd_frag_final}
use sbnet.Fragment.{frag_data_max, frag_cell, fragment_loop, fragment}

-- The chunk with index `i`, the number of chunks, and the command of its cell.
abbrev pub chunk_at : Bytes → ℕ → Bytes
chunk_at bytes i = take 499 (drop (499 * i) bytes)

abbrev pub chunk_count : Bytes → ℕ
chunk_count bytes = (length bytes + 498) / 499

abbrev pub cmd_at : Bytes → ℕ → ℕ
cmd_at bytes i = if ltb (499 * i + 499) (length bytes) then cmd_fragment else cmd_frag_final

-- The chunk that a round takes is the first 499 bytes, or all if there are fewer.
abbrev front : Bytes → Bytes
front bytes = if ltb frag_data_max (length bytes) then take frag_data_max bytes else bytes

front-take : (bytes : Bytes) → front bytes ≡ take 499 bytes
front-take bytes = elim (Bool-cases (ltb 499 (length bytes))) [
  | inl more ↦ rw more
  | inr last ↦ rw last (sym (take_all 499 bytes (ground arith)))
]

length-front : (bytes : Bytes) → length (front bytes) ≡ min 499 (length bytes)
length-front bytes = ap length (front-take bytes) ∙ length-take 499 bytes

abbrev tail_of : Bytes → Bytes
tail_of bytes = drop (length (front bytes)) bytes

length-tail_of : (bytes : Bytes) → length (tail_of bytes) ≡ length bytes - 499
length-tail_of bytes = omega (arith, length-drop (length (front bytes)) bytes, length-front bytes)

-- The loop leaves no data, and makes one cell for each 499 bytes begun.
fragment_loop_counts :
    (fuel circ_id seq_id idx : ℕ) (bytes : Bytes)
    → length bytes ≤ fuel
    → ((fragment_loop fuel circ_id seq_id idx bytes).1 ≡ [])
      × (length (fragment_loop fuel circ_id seq_id idx bytes).0 ≡ chunk_count bytes)
unfolding fragment_loop
fragment_loop_counts zero c s i [] h = (refl, omega arith)
fragment_loop_counts zero c s i (b ∷ bs) h = absurd (omega arith)
fragment_loop_counts (suc fuel) c s i [] h = (refl, omega arith)
fragment_loop_counts (suc fuel) c s i (b ∷ bs) h =
    let (left, count) =
      fragment_loop_counts fuel c s ((i + 1) % 65536) (tail_of (b ∷ bs))
        (omega (arith, length-tail_of (b ∷ bs))) in
    (left, omega (arith, count, length-tail_of (b ∷ bs)))

chunk_at-tail :
    (bytes : Bytes) (j : ℕ)
    → 499 < length bytes
    → chunk_at (tail_of bytes) j ≡ chunk_at bytes (suc j)
chunk_at-tail bytes j h =
    ap (λ (t : ℕ). take 499 (drop (499 * j) (drop t bytes)))
      (let e : length (front bytes) ≡ 499 = omega (arith, length-front bytes) in e)
    ∙ ap (take 499) (
        drop-drop (499 * j) 499 bytes
        ∙ ap (λ (t : ℕ). drop t bytes) (let e : 499 + 499 * j ≡ 499 * suc j = omega arith in e))

more-tail : (j n m : ℕ) → m ≡ n - 499 → ltb (499 * j + 499) m ≡ ltb (499 * suc j + 499) n
more-tail j n m e = ground arith

fragment_loop_get :
    (j fuel circ_id seq_id idx : ℕ) (bytes : Bytes)
    → length bytes ≤ fuel
    → 499 * j < length bytes
    → idx < 65536
    → get_elem? (fragment_loop fuel circ_id seq_id idx bytes).0 j
      ≡ some (frag_cell circ_id seq_id ((idx + j) % 65536) (cmd_at bytes j) (chunk_at bytes j))
unfolding fragment_loop
fragment_loop_get j zero c s i bytes h k l = absurd (omega arith)
fragment_loop_get j (suc fuel) c s i [] h k l = absurd (omega arith)
fragment_loop_get zero (suc fuel) c s i (b ∷ bs) h k l =
    cc (front-take (b ∷ bs), let e : (i + zero) % 65536 ≡ i = omega arith in e)
fragment_loop_get (suc j) (suc fuel) c s i (b ∷ bs) h k l =
    let rest = tail_of (b ∷ bs) in
    let shorter = length-tail_of (b ∷ bs) in
    fragment_loop_get j fuel c s ((i + 1) % 65536) rest (omega (arith, shorter))
      (omega (arith, shorter)) (omega arith)
    ∙ cc (
      let e : ((i + 1) % 65536 + j) % 65536 ≡ (i + suc j) % 65536 = omega arith in e,
      chunk_at-tail (b ∷ bs) j (omega arith),
      more-tail j (length (b ∷ bs)) (length rest) shorter,
    )

-- Fragment makes one cell for each 499 bytes begun. The cell with index `j`, below 65536, carries
-- the circuit and the sequence number, `j`, and the bytes from `499 * j` on, at most 499; it is
-- the final one exactly if no bytes are left behind it.
pub fragment_cells :
    (circ_id seq_id : ℕ) (bytes : Bytes)
    → (length (fragment circ_id seq_id bytes) ≡ chunk_count bytes)
      × ((j : ℕ)
          → j < chunk_count bytes
          → j < 65536
          → get_elem? (fragment circ_id seq_id bytes) j
            ≡ some (frag_cell circ_id seq_id j (cmd_at bytes j) (chunk_at bytes j)))
unfolding fragment
fragment_cells c s bytes = (
  (fragment_loop_counts (length bytes) c s 0 bytes (omega arith)).1,
  λ j h k.
      fragment_loop_get j (length bytes) c s 0 bytes (omega arith) (omega arith) (omega arith)
      ∙ ap (λ (i : ℕ). some (frag_cell c s i (cmd_at bytes j) (chunk_at bytes j)))
          (let e : (0 + j) % 65536 ≡ j = omega arith in e),
)
