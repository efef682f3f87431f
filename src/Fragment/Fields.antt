-- ===== src/Fragment/Fields.antt =====
-- What Add of common/cell.go reads back of a cell that Fragment wrote, and what it then holds.
use sbnet.Base.{
  ℕ, zero, suc, ◌+◌, ◌-◌, ◌%◌, ◌≤◌, ◌<◌, ◌≡◌, refl, ap, ◌∙◌, Bool, ◌||◌, none, some, ◌++◌, ◌∷◌,
  arith, ◌==◌, nat_comparable, if◌then◌else◌, length, take, drop, replicate, length-replicate,
}
use sbnet.Base.Bytes.{Bytes, put_u16, put_u32, u16_at, slice, copy_into, take-copy_into}
use sbnet.Base.Maps.{Map, lookup, insert, lookup-insert}
use sbnet.Cell.{empty_body}
use sbnet.Fragment.{frag_cell}
use sbnet.Fragment.Gather.{gather}

-- The zeros are counted by a variable, so that nothing is computed over 505 of them.
chunk_in_body :
    (m a b c d e f : ℕ) (chunk : Bytes)
    → length chunk ≤ m
    → take (length chunk) (
        drop 6 (
          copy_into
            (replicate (suc (suc (suc (suc (suc (suc m)))))) 0)
            (a ∷ b ∷ c ∷ d ∷ e ∷ f ∷ chunk)))
      ≡ chunk
chunk_in_body m a b c d e f chunk h =
    take-copy_into (replicate m 0) chunk (omega (arith, length-replicate {A = ℕ} m 0))

-- Add reads back the index and the chunk that Fragment wrote.
pub frag_cell_fields :
    (circ_id seq_id idx cmd : ℕ) (chunk : Bytes)
    → idx < 65536
    → length chunk ≤ 499
    → let c = frag_cell circ_id seq_id idx cmd chunk in
      (c.used ≡ 6 + length chunk)
      × (u16_at c.body 4 ≡ idx)
      × (slice c.body 6 (6 + (c.used - 6)) ≡ chunk)
unfolding frag_cell empty_body
frag_cell_fields circ_id seq_id idx cmd chunk h k =
    let used : (6 + length chunk) % 65536 ≡ 6 + length chunk = omega arith in
    (
      used,
      omega arith,
      ap
            (λ (n : ℕ).
              take n (drop 6 (copy_into empty_body (put_u32 seq_id ++ (put_u16 idx ++ chunk)))))
            (let e : 6 + ((6 + length chunk) % 65536 - 6) - 6 ≡ length chunk = omega arith in e)
          ∙ chunk_in_body 499 0 0 0 0 0 0 chunk k,
    )

pub frag_cell-command :
    (circ_id seq_id idx cmd : ℕ) (chunk : Bytes)
    → (frag_cell circ_id seq_id idx cmd chunk).command ≡ cmd
unfolding frag_cell
frag_cell-command circ_id seq_id idx cmd chunk = refl

pub seen_insert :
    (f : ℕ → Bytes) (old : Bool) (j i : ℕ) (m : Map ℕ Bytes)
    → lookup i m ≡ (if old then some (f i) else none)
    → lookup i (insert j (f j) m) ≡ (if (j == i) || old then some (f i) else none)
seen_insert f old j i m e = rw (lookup-insert j i (f j) m) (ground arith)

pub gather_missing :
    (k i j : ℕ) (m : Map ℕ Bytes) → lookup j m ≡ none → i ≤ j → j < i + k → gather k i m ≡ none
unfolding gather
gather_missing zero i j m e lo hi = absurd (omega arith)
gather_missing (suc k) i j m e lo hi = ground (arith, gather_missing k (i + 1) j m)
