-- ===== src/Examples/Cells.antt =====
-- Cells, fragments, layers and preambles at concrete inputs.
use sbnet.Base.{
  ℕ, ◌+◌, ◌≤◌, ◌<◌, ◌≡◌, refl, true, false, some, [], ◌∷◌, ◌++◌, arith, length, replicate, drop,
  All, ok, zero, suc, ◌==◌, nat_comparable, Bool-cases, inl, inr,
}
use sbnet.Base.Bytes.{Bytes, IsByte, u16_at, read_full}
use sbnet.Cell.{Cell, empty_body, cell_of, marshal_cell, read_cell, unmarshal_cell}
use sbnet.Cell.RoundTrip.{delivered, read_cell-marshal_cell}
use sbnet.Cell.Parse.{FromWire, read_cell-FromWire}
use sbnet.Cell.Wire.{Carries, cell_of-Carries}
use sbnet.Fragment.{add, complete, running, Reassembler}
use sbnet.Fragment.Gather.{add-running}
use sbnet.Base.Maps.{Map, lookup}
use sbnet.Fragment.Reassembly.{after, cell_at, contains, reassembles}
use sbnet.Obfs.{write_obfs_preamble, read_obfs_preamble}
use sbnet.Obfs.Preamble.{preamble_read}
use sbnet.Examples.{constant_noise}

abbrev hello : Bytes
hello = 104 ∷ 105 ∷ []

hello-Carries : Carries 9 5 hello (cell_of 9 5 hello)
hello-Carries = cell_of-Carries 9 5 hello (omega arith) (omega arith) (omega arith)

read_cell-marshal_cell_example :
    read_cell (marshal_cell 3 constant_noise (cell_of 9 5 hello) ++ hello)
    ≡ ok (delivered (cell_of 9 5 hello), hello)
read_cell-marshal_cell_example =
    read_cell-marshal_cell 3 constant_noise (cell_of 9 5 hello) hello hello-Carries.is_cell

abbrev long : Bytes
long = replicate 600 5

two_fragments : (i : ℕ) → i < 2 → contains (0 ∷ 1 ∷ []) i ≡ true
two_fragments i h = ground arith

reassembles_example : (add 9 (after 8 77 long 9 (1 ∷ [])) (cell_at 8 77 long 0)).1 ≡ complete long
reassembles_example =
    reassembles 8 77 long 9 (1 ∷ []) 0 (omega arith) (omega arith) (omega arith) (omega arith, _)
      (omega arith) two_fragments

preamble_read_example :
    (30 < 224 → read_obfs_preamble (write_obfs_preamble 30 constant_noise ++ hello) ≡ hello)
    × (224 ≤ 30
        → (junk : Bytes) × (length junk ≡ 256)
          × (read_obfs_preamble (write_obfs_preamble 30 constant_noise ++ hello) ≡ junk ++ hello))
preamble_read_example = preamble_read 30 constant_noise hello (omega arith)

abbrev ping_wire : Bytes
ping_wire = 0 ∷ 7 ∷ 0 ∷ 0 ∷ 0 ∷ 9 ∷ 7 ∷ 0 ∷ 0 ∷ 1 ∷ []

abbrev ping : Cell
ping = record { circ_id = 9; command = 7; used = 0; body = empty_body }

reads_ping : read_cell ping_wire ≡ ok (ping, 1 ∷ [])
unfolding read_cell read_full unmarshal_cell empty_body
reads_ping = refl

All-bytes : All IsByte ping_wire
All-bytes = (
  omega arith,
  (
    omega arith,
    (
      omega arith,
      (
        omega arith,
        (omega arith, (omega arith, (omega arith, (omega arith, (omega arith, (omega arith, _)))))),
      ),
    ),
  ),
)

read_cell-FromWire_example :
    FromWire ping
    × (7 ≤ u16_at ping_wire 0)
    × (u16_at ping_wire 0 ≤ 4096)
    × (2 + u16_at ping_wire 0 ≤ length ping_wire)
    × (1 ∷ [] ≡ drop (2 + u16_at ping_wire 0) ping_wire)
read_cell-FromWire_example = read_cell-FromWire ping_wire ping (1 ∷ []) All-bytes reads_ping

-- The pieces with indices below a number.
pieces_below : ℕ → Map ℕ Bytes
pieces_below zero = []
pieces_below (suc n) = (n, []) ∷ pieces_below n

lookup-pieces_below : (n j : ℕ) → j < n → (p : Bytes) × (lookup j (pieces_below n) ≡ some p)
unfolding pieces_below lookup
lookup-pieces_below zero j h = absurd (omega arith)
lookup-pieces_below (suc n) j h = elim (Bool-cases (n == j)) [
  | inl e ↦ ([], rw e refl)
  | inr e ↦ let (p, found) = lookup-pieces_below n j (ground arith) in (p, rw e found)
]

abbrev nearly_full : Reassembler
nearly_full = record { pieces = pieces_below 65535; final_idx = 0; got_final = false }

-- The last fragment of 65536, with no data.
abbrev last_fragment : Cell
last_fragment = record {
  circ_id = 9;
  command = 10;
  used = 6;
  body = 0 ∷ 0 ∷ 0 ∷ 0 ∷ 255 ∷ 255 ∷ [];
}

add-running_example : (add 70000 nearly_full last_fragment).1 ≡ running
add-running_example =
    add-running 70000 nearly_full last_fragment (omega arith) refl refl
      (λ j h. lookup-pieces_below 65535 j h)
