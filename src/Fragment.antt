-- ===== src/Fragment.antt =====
-- The fragmentation of common/cell.go: Fragment, and the Reassembler with its method Add.
pub mod Split
pub mod Gather
pub mod Fields
pub mod Reassembly
use sbnet.Base.{
  ℕ, zero, suc, ◌+◌, ◌-◌, ◌%◌, Bool, true, false, not, Option, none, some, List, [], ◌∷◌, ◌++◌, ltb,
  leb, ◌==◌, nat_comparable, if◌then◌else◌, length, take, drop,
}
use sbnet.Base.Bytes.{Bytes, put_u16, put_u32, u16_at, slice, copy_into}
use sbnet.Base.Maps.{Map, lookup, insert}
use sbnet.Cell.{Cell, empty_body, cmd_fragment, cmd_frag_final}

abbrev pub frag_hdr_size : ℕ
frag_hdr_size = 6

abbrev pub frag_data_max : ℕ
frag_data_max = 499

-- One round's cell: the sequence number and the index lie in front of the chunk.
unfoldable pub frag_cell : ℕ → ℕ → ℕ → ℕ → Bytes → Cell
frag_cell circ_id seq_id idx cmd chunk = record {
  circ_id = circ_id;
  command = cmd;
  used = (frag_hdr_size + length chunk) % 65536;
  body = copy_into empty_body (put_u32 seq_id ++ (put_u16 idx ++ chunk));
}

-- The loop on fuel: the cells, and the data that the fuel left over. `idx` is a uint16.
fragment_loop : ℕ → ℕ → ℕ → ℕ → Bytes → List Cell × Bytes
fragment_loop zero circ_id seq_id idx bytes = ([], bytes)
fragment_loop (suc fuel) circ_id seq_id idx [] = ([], [])
fragment_loop (suc fuel) circ_id seq_id idx (b ∷ bs) =
    let bytes = b ∷ bs in
    let more = ltb frag_data_max (length bytes) in
    let chunk = if more then take frag_data_max bytes else bytes in
    let cmd = if more then cmd_fragment else cmd_frag_final in
    let (cells, left) =
      fragment_loop fuel circ_id seq_id ((idx + 1) % 65536) (drop (length chunk) bytes) in
    (frag_cell circ_id seq_id idx cmd chunk ∷ cells, left)

-- Each round takes a byte at least, so `length bytes` rounds are enough.
unfoldable pub fragment : ℕ → ℕ → Bytes → List Cell
unfolding fragment_loop
fragment circ_id seq_id bytes = (fragment_loop (length bytes) circ_id seq_id 0 bytes).0

pub record Reassembler : Type 0 where
  pub pieces : Map ℕ Bytes
  pub final_idx : ℕ
  pub got_final : Bool

-- `&Reassembler{}`
abbrev pub new_reassembler : Reassembler
new_reassembler = record { pieces = []; final_idx = 0; got_final = false }

-- What Add returns. `running` is no Go value: a loop of Add is still running when the fuel ends.
pub data Added : Type 0 where
  pending : Added
  complete : Bytes → Added
  running : Added

-- `for i := uint16(0); i <= r.finalIdx; i++`, which returns on a missing piece.
present_loop : ℕ → ℕ → ℕ → Map ℕ Bytes → Option Bool
present_loop zero i final pieces = none
present_loop (suc fuel) i final pieces =
    let next = present_loop fuel ((i + 1) % 65536) final pieces in
    if leb i final then elim (lookup i pieces) [ none ↦ some false | some p ↦ next ] else some true

-- A missing key reads as nil.
abbrev piece : Option Bytes → Bytes
piece none = []
piece (some p) = p

-- The same loop again, which appends the pieces.
append_loop : ℕ → ℕ → ℕ → Map ℕ Bytes → Bytes → Option Bytes
append_loop zero i final pieces out = none
append_loop (suc fuel) i final pieces out =
    let next = append_loop fuel ((i + 1) % 65536) final pieces (out ++ piece (lookup i pieces)) in
    if leb i final then next else some out

abbrev finish : Option Bytes → Added
finish none = running
finish (some out) = complete out

-- The end of Add, after the piece is stored.
pub collect : ℕ → Reassembler → Added
unfolding present_loop append_loop
collect fuel r =
    if r.got_final
    then elim (present_loop fuel 0 r.final_idx r.pieces) [
      | none ↦ running
      | some false ↦ pending
      | some true ↦ finish (append_loop fuel 0 r.final_idx r.pieces [])
    ]
    else pending

-- The state after the fragment is stored.
unfoldable pub store : Reassembler → Cell → Reassembler
store r c =
    let idx = u16_at c.body 4 in
    let chunk = slice c.body frag_hdr_size (frag_hdr_size + (c.used - frag_hdr_size)) in
    let final = c.command == cmd_frag_final in
    record {
      pieces = insert idx chunk r.pieces;
      final_idx = if final then idx else r.final_idx;
      got_final = if final then true else r.got_final;
    }

unfoldable pub add : ℕ → Reassembler → Cell → Reassembler × Added
add fuel r c =
    if ltb c.used frag_hdr_size then (r, pending) else let r' = store r c in (r', collect fuel r')
