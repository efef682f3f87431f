-- ===== src/Cell/Parse.antt =====
-- ReadCell on any bytes at all.
use sbnet.Base.{
  ℕ, zero, suc, ◌+◌, ◌-◌, ◌*◌, ◌≤◌, ◌<◌, ◌≡◌, sym, ap, ◌∙◌, [], ◌∷◌, ◌++◌, arith, ltb,
  if◌then◌else◌, length, take, drop, get_or, replicate, All, length-take, length-drop,
  length-replicate, ok,
}
use sbnet.Base.Bytes.{
  Bytes, IsByte, u16_at, u32_at, slice, copy_into, copy_into-replicate, length-copy_into, read_full,
  take-copy_into,
}
use sbnet.Cell.{Cell, IsCell, cell_body_max, unmarshal_cell, read_cell, empty_body, content}

get_or-IsByte : (s : Bytes) (i : ℕ) → All IsByte s → get_or s i 0 < 256
get_or-IsByte [] i h = omega arith
get_or-IsByte (b ∷ s) zero h = h.0
get_or-IsByte (b ∷ s) (suc i) h = get_or-IsByte s i h.1

All-take : (n : ℕ) (s : Bytes) → All IsByte s → All IsByte (take n s)
All-take zero s h = tt
All-take (suc n) [] h = tt
All-take (suc n) (b ∷ s) h = (h.0, All-take n s h.1)

All-drop : (n : ℕ) (s : Bytes) → All IsByte s → All IsByte (drop n s)
All-drop zero s h = h
All-drop (suc n) [] h = tt
All-drop (suc n) (b ∷ s) h = All-drop n s h.1

-- The capped length field of a frame body.
abbrev wire_used : Bytes → ℕ
wire_used b = if ltb cell_body_max (u16_at b 5) then cell_body_max else u16_at b 5

abbrev parsed : Bytes → Cell
parsed b = record {
  circ_id = u32_at b 0;
  command = get_or b 4 0;
  used = wire_used b;
  body = copy_into empty_body (slice b 7 (7 + wire_used b));
}

unmarshal_cell_inv :
    (b : Bytes) (c : Cell) → unmarshal_cell b ≡ ok c → (7 + wire_used b ≤ length b) × (c ≡ parsed b)
unfolding unmarshal_cell
unmarshal_cell_inv b c h = ground arith

length-slice :
    (b : Bytes) → 7 + wire_used b ≤ length b → length (slice b 7 (7 + wire_used b)) ≡ wire_used b
length-slice b h = omega (arith, length-take (7 + wire_used b - 7) (drop 7 b), length-drop 7 b)

wire_used-le : (b : Bytes) → wire_used b ≤ 505
wire_used-le b = ground arith

-- A record of what is true of every cell that comes from the wire.
pub record FromWire (c : Cell) : Type 0 where
  pub is_cell : IsCell c
  pub used_le : c.used ≤ 505
  pub zero_tail : c.body ≡ content c ++ replicate (505 - c.used) 0

zero_tail_of :
    (m : ℕ) (src : Bytes) (n : ℕ)
    → length src ≡ n
    → n ≤ m
    → copy_into (replicate m 0) src ≡ take n (copy_into (replicate m 0) src) ++ replicate (m - n) 0
zero_tail_of m src n e h =
    let whole = copy_into-replicate m src (omega arith) in
    let front = take-copy_into (replicate m 0) src (omega (arith, length-replicate {A = ℕ} m 0)) in
    cc (whole, front, e)

parsed-FromWire : (b : Bytes) → All IsByte b → 7 + wire_used b ≤ length b → FromWire (parsed b)
unfolding empty_body
parsed-FromWire b h k = record {
  is_cell = record {
    circ_id_lt =
        omega (
          arith,
          get_or-IsByte b 0 h,
          get_or-IsByte b 1 h,
          get_or-IsByte b 2 h,
          get_or-IsByte b 3 h,
        );
    command_lt = get_or-IsByte b 4 h;
    used_lt = omega (arith, wire_used-le b);
    length_body = length-copy_into empty_body _;
  };
  used_le = wire_used-le b;
  zero_tail =
      zero_tail_of 505 (slice b 7 (7 + wire_used b)) (wire_used b) (length-slice b k)
        (wire_used-le b);
}

drop_two : (n a b : ℕ) (t : Bytes) → drop (2 + n) (a ∷ b ∷ t) ≡ drop n t
drop_two n a b t =
    ap (λ (k : ℕ). drop k (a ∷ b ∷ t)) (let e : 2 + n ≡ suc (suc n) = omega arith in e)

read_cell_inv :
    (a b : ℕ) (t : Bytes) (c : Cell) (rest : Bytes)
    → read_cell (a ∷ b ∷ t) ≡ ok (c, rest)
    → (7 ≤ a * 256 + b)
      × (a * 256 + b ≤ 4096)
      × (a * 256 + b ≤ length t)
      × (unmarshal_cell (take (a * 256 + b) t) ≡ ok c)
      × (rest ≡ drop (a * 256 + b) t)
unfolding read_cell read_full
read_cell_inv a b t c rest e = ground arith

-- A cell that ReadCell returns is well formed, its length is at most 505, and the bytes of its body
-- behind that length are zero. The frame was 7 to 4096 bytes long, and exactly it was consumed.
pub read_cell-FromWire :
    (s : Bytes) (c : Cell) (rest : Bytes)
    → All IsByte s
    → read_cell s ≡ ok (c, rest)
    → FromWire c
      × (7 ≤ u16_at s 0)
      × (u16_at s 0 ≤ 4096)
      × (2 + u16_at s 0 ≤ length s)
      × (rest ≡ drop (2 + u16_at s 0) s)
read_cell-FromWire [] c rest h e = unfold read_cell read_full in cc
read_cell-FromWire (a ∷ []) c rest h e = unfold read_cell read_full in cc
read_cell-FromWire (a ∷ b ∷ t) c rest h e =
    let n = a * 256 + b in
    let (lo, hi, fits, parse, tail) = read_cell_inv a b t c rest e in
    let (inside, same) = unmarshal_cell_inv (take n t) c parse in
    (
      rw same (parsed-FromWire (take n t) (All-take n t h.1.1) inside),
      lo,
      hi,
      omega arith,
      tail ∙ sym (drop_two n a b t),
    )
