-- ===== src/Cell/RoundTrip.antt =====
-- What MarshalCell writes, ReadCell reads back.
use sbnet.Base.{
  ℕ, ◌+◌, ◌-◌, ◌*◌, ◌/◌, ◌%◌, ◌≤◌, ◌<◌, ◌≡◌, refl, ap, ◌∙◌, ◌∷◌, ◌++◌, arith, ltb, if◌then◌else◌,
  length, take, get_or, replicate, min, length-append, length-take, take-append, ok, le→ltb,
}
use sbnet.Base.Bytes.{
  Bytes, put_u16, put_u32, u16_at, u32_at, slice, rand_bytes, length-rand_bytes, copy_into,
  copy_into-replicate, read_full-append,
}
use sbnet.Cell.{
  Cell, IsCell, cell_body_max, pick_pad_target, marshal_cell, unmarshal_cell, read_cell, empty_body,
}
use sbnet.Cell.Pad.{pick_pad_target_bounds}

-- How many bytes of the body are sent.
abbrev pub sent : Cell → ℕ
sent c = if ltb cell_body_max c.used then cell_body_max else c.used

-- The cell that arrives: the length is capped, and what lies behind it is zero.
abbrev pub delivered : Cell → Cell
delivered c = record c { used = sent c; body = take (sent c) c.body ++ replicate (505 - sent c) 0 }

u16_round : (v : ℕ) → v < 65536 → v / 256 % 256 * 256 + v % 256 ≡ v
u16_round v h = omega arith

u32_round :
    (v : ℕ)
    → v < 4294967296
    → v / 16777216 % 256 * 16777216 + v / 65536 % 256 * 65536 + v / 256 % 256 * 256 + v % 256 ≡ v
u32_round v h = omega arith

-- A frame body: the header, the bytes of the body, and any padding.
abbrev frame : Cell → Bytes → Bytes → Bytes
frame c payload pad =
    put_u32 c.circ_id ++ ((c.command % 256) ∷ (put_u16 (length payload) ++ (payload ++ pad)))

length-frame :
    (c : Cell) (payload pad : Bytes)
    → length (frame c payload pad) ≡ 7 + length payload + length pad
length-frame c payload pad = omega (arith, length-append payload pad)

-- UnmarshalCell on a frame body whose length field is in range.
unmarshal_cell-in_range :
    (b : Bytes) (n : ℕ)
    → 7 + n ≤ length b
    → n ≤ 505
    → u16_at b 5 ≡ n
    → unmarshal_cell b
      ≡ ok (record {
        circ_id = u32_at b 0;
        command = get_or b 4 0;
        used = n;
        body = copy_into empty_body (slice b 7 (7 + n));
      })
unfolding unmarshal_cell
unmarshal_cell-in_range b n h k e =
    rw (le→ltb (length b) 7 (omega arith), e, le→ltb 505 n k, le→ltb (length b - 7) n (omega arith))

Cell-path :
    {i j c d n m : ℕ} {b e : Bytes}
    → i ≡ j
    → c ≡ d
    → n ≡ m
    → b ≡ e
    → ◌≡◌ {A = Cell}
        (record { circ_id = i; command = c; used = n; body = b })
        (record { circ_id = j; command = d; used = m; body = e })
Cell-path p q r s = λ k. record { circ_id = p k; command = q k; used = r k; body = s k }

slice-frame :
    (n : ℕ) (payload pad : Bytes) → length payload ≡ n → take (7 + n - 7) (payload ++ pad) ≡ payload
slice-frame n payload pad h = take-append (7 + n - 7) payload pad (omega arith)

-- UnmarshalCell undoes the layout, and ignores the padding.
unmarshal_cell-frame :
    (c : Cell) (payload pad : Bytes)
    → IsCell c
    → length payload ≤ 505
    → unmarshal_cell (frame c payload pad)
      ≡ ok
          (record c { used = length payload; body = payload ++ replicate (505 - length payload) 0 })
unfolding empty_body
unmarshal_cell-frame c payload pad w h =
    unmarshal_cell-in_range (frame c payload pad) (length payload)
      (omega (arith, length-append payload pad)) h (u16_round (length payload) (omega arith))
    ∙ ap ok (
        Cell-path (u32_round c.circ_id w.circ_id_lt) (omega (arith, w.command_lt)) refl (
          ap (copy_into empty_body) (slice-frame (length payload) payload pad refl)
          ∙ copy_into-replicate 505 payload h))

read_cell-put_u16 :
    (n : ℕ) (buf rest : Bytes) {c : Cell}
    → length buf ≡ n
    → 7 ≤ n
    → n ≤ 4096
    → unmarshal_cell buf ≡ ok c
    → read_cell (put_u16 n ++ (buf ++ rest)) ≡ ok (c, rest)
unfolding read_cell
read_cell-put_u16 n buf rest e lo hi u =
    ground (arith, u, read_full-append 2 (put_u16 n) (buf ++ rest), read_full-append n buf rest)

sent-le : (c : Cell) → sent c ≤ 505
sent-le c = ground arith

pub length-sent : (c : Cell) → IsCell c → length (take (sent c) c.body) ≡ sent c
length-sent c w = omega (arith, length-take (sent c) c.body, w.length_body, sent-le c)

-- The size of the frame body that is sent.
abbrev frame_len : ℕ → Cell → ℕ
frame_len r c = pick_pad_target r (7 + sent c)

abbrev padding : ℕ → (ℕ → ℕ) → Cell → Bytes
padding r noise c = rand_bytes noise (frame_len r c - (7 + sent c))

length-padding :
    (r : ℕ) (noise : ℕ → ℕ) (c : Cell) → length (padding r noise c) ≡ frame_len r c - (7 + sent c)
length-padding r noise c = length-rand_bytes noise _

marshal_cell_lem :
    (r : ℕ) (noise : ℕ → ℕ) (c : Cell)
    → IsCell c
    → marshal_cell r noise c
      ≡ put_u16 (frame_len r c) ++ frame c (take (sent c) c.body) (padding r noise c)
unfolding marshal_cell
marshal_cell_lem r noise c w =
    let (lo, mid, hi) = pick_pad_target_bounds r (7 + sent c) (omega (arith, sent-le c)) in
    rw (le→ltb 4096 (frame_len r c) (omega arith), length-sent c w)

-- A marshalled cell is the two bytes of its size, which is a size from 128 to 1280 that holds the
-- header and the meaningful bytes, and a frame body of that size.
pub length-marshal_cell :
    (r : ℕ) (noise : ℕ → ℕ) (c : Cell)
    → IsCell c
    → (length (marshal_cell r noise c) ≡ 2 + u16_at (marshal_cell r noise c) 0)
      × (7 + min c.used 505 ≤ u16_at (marshal_cell r noise c) 0)
      × (128 ≤ u16_at (marshal_cell r noise c) 0)
      × (u16_at (marshal_cell r noise c) 0 ≤ 1280)
length-marshal_cell r noise c w =
    let (lo, mid, hi) = pick_pad_target_bounds r (7 + sent c) (omega (arith, sent-le c)) in
    let t = frame_len r c in
    let round = u16_round t (omega arith) in
    rw (marshal_cell_lem r noise c w) (
      omega (
        arith,
        length-frame c (take (sent c) c.body) (padding r noise c),
        length-sent c w,
        length-padding r noise c,
        round,
      ),
      ground (arith, lo, round),
      omega (arith, round, mid),
      omega (arith, round, hi),
    )

-- ReadCell on a marshalled cell returns the cell with its length capped at 505 and the bytes behind
-- that length zero, whatever the padding, and leaves exactly what followed the frame.
pub read_cell-marshal_cell :
    (r : ℕ) (noise : ℕ → ℕ) (c : Cell) (rest : Bytes)
    → IsCell c
    → read_cell (marshal_cell r noise c ++ rest) ≡ ok (delivered c, rest)
read_cell-marshal_cell r noise c rest w =
    let (lo, mid, hi) = pick_pad_target_bounds r (7 + sent c) (omega (arith, sent-le c)) in
    let payload = take (sent c) c.body in
    let buf = frame c payload (padding r noise c) in
    rw (marshal_cell_lem r noise c w) (
      read_cell-put_u16 (frame_len r c) buf rest
        (omega (
          arith,
          length-frame c payload (padding r noise c),
          length-sent c w,
          length-padding r noise c,
        ))
        (omega arith) (omega arith)
        (unmarshal_cell-frame c payload (padding r noise c) w
            (omega (arith, length-sent c w, sent-le c))
          ∙ ap ok (
              Cell-path refl refl (length-sent c w)
                (ap (λ n. payload ++ replicate (505 - n) 0) (length-sent c w)))))
