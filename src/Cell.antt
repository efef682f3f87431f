-- ===== src/Cell.antt =====
-- common/cell.go: the wire format of a cell. A command is the byte that it is in Go.
pub mod Pad
pub mod RoundTrip
pub mod Parse
pub mod Wire
use sbnet.Base.{
  ℕ, zero, suc, ◌+◌, ◌-◌, ◌%◌, ◌<◌, ◌≡◌, ◌||◌, List, [], ◌∷◌, ◌++◌, ltb, leb, if◌then◌else◌, length,
  take, drop, get_or, replicate, min, All, Result, ok, err, ◌>>=◌, or_fail,
}
use sbnet.Base.Bytes.{
  Bytes, IsByte, put_u16, put_u32, u16_at, u32_at, slice, copy_into, rand_bytes, read_full,
}

abbrev pub cell_hdr_size : ℕ
cell_hdr_size = 7

abbrev pub cell_body_max : ℕ
cell_body_max = 505

abbrev pub frame_len_size : ℕ
frame_len_size = 2

abbrev pub max_frame_len : ℕ
max_frame_len = 4096

abbrev pub pad_buckets : List ℕ
pad_buckets = 128 ∷ 256 ∷ 512 ∷ 768 ∷ 1024 ∷ 1280 ∷ []

-- CellCmd
abbrev pub cmd_create : ℕ
cmd_create = 1

abbrev pub cmd_created : ℕ
cmd_created = 2

abbrev pub cmd_extend : ℕ
cmd_extend = 3

abbrev pub cmd_extended : ℕ
cmd_extended = 4

abbrev pub cmd_relay : ℕ
cmd_relay = 5

abbrev pub cmd_destroy : ℕ
cmd_destroy = 6

abbrev pub cmd_ping : ℕ
cmd_ping = 7

abbrev pub cmd_pong : ℕ
cmd_pong = 8

abbrev pub cmd_fragment : ℕ
cmd_fragment = 9

abbrev pub cmd_frag_final : ℕ
cmd_frag_final = 10

abbrev pub cmd_relay_done : ℕ
cmd_relay_done = 12

pub record Cell : Type 0 where
  pub circ_id : ℕ  -- uint32
  pub command : ℕ  -- byte
  pub used : ℕ  -- Length, a uint16
  pub body : Bytes  -- an array of 505 bytes

-- What the Go types say of a cell.
pub record IsCell (c : Cell) : Type 0 where
  pub circ_id_lt : c.circ_id < 4294967296
  pub command_lt : c.command < 256
  pub used_lt : c.used < 65536
  pub length_body : length c.body ≡ 505

-- `var c Cell`
unfoldable pub empty_body : Bytes
empty_body = replicate 505 0

-- The search for the first bucket that fits; `i` counts the buckets that were passed.
first_fit : ℕ → List ℕ → ℕ → ℕ
first_fit meaningful [] i = i
first_fit meaningful (b ∷ bs) i =
    let later = first_fit meaningful bs (i + 1) in if leb meaningful b then i else later

-- `r` is the byte that randByte returns.
pub pick_pad_target : ℕ → ℕ → ℕ
unfolding first_fit
pick_pad_target r meaningful =
    let first = first_fit meaningful pad_buckets 0 in
    if leb (length pad_buckets) first
    then meaningful
    else get_or pad_buckets (first + r % (length pad_buckets - first)) 0

-- The writes into `buf` touch consecutive ranges, so the buffer is their concatenation: the length
-- prefix, the header, the meaningful bytes of the body, and the random bytes behind them.
unfoldable pub marshal_cell : ℕ → (ℕ → ℕ) → Cell → Bytes
marshal_cell r noise c =
    let n = if ltb cell_body_max c.used then cell_body_max else c.used in
    let meaningful = cell_hdr_size + n in
    let wanted = pick_pad_target r meaningful in
    let target = if ltb max_frame_len wanted then max_frame_len else wanted in
    put_u16 target
    ++ (put_u32 c.circ_id
        ++ ((c.command % 256)
            ∷ (put_u16 n ++ (take n c.body ++ rand_bytes noise (target - meaningful)))))

pub data CellError : Type 0 where
  read_failed : CellError
  too_short : ℕ → CellError
  invalid_frame_length : ℕ → CellError
  length_exceeds_frame : ℕ → ℕ → CellError

unfoldable pub unmarshal_cell : Bytes → Result CellError Cell
unmarshal_cell data_bytes =
    if ltb (length data_bytes) cell_hdr_size
    then err (too_short (length data_bytes))
    else let wire = u16_at data_bytes 5 in
      let n = if ltb cell_body_max wire then cell_body_max else wire in
      let avail = length data_bytes - cell_hdr_size in
      if ltb avail n
      then err (length_exceeds_frame n avail)
      else ok (record {
        circ_id = u32_at data_bytes 0;
        command = get_or data_bytes 4 0;
        used = n;
        body = copy_into empty_body (slice data_bytes cell_hdr_size (cell_hdr_size + n));
      })

-- The cell that was read, and what the reader still holds.
unfoldable pub read_cell : Bytes → Result CellError (Cell × Bytes)
read_cell s = do
  (len_buf, rest) ← or_fail (read_full frame_len_size s) read_failed
  let frame_len = u16_at len_buf 0
  if ltb frame_len cell_hdr_size || ltb max_frame_len frame_len
      then err (invalid_frame_length frame_len)
      else do
        (buf, rest') ← or_fail (read_full frame_len rest) read_failed
        c ← unmarshal_cell buf
        ok (c, rest')

-- The bytes that a sender means: `c.Body[:c.Length]`.
abbrev pub content : Cell → Bytes
content c = take c.used c.body

-- `var c Cell` with its header set and `payload` copied to the front of the body.
unfoldable pub cell_of : ℕ → ℕ → Bytes → Cell
cell_of circ_id command payload = record {
  circ_id = circ_id;
  command = command;
  used = length payload % 65536;
  body = copy_into empty_body payload;
}
