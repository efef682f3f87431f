-- ===== src/Cell/Wire.antt =====
-- A cell on the wire between two programs, by MarshalCell and ReadCell of common/cell.go.
use sbnet.Base.{
  ℕ, ◌-◌, ◌%◌, ◌≤◌, ◌<◌, ◌≡◌, refl, sym, ap, subst, ◌∙◌, [], ◌++◌, append-nil, arith, length, take,
  replicate, length-append, length-replicate, take-append, Result, ok, ◌>>=◌,
}
use sbnet.Base.Bytes.{Bytes, copy_into, length-copy_into, take-copy_into}
use sbnet.Cell.{Cell, IsCell, CellError, empty_body, cell_of, content, marshal_cell, read_cell}
use sbnet.Cell.RoundTrip.{delivered, sent, read_cell-marshal_cell}

-- What the peer reads; `r` and `noise` are the sender's padding.
unfoldable pub transmit : ℕ → (ℕ → ℕ) → Cell → Result CellError Cell
transmit r noise c = read_cell (marshal_cell r noise c) >>= (λ p. ok p.0)

-- A cell of a circuit with a command and exactly the bytes `p` as its content.
pub record Carries (circ_id command : ℕ) (p : Bytes) (c : Cell) : Type 0 where
  pub is_cell : IsCell c
  pub same_id : c.circ_id ≡ circ_id
  pub same_command : c.command ≡ command
  pub used_length : c.used ≡ length p
  pub same_content : content c ≡ p
  pub fits : length p ≤ 505

length-empty_body : length empty_body ≡ 505
unfolding empty_body
length-empty_body = length-replicate {A = ℕ} 505 0

small_mod : (n : ℕ) → n ≤ 505 → n % 65536 ≡ n
small_mod n h = omega arith

-- Filling a cell's body from the front.
pub filled-Carries :
    (circ_id command : ℕ) (body p : Bytes) (c : Cell)
    → circ_id < 4294967296
    → command < 256
    → length body ≡ 505
    → length p ≤ 505
    → c.circ_id ≡ circ_id
    → c.command ≡ command
    → c.used ≡ length p % 65536
    → c.body ≡ copy_into body p
    → Carries circ_id command p c
filled-Carries circ_id command body p c h k full fits ei ec eu eb =
    let used : c.used ≡ length p = eu ∙ small_mod (length p) fits in
    record {
      is_cell = record {
        circ_id_lt = omega arith;
        command_lt = omega arith;
        used_lt = omega arith;
        length_body = ap length eb ∙ length-copy_into body p ∙ full;
      };
      same_id = ei;
      same_command = ec;
      used_length = used;
      same_content =
          ap (λ n. take n c.body) used
          ∙ ap (λ b. take (length p) b) eb
          ∙ take-copy_into body p (omega arith);
      fits = fits;
    }

pub cell_of-Carries :
    (circ_id command : ℕ) (p : Bytes)
    → circ_id < 4294967296
    → command < 256
    → length p ≤ 505
    → Carries circ_id command p (cell_of circ_id command p)
unfolding cell_of
cell_of-Carries circ_id command p h k fits =
    filled-Carries circ_id command empty_body p (cell_of circ_id command p) h k length-empty_body
      fits refl refl refl refl

-- `p` followed by zeros, under a length.
abbrev padded_to : Cell → ℕ → Bytes → Cell
padded_to c n p = record c { used = n; body = p ++ replicate (505 - n) 0 }

abbrev padded : Cell → Bytes → Cell
padded c p = padded_to c (length p) p

padded-Carries :
    {circ_id command : ℕ} {p : Bytes} (c : Cell)
    → Carries circ_id command p c
    → Carries circ_id command p (padded c p)
padded-Carries {p} c v = record {
  is_cell = record {
    circ_id_lt = v.is_cell.circ_id_lt;
    command_lt = v.is_cell.command_lt;
    used_lt = omega (arith, v.fits);
    length_body = omega (
      arith,
      length-append p (replicate (505 - length p) 0),
      length-replicate {A = ℕ} (505 - length p) 0,
      v.fits,
    );
  };
  same_id = v.same_id;
  same_command = v.same_command;
  used_length = refl;
  same_content = take-append (length p) p (replicate (505 - length p) 0) refl;
  fits = v.fits;
}

delivered-Carries :
    {circ_id command : ℕ} {p : Bytes} (c : Cell)
    → Carries circ_id command p c
    → Carries circ_id command p (delivered c)
delivered-Carries {circ_id} {command} {p} c v =
    let e : sent c ≡ length p = ground (arith, v.used_length, v.fits) in
    let front : take (length p) c.body ≡ p =
      ap (λ n. take n c.body) (sym v.used_length) ∙ v.same_content in
    let same : delivered c ≡ padded c p =
      ap (λ n. padded_to c n (take n c.body)) e ∙ ap (padded_to c (length p)) front in
    subst (λ (d : Cell). Carries circ_id command p d) (sym same) (padded-Carries c v)

-- The peer reads a cell with the same circuit, command and content.
pub transmit-Carries :
    (r : ℕ) (noise : ℕ → ℕ) {circ_id command : ℕ} {p : Bytes} (c : Cell)
    → Carries circ_id command p c
    → (c' : Cell) × (transmit r noise c ≡ ok c') × Carries circ_id command p c'
unfolding transmit
transmit-Carries r noise c v = (
  delivered c,
  rw (sym (append-nil (marshal_cell r noise c)))
      (rw (read_cell-marshal_cell r noise c [] v.is_cell)),
  delivered-Carries c v,
)
