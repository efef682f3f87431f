-- ===== src/Bridge/Handshake.antt =====
-- The first cell of a session: what dialBridge of client/main.go writes, and what
-- handleClientConn of bridge/main.go makes of it and of any other cell.
use sbnet.Base.{
  ℕ, ◌+◌, ◌/◌, ◌%◌, ◌≤◌, ◌<◌, ◌≡◌, refl, sym, ap, ◌∙◌, Bool, true, false, none, some, [], ◌∷◌, ◌++◌,
  arith, nat_comparable, string_comparable, if◌then◌else◌, length, get_or, Result, ok, err, le→ltb,
  lt→ltb, length-append, append-nil, Bool-cases, Option-cases, ◌≢◌, inl, inr, ◌⊎◌, length-replicate,
}
use sbnet.Base.Bytes.{
  Bytes, slice, put_u16, u16_at, copy_into, copy_at, copy_at-copy_into, get_or-take, slice-take,
  slice-append,
}
use sbnet.Cell.{Cell, CellError, cmd_create, empty_body}
use sbnet.Cell.Wire.{Carries, transmit, transmit-Carries, filled-Carries}
use sbnet.Crypto.{KeyExchange, gen_key_pair}
use sbnet.Timeout.{same_bytes}
use sbnet.Timeout.Laws.{same_bytes_refl, same_bytes_sound}
use sbnet.Client.Dial.{token_too_long, handshake_cell, dial_bridge}
use sbnet.Client.Create.{length-pub}
use sbnet.Bridge.{
  BridgeServer, Upstream, hang_up, serve_handshake, handle_client_conn, bridge_sentinel,
  parse_handshake,
}

-- tokenLen(2) | token | clientPub(32)
abbrev pub handshake_bytes : Bytes → Bytes → Bytes
handshake_bytes token pub_key = put_u16 (length token) ++ (token ++ pub_key)

length-handshake_bytes :
    (token pub_key : Bytes)
    → length (handshake_bytes token pub_key) ≡ 2 + length token + length pub_key
length-handshake_bytes token pub_key = omega (arith, length-append token pub_key)

-- The three writes fill the body from the front.
handshake_body :
    (token pub_key : Bytes)
    → (handshake_cell token pub_key).body ≡ copy_into empty_body (handshake_bytes token pub_key)
unfolding handshake_cell
handshake_body token pub_key =
    ap (λ (b : Bytes). copy_at (2 + length token) b pub_key)
      (copy_at-copy_into empty_body (put_u16 (length token)) token)
    ∙ ap (λ (k : ℕ). copy_at k (copy_into empty_body (put_u16 (length token) ++ token)) pub_key)
        (let e : 2 + length token ≡ length (put_u16 (length token) ++ token) = omega arith in e)
    ∙ copy_at-copy_into empty_body (put_u16 (length token) ++ token) pub_key

handshake_cell-Carries :
    (token pub_key : Bytes)
    → length pub_key ≡ 32
    → 2 + length token + 32 ≤ 505
    → Carries bridge_sentinel cmd_create
        (handshake_bytes token pub_key)
        (handshake_cell token pub_key)
unfolding empty_body handshake_cell
handshake_cell-Carries token pub_key full fits =
    let n = length-handshake_bytes token pub_key in
    filled-Carries bridge_sentinel cmd_create empty_body (handshake_bytes token pub_key)
      (handshake_cell token pub_key) (omega arith) (omega arith) (length-replicate {A = ℕ} 505 0)
      (omega arith) refl refl
      (ap (λ (k : ℕ). k % 65536)
        (let e : 2 + length token + 32 ≡ length (handshake_bytes token pub_key) = omega arith in e))
      (handshake_body token pub_key)

-- What the bridge reads of the body.
handshake_fields :
    (token pub_key : Bytes) (c : Cell)
    → length pub_key ≡ 32
    → Carries bridge_sentinel cmd_create (handshake_bytes token pub_key) c
    → (u16_at c.body 0 ≡ length token)
      × (slice c.body 2 (2 + length token) ≡ token)
      × (slice c.body (2 + length token) (2 + length token + 32) ≡ pub_key)
      × (2 + length token + 32 ≤ c.used)
handshake_fields token pub_key c full v =
    let long : c.used ≡ 2 + length token + 32 =
      omega (arith, v.used_length, length-handshake_bytes token pub_key) in
    let whole = v.same_content in
    let high : get_or c.body 0 0 ≡ length token / 256 % 256 =
      sym (get_or-take c.used 0 0 c.body (omega arith)) ∙ ap (λ b. get_or b 0 0) whole in
    let low : get_or c.body (0 + 1) 0 ≡ length token % 256 =
      sym (get_or-take c.used (0 + 1) 0 c.body (omega arith))
      ∙ ap (λ b. get_or b (0 + 1) 0) whole in
    let size = v.is_cell.used_lt in
    (
      omega arith,
      sym (slice-take 2 (2 + length token) c.used c.body (omega arith) (omega arith))
          ∙ ap (λ b. slice b 2 (2 + length token)) whole
          ∙ slice-append (put_u16 (length token)) token pub_key 2 (2 + length token) refl refl,
      sym (
            slice-take (2 + length token) (2 + length token + 32) c.used c.body (omega arith)
              (omega arith))
          ∙ ap (λ b. slice b (2 + length token) (2 + length token + 32)) whole
          ∙ ap
              (λ b.
                slice (put_u16 (length token) ++ (token ++ b)) (2 + length token)
                  (2 + length token + 32))
              (sym (append-nil pub_key))
          ∙ slice-append (put_u16 (length token) ++ token) pub_key [] (2 + length token)
              (2 + length token + 32) (omega arith) (omega arith),
      omega arith,
    )

parse_handshake-Carries :
    (ours token pub_key : Bytes) (c : Cell)
    → length pub_key ≡ 32
    → Carries bridge_sentinel cmd_create (handshake_bytes token pub_key) c
    → parse_handshake ours (ok c) ≡ (if same_bytes token ours then some pub_key else none)
unfolding parse_handshake
parse_handshake-Carries ours token pub_key c full v =
    let (size, given, key, long) = handshake_fields token pub_key c full v in
    rw
      (
        v.same_id,
        v.same_command,
        size,
        le→ltb c.used 2 (omega arith),
        le→ltb c.used (2 + length token + 32) long,
        given,
        key,
      )
      (elim (Bool-cases (same_bytes token ours)) [ inl e ↦ rw e refl | inr e ↦ rw e refl ])

-- A client with a token of at most 471 bytes writes a handshake cell that the bridge reads whole.
-- If the token is the bridge's, the bridge takes exactly the client's public key from it, and
-- with any other token it takes nothing. With a longer token the client writes no cell at all.
pub handshake_accepted :
    (x : KeyExchange) (noise : ℕ → ℕ) (r : ℕ) (pad : ℕ → ℕ) (token ours : Bytes)
    → (length token ≤ 471
        → (cell : Cell) × (got : Cell) × (dial_bridge x noise true true token ≡ ok cell)
          × (transmit r pad cell ≡ ok got)
          × (token ≡ ours → parse_handshake ours (ok got) ≡ some (gen_key_pair x noise).1)
          × (token ≢ ours → parse_handshake ours (ok got) ≡ none))
      × (471 < length token → dial_bridge x noise true true token ≡ err token_too_long)
unfolding dial_bridge
handshake_accepted x noise r pad token ours = (
  (λ short.
      let pub_key = (gen_key_pair x noise).1 in
      let full = length-pub x noise in
      let (got, read, v) =
        transmit-Carries r pad (handshake_cell token pub_key)
          (handshake_cell-Carries token pub_key full (omega arith)) in
      let parsed = parse_handshake-Carries ours token pub_key got full v in
      (
        handshake_cell token pub_key,
        got,
        rw (le→ltb 505 (2 + length token + 32) (omega arith)) refl,
        read,
        (λ same. parsed ∙ rw (ap (λ t. same_bytes t ours) same ∙ same_bytes_refl ours) refl),
        (λ apart. parsed ∙ elim (Bool-cases (same_bytes token ours)) [
          | inl e ↦ absurd (apart (same_bytes_sound token ours e))
          | inr e ↦ rw e refl
        ]),
      )),
  (λ long. rw (lt→ltb 505 (2 + length token + 32) (omega arith)) refl),
)

-- A first cell that opens a session.
pub record Admitted (token : Bytes) (first : Result CellError Cell) : Type 0 where
  pub cell : Cell
  pub was_read : first ≡ ok cell
  pub sentinel : cell.circ_id ≡ bridge_sentinel
  pub create : cell.command ≡ cmd_create
  pub room : 2 + u16_at cell.body 0 + 32 ≤ cell.used
  pub same_token : slice cell.body 2 (2 + u16_at cell.body 0) ≡ token

parse_handshake-Admitted :
    (token : Bytes) (first : Result CellError Cell) (pub_key : Bytes)
    → parse_handshake token first ≡ some pub_key
    → Admitted token first
unfolding parse_handshake
parse_handshake-Admitted token (err e) pub_key h = absurd cc
parse_handshake-Admitted token (ok c) pub_key h =
    let n = u16_at c.body 0 in
    let (id, command, long, same) : (c.circ_id ≡ bridge_sentinel)
        × (c.command ≡ cmd_create)
        × (2 + n + 32 ≤ c.used)
        × (same_bytes (slice c.body 2 (2 + n)) token ≡ true) =
      ground arith in
    record {
      cell = c;
      was_read = refl;
      sentinel = id;
      create = command;
      room = long;
      same_token = same_bytes_sound (slice c.body 2 (2 + n)) token same;
    }

-- Whatever comes as the first cell, the session either ends with the client's connection closed
-- and nothing else written, dialled or closed, or the cell was a handshake: it was read after the
-- preamble, it is a Create under the reserved number, and the token in it is the bridge's.
pub session-Admitted :
    (up : Upstream) (b : BridgeServer) (conn r new_circ_id : ℕ) (obfs_ok : Bool)
    (first : Result CellError Cell)
    → (handle_client_conn up b conn r new_circ_id obfs_ok first ≡ hang_up conn ∷ [])
      ⊎ ((obfs_ok ≡ true) × Admitted b.token first)
unfolding handle_client_conn serve_handshake
session-Admitted up b conn r new_circ_id false first = inl refl
session-Admitted up b conn r new_circ_id true first =
    elim (Option-cases (parse_handshake b.token first)) [
      | inl e ↦ inl (rw e refl)
      | inr (pub_key, e) ↦ inr (refl, parse_handshake-Admitted b.token first pub_key e)
    ]
