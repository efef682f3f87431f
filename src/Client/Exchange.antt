-- ===== src/Client/Exchange.antt =====
-- A request of client/main.go at the exit of relay/main.go.
use sbnet.Base.{
  ℕ, suc, ◌+◌, ◌≤◌, ◌<◌, ◌≡◌, refl, ap, ◌∙◌, true, false, some, List, [], ◌∷◌, ◌++◌, map, arith,
  ◌==◌, nat_comparable, if◌then◌else◌, length, take, drop, Result, ok, le→ltb, Bool-cases, inl, inr,
  length-take,
}
use sbnet.Base.Bytes.{Bytes, slice, u16_at}
use sbnet.Cell.{Cell, cell_of, content, cmd_relay, cmd_relay_done}
use sbnet.Cell.Wire.{cell_of-Carries}
use sbnet.Crypto.{Aead, CryptoError, encrypt, decrypt}
use sbnet.Crypto.Layers.{IsKey, decrypt-encrypt}
use sbnet.Relay.{Circuit}
use sbnet.Relay.Exit.{
  Resolver, resolve_host, Origin, reply_cell, send_done, stream, serve_exit, handle_exit_relay,
  chunk_max,
}
use sbnet.Client.{request_payload}
use sbnet.Client.Request.{request_payload_parse, length-request_payload}

-- The pieces of a response: what each Read returned, without the empty ones.
unfoldable pub pieces : List Bytes → List Bytes
pieces [] = []
pieces (b ∷ reads) =
    let rest = pieces reads in
    if length (take chunk_max b) == 0 then rest else take chunk_max b ∷ rest

pub map_append {ℓ κ} :
    {A : Type ℓ} {B : Type κ} (f : A → B) (xs ys : List A) → map f (xs ++ ys) ≡ map f xs ++ map f ys
map_append f [] ys = refl
map_append f (x ∷ xs) ys = ap (λ t. f x ∷ t) (map_append f xs ys)

module _ (a : Aead) (circ : Circuit) (key : IsKey circ.key) (id : circ.id < 4294967296) where
  -- A cell as the next key opens it.
  abbrev pub opened : Cell → ℕ × Result CryptoError Bytes
  opened c = (c.command, decrypt a circ.key (content c))

  abbrev pub data_piece : Bytes → ℕ × Result CryptoError Bytes
  data_piece p = (cmd_relay, ok p)

  reply_opened :
      (noise : ℕ → ℕ) (command : ℕ) (p : Bytes)
      → command < 256
      → length p ≤ 421
      → (c : Cell) × (reply_cell a circ command (encrypt a noise circ.key p) ≡ some c)
        × (opened c ≡ (command, ok p))
  unfolding reply_cell
  reply_opened noise command p k small =
      let (enc, sealed, longer, back) = decrypt-encrypt a noise circ.key p key in
      let short : length enc ≤ 505 = omega (arith, longer) in
      let v = cell_of-Carries circ.id command enc id k short in
      (
        cell_of circ.id command enc,
        rw (sealed, le→ltb 505 (length enc) short) refl,
        rw (v.same_command, v.same_content, back) refl,
      )

  stream-opened :
      (noise : ℕ → ℕ → ℕ) (reads : List Bytes)
      → map opened (stream a circ noise reads) ≡ map data_piece (pieces reads)
  unfolding stream pieces
  stream-opened noise [] = refl
  stream-opened noise (b ∷ reads) = elim (Bool-cases (length (take chunk_max b) == 0)) [
    | inl e ↦ rw e (stream-opened (λ i. noise (suc i)) reads)
    | inr e ↦
        let (c, replied, h) =
          reply_opened (noise 0) cmd_relay (take chunk_max b) (omega arith)
            (omega (arith, length-take chunk_max b)) in
        rw (e, replied, h, stream-opened (λ i. noise (suc i)) reads) refl
  ]

  exit_fields :
      (noise : ℕ → ℕ → ℕ) (r : Resolver) (internal_dns : Bytes) (o : Origin) (p host : Bytes)
      (port : ℕ) (req : Bytes)
      → 4 + length host ≤ length p
      → u16_at p 0 ≡ length host
      → slice p 2 (2 + length host) ≡ host
      → u16_at p (2 + length host) ≡ port
      → drop (4 + length host) p ≡ req
      → handle_exit_relay a circ noise r internal_dns o p
        ≡ serve_exit a circ noise r internal_dns o host port req
  unfolding handle_exit_relay
  exit_fields noise r internal_dns o p host port req long h1 h2 h3 h4 =
      rw
        (
          h1,
          le→ltb (length p) 4 (omega arith),
          le→ltb (length p) (2 + length host + 2) (omega arith),
          h2,
          h3,
          h4,
        )
        refl

  pub exit_reads :
      (noise : ℕ → ℕ → ℕ) (r : Resolver) (internal_dns : Bytes) (o : Origin) (host : Bytes)
      (port : ℕ) (req : Bytes)
      → length host < 65536
      → port < 65536
      → handle_exit_relay a circ noise r internal_dns o (request_payload host port req)
        ≡ serve_exit a circ noise r internal_dns o host port req
  exit_reads noise r internal_dns o host port req h k =
      let (host_len, same_host, same_port, same_req) = request_payload_parse host port req h k in
      exit_fields noise r internal_dns o (request_payload host port req) host port req
        (omega (arith, length-request_payload host port req)) host_len same_host same_port same_req

  -- If the client's host resolves, the dial of that address at the client's port succeeds and so
  -- does the write of the client's request, then the exit's cells for the client's payload are,
  -- as its key of 32 bytes opens them, the pieces of the response in order, each in one cell, and
  -- then the cell that marks the end. The host and the port are of 16 bits' length and size.
  pub exit_serves :
      (noise : ℕ → ℕ → ℕ) (r : Resolver) (internal_dns : Bytes) (o : Origin) (host : Bytes)
      (port : ℕ) (req : Bytes)
      → length host < 65536
      → port < 65536
      → (length (resolve_host r internal_dns host) == 0) ≡ false
      → o.dial (resolve_host r internal_dns host) port ≡ true
      → o.write_ok req ≡ true
      → map opened (handle_exit_relay a circ noise r internal_dns o (request_payload host port req))
        ≡ map data_piece (pieces o.reads) ++ (cmd_relay_done, ok (0 ∷ [])) ∷ []
  unfolding serve_exit send_done
  exit_serves noise r internal_dns o host port req h k resolved dialled written =
      let (mark, marked, m) =
        reply_opened (noise 0) cmd_relay_done (0 ∷ []) (omega arith) (omega arith) in
      ap (map opened) (exit_reads noise r internal_dns o host port req h k)
      ∙ rw
          (
            resolved,
            dialled,
            written,
            map_append opened (stream a circ (λ i. noise (suc i)) o.reads),
            stream-opened (λ i. noise (suc i)) o.reads,
            marked,
            m,
          )
          refl
