-- ===== src/Relay/Exit.antt =====
-- relay/main.go: forwardCells, and the exit relay: handleExitRelay, sendDone, sendExitError and
-- resolveHost. Name servers and the origin are parameters.
use sbnet.Base.{
  ℕ, suc, ◌+◌, ◌-◌, ◌%◌, ◌||◌, ◌&&◌, Bool, not, Option, none, some, List, [], ◌∷◌, ◌++◌, ltb, ◌==◌,
  nat_comparable, if◌then◌else◌, length, take, drop, Result, ok, err,
}
use sbnet.Base.Bytes.{Bytes, slice, u16_at, copy_into}
use sbnet.Cell.{Cell, CellError, cell_body_max, cell_of, content, cmd_relay, cmd_relay_done}
use sbnet.Crypto.{Aead, CryptoError, encrypt}
use sbnet.Relay.{Circuit}
use sbnet.Timeout.{same_bytes}

-- ".sbnet"
abbrev internal_suffix : Bytes
internal_suffix = 46 ∷ 115 ∷ 98 ∷ 110 ∷ 101 ∷ 116 ∷ []

abbrev has_suffix : Bytes → Bytes → Bool
has_suffix host suffix =
    not (ltb (length host) (length suffix))
    && same_bytes (drop (length host - length suffix) host) suffix

-- net.LookupHost, with no address for an error, and a query of the internal resolver, with the
-- empty text for an error.
pub record Resolver : Type 0 where
  pub lookup_host : Bytes → List Bytes
  pub query : Bytes → Bytes → Bytes

abbrev first_address : List Bytes → Bytes
first_address [] = []
first_address (addr ∷ addrs) = addr

unfoldable pub resolve_internal : Resolver → Bytes → Bytes → Bytes
resolve_internal r [] host = []
resolve_internal r (d ∷ internal_dns) host = r.query (d ∷ internal_dns) host

unfoldable pub resolve_host : Resolver → Bytes → Bytes → Bytes
resolve_host r internal_dns host =
    if has_suffix host internal_suffix
    then resolve_internal r internal_dns host
    else first_address (r.lookup_host host)

pub data ExitError : Type 0 where
  unresolved : Bytes → ExitError
  unreachable : Bytes → ℕ → ExitError

-- The origin's side of a request: the dial, the write of the request, and what each Read of the
-- response returns before the one that fails. `bad_gateway` prints the 502 response.
pub record Origin : Type 0 where
  pub dial : Bytes → ℕ → Bool
  pub write_ok : Bytes → Bool
  pub reads : List Bytes
  pub bad_gateway : ExitError → Bytes

abbrev pub chunk_max : ℕ
chunk_max = 421

module _ (a : Aead) (circ : Circuit) where
  -- `enc` is written in a cell unless it does not fit.
  unfoldable pub reply_cell : ℕ → Result CryptoError Bytes → Option Cell
  reply_cell command (err e) = none
  reply_cell command (ok enc) =
      if ltb cell_body_max (length enc) then none else some (cell_of circ.id command enc)

  abbrev pub to_list : Option Cell → List Cell
  to_list none = []
  to_list (some c) = c ∷ []

  -- The cells written toward the client.
  unfoldable pub send_done : (ℕ → ℕ) → List Cell
  send_done noise = to_list (reply_cell cmd_relay_done (encrypt a noise circ.key (0 ∷ [])))

  unfoldable pub send_exit_error : (ℕ → ℕ) → Bytes → List Cell
  send_exit_error noise body = to_list (reply_cell cmd_relay (encrypt a noise circ.key body))

  -- The read loop: it ends at the first chunk that cannot be sent. A Read fills at most the buffer.
  unfoldable pub stream : (ℕ → ℕ → ℕ) → List Bytes → List Cell
  stream noise [] = []
  stream noise (b ∷ reads) =
      let rest = stream (λ i. noise (suc i)) reads in
      let chunk = take chunk_max b in
      if length chunk == 0
      then rest
      else elim (reply_cell cmd_relay (encrypt a (noise 0) circ.key chunk)) [
        | none ↦ []
        | some reply ↦ reply ∷ rest
      ]

  -- The parts of handleExitRelay before and after the fields of the payload are read.
  unfoldable pub serve_exit :
      (ℕ → ℕ → ℕ) → Resolver → Bytes → Origin → Bytes → ℕ → Bytes → List Cell
  serve_exit noise r internal_dns o host port req =
      let ip = resolve_host r internal_dns host in
      let finished = send_done (noise 0) in
      if length ip == 0
      then send_exit_error (noise 1) (o.bad_gateway (unresolved host)) ++ finished
      else if not (o.dial ip port)
      then send_exit_error (noise 1) (o.bad_gateway (unreachable ip port)) ++ finished
      else if not (o.write_ok req)
      then finished
      else stream (λ i. noise (suc i)) o.reads ++ finished

  -- The wire payload is hostLen(2) | host | port(2) | request.
  unfoldable pub handle_exit_relay : (ℕ → ℕ → ℕ) → Resolver → Bytes → Origin → Bytes → List Cell
  handle_exit_relay noise r internal_dns o payload =
      let host_len = u16_at payload 0 in
      if ltb (length payload) 4 || ltb (length payload) (2 + host_len + 2)
      then []
      else serve_exit noise r internal_dns o (slice payload 2 (2 + host_len))
          (u16_at payload (2 + host_len)) (drop (4 + host_len) payload)

  -- One round of forwardCells: the cell written toward the client, or `none` where the loop ends.
  unfoldable pub forward_cell : (ℕ → ℕ) → Result CellError Cell → Option Cell
  forward_cell noise (err e) = none
  forward_cell noise (ok c) =
      if (c.command == cmd_relay) || (c.command == cmd_relay_done)
      then elim (encrypt a noise circ.key (content c)) [
        | err e ↦ none
        | ok enc ↦
            if ltb cell_body_max (length enc)
            then none
            else some (record c { used = length enc % 65536; body = copy_into c.body enc })
      ]
      else some c
