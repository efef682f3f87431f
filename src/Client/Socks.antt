-- ===== src/Client/Socks.antt =====
-- handleSOCKS5Conn of client/main.go, on the bytes that come from the application.
pub mod Request
use sbnet.Base.{
  ℕ, zero, suc, ◌+◌, ◌*◌, ◌-◌, Bool, true, false, not, Option, none, some, List, [], ◌∷◌, ◌++◌, ltb,
  ◌==◌, nat_comparable, if◌then◌else◌, length, take, drop, replicate, get_or, Result, ok, err,
}
use sbnet.Base.Bytes.{Bytes, u16_at, read_full}
use sbnet.Client.Pool.{CircuitPool, PoolError}

-- io.ReadFull into a zeroed slice, whose error is not looked at.
abbrev pub fill : ℕ → Bytes → Bytes
fill n s = take n s ++ replicate (n - length s) 0

-- What is written back.
abbrev pub reply_no_auth : Bytes
reply_no_auth = 5 ∷ 0 ∷ []

abbrev pub socks_reply : ℕ → Bytes
socks_reply code = 5 ∷ code ∷ 0 ∷ 1 ∷ 0 ∷ 0 ∷ 0 ∷ 0 ∷ 0 ∷ 0 ∷ []

-- Where the application wants to go, and what it sent after that.
pub record Target : Type 0 where
  pub host : Bytes
  pub port : ℕ
  pub rest : Bytes

-- The bytes that were written, and the target unless the connection was dropped.
pub record Handshake : Type 0 where
  pub written : Bytes
  pub target : Option Target

abbrev pub dropped : Bytes → Handshake
dropped written = record { written = written; target = none }

-- `ip_text` is net.IP.String.
module _ (ip_text : Bytes → Bytes) where
  -- The host and what is left to read, or `none` for an address type that is not known.
  unfoldable pub read_host : ℕ → Bytes → Option (Bytes × Bytes)
  read_host address_type s =
      let size = get_or (fill 1 s) 0 0 in
      let behind = drop 1 s in
      if address_type == 1
      then some (ip_text (fill 4 s), drop 4 s)
      else if address_type == 4
      then some ((91 ∷ []) ++ (ip_text (fill 16 s) ++ 93 ∷ []), drop 16 s)
      else if address_type == 3
      then some (fill size behind, drop size behind)
      else none

  abbrev pub with_port : Option (Bytes × Bytes) → Handshake
  with_port none = dropped (reply_no_auth ++ socks_reply 8)
  with_port (some (host, s)) = record {
    written = reply_no_auth ++ socks_reply 0;
    target = some (record { host = host; port = u16_at (fill 2 s) 0; rest = drop 2 s });
  }

  abbrev pub read_request : Option (Bytes × Bytes) → Handshake
  read_request none = dropped reply_no_auth
  read_request (some (req, s)) =
      if not (get_or req 0 0 == 5)
      then dropped reply_no_auth
      else if not (get_or req 1 0 == 1)
      then dropped (reply_no_auth ++ socks_reply 7)
      else with_port (read_host (get_or req 3 0) s)

  abbrev pub read_greeting : Option (Bytes × Bytes) → Handshake
  read_greeting none = dropped []
  read_greeting (some (hdr, s)) =
      let methods = get_or hdr 1 0 in
      if not (get_or hdr 0 0 == 5) then dropped [] else read_request (read_full 4 (drop methods s))

  unfoldable pub socks_handshake : Bytes → Handshake
  socks_handshake s = read_greeting (read_full 2 s)

-- What a call of send makes of the pool, and its result.
abbrev pub Sent : Type 0
Sent = CircuitPool × Result PoolError Bytes

-- The loop that follows: each Read that returns bytes is one request over the pool, and its
-- response is written; the loop ends at the first request or write that fails.
module _ (send : ℕ → Bytes → CircuitPool → Sent) (write_ok : ℕ → Bool) where
  unfoldable pub socks_loop : ℕ → List Bytes → CircuitPool → CircuitPool × List Bytes
  socks_loop i [] p = (p, [])
  socks_loop i (b ∷ reads) p =
      if length b == 0 then socks_loop (i + 1) reads p else elim ((send i b p).1) [
        | err e ↦ ((send i b p).0, [])
        | ok response ↦
            let (p', responses) = socks_loop (i + 1) reads (send i b p).0 in
            if write_ok i then (p', response ∷ responses) else ((send i b p).0, [])
      ]
