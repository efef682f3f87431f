-- ===== src/Client/Socks/Request.antt =====
-- A SOCKS5 request as RFC 1928 writes it, at handleSOCKS5Conn of client/main.go.
use sbnet.Base.{
  ℕ, ◌-◌, ◌≤◌, ◌<◌, ◌≡◌, refl, ap, ◌∙◌, some, [], ◌∷◌, ◌++◌, arith, nat_comparable, length,
  replicate, length-append, take-append, drop-append, append-nil, take_all, drop_all,
}
use sbnet.Base.Bytes.{Bytes, put_u16, u16_at, read_full-append}
use sbnet.Client.Socks.{fill, reply_no_auth, socks_reply, read_host, with_port, socks_handshake}

pub data Address : Type 0 where
  ipv4 : Bytes → Address
  ipv6 : Bytes → Address
  domain : Bytes → Address

abbrev pub IsAddress : Address → Type 0
IsAddress (ipv4 ip) = length ip ≡ 4
IsAddress (ipv6 ip) = length ip ≡ 16
IsAddress (domain name) = length name < 256

-- The type, and what follows it.
abbrev pub address_type : Address → ℕ
address_type (ipv4 ip) = 1
address_type (ipv6 ip) = 4
address_type (domain name) = 3

abbrev pub address_bytes : Address → Bytes
address_bytes (ipv4 ip) = ip
address_bytes (ipv6 ip) = ip
address_bytes (domain name) = length name ∷ name

abbrev pub host_of : (Bytes → Bytes) → Address → Bytes
host_of ip_text (ipv4 ip) = ip_text ip
host_of ip_text (ipv6 ip) = (91 ∷ []) ++ (ip_text ip ++ 93 ∷ [])
host_of ip_text (domain name) = name

-- A greeting with the methods that are offered, and a request to connect.
abbrev pub greeting : Bytes → Bytes
greeting methods = 5 ∷ length methods ∷ methods

abbrev pub connect_to : ℕ → Bytes
connect_to type = 5 ∷ 1 ∷ 0 ∷ type ∷ []

fill-append : (n : ℕ) (xs ys : Bytes) → length xs ≡ n → fill n (xs ++ ys) ≡ xs
fill-append n xs ys h =
    ap (λ t. t ++ replicate (n - length (xs ++ ys)) 0) (take-append n xs ys h)
    ∙ ap (λ (k : ℕ). xs ++ replicate k 0)
        (let e : n - length (xs ++ ys) ≡ 0 = omega (arith, length-append xs ys) in e)
    ∙ append-nil xs

fill_short : (n : ℕ) (xs : Bytes) → length xs ≤ n → fill n xs ≡ xs ++ replicate (n - length xs) 0
fill_short n xs h = ap (λ t. t ++ replicate (n - length xs) 0) (take_all n xs h)

module _ (ip_text : Bytes → Bytes) where
  read_host-append :
      (address : Address) (rest : Bytes)
      → IsAddress address
      → read_host ip_text (address_type address) (address_bytes address ++ rest)
        ≡ some (host_of ip_text address, rest)
  unfolding read_host
  read_host-append (ipv4 ip) rest h = rw (fill-append 4 ip rest h, drop-append 4 ip rest h) refl
  read_host-append (ipv6 ip) rest h = rw (fill-append 16 ip rest h, drop-append 16 ip rest h) refl
  read_host-append (domain name) rest h =
      rw (fill-append (length name) name rest refl, drop-append (length name) name rest refl) refl

  -- Everything up to the address.
  opened :
      (methods : Bytes) (type : ℕ) (s : Bytes)
      → socks_handshake ip_text (greeting methods ++ (connect_to type ++ s))
        ≡ with_port ip_text (read_host ip_text type s)
  unfolding socks_handshake
  opened methods type s =
      rw
        (
          read_full-append 2 (5 ∷ length methods ∷ []) (methods ++ (connect_to type ++ s)) refl,
          drop-append (length methods) methods (connect_to type ++ s) refl,
          read_full-append 4 (connect_to type) s refl,
        )
        refl

  port_read :
      (port : ℕ) (rest : Bytes) → port < 65536 → u16_at (fill 2 (put_u16 port ++ rest)) 0 ≡ port
  port_read port rest h =
      ap (λ (b : Bytes). u16_at b 0) (fill-append 2 (put_u16 port) rest refl) ∙ omega arith

  -- A greeting and a request to connect, with any methods, an address of each of the three types
  -- and a port of 16 bits: both answers are written, the second of them a success, and the target
  -- is the address and the port, with what follows left to read.
  pub socks_connect :
      (methods : Bytes) (address : Address) (port : ℕ) (rest : Bytes)
      → IsAddress address
      → port < 65536
      → socks_handshake ip_text (
          greeting methods
          ++ (connect_to (address_type address)
              ++ (address_bytes address ++ (put_u16 port ++ rest))))
        ≡ record {
          written = reply_no_auth ++ socks_reply 0;
          target = some (record { host = host_of ip_text address; port = port; rest = rest });
        }
  socks_connect methods address port rest h k =
      opened methods (address_type address) (address_bytes address ++ (put_u16 port ++ rest))
      ∙ ap (with_port ip_text) (read_host-append address (put_u16 port ++ rest) h)
      ∙ ap
          (λ (n : ℕ). record {
            written = reply_no_auth ++ socks_reply 0;
            target = some (record { host = host_of ip_text address; port = n; rest = rest });
          })
          (port_read port rest k)

  -- A request that ends inside its domain name, short of the announced length: the application is
  -- told of a success all the same, and the target is the part of the name that came with zero
  -- bytes behind it, at port 0.
  pub socks_cut_short :
      (methods name : Bytes) (announced : ℕ)
      → length name < announced
      → socks_handshake ip_text (greeting methods ++ (connect_to 3 ++ (announced ∷ name)))
        ≡ record {
          written = reply_no_auth ++ socks_reply 0;
          target = some (record {
            host = name ++ replicate (announced - length name) 0;
            port = 0;
            rest = [];
          });
        }
  unfolding read_host
  socks_cut_short methods name announced h =
      opened methods 3 (announced ∷ name)
      ∙ rw (drop_all announced name (omega arith), fill_short announced name (omega arith)) refl
