-- ===== src/Examples/Sockets.antt =====
-- A SOCKS5 request at concrete inputs.
use sbnet.Base.{◌-◌, ◌≡◌, some, [], ◌∷◌, ◌++◌, arith, replicate, length}
use sbnet.Base.Bytes.{Bytes, put_u16}
use sbnet.Client.Socks.{reply_no_auth, socks_reply, socks_handshake}
use sbnet.Client.Socks.Request.{
  domain, address_type, address_bytes, host_of, greeting, connect_to, socks_connect,
  socks_cut_short,
}

-- A stand-in for net.IP.String.
abbrev as_it_is : Bytes → Bytes
as_it_is ip = ip

abbrev name : Bytes
name = 97 ∷ 98 ∷ []

socks_connect_example :
    socks_handshake as_it_is (
      greeting (0 ∷ 2 ∷ [])
      ++ (connect_to (address_type (domain name))
          ++ (address_bytes (domain name) ++ (put_u16 443 ++ 71 ∷ []))))
    ≡ record {
      written = reply_no_auth ++ socks_reply 0;
      target = some (record { host = host_of as_it_is (domain name); port = 443; rest = 71 ∷ [] });
    }
socks_connect_example =
    socks_connect as_it_is (0 ∷ 2 ∷ []) (domain name) 443 (71 ∷ []) (omega arith) (omega arith)

socks_cut_short_example :
    socks_handshake as_it_is (greeting (0 ∷ []) ++ (connect_to 3 ++ (5 ∷ name))) ≡ record {
      written = reply_no_auth ++ socks_reply 0;
      target = some (record { host = name ++ replicate (5 - length name) 0; port = 0; rest = [] });
    }
socks_cut_short_example = socks_cut_short as_it_is (0 ∷ []) name 5 (omega arith)
