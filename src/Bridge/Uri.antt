-- ===== src/Bridge/Uri.antt =====
-- parseBridgeURI of bridge/main.go, and what it shares with the one of client/main.go.
use sbnet.Base.{
  ℕ, ◌≡◌, refl, ◌&&◌, Bool, true, not, [], ◌∷◌, ◌++◌, arith, leb, nat_comparable, if◌then◌else◌,
  take, drop, All, Result, ok, err, ◌>>=◌, or_fail,
}
use sbnet.Base.Bytes.{Bytes}
use sbnet.Base.Query.{Values, parse_query, get_value, same_text}
use sbnet.Base.Query.Printed.{printed, IsPlain, KeyByte, parse_query-printed}
use sbnet.Types.{BridgeConfig}

-- "sbnet://", and the keys and the defaults.
abbrev pub scheme : Bytes
scheme = 115 ∷ 98 ∷ 110 ∷ 101 ∷ 116 ∷ 58 ∷ 47 ∷ 47 ∷ []

abbrev pub key_bridge : Bytes
key_bridge = 98 ∷ 114 ∷ 105 ∷ 100 ∷ 103 ∷ 101 ∷ []

abbrev pub key_token : Bytes
key_token = 116 ∷ 111 ∷ 107 ∷ 101 ∷ 110 ∷ []

abbrev pub key_obfs : Bytes
key_obfs = 111 ∷ 98 ∷ 102 ∷ 115 ∷ []

abbrev pub key_mode : Bytes
key_mode = 109 ∷ 111 ∷ 100 ∷ 101 ∷ []

abbrev pub obfs_tls : Bytes
obfs_tls = 116 ∷ 108 ∷ 115 ∷ []

abbrev pub mode_secure : Bytes
mode_secure = 115 ∷ 101 ∷ 99 ∷ 117 ∷ 114 ∷ 101 ∷ []

pub data UriError : Type 0 where
  not_sbnet malformed no_bridge no_token : UriError

abbrev pub or_default : Bytes → Bytes → Bytes
or_default [] default = default
or_default (b ∷ text) default = b ∷ text

abbrev pub required : Bytes → UriError → Result UriError Bytes
required [] e = err e
required (b ∷ text) e = ok (b ∷ text)

-- The parameters behind the scheme.
unfoldable pub uri_values : Bytes → Result UriError Values
uri_values uri =
    if not (same_text (take 8 uri) scheme)
    then err not_sbnet
    else or_fail (parse_query (drop 8 uri)) malformed

abbrev pub with_defaults : Values → BridgeConfig
with_defaults values = record {
  endpoint = get_value values key_bridge;
  token = get_value values key_token;
  obfs = or_default (get_value values key_obfs) obfs_tls;
  mode = or_default (get_value values key_mode) mode_secure;
}

unfoldable pub parse_bridge_uri : Bytes → Result UriError BridgeConfig
parse_bridge_uri uri = do
  values ← uri_values uri
  endpoint ← required (get_value values key_bridge) no_bridge
  ok (with_defaults values)

-- The address of a bridge, as the comment in the source writes it.
abbrev pub bridge_uri : BridgeConfig → Bytes
bridge_uri c =
    scheme
    ++ printed (key_bridge, c.endpoint)
        ((key_token, c.token) ∷ (key_obfs, c.obfs) ∷ (key_mode, c.mode) ∷ [])

-- The four texts are of bytes that stand for themselves.
pub record AllPlain (c : BridgeConfig) : Type 0 where
  pub endpoint : All IsPlain c.endpoint
  pub token : All IsPlain c.token
  pub obfs : All IsPlain c.obfs
  pub mode : All IsPlain c.mode

plain_letter : (b : ℕ) → (leb 97 b && leb b 122) ≡ true → KeyByte b
plain_letter b h = (
  record {
    no_ampersand = ground arith;
    no_semicolon = ground arith;
    no_percent = ground arith;
    no_plus = ground arith;
  },
  ground arith,
)

abbrev letters : Bytes → Bool
letters [] = true
letters (b ∷ text) = leb 97 b && leb b 122 && letters text

letters-KeyByte : (text : Bytes) → letters text ≡ true → All KeyByte text
letters-KeyByte [] h = _
letters-KeyByte (b ∷ text) h = (plain_letter b (ground arith), letters-KeyByte text (ground arith))

abbrev pub values_of : BridgeConfig → Values
values_of c =
    (key_bridge, c.endpoint) ∷ (key_token, c.token) ∷ (key_obfs, c.obfs) ∷ (key_mode, c.mode) ∷ []

pub uri_values-bridge_uri :
    (c : BridgeConfig) → AllPlain c → uri_values (bridge_uri c) ≡ ok (values_of c)
unfolding uri_values
uri_values-bridge_uri c h =
    rw
      (parse_query-printed (key_bridge, c.endpoint)
        ((key_token, c.token) ∷ (key_obfs, c.obfs) ∷ (key_mode, c.mode) ∷ [])
        (
          (letters-KeyByte key_bridge refl, h.endpoint),
          (
            (letters-KeyByte key_token refl, h.token),
            ((letters-KeyByte key_obfs refl, h.obfs), ((letters-KeyByte key_mode refl, h.mode), _)),
          ),
        ))
      refl

-- The configuration with the defaults in the place of empty texts.
abbrev pub completed : BridgeConfig → BridgeConfig
completed c = record c { obfs = or_default c.obfs obfs_tls; mode = or_default c.mode mode_secure }

-- What the bridge makes of an address with these texts.
pub parse_bridge_uri-bridge_uri :
    (c : BridgeConfig)
    → AllPlain c
    → parse_bridge_uri (bridge_uri c) ≡ (required c.endpoint no_bridge >>= (λ e. ok (completed c)))
unfolding parse_bridge_uri get_value
parse_bridge_uri-bridge_uri c h = rw (uri_values-bridge_uri c h) refl
