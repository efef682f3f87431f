-- ===== src/Client/Uri.antt =====
-- parseBridgeURI of client/main.go, beside the one of bridge/main.go.
use sbnet.Base.{◌≡◌, refl, ap, ◌∙◌, ◌≢◌, [], ◌∷◌, Result, ok, err, ◌>>=◌}
use sbnet.Base.Bytes.{Bytes}
use sbnet.Base.Query.{Values, get_value}
use sbnet.Types.{BridgeConfig}
use sbnet.Bridge.Uri.{
  key_bridge, key_token, UriError, no_bridge, no_token, required, uri_values, with_defaults,
  parse_bridge_uri as bridge_parse, bridge_uri, AllPlain, completed, parse_bridge_uri-bridge_uri,
}

unfoldable pub parse_bridge_uri : Bytes → Result UriError BridgeConfig
parse_bridge_uri uri = do
  values ← uri_values uri
  endpoint ← required (get_value values key_bridge) no_bridge
  token ← required (get_value values key_token) no_token
  ok (with_defaults values)

abbrev pub require_token : BridgeConfig → Result UriError BridgeConfig
require_token c = required c.token no_token >>= (λ t. ok c)

-- The steps behind the endpoint's test, for both programs.
token_step :
    (endpoint : Result UriError Bytes) (values : Values)
    → (endpoint >>= (λ e.
        required (get_value values key_token) no_token >>= (λ t. ok (with_defaults values))))
      ≡ (endpoint >>= (λ e. ok (with_defaults values)) >>= require_token)
token_step (err e) values = refl
token_step (ok e) values = refl

values_step :
    (values : Result UriError Values)
    → (values >>= (λ v.
        required (get_value v key_bridge) no_bridge
        >>= (λ e. required (get_value v key_token) no_token >>= (λ t. ok (with_defaults v)))))
      ≡ (values
          >>= (λ v. required (get_value v key_bridge) no_bridge >>= (λ e. ok (with_defaults v)))
          >>= require_token)
values_step (err e) = refl
values_step (ok v) = token_step (required (get_value v key_bridge) no_bridge) v

given : (text : Bytes) (e : UriError) → text ≢ [] → required text e ≡ ok text
given [] e h = absurd (h refl)
given (b ∷ text) e h = refl

-- The client reads an address exactly as the bridge does, except that it insists on a token. The
-- address that is printed for a configuration, with an endpoint and texts of bytes that stand for
-- themselves, is read back by both as that configuration, with "tls" and "secure" in the place of
-- an empty transport or mode.
pub parse_bridge_uri_lem :
    (uri : Bytes) (c : BridgeConfig)
    → AllPlain c
    → c.endpoint ≢ []
    → (parse_bridge_uri uri ≡ (bridge_parse uri >>= require_token))
      × (bridge_parse (bridge_uri c) ≡ ok (completed c))
      × (c.token ≢ [] → parse_bridge_uri (bridge_uri c) ≡ ok (completed c))
      × (c.token ≡ [] → parse_bridge_uri (bridge_uri c) ≡ err no_token)
unfolding parse_bridge_uri bridge_parse
parse_bridge_uri_lem uri c plain named =
    let printed =
      parse_bridge_uri-bridge_uri c plain ∙ rw (given c.endpoint no_bridge named) refl in
    let client = values_step (uri_values (bridge_uri c)) ∙ ap (λ m. m >>= require_token) printed in
    (
      values_step (uri_values uri),
      printed,
      (λ some_token. client ∙ rw (given c.token no_token some_token) refl),
      (λ no_text. client ∙ rw no_text refl),
    )
