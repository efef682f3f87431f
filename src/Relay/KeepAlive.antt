-- ===== src/Relay/KeepAlive.antt =====
-- keepAlive of relay/main.go: the registration that a relay sends, at directory/main.go.
use mathlib.Core.List.{Memᴰ}
use sbnet.Base.{
  ◌≡◌, refl, sym, ap, ◌∙◌, true, Option, none, some, String, ◌==◌, string_comparable, if◌then◌else◌,
  ok, ◌⊎◌, inl, inr,
}
use sbnet.Base.Int.{ℤ, pos, ◌-ℤ◌, ltb_ℤ, Within, out_of_window_complete}
use sbnet.Base.Maps.{lookup, beq_refl}
use sbnet.Types.{RelayDescriptor, RegisterRequest, SignedConsensus, kind_relay}
use sbnet.Config.{RelayConfig}
use sbnet.Directory.{
  DirectoryServer, Mac, Publisher, hmac_message, hmac_message_of_relay, verify_hmac, is_role,
  newer_relay, handle_register, handle_consensus,
}
use sbnet.Directory.Listing.{registered_listed}
use Prim.Native.String.{◌++◌}

-- The configured secret, or the one of the environment; `none` where both are empty.
abbrev pub usable : String → Option String
usable secret = if secret == "" then none else some secret

unfoldable pub registration_secret : String → String → Option String
registration_secret configured environment =
    if configured == "" then usable environment else some configured

unfoldable pub relay_descriptor : RelayConfig → String → RelayDescriptor
relay_descriptor config pub_key_hex = record {
  id = config.id;
  ip = config.ip;
  port = config.port;
  role = config.role;
  public_key = pub_key_hex;
  country = config.country;
  region = config.region;
  oper_mode = config.oper_mode;
  bandwidth = config.bandwidth;
  version = config.version;
  last_seen = pos 0;
}

abbrev pub signed_registration : Mac → String → RelayDescriptor → ℤ → RegisterRequest
signed_registration mac secret rd now = record {
  kind = kind_relay;
  relay = some rd;
  broker = none;
  timestamp = now;
  hmac = mac secret (rd.id ++ (rd.ip ++ (rd.role ++ rd.public_key)));
}

-- The body of one POST to /register, unless there is no secret.
abbrev pub registration_with :
    Mac → RelayConfig → String → ℤ → Option String → Option RegisterRequest
registration_with mac config pub_key_hex now none = none
registration_with mac config pub_key_hex now (some secret) =
    some (signed_registration mac secret (relay_descriptor config pub_key_hex) now)

unfoldable pub relay_registration : Mac → RelayConfig → String → String → ℤ → Option RegisterRequest
relay_registration mac config environment pub_key_hex now =
    registration_with mac config pub_key_hex now (registration_secret config.reg_secret environment)

signed_passes :
    (mac : Mac) (s : DirectoryServer) (rd : RelayDescriptor) (sent now : ℤ)
    → Within 30 sent now
    → Within 30 now sent
    → verify_hmac mac s now (signed_registration mac s.reg_secret rd sent) 30 ≡ true
unfolding verify_hmac hmac_message
signed_passes mac s rd sent now late early =
    rw (out_of_window_complete 30 now sent late early, hmac_message_of_relay)
      (beq_refl (mac s.reg_secret (rd.id ++ (rd.ip ++ (rd.role ++ rd.public_key)))))

role_is_role :
    (role : String) → (role ≡ "entry") ⊎ ((role ≡ "middle") ⊎ (role ≡ "exit")) → is_role role ≡ true
role_is_role role (inl e) = rw e refl
role_is_role role (inr (inl e)) = rw e refl
role_is_role role (inr (inr e)) = rw e refl

-- A relay whose secret is the directory's, with one of the three roles, registers: if the two
-- clocks are at most 30 seconds apart, and the directory holds no entry under the relay's name as
-- new as the present second, the registration is answered 200; and a consensus that is published
-- before the maximal age has passed, with no other request in between, lists the relay with the
-- fields of its configuration and its public key, and with LastSeen set to that second.
pub keep_alive_listed :
    (mac : Mac) (p : Publisher) (s : DirectoryServer) (config : RelayConfig)
    (environment pub_key_hex : String) (sent now later : ℤ) (c : SignedConsensus)
    → registration_secret config.reg_secret environment ≡ some s.reg_secret
    → (config.role ≡ "entry") ⊎ ((config.role ≡ "middle") ⊎ (config.role ≡ "exit"))
    → Within 30 sent now
    → Within 30 now sent
    → newer_relay (lookup config.id s.relays) now ≡ true
    → ltb_ℤ (later -ℤ now) s.consensus_max_age ≡ true
    → let body = relay_registration mac config environment pub_key_hex sent in
      handle_consensus p (handle_register mac s now body).server later ≡ ok c
      → ((handle_register mac s now body).reply.status ≡ 200)
        × Memᴰ
            (record {
              id = config.id;
              ip = config.ip;
              port = config.port;
              role = config.role;
              public_key = pub_key_hex;
              country = config.country;
              region = config.region;
              oper_mode = config.oper_mode;
              bandwidth = config.bandwidth;
              version = config.version;
              last_seen = now;
            })
            c.relays
unfolding relay_registration relay_descriptor
keep_alive_listed mac p s config environment pub_key_hex sent now later c secret role late early
      newer fresh published =
    let rd = relay_descriptor config pub_key_hex in
    let same : relay_registration mac config environment pub_key_hex sent
        ≡ some (signed_registration mac s.reg_secret rd sent) =
      ap (registration_with mac config pub_key_hex sent) secret in
    let served =
      ap (λ body. handle_consensus p (handle_register mac s now body).server later) (sym same)
      ∙ published in
    let (status, listed) =
      registered_listed mac p s now later (signed_registration mac s.reg_secret rd sent) rd c
        (signed_passes mac s rd sent now late early) refl refl (role_is_role config.role role) newer
        fresh served in
    (ap (λ body. (handle_register mac s now body).reply.status) same ∙ status, listed)
