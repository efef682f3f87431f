-- ===== src/Broker/KeepAlive.antt =====
-- keepAlive of broker/main.go: the registration that a broker sends, at directory/main.go.
use sbnet.Base.{◌≡◌, refl, true, Option, none, some, String, string_comparable}
use sbnet.Base.Int.{ℤ, pos, Within, out_of_window_complete}
use sbnet.Base.Maps.{lookup, lookup-insert_self, beq_refl}
use sbnet.Types.{BrokerDescriptor, RegisterRequest, kind_broker}
use sbnet.Config.{BrokerConfig}
use sbnet.Directory.{
  DirectoryServer, Mac, hmac_message, hmac_message_of_broker, verify_hmac, newer_broker,
  store_registration, store_broker, handle_register,
}
use sbnet.Relay.KeepAlive.{registration_secret}
use Prim.Native.String.{◌++◌}

unfoldable pub broker_descriptor : BrokerConfig → String → BrokerDescriptor
broker_descriptor config pub_key_hex = record {
  id = config.id;
  ip = config.ip;
  port = config.port;
  public_key = pub_key_hex;
  country = config.country;
  region = config.region;
  modes = config.modes;
  last_seen = pos 0;
}

abbrev pub signed_broker : Mac → String → BrokerDescriptor → ℤ → RegisterRequest
signed_broker mac secret bd now = record {
  kind = kind_broker;
  relay = none;
  broker = some bd;
  timestamp = now;
  hmac = mac secret (bd.id ++ (bd.ip ++ bd.public_key));
}

abbrev pub broker_with : Mac → BrokerConfig → String → ℤ → Option String → Option RegisterRequest
broker_with mac config pub_key_hex now none = none
broker_with mac config pub_key_hex now (some secret) =
    some (signed_broker mac secret (broker_descriptor config pub_key_hex) now)

unfoldable pub broker_registration :
    Mac → BrokerConfig → String → String → ℤ → Option RegisterRequest
broker_registration mac config environment pub_key_hex now =
    broker_with mac config pub_key_hex now (registration_secret config.reg_secret environment)

signed_passes :
    (mac : Mac) (s : DirectoryServer) (bd : BrokerDescriptor) (sent now : ℤ)
    → Within 30 sent now
    → Within 30 now sent
    → verify_hmac mac s now (signed_broker mac s.reg_secret bd sent) 30 ≡ true
unfolding verify_hmac hmac_message
signed_passes mac s bd sent now late early =
    rw (out_of_window_complete 30 now sent late early, hmac_message_of_broker)
      (beq_refl (mac s.reg_secret (bd.id ++ (bd.ip ++ bd.public_key))))

stored :
    (mac : Mac) (s : DirectoryServer) (bd : BrokerDescriptor) (sent now : ℤ)
    → Within 30 sent now
    → Within 30 now sent
    → newer_broker (lookup bd.id s.brokers) now ≡ true
    → let handled = handle_register mac s now (some (signed_broker mac s.reg_secret bd sent)) in
      (handled.reply.status ≡ 200)
      × (lookup bd.id handled.server.brokers ≡ some (record bd { last_seen = now }))
unfolding handle_register store_registration store_broker
stored mac s bd sent now late early newer =
    let passes = signed_passes mac s bd sent now late early in
    (
      rw passes refl,
      rw (passes, newer) (lookup-insert_self bd.id (record bd { last_seen = now }) s.brokers),
    )

-- A broker whose secret is the directory's registers: if the two clocks are at most 30 seconds
-- apart, and the directory holds no broker under its name as new as the present second, the
-- registration is answered 200, and the directory then holds the broker with the name, address,
-- port, country, region and modes of its configuration and its public key, and with LastSeen set to
-- that second.
pub keep_alive_stored :
    (mac : Mac) (s : DirectoryServer) (config : BrokerConfig) (environment pub_key_hex : String)
    (sent now : ℤ)
    → registration_secret config.reg_secret environment ≡ some s.reg_secret
    → Within 30 sent now
    → Within 30 now sent
    → newer_broker (lookup config.id s.brokers) now ≡ true
    → let handled =
        handle_register mac s now (broker_registration mac config environment pub_key_hex sent) in
      (handled.reply.status ≡ 200)
      × (lookup config.id handled.server.brokers
          ≡ some (record {
            id = config.id;
            ip = config.ip;
            port = config.port;
            public_key = pub_key_hex;
            country = config.country;
            region = config.region;
            modes = config.modes;
            last_seen = now;
          }))
unfolding broker_registration broker_descriptor
keep_alive_stored mac s config environment pub_key_hex sent now secret late early newer =
    rw secret (stored mac s (broker_descriptor config pub_key_hex) sent now late early newer)
