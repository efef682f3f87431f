-- ===== src/Config.antt =====
-- common/config.go: the configurations of the programs and their ApplyDefaults. Go's int is ℤ.
pub mod Defaults
use sbnet.Base.{
  ℕ, zero, suc, Bool, true, false, List, [], ◌∷◌, String, ◌==◌, string_comparable, if◌then◌else◌,
}
use sbnet.Base.Int.{ℤ, pos, negsuc, ◌-ℤ◌, neg_ℕ}

-- `if c.X == zero { c.X = default }`
abbrev pub or_text : String → String → String
or_text given default = if given == "" then default else given

abbrev pub or_int : ℤ → ℤ → ℤ
or_int (pos zero) default = default
or_int (pos (suc n)) default = pos (suc n)
or_int (negsuc n) default = negsuc n

abbrev pub or_list : List String → List String → List String
or_list [] default = default
or_list (s ∷ ss) default = s ∷ ss

pub record DirectoryConfig (F : Type 0) : Type 0 where
  pub listen_addr : String
  pub tls_cert : String
  pub tls_key : String
  pub key_file : String
  pub reg_secret : String
  pub log_level : String
  pub register_rps : F
  pub consensus_rps : F
  pub consensus_max_age : ℤ
  pub peer_dirs : List String
  pub sync_tls_ca : String

-- The two rates are float64, of which the test for zero and the two constants are used.
unfoldable pub apply_directory_defaults :
    {F : Type 0} → (F → Bool) → (ℕ → F) → DirectoryConfig F → DirectoryConfig F
apply_directory_defaults is_zero of_nat c = record c {
  listen_addr = or_text c.listen_addr ":7000";
  key_file = or_text c.key_file "directory.key";
  log_level = or_text c.log_level "info";
  register_rps = (if is_zero c.register_rps then of_nat 5 else c.register_rps);
  consensus_rps = (if is_zero c.consensus_rps then of_nat 20 else c.consensus_rps);
  consensus_max_age = or_int c.consensus_max_age (pos 300);
}

pub record RelayConfig : Type 0 where
  pub id : String
  pub ip : String
  pub port : ℤ
  pub health_port : ℤ
  pub role : String
  pub country : String
  pub region : String
  pub oper_mode : String
  pub bandwidth : ℤ
  pub version : String
  pub dir_url : String
  pub dir_tls_ca : String
  pub reg_secret : String
  pub key_file : String
  pub internal_dns : String
  pub log_level : String
  pub circuit_idle_secs : ℤ

unfoldable pub apply_relay_defaults : RelayConfig → RelayConfig
apply_relay_defaults c =
    let port = or_int c.port (pos 9001) in
    record c {
      port = port;
      health_port = or_int c.health_port (port -ℤ neg_ℕ 1000);
      role = or_text c.role "middle";
      oper_mode = or_text c.oper_mode "normal";
      dir_url = or_text c.dir_url "https://127.0.0.1:7000";
      key_file = or_text c.key_file "relay.key";
      log_level = or_text c.log_level "info";
      circuit_idle_secs = or_int c.circuit_idle_secs (pos 300);
      version = or_text c.version "1.0.0";
      internal_dns = or_text c.internal_dns "127.0.0.1:2080";
    }

pub record BrokerConfig : Type 0 where
  pub id : String
  pub ip : String
  pub port : ℤ
  pub country : String
  pub region : String
  pub modes : List String
  pub dir_url : String
  pub dir_tls_ca : String
  pub reg_secret : String
  pub key_file : String
  pub tls_cert : String
  pub tls_key : String
  pub log_level : String
  pub stun_servers : List String

unfoldable pub apply_broker_defaults : BrokerConfig → BrokerConfig
apply_broker_defaults c = record c {
  port = or_int c.port (pos 7100);
  dir_url = or_text c.dir_url "https://127.0.0.1:7000";
  key_file = or_text c.key_file "broker.key";
  log_level = or_text c.log_level "info";
  modes = or_list c.modes ("normal" ∷ []);
  stun_servers = or_list c.stun_servers ("stun:stun.l.google.com:19302" ∷ []);
}

pub record BridgeServerConfig : Type 0 where
  pub foreign_dir_url : String
  pub foreign_dir_tls_ca : String
  pub upstream_proxy : String
  pub listen_addr : String
  pub token : String
  pub obfs : String
  pub mode : String
  pub tls_cert : String
  pub tls_key : String
  pub key_file : String
  pub log_level : String

unfoldable pub apply_bridge_defaults : BridgeServerConfig → BridgeServerConfig
apply_bridge_defaults c = record c {
  listen_addr = or_text c.listen_addr ":9000";
  obfs = or_text c.obfs "tls";
  mode = or_text c.mode "secure";
  key_file = or_text c.key_file "bridge.key";
  log_level = or_text c.log_level "info";
}

pub record ClientConfig : Type 0 where
  pub dir_url : String
  pub bridge_uri : String
  pub broker_id : String
  pub kind_broker_url : String
  pub socks5_addr : String
  pub http_proxy_addr : String
  pub circuit_count : ℤ
  pub circuit_rotate_secs : ℤ
  pub guard_file : String
  pub dir_tls_ca : String
  pub log_level : String

unfoldable pub apply_client_defaults : ClientConfig → ClientConfig
apply_client_defaults c = record c {
  dir_url = or_text c.dir_url "https://127.0.0.1:7000";
  socks5_addr = or_text c.socks5_addr "127.0.0.1:1080";
  http_proxy_addr = or_text c.http_proxy_addr "127.0.0.1:8080";
  circuit_count = or_int c.circuit_count (pos 3);
  circuit_rotate_secs = or_int c.circuit_rotate_secs (pos 600);
  guard_file = or_text c.guard_file ".sbnet_guard";
  log_level = or_text c.log_level "info";
}

pub record KindConfig : Type 0 where
  pub broker_url : String
  pub dir_url : String
  pub dir_tls_ca : String
  pub stun_servers : List String
  pub capacity : ℤ
  pub log_level : String

unfoldable pub apply_kind_defaults : KindConfig → KindConfig
apply_kind_defaults c = record c {
  broker_url = or_text c.broker_url "http://127.0.0.1:7100";
  dir_url = or_text c.dir_url "https://127.0.0.1:7000";
  stun_servers = or_list c.stun_servers ("stun:stun.l.google.com:19302" ∷ []);
  capacity = or_int c.capacity (pos 4);
  log_level = or_text c.log_level "info";
}
