-- ===== src/Types.antt =====
-- common/types.go: the descriptors and messages that the programs exchange. Go's int and int64 are
-- ℤ; a pointer that may be nil is an Option.
use sbnet.Base.{Option, List, String}
use sbnet.Base.Bytes.{Bytes}
use sbnet.Base.Int.{ℤ}

-- NodeKind, a string type: the two constants, and any other text.
abbrev pub kind_relay : String
kind_relay = "relay"

abbrev pub kind_broker : String
kind_broker = "broker"

pub record RelayDescriptor : Type 0 where
  pub id : String
  pub ip : String
  pub port : ℤ
  pub role : String
  pub public_key : String
  pub country : String
  pub region : String
  pub oper_mode : String
  pub bandwidth : ℤ
  pub version : String
  pub last_seen : ℤ

pub record BrokerDescriptor : Type 0 where
  pub id : String
  pub ip : String
  pub port : ℤ
  pub public_key : String
  pub country : String
  pub region : String
  pub modes : List String
  pub last_seen : ℤ

pub record SignedConsensus : Type 0 where
  pub relays : List RelayDescriptor
  pub brokers : List BrokerDescriptor
  pub timestamp : ℤ
  pub signature : String
  pub relays_json : String
  pub brokers_json : String

pub record RegisterRequest : Type 0 where
  pub kind : String
  pub relay : Option RelayDescriptor
  pub broker : Option BrokerDescriptor
  pub timestamp : ℤ
  pub hmac : String

pub record AssignRequest : Type 0 where
  pub role : String
  pub country : String
  pub region : String
  pub mode : String

-- The fields are the bytes of Go's strings.
pub record BridgeConfig : Type 0 where
  pub endpoint : Bytes
  pub token : Bytes
  pub obfs : Bytes
  pub mode : Bytes
