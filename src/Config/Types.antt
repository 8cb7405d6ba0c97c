-- ===== src/Config/Types.antt =====
-- pkg/config/config.go: the structs of the configuration. A list that YAML leaves out is empty, and
-- so are a text, a number (0), a flag (false) and a payload (null).
use chitchat.Base.{Str, codes, Bool, List}
use chitchat.Base.Int.{ℤ}
use chitchat.Value.{Value, Table}

pub record ExchangeDeclaration : Type 0 where
  pub name : Str
  pub type : Str
  pub durable : Bool
  pub auto_delete : Bool
  pub internal : Bool
  pub no_wait : Bool
  pub args : Table

pub record QueueBinding : Type 0 where
  pub exchange : Str
  pub routing_key : Str
  pub no_wait : Bool
  pub args : Table

pub record QueueDeclaration : Type 0 where
  pub name : Str
  pub durable : Bool
  pub auto_delete : Bool
  pub exclusive : Bool
  pub no_wait : Bool
  pub args : Table
  pub bindings : List QueueBinding

pub record Declarations : Type 0 where
  pub exchanges : List ExchangeDeclaration
  pub queues : List QueueDeclaration

pub record BrokerConfig : Type 0 where
  pub url : Str
  pub declarations : Declarations

pub record JsonPathRule : Type 0 where
  pub filter : Str
  pub equals : Value

pub record Trigger : Type 0 where
  pub queue : Str
  pub routing_key : Str
  pub jsonpath_rules : List JsonPathRule

pub record MockResponse : Type 0 where
  pub exchange : Str
  pub routing_key : Str
  pub delay_ms : ℤ
  pub headers : Table
  pub payload : Value

pub record Rule : Type 0 where
  pub name : Str
  pub trigger : Trigger
  pub mock_response : MockResponse

pub record SpyConfig : Type 0 where
  pub queues : List Str

pub record ServerConfig : Type 0 where
  pub host : Str
  pub port : ℤ
  pub ring_buffer_size : ℤ

pub record LogConfig : Type 0 where
  pub level : Str
  pub format : Str

pub record Config : Type 0 where
  pub broker : BrokerConfig
  pub server : ServerConfig
  pub logging : LogConfig
  pub spy : SpyConfig
  pub rules : List Rule

-- The header that marks every message which chitchat publishes (pkg/config/validate.go).
abbrev pub origin_header : Str
origin_header = codes "x-chitchat-origin"
