-- ===== src/Spy/Message.antt =====
-- pkg/spy/server.go: the structs CapturedMessage, Filter and BodyFilter.
use chitchat.Base.{ℕ, Str, Option, List, Dict}
use chitchat.Base.Int.{ℤ}
use chitchat.Value.{Value, Table}
use chitchat.Broker.Message.{Bytes}

-- `timestamp` counts the ticks of the clock.
pub record CapturedMessage : Type 0 where
  pub seq : ℕ
  pub timestamp : ℕ
  pub direction : Str
  pub queue : Str
  pub exchange : Str
  pub routing_key : Str
  pub rule : Str
  pub message_id : Str
  pub body : Value
  pub headers : Table
  pub raw : Bytes

-- `value` is none where the source has a nil *string.
pub record BodyFilter : Type 0 where
  pub path : Str
  pub value : Option Str

pub record Filter : Type 0 where
  pub queue : Str
  pub exchange : Str
  pub routing_key : Str
  pub direction : Str
  pub rule : Str
  pub headers : Dict (Option Str)
  pub body : List BodyFilter
  pub since_seq : ℕ
  pub limit : ℤ
