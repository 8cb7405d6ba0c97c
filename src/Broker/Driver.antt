-- ===== src/Broker/Driver.antt =====
-- pkg/broker/driver.go: the interface Driver. A driver is the set of its operations on its state
-- `D`; an operation returns its error, if there is one, and the new state.
use chitchat.Base.{Str, Option}
use chitchat.Value.{Table}
use chitchat.Config.Types.{Declarations}
use chitchat.Broker.Message.{Bytes}

pub record Driver (D : Type 0) : Type 0 where
  pub connect : Str → D → Option Str × D
  pub declare_topology : Declarations → D → Option Str × D
  pub start_consuming : Str → D → Option Str × D
  pub publish : Str → Str → Bytes → Table → D → Option Str × D
  pub close : D → Option Str × D
