-- ===== src/Broker/Message.antt =====
-- pkg/broker/driver.go: the directions and the struct Message.
use chitchat.Base.{ℕ, Str, codes, List}
use chitchat.Value.{Table}

abbrev pub Bytes : Type 0
Bytes = List ℕ

abbrev pub direction_received : Str
direction_received = codes "received"

abbrev pub direction_published : Str
direction_published = codes "published"

-- An absent text is empty.
pub record Message : Type 0 where
  pub queue : Str
  pub routing_key : Str
  pub headers : Table
  pub body : Bytes
  pub direction : Str
  pub exchange : Str
  pub rule : Str
  pub message_id : Str
