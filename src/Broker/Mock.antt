-- ===== src/Broker/Mock.antt =====
-- pkg/broker/mock_driver.go: MockDriver. The lock makes each method one step on the state.
use chitchat.Base.{
  Str, codes, elem, if◌then◌else◌, Bool, true, false, ◌&&◌, Option, none, some, List, [], ◌∷◌, ◌++◌,
  Result, ok, err,
}
use chitchat.Value.{Table}
use chitchat.Config.Types.{Declarations}
use chitchat.Broker.Message.{Message, Bytes}
use chitchat.Broker.Driver.{Driver}

pub record PublishedMessage : Type 0 where
  pub exchange : Str
  pub routing_key : Str
  pub body : Bytes
  pub headers : Table

-- `consumers` is the set of the keys of the map: the engine gives every queue the same channel.
-- `done` tells whether the channel of that name is closed.
pub record MockDriver : Type 0 where
  pub connected : Bool
  pub url : Str
  pub topology : Option Declarations
  pub consumers : List Str
  pub published : List PublishedMessage
  pub closed : Bool
  pub done : Bool

unfoldable pub new_mock_driver : MockDriver
new_mock_driver = record {
  connected = false;
  url = [];
  topology = none;
  consumers = [];
  published = [];
  closed = false;
  done = false;
}

unfoldable pub mock_connect : Str → MockDriver → Option Str × MockDriver
mock_connect raw_url m = (none, record m { connected = true; url = raw_url })

unfoldable pub mock_declare_topology : Declarations → MockDriver → Option Str × MockDriver
mock_declare_topology declarations m = (none, record m { topology = some declarations })

unfoldable pub mock_start_consuming : Str → MockDriver → Option Str × MockDriver
mock_start_consuming queue m = (
  none,
  record m { consumers = if elem queue m.consumers then m.consumers else queue ∷ m.consumers },
)

-- The field PublishHook, if it is set; its result is its error.
abbrev pub PublishHook : Type 0
PublishHook = Option (Str → Str → Bytes → Table → Option Str)

unfoldable pub hook_error : PublishHook → Str → Str → Bytes → Table → Option Str
hook_error none exchange routing_key body headers = none
hook_error (some hook) exchange routing_key body headers = hook exchange routing_key body headers

unfoldable pub mock_publish :
    PublishHook → Str → Str → Bytes → Table → MockDriver → Option Str × MockDriver
unfolding hook_error
mock_publish hook exchange routing_key body headers m =
    elim (hook_error hook exchange routing_key body headers) [
      | none ↦ (
        none,
        record m {
          published =
              m.published
              ++ record {
                exchange = exchange;
                routing_key = routing_key;
                body = body;
                headers = headers;
              }
                ∷ [];
        },
      )
      | some e ↦ (some e, m)
    ]

-- Close; a second close of the channel `done` would panic.
unfoldable pub mock_close : MockDriver → Option Str × MockDriver
mock_close m = (none, if m.closed then m else record m { closed = true; done = true })

unfoldable pub mock_driver : PublishHook → Driver MockDriver
unfolding mock_connect mock_declare_topology mock_start_consuming mock_publish mock_close
mock_driver hook = record {
  connect = mock_connect;
  declare_topology = mock_declare_topology;
  start_consuming = mock_start_consuming;
  publish = mock_publish hook;
  close = mock_close;
}

unfoldable pub incoming : Str → Str → Bytes → Table → Message
incoming queue routing_key body headers = record {
  queue = queue;
  routing_key = routing_key;
  headers = headers;
  body = body;
  direction = [];
  exchange = [];
  rule = [];
  message_id = [];
}

-- SimulateIncomingMessage: the message that goes into the channel, or the error; none while the
-- call blocks. `room` tells that the channel takes the message, and `first` that the select prefers
-- that case where both can go on.
unfoldable pub simulate_incoming_message :
    (quote : Str → Str)
    → (room first : Bool) → Str
    → Str
    → Bytes
    → Table
    → MockDriver
    → Option (Result Str Message)
unfolding incoming
simulate_incoming_message quote room first queue routing_key body headers m =
    if elem queue m.consumers
    then if room && (if m.done then first else true)
      then some (ok (incoming queue routing_key body headers))
      else if m.done
      then some (err (codes "mock driver is closed"))
      else none
    else some (err (codes "no consumer registered for queue " ++ quote queue))

unfoldable pub get_published : MockDriver → List PublishedMessage
get_published m = m.published
