-- ===== src/Broker/RabbitMq/Consumer.antt =====
-- pkg/broker/rabbitmq.go: the goroutine of StartConsuming. Each case of its two selects is one step,
-- and so is what the broker and Close do meanwhile; a case that is not ready changes nothing.
pub mod Order
use chitchat.Base.{Str, if◌then◌else◌, Bool, true, false, Option, none, some, List, [], ◌∷◌, ◌++◌}
use chitchat.Value.{Table}
use chitchat.Broker.Message.{Message, Bytes, direction_received}

-- The fields of amqp.Delivery that the goroutine reads.
pub record Delivery : Type 0 where
  pub routing_key : Str
  pub headers : Table
  pub body : Bytes
  pub message_id : Str

unfoldable pub delivered : Str → Delivery → Message
delivered queue d = record {
  queue = queue;
  routing_key = d.routing_key;
  headers = d.headers;
  body = d.body;
  direction = direction_received;
  exchange = [];
  rule = [];
  message_id = d.message_id;
}

-- What the goroutine shares with the others: all that the broker delivered so far, the part of it
-- that is still in the channel `deliveries`, whether that is closed, whether the context is done, and
-- what was sent to messageChan. The lists have the oldest first.
pub record Consumer : Type 0 where
  pub arrived : List Delivery
  pub pending : List Delivery
  pub deliveries_closed : Bool
  pub cancelled : Bool
  pub sent : List Message

-- Where the goroutine stands: at the outer select, at the inner one with its message, or returned,
-- with the message that it did not send if there is one.
pub data Phase : Type 0 where
  waiting : Phase
  holding : Message → Phase
  returned : Option Message → Phase

pub data Event : Type 0 where
  arrive : Delivery → Event
  close_deliveries : Event
  cancel : Event
  see_cancel : Event
  see_delivery : Event
  hand_over : Event

abbrev pub leave : Phase → Phase
leave waiting = returned none
leave (holding m) = returned (some m)
leave (returned o) = returned o

-- A receive from `deliveries`, which is empty for now, is closed, or has a delivery.
unfoldable pub receive : Str → List Delivery → Consumer → Consumer × Phase
receive queue [] c =
    (record c { pending = [] }, if c.deliveries_closed then returned none else waiting)
receive queue (d ∷ ds) c = (record c { pending = ds }, holding (delivered queue d))

abbrev pub see : Str → Consumer → Phase → Consumer × Phase
see queue c waiting = receive queue c.pending c
see queue c (holding m) = (c, holding m)
see queue c (returned o) = (c, returned o)

abbrev pub send : Consumer → Phase → Consumer × Phase
send c waiting = (c, waiting)
send c (holding m) = (record c { sent = c.sent ++ (m ∷ []) }, waiting)
send c (returned o) = (c, returned o)

abbrev pub push : Delivery → Consumer → Consumer
push d c = record c { arrived = c.arrived ++ (d ∷ []); pending = c.pending ++ (d ∷ []) }

unfoldable pub consumer_step : Str → Event → Consumer × Phase → Consumer × Phase
consumer_step queue (arrive d) (c, p) = (if c.deliveries_closed then c else push d c, p)
consumer_step queue close_deliveries (c, p) = (record c { deliveries_closed = true }, p)
consumer_step queue cancel (c, p) = (record c { cancelled = true }, p)
consumer_step queue see_cancel (c, p) = (c, if c.cancelled then leave p else p)
consumer_step queue see_delivery (c, p) = see queue c p
consumer_step queue hand_over (c, p) = send c p

unfoldable pub consumer_run : Str → List Event → Consumer × Phase → Consumer × Phase
consumer_run queue [] s = s
consumer_run queue (e ∷ es) s = consumer_run queue es (consumer_step queue e s)

unfoldable pub new_consumer : Consumer × Phase
new_consumer = (
  record { arrived = []; pending = []; deliveries_closed = false; cancelled = false; sent = [] },
  waiting,
)
