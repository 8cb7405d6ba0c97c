-- ===== src/Broker/RabbitMq.antt =====
-- pkg/broker/rabbitmq.go: RabbitMQDriver over the AMQP client. The locks make each method one step.
pub mod Topology
pub mod Secret
pub mod Closed
pub mod Consumer
use chitchat.Base.{
  Str, codes, is_empty, if◌then◌else◌, Bool, true, false, not, ◌&&◌, ◌||◌, Option, none, some, List,
  [], ◌∷◌, ◌++◌,
}
use chitchat.Value.{Table}
use chitchat.Libraries.{Libraries, Url}
use chitchat.Config.Types.{Declarations, ExchangeDeclaration, QueueDeclaration, QueueBinding}
use chitchat.Broker.Message.{Bytes}
use chitchat.Broker.Driver.{Driver}

-- github.com/rabbitmq/amqp091-go, as operations on the state `C` of the connection, the channel and
-- the broker behind them; an operation returns its error, if there is one.
pub record Client (C : Type 0) : Type 0 where
  pub is_closed : C → Bool
  pub dial : Str → C → Option Str × C
  pub open_channel : C → Option Str × C
  pub exchange_declare : ExchangeDeclaration → C → Option Str × C
  pub queue_declare : QueueDeclaration → C → Option Str × C
  pub queue_bind : Str → QueueBinding → C → Option Str × C
  pub consume : Str → C → Option Str × C
  pub publish : Str → Str → Bytes → Table → C → Option Str × C
  pub close_channel : C → Option Str × C
  pub close_connection : C → Option Str × C

-- `conn` and `channel` tell whether the pointers of these names are set, `cancelled` whether the
-- context is done, and `consumers` is the queues for which a consumer goroutine was started.
pub record RabbitMqDriver (C : Type 0) : Type 0 where
  pub client : C
  pub conn : Bool
  pub channel : Bool
  pub closed : Bool
  pub cancelled : Bool
  pub consumers : List Str

unfoldable pub new_rabbit_mq_driver : {C : Type 0} → C → RabbitMqDriver C
new_rabbit_mq_driver c = record {
  client = c;
  conn = false;
  channel = false;
  closed = false;
  cancelled = false;
  consumers = [];
}

abbrev pub mask : Option (Str × Option Str) → Option (Str × Option Str)
mask none = none
mask (some (name, password)) = some (name, some (codes "xxxxx"))

sanitized : Libraries → Option Url → Str
sanitized lib none = codes "[invalid url]"
sanitized lib (some u) = lib.url_text (record u { user = mask u.user })

unfoldable pub sanitize_url : Libraries → Str → Str
unfolding sanitized
sanitize_url lib raw_url = sanitized lib (lib.parse_url raw_url)

unfoldable pub not_connected_text : Str
not_connected_text = codes "rabbitmq driver is not connected"

-- What follows a call: nothing if it failed.
abbrev pub before : {C : Type 0} → Option Str × C → (C → Option Str × C) → Option Str × C
before (none, c) next = next c
before (some e, c) next = (some e, c)

-- fmt.Errorf around the error of a call
abbrev pub wrap : {C : Type 0} → (Str → Str) → Option Str × C → Option Str × C
wrap text (none, c) = (none, c)
wrap text (some e, c) = (some (text e), c)

module _ {C : Type 0} (amqp : Client C) (lib : Libraries) where
  unfoldable pub rabbit_connect : Str → RabbitMqDriver C → Option Str × RabbitMqDriver C
  unfolding sanitize_url
  rabbit_connect url r =
      let (dial_error, c) = amqp.dial url r.client in
      let (channel_error, c') = amqp.open_channel c in
      if r.conn && not (amqp.is_closed r.client) then (none, r) else elim dial_error [
        | some e ↦ (
          some (codes "failed to dial rabbitmq at " ++ (sanitize_url lib url ++ (codes ": " ++ e))),
          record r { client = c },
        )
        | none ↦ elim channel_error [
          | some e ↦ (
            some (codes "failed to open rabbitmq channel: " ++ e),
            record r { client = (amqp.close_connection c').1 },
          )
          | none ↦ (none, record r { client = c'; conn = true; channel = true; closed = false })
        ]
      ]

  abbrev pub exchange_text : Str → Str → Str
  exchange_text name e =
      codes "failed to declare exchange " ++ (lib.quote name ++ (codes ": " ++ e))

  abbrev pub queue_text : Str → Str → Str
  queue_text name e = codes "failed to declare queue " ++ (lib.quote name ++ (codes ": " ++ e))

  abbrev pub bind_text : Str → QueueBinding → Str → Str
  bind_text name b e =
      codes "failed to bind queue "
      ++ (lib.quote name
          ++ (codes " to exchange "
              ++ (lib.quote b.exchange
                  ++ (codes " with routing key "
                      ++ (lib.quote b.routing_key ++ (codes ": " ++ e))))))

  -- An undeclared type is direct.
  abbrev pub typed : ExchangeDeclaration → ExchangeDeclaration
  typed ex = if is_empty ex.type then record ex { type = codes "direct" } else ex

  unfoldable pub declare_exchanges : List ExchangeDeclaration → C → Option Str × C
  declare_exchanges [] c = (none, c)
  declare_exchanges (ex ∷ exs) c =
      before (wrap (exchange_text ex.name) (amqp.exchange_declare (typed ex) c))
        (declare_exchanges exs)

  unfoldable pub bind_all : Str → List QueueBinding → C → Option Str × C
  bind_all name [] c = (none, c)
  bind_all name (b ∷ bs) c =
      before (wrap (bind_text name b) (amqp.queue_bind name b c)) (bind_all name bs)

  unfoldable pub declare_queues : List QueueDeclaration → C → Option Str × C
  unfolding bind_all
  declare_queues [] c = (none, c)
  declare_queues (q ∷ qs) c =
      before (wrap (queue_text q.name) (amqp.queue_declare q c))
        (λ c'. before (bind_all q.name q.bindings c') (declare_queues qs))

  unfoldable pub declare_all : Declarations → C → Option Str × C
  unfolding declare_exchanges declare_queues
  declare_all ds c = before (declare_exchanges ds.exchanges c) (declare_queues ds.queues)

  abbrev pub usable : RabbitMqDriver C → Bool
  usable r = r.channel && not r.closed

  unfoldable pub rabbit_declare_topology :
      Declarations → RabbitMqDriver C → Option Str × RabbitMqDriver C
  unfolding declare_all
  rabbit_declare_topology ds r =
      let (e, c) = declare_all ds r.client in
      if usable r then (e, record r { client = c }) else (some not_connected_text, r)

  unfoldable pub rabbit_start_consuming : Str → RabbitMqDriver C → Option Str × RabbitMqDriver C
  rabbit_start_consuming queue r =
      let (e, c) = amqp.consume queue r.client in
      if usable r
      then elim e [
        | none ↦ (none, record r { client = c; consumers = queue ∷ r.consumers })
        | some x ↦ (
          some (
              codes "failed to register consumer for queue "
              ++ (lib.quote queue ++ (codes ": " ++ x))),
          record r { client = c },
        )
      ]
      else (some not_connected_text, r)

  unfoldable pub rabbit_publish :
      Str → Str → Bytes → Table → RabbitMqDriver C → Option Str × RabbitMqDriver C
  rabbit_publish exchange routing_key body headers r =
      let (e, c) = amqp.publish exchange routing_key body headers r.client in
      if usable r
      then elim e [
        | none ↦ (none, record r { client = c })
        | some x ↦ (
          some (
              codes "failed to publish message to exchange "
              ++ (lib.quote exchange
                  ++ (codes " routing_key " ++ (lib.quote routing_key ++ (codes ": " ++ x))))),
          record r { client = c },
        )
      ]
      else (some not_connected_text, r)

  -- firstErr
  abbrev first_error : Option Str → Option Str → Option Str
  first_error none e = e
  first_error (some x) e = some x

  close_if : Bool → (C → Option Str × C) → C → Option Str × C
  close_if true f c = f c
  close_if false f c = (none, c)

  -- Close; it waits for the consumer goroutines, which end since the context is done.
  unfoldable pub rabbit_close : RabbitMqDriver C → Option Str × RabbitMqDriver C
  unfolding close_if
  rabbit_close r =
      let (e, c) = close_if r.channel amqp.close_channel r.client in
      let (e', c') = close_if r.conn amqp.close_connection c in
      if r.closed then (none, r) else (
        first_error e e',
        record r { client = c'; closed = true; cancelled = true; consumers = [] },
      )

  unfoldable pub rabbit_mq_driver : Driver (RabbitMqDriver C)
  unfolding rabbit_connect rabbit_declare_topology rabbit_start_consuming rabbit_publish
      rabbit_close
  rabbit_mq_driver = record {
    connect = rabbit_connect;
    declare_topology = rabbit_declare_topology;
    start_consuming = rabbit_start_consuming;
    publish = rabbit_publish;
    close = rabbit_close;
  }
