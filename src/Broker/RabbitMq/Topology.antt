-- ===== src/Broker/RabbitMq/Topology.antt =====
-- DeclareTopology as one sequence of requests.
use chitchat.Base.{
  Str, codes, is_empty, if◌then◌else◌, Option, none, some, List, [], ◌∷◌, ◌++◌, map, ◌≡◌, refl, ◌∙◌,
}
use chitchat.Libraries.{Libraries}
use chitchat.Config.Types.{Declarations, ExchangeDeclaration, QueueDeclaration, QueueBinding}
use chitchat.Broker.RabbitMq.{
  Client, before, wrap, exchange_text, queue_text, bind_text, declare_exchanges, declare_queues,
  bind_all, declare_all,
}

-- A request to the broker.
pub data Request : Type 0 where
  exchange : ExchangeDeclaration → Request
  queue : QueueDeclaration → Request
  binding : Str → QueueBinding → Request

abbrev queue_requests : List QueueDeclaration → List Request
queue_requests [] = []
queue_requests (q ∷ qs) = queue q ∷ (map (binding q.name) q.bindings ++ queue_requests qs)

-- First the exchanges, then each queue with its bindings.
abbrev pub requests : Declarations → List Request
requests ds = map exchange ds.exchanges ++ queue_requests ds.queues

-- An exchange as the broker is asked for it: of type direct if its declaration gives none.
abbrev pub asked_for : ExchangeDeclaration → ExchangeDeclaration
asked_for ex =
    if is_empty ex.type
    then record {
      name = ex.name;
      type = codes "direct";
      durable = ex.durable;
      auto_delete = ex.auto_delete;
      internal = ex.internal;
      no_wait = ex.no_wait;
      args = ex.args;
    }
    else ex

module _ {C : Type 0} (amqp : Client C) (lib : Libraries) where
  abbrev pub send : Request → C → Option Str × C
  send (exchange ex) c = amqp.exchange_declare (asked_for ex) c
  send (queue q) c = amqp.queue_declare q c
  send (binding name b) c = amqp.queue_bind name b c

  abbrev pub failure_text : Request → Str → Str
  failure_text (exchange ex) e = exchange_text amqp lib ex.name e
  failure_text (queue q) e = queue_text amqp lib q.name e
  failure_text (binding name b) e = bind_text amqp lib name b e

  -- The requests one by one, up to the first that fails.
  abbrev pub send_all : List Request → C → Option Str × C
  send_all [] c = (none, c)
  send_all (q ∷ qs) c = before (wrap (failure_text q) (send q c)) (send_all qs)

  before_assoc :
      (r : Option Str × C) (k l : C → Option Str × C)
      → before (before r k) l ≡ before r (λ c. before (k c) l)
  before_assoc (none, c) k l = refl
  before_assoc (some e, c) k l = refl

  before_cong :
      (r : Option Str × C) (k l : C → Option Str × C)
      → ((c : C) → k c ≡ l c)
      → before r k ≡ before r l
  before_cong (none, c) k l h = h c
  before_cong (some e, c) k l h = refl

  exchanges_first :
      (exs : List ExchangeDeclaration) (qs : List Request) (c : C)
      → before (declare_exchanges amqp lib exs c) (send_all qs)
        ≡ send_all (map exchange exs ++ qs) c
  unfolding declare_exchanges
  exchanges_first [] qs c = refl
  exchanges_first (ex ∷ exs) qs c =
      before_assoc _ (declare_exchanges amqp lib exs) (send_all qs)
      ∙ before_cong _ _ _ (exchanges_first exs qs)

  bindings_then :
      (name : Str) (bs : List QueueBinding) (qs : List Request) (c : C)
      → before (bind_all amqp lib name bs c) (send_all qs)
        ≡ send_all (map (binding name) bs ++ qs) c
  unfolding bind_all
  bindings_then name [] qs c = refl
  bindings_then name (b ∷ bs) qs c =
      before_assoc _ (bind_all amqp lib name bs) (send_all qs)
      ∙ before_cong _ _ _ (bindings_then name bs qs)

  queues_sent :
      (qs : List QueueDeclaration) (c : C)
      → declare_queues amqp lib qs c ≡ send_all (queue_requests qs) c
  unfolding declare_queues
  queues_sent [] c = refl
  queues_sent (q ∷ qs) c = before_cong _ _ _ (λ c'.
      before_cong (bind_all amqp lib q.name q.bindings c') _ _ (queues_sent qs)
      ∙ bindings_then q.name q.bindings (queue_requests qs) c')

  -- The nested loops of DeclareTopology send one sequence of requests, up to the first that fails:
  -- every exchange, in which an empty type is made direct, then each queue with its bindings after it.
  pub declare_all_lem :
      (ds : Declarations) (c : C) → declare_all amqp lib ds c ≡ send_all (requests ds) c
  unfolding declare_all
  declare_all_lem ds c =
      before_cong (declare_exchanges amqp lib ds.exchanges c) _ _ (queues_sent ds.queues)
      ∙ exchanges_first ds.exchanges (queue_requests ds.queues) c
