-- ===== src/Tests/Broker.antt =====
-- The driver for RabbitMQ.
use chitchat.Base.{ℕ, ◌+◌, codes, some, none, true, false, List, [], ◌∷◌, ◌≡◌, refl}
use chitchat.Libraries.{Libraries}
use chitchat.Broker.RabbitMq.{
  Client, RabbitMqDriver, new_rabbit_mq_driver, sanitize_url, declare_all, not_connected_text,
  rabbit_close, rabbit_declare_topology, rabbit_start_consuming, rabbit_publish,
}
use chitchat.Broker.RabbitMq.Secret.{password_is_hidden}
use chitchat.Broker.RabbitMq.Topology.{requests, send_all, declare_all_lem}
use chitchat.Broker.RabbitMq.Closed.{closed_driver_refuses}
use chitchat.Broker.RabbitMq.Consumer.{
  Delivery, delivered, Event, arrive, cancel, see_cancel, see_delivery, hand_over, receive,
  returned, consumer_step, consumer_run, new_consumer,
}
use chitchat.Broker.RabbitMq.Consumer.Order.{InOrder, consumer_run-InOrder}
use chitchat.Tests.Samples.{plain, shop}

-- A client that counts its calls, all of which succeed.
abbrev counting : Client ℕ
counting = record {
  is_closed = λ n. false;
  dial = λ url n. (none, n + 1);
  open_channel = λ n. (none, n + 1);
  exchange_declare = λ ex n. (none, n + 1);
  queue_declare = λ q n. (none, n + 1);
  queue_bind = λ name b n. (none, n + 1);
  consume = λ queue n. (none, n + 1);
  publish = λ ex key body hs n. (none, n + 1);
  close_channel = λ n. (none, n + 1);
  close_connection = λ n. (none, n + 1);
}

-- Libraries that find the user `guest` in every URL, with the text itself for a password.
abbrev guests : Libraries
guests = record plain {
  parse_url = λ s.
      some (record {
        scheme = codes "amqp";
        user = some (codes "guest", some s);
        rest = codes "@host";
      });
}

password_is_hidden_example : sanitize_url guests (codes "one") ≡ sanitize_url guests (codes "two")
password_is_hidden_example =
    password_is_hidden guests (codes "one") (codes "two") (codes "amqp") (codes "guest")
      (codes "@host") (some (codes "one")) (some (codes "two")) refl refl

declare_all_lem_example :
    declare_all counting plain shop.broker.declarations 0
    ≡ send_all counting plain (requests shop.broker.declarations) 0
declare_all_lem_example = declare_all_lem counting plain shop.broker.declarations 0

abbrev connected : RabbitMqDriver ℕ
connected = record (new_rabbit_mq_driver 0) { conn = true; channel = true }

closed_driver_refuses_example :
    let r' = (rabbit_close counting plain connected).1 in
    (rabbit_declare_topology counting plain shop.broker.declarations r'
      ≡ (some not_connected_text, r'))
    × (rabbit_start_consuming counting plain (codes "orders") r' ≡ (some not_connected_text, r'))
    × (rabbit_publish counting plain (codes "shop") (codes "k") [] [] r'
        ≡ (some not_connected_text, r'))
    × (rabbit_close counting plain r' ≡ (none, r'))
closed_driver_refuses_example =
    closed_driver_refuses counting plain connected (codes "orders") (codes "shop") (codes "k") [] []
      shop.broker.declarations

abbrev first_order : Delivery
first_order = record { routing_key = codes "new"; headers = []; body = []; message_id = codes "1" }

abbrev second_order : Delivery
second_order = record { routing_key = codes "new"; headers = []; body = []; message_id = codes "2" }

-- The first order is sent, the second one is received when the driver is closed.
abbrev closed_meanwhile : List Event
closed_meanwhile =
    arrive first_order
    ∷ see_delivery
    ∷ arrive second_order
    ∷ hand_over
    ∷ see_delivery
    ∷ cancel
    ∷ see_cancel
    ∷ []

closed_meanwhile_run :
    let (c, p) = consumer_run (codes "orders") closed_meanwhile new_consumer in
    (c.sent ≡ delivered (codes "orders") first_order ∷ [])
    × (p ≡ returned (some (delivered (codes "orders") second_order)))
unfolding consumer_run consumer_step receive new_consumer delivered
closed_meanwhile_run = (refl, refl)

consumer_run-InOrder_example :
    InOrder (codes "orders") (consumer_run (codes "orders") closed_meanwhile new_consumer)
consumer_run-InOrder_example = consumer_run-InOrder (codes "orders") closed_meanwhile
