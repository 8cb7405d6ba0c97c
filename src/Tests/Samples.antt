-- ===== src/Tests/Samples.antt =====
-- Sample data: libraries that do little, messages and configurations.
use chitchat.Base.{ℕ, codes, none, some, [], ◌∷◌, true, false, ok, ◌+◌}
use chitchat.Base.Int.{pos}
use chitchat.Config.Types.{Rule, QueueDeclaration, Config}
use chitchat.Broker.Driver.{Driver}
use chitchat.Engine.State.{Engine, new_engine}
use chitchat.Engine.Lifecycle.{start}
use chitchat.Value.{str}
use chitchat.Libraries.{Libraries}
use chitchat.Broker.Message.{Message}

-- Every path finds the whole body as a text; no body is JSON.
abbrev pub plain : Libraries
plain = record {
  gjson = λ raw path. some (record { value = str raw; string = raw });
  unmarshal = λ b. none;
  to_text = λ b. b;
  format = λ v. codes "?";
  quote = λ s. s;
  parse_url = λ s. some (record { scheme = codes "amqp"; user = none; rest = s });
  url_text = λ u. u.rest;
  fold = λ c. c;
  marshal = λ v. ok (codes "{}");
  valid = λ b. true;
  to_bytes = λ s. s;
  parse_template = λ s. none;
  execute_template = λ s ctx source. (ok s, source + 1);
  parse_duration = λ s. none;
  parse_seconds = λ s. none;
  utc_now = λ source. codes "2026-01-01T00:00:00Z";
}

abbrev pub hello : Message
hello = record {
  queue = codes "orders";
  routing_key = codes "order.new";
  headers = [];
  body = codes "hello";
  direction = [];
  exchange = [];
  rule = [];
  message_id = [];
}

-- A rule that answers orders on the exchange `shop`.
abbrev pub confirm : Rule
confirm = record {
  name = codes "confirm";
  trigger = record { queue = codes "orders"; routing_key = codes "order.new"; jsonpath_rules = [] };
  mock_response = record {
    exchange = codes "shop";
    routing_key = codes "order.done";
    delay_ms = pos 0;
    headers = [];
    payload = str (codes "done");
  };
}

-- A rule that answers straight to the queue that it listens on.
abbrev pub echo : Rule
echo = record confirm {
  name = codes "echo";
  mock_response = record confirm.mock_response { exchange = []; routing_key = codes "orders" };
}

abbrev pub orders : QueueDeclaration
orders = record {
  name = codes "orders";
  durable = true;
  auto_delete = false;
  exclusive = false;
  no_wait = false;
  args = [];
  bindings =
      record { exchange = codes "shop"; routing_key = codes "order.*"; no_wait = false; args = [] }
      ∷ [];
}

abbrev pub shop : Config
shop = record {
  broker = record {
    url = codes "amqp://localhost:5672/";
    declarations = record { exchanges = []; queues = orders ∷ [] };
  };
  server = record { host = []; port = pos 8082; ring_buffer_size = pos 100 };
  logging = record { level = codes "info"; format = codes "text" };
  spy = record { queues = codes "audit" ∷ [] };
  rules = confirm ∷ echo ∷ [];
}

-- A driver whose calls all succeed and are counted.
abbrev pub steady : Driver ℕ
steady = record {
  connect = λ url n. (none, n + 1);
  declare_topology = λ ds n. (none, n + 1);
  start_consuming = λ q n. (none, n + 1);
  publish = λ ex key body hs n. (none, n + 1);
  close = λ n. (none, n + 1);
}

abbrev pub fresh : Engine ℕ
fresh = new_engine shop 0 none

abbrev pub going : Engine ℕ
going = (start steady plain.quote fresh).0
