-- ===== src/Spy/Ring.antt =====
-- pkg/spy/server.go: RingBuffer. The lock makes each method one step on the state.
pub mod Log
pub mod Numbers
pub mod Cursor
use Prim.Native.Nat.{◌%◌, ◌^◌}
use chitchat.Base.{
  ℕ, ◌+◌, ◌-◌, ◌≤◌, Str, codes, is_empty, if◌then◌else◌, ltb, Bool, true, false, Option, none, some,
  List, [], ◌∷◌, ◌++◌, length, drop, last_n, select,
}
use chitchat.Base.Int.{ℤ, pos, negsuc, to_nat, gt_nat}
use chitchat.Value.{Value, str}
use chitchat.Libraries.{Libraries}
use chitchat.Broker.Message.{Message, Bytes, direction_received}
use chitchat.Spy.Message.{CapturedMessage, Filter}
use chitchat.Spy.Filter.{matches}
use chitchat.Spy.Headers.{normalize_headers}

-- `changed` is the number of the channel that is open now: notifyLocked closes it and makes the
-- next one, so the channels with a smaller number are the closed ones. `next_seq` is a uint64.
pub record RingBuffer : Type 0 where
  pub messages : List CapturedMessage
  pub max_size : ℕ
  pub next_seq : ℕ
  pub changed : ℕ

unfoldable pub new_ring_buffer : ℤ → RingBuffer
new_ring_buffer n = record {
  messages = [];
  max_size = if gt_nat n 0 then to_nat n else 1000;
  next_seq = 1;
  changed = 0;
}

unfoldable pub notify_locked : RingBuffer → RingBuffer
notify_locked rb = record rb { changed = rb.changed + 1 }

-- The channel that the method Changed returned is closed.
unfoldable pub is_closed : RingBuffer → ℕ → Bool
is_closed rb channel = ltb channel rb.changed

module _ (lib : Libraries) where
  or_text : Option Value → Bytes → Value
  or_text none b = str (lib.to_text b)
  or_text (some v) b = v

  -- decodedBody
  unfoldable pub decoded_body : Bytes → Value
  unfolding or_text
  decoded_body [] = str []
  decoded_body (c ∷ b) = or_text (lib.unmarshal (c ∷ b)) (c ∷ b)

  -- The literal `captured` of Record, at the time `now`.
  unfoldable pub capture : ℕ → ℕ → Message → CapturedMessage
  unfolding decoded_body normalize_headers
  capture seq now msg = record {
    seq = seq;
    timestamp = now;
    direction = if is_empty msg.direction then direction_received else msg.direction;
    queue = msg.queue;
    exchange = msg.exchange;
    routing_key = msg.routing_key;
    rule = msg.rule;
    message_id = msg.message_id;
    body = decoded_body msg.body;
    headers = normalize_headers lib.to_text msg.headers;
    raw = msg.body;
  }

  -- RingBuffer.Record
  unfoldable pub record_message : ℕ → Message → RingBuffer → RingBuffer
  unfolding capture notify_locked
  record_message now msg rb = notify_locked (record rb {
    messages = last_n rb.max_size (rb.messages ++ capture rb.next_seq now msg ∷ []);
    next_seq = (rb.next_seq + 1) % 2 ^ 64;
  })

  -- if f.Limit > 0 && len(result) > f.Limit { result = result[len(result)-f.Limit:] }
  unfoldable pub apply_limit : ℤ → List CapturedMessage → List CapturedMessage
  apply_limit limit result = if gt_nat limit 0 then last_n (to_nat limit) result else result

  unfoldable pub query : Filter → RingBuffer → List CapturedMessage
  unfolding apply_limit
  query f rb = apply_limit f.limit (select (matches lib f) rb.messages)

  abbrev pub no_filter : Filter
  no_filter = record {
    queue = [];
    exchange = [];
    routing_key = [];
    direction = [];
    rule = [];
    headers = [];
    body = [];
    since_seq = 0;
    limit = pos 0;
  }

  unfoldable pub get_messages : Str → Str → RingBuffer → List CapturedMessage
  unfolding query
  get_messages queue_filter routing_key_filter =
      query (record no_filter { queue = queue_filter; routing_key = routing_key_filter })

-- RingBuffer.Clear: the new state, and how many messages were removed.
unfoldable pub clear : RingBuffer → RingBuffer × ℕ
unfolding notify_locked
clear rb = (notify_locked (record rb { messages = [] }), length rb.messages)

unfoldable pub count : RingBuffer → ℕ
count rb = length rb.messages
