-- ===== src/Engine/State.antt =====
-- pkg/engine/engine.go: the state of the engine.
use Prim.Native.Nat.{◌%◌, ◌^◌}
use chitchat.Base.{ℕ, ◌+◌, Str, Bool, false, Option, List, [], map}
use chitchat.Base.Int.{ℤ}
use chitchat.Config.Types.{Config, Rule}
use chitchat.Broker.Message.{Message, Bytes}
use chitchat.Spy.Ring.{RingBuffer}

-- `matches` is an int64, kept as its 64 bits.
pub record RuleState : Type 0 where
  pub rule : Rule
  pub matches : ℕ

unfoldable pub inc_matches : RuleState → RuleState
inc_matches rs = record rs { matches = (rs.matches + 1) % 2 ^ 64 }

unfoldable pub new_rule_states : List Rule → List RuleState
new_rule_states rules = map (λ r. record { rule = r; matches = 0 }) rules

-- A dispatch goroutine that handleMessage has started: the rule and the rendered payload.
pub record Job : Type 0 where
  pub rule : Rule
  pub payload : Bytes

-- `spy` is the recorder, if there is one; `messages` the channel msgChan; `cancelled` tells whether
-- the context is done; `loops` counts the processLoop goroutines that were started.
pub record Engine (D : Type 0) : Type 0 where
  pub cfg : Config
  pub driver : D
  pub spy : Option RingBuffer
  pub messages : List Message
  pub cancelled : Bool
  pub loops : ℕ
  pub running : Bool
  pub stopped : Bool
  pub subscribed : List Str
  pub rules : List RuleState
  pub jobs : List Job

unfoldable pub new_engine : {D : Type 0} → Config → D → Option RingBuffer → Engine D
unfolding new_rule_states
new_engine cfg driver spy = record {
  cfg = cfg;
  driver = driver;
  spy = spy;
  messages = [];
  cancelled = false;
  loops = 0;
  running = false;
  stopped = false;
  subscribed = [];
  rules = new_rule_states cfg.rules;
  jobs = [];
}

pub record RuleStat : Type 0 where
  pub name : Str
  pub queue : Str
  pub routing_key : Str
  pub response_exchange : Str
  pub response_routing_key : Str
  pub delay_ms : ℤ
  pub matches : ℕ

unfoldable pub rule_stat : RuleState → RuleStat
rule_stat rs = record {
  name = rs.rule.name;
  queue = rs.rule.trigger.queue;
  routing_key = rs.rule.trigger.routing_key;
  response_exchange = rs.rule.mock_response.exchange;
  response_routing_key = rs.rule.mock_response.routing_key;
  delay_ms = rs.rule.mock_response.delay_ms;
  matches = rs.matches;
}

unfoldable pub rule_stats : {D : Type 0} → Engine D → List RuleStat
unfolding rule_stat
rule_stats e = map rule_stat e.rules
