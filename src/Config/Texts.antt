-- ===== src/Config/Texts.antt =====
-- pkg/config/validate.go: the texts of the problems and of the warnings. `quote` is strconv.Quote.
use chitchat.Base.{ℕ, Str, codes, is_empty, ◌==◌, if◌then◌else◌, List, [], ◌∷◌, ◌++◌, length}
use chitchat.Base.Int.{ℤ}
use chitchat.Base.Decimal.{itoa, itoa_int}
use chitchat.Config.Types.{Rule, MockResponse, origin_header}

-- The pieces of a text, in order.
unfoldable pub text : List Str → Str
text [] = []
text (s ∷ ss) = s ++ text ss

problem_lines : List Str → Str
problem_lines [] = []
problem_lines (p ∷ ps) = codes "\n  - " ++ (p ++ problem_lines ps)

-- ValidationError.Error
unfoldable pub error_text : List Str → Str
unfolding itoa problem_lines text
error_text problems = text (
    codes "invalid configuration ("
    ∷ itoa (length problems)
    ∷ codes " problem"
    ∷ (if length problems == 1 then [] else codes "s")
    ∷ codes "):"
    ∷ problem_lines problems
    ∷ [])

abbrev pub exchanges_path : Str
exchanges_path = codes "broker.declarations.exchanges"

abbrev pub queues_path : Str
queues_path = codes "broker.declarations.queues"

module _ (quote : Str → Str) where
  unfoldable pub rule_label : ℕ → Rule → Str
  unfolding itoa text
  rule_label i r =
      if is_empty r.name
      then text (codes "rules[" ∷ itoa i ∷ codes "]" ∷ [])
      else text (codes "rules[" ∷ itoa i ∷ codes "] (" ∷ quote r.name ∷ codes ")" ∷ [])

  unfoldable pub describe_target : MockResponse → Str
  unfolding text
  describe_target m =
      text (
        codes "exchange "
        ∷ quote m.exchange
        ∷ codes " with routing key "
        ∷ quote m.routing_key
        ∷ [])

  unfoldable pub scheme_text : Str → Str
  unfolding text
  scheme_text scheme =
      text (codes "broker.url scheme must be amqp or amqps, got " ∷ quote scheme ∷ [])

  -- "broker.declarations.exchanges[%d]: …", and so for queues
  unfoldable pub item_text : Str → ℕ → Str → Str
  unfolding itoa text
  item_text path i rest = text (path ∷ codes "[" ∷ itoa i ∷ codes "]" ∷ rest ∷ [])

  unfoldable pub name_empty_text : Str → ℕ → Str
  unfolding item_text
  name_empty_text path i = item_text path i (codes ": name must not be empty")

  unfoldable pub duplicate_text : Str → Str → ℕ → Str → Str
  unfolding item_text text
  duplicate_text path kind i name =
      item_text path i (text (codes ": duplicate " ∷ kind ∷ codes " " ∷ quote name ∷ []))

  unfoldable pub type_text : ℕ → Str → Str → Str
  unfolding item_text text
  type_text i name type = item_text exchanges_path i (
      text (
        codes " ("
        ∷ quote name
        ∷ codes "): unknown type "
        ∷ quote type
        ∷ codes " (expected direct, topic, fanout or headers)"
        ∷ []))

  unfoldable pub binding_text : ℕ → Str → ℕ → Str
  unfolding item_text text itoa
  binding_text i name j = item_text queues_path i (
      text (
        codes " ("
        ∷ quote name
        ∷ codes ").bindings["
        ∷ itoa j
        ∷ codes "]: exchange must not be empty"
        ∷ []))

  unfoldable pub port_text : ℤ → Str
  unfolding text itoa_int
  port_text n = text (codes "server.port must be between 1 and 65535, got " ∷ itoa_int n ∷ [])

  unfoldable pub size_text : ℤ → Str
  unfolding text itoa_int
  size_text n = text (codes "server.ring_buffer_size must be at least 1, got " ∷ itoa_int n ∷ [])

  unfoldable pub level_text : Str → Str
  unfolding text
  level_text s =
      text (codes "logging.level " ∷ quote s ∷ codes " is not one of debug, info, warn, error" ∷ [])

  unfoldable pub format_text : Str → Str
  unfolding text
  format_text s = text (codes "logging.format " ∷ quote s ∷ codes " is not one of text, json" ∷ [])

  unfoldable pub spy_queue_text : ℕ → Str
  unfolding item_text
  spy_queue_text i = item_text (codes "spy.queues") i (codes ": queue name must not be empty")

  unfoldable pub duplicate_rule_text : Str → ℕ → Str
  unfolding text itoa
  duplicate_rule_text label first =
      text
        (label ∷ codes ": duplicate rule name (first used by rules[" ∷ itoa first ∷ codes "])" ∷ [])

  unfoldable pub filter_text : Str → ℕ → Str
  unfolding text itoa
  filter_text label j =
      text (
        label
        ∷ codes ": trigger.jsonpath_rules["
        ∷ itoa j
        ∷ codes "].filter must not be empty"
        ∷ [])

  unfoldable pub delay_text : Str → ℤ → Str
  unfolding text itoa_int
  delay_text label n =
      text (label ∷ codes ": mock_response.delay_ms must not be negative, got " ∷ itoa_int n ∷ [])

  unfoldable pub matches_every_text : Str → Str → Str
  unfolding text
  matches_every_text label queue = text (
      label
      ∷ codes ": no jsonpath_rules or routing_key, so it matches every message on queue "
      ∷ quote queue
      ∷ [])

  unfoldable pub undeclared_queue_text : Str → Str → Str
  unfolding text
  undeclared_queue_text label queue = text (
      label
      ∷ codes ": trigger queue "
      ∷ quote queue
      ∷ codes " is not in broker.declarations.queues (assumed to already exist)"
      ∷ [])

  unfoldable pub undeclared_exchange_text : Str → Str → Str
  unfolding text
  undeclared_exchange_text label exchange = text (
      label
      ∷ codes ": response exchange "
      ∷ quote exchange
      ∷ codes " is not in broker.declarations.exchanges (assumed to already exist)"
      ∷ [])

  unfoldable pub loop_guard_text : Str
  loop_guard_text = text (
      codes "; chitchat's loop guard (header "
      ∷ origin_header
      ∷ codes ") stops it re-triggering on its own responses"
      ∷ [])

  unfoldable pub feedback_text : Str → MockResponse → Str → Str
  unfolding text describe_target loop_guard_text
  feedback_text label m queue = text (
      label
      ∷ codes " publishes to "
      ∷ describe_target m
      ∷ codes " which is routed to trigger queue "
      ∷ quote queue
      ∷ loop_guard_text
      ∷ [])

  unfoldable pub default_feedback_text : Str → Str → Str
  unfolding text loop_guard_text
  default_feedback_text label queue = text (
      label
      ∷ codes " publishes to trigger queue "
      ∷ quote queue
      ∷ codes " via the default exchange"
      ∷ loop_guard_text
      ∷ [])
