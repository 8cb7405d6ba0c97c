-- ===== src/Config/Warnings.antt =====
-- pkg/config/validate.go: Warnings.
pub mod Feedback
use chitchat.Base.{
  ℕ, ◌+◌, Str, codes, is_empty, elem, has_prefix, map, if◌then◌else◌, Bool, true, false, not, ◌&&◌,
  List, [], ◌∷◌, ◌++◌, report,
}
use chitchat.Libraries.{Libraries}
use chitchat.Config.Types.{
  Config, Declarations, QueueDeclaration, ExchangeDeclaration, Rule, Trigger, MockResponse,
}
use chitchat.Config.Texts.{
  rule_label, matches_every_text, undeclared_queue_text, undeclared_exchange_text, feedback_text,
  default_feedback_text,
}
use chitchat.Config.Routing.{response_reaches_queue}
use chitchat.Config.Dedupe.{dedupe}

unfoldable pub no_rules_text : Str
no_rules_text = codes "no rules or spy.queues configured: chitchat will not consume from any queue"

-- len(list) == 0
abbrev pub no_items : {A : Type 0} → List A → Bool
no_items [] = true
no_items (x ∷ xs) = false

abbrev pub queue_names : Config → List Str
queue_names c = map (λ q. q.name) c.broker.declarations.queues

abbrev pub exchange_names : Config → List Str
exchange_names c = map (λ ex. ex.name) c.broker.declarations.exchanges

-- The set triggerQueues, which the first loop fills.
abbrev pub trigger_queues : Config → List Str
trigger_queues c = map (λ r. r.trigger.queue) c.rules

-- declared is a non-empty set of names that lacks a given name
abbrev lacks : List Str → Str → Bool
lacks declared name = not (no_items declared) && (not (is_empty name) && not (elem name declared))

module _ (lib : Libraries) where
  -- One round of the first loop over the rules.
  unfoldable pub rule_warnings : Config → Str → Rule → List Str
  rule_warnings c label r =
      report (no_items r.trigger.jsonpath_rules && is_empty r.trigger.routing_key)
        (matches_every_text lib.quote label r.trigger.queue)
      ++ (report (lacks (queue_names c) r.trigger.queue)
            (undeclared_queue_text lib.quote label r.trigger.queue)
          ++ report
              (lacks (exchange_names c) r.mock_response.exchange
                && not (has_prefix r.mock_response.exchange (codes "amq.")))
              (undeclared_exchange_text lib.quote label r.mock_response.exchange))

  unfoldable pub all_rule_warnings : Config → ℕ → List Rule → List Str
  unfolding rule_warnings
  all_rule_warnings c i [] = []
  all_rule_warnings c i (r ∷ rs) =
      rule_warnings c (rule_label lib.quote i r) r ++ all_rule_warnings c (i + 1) rs

  -- The loop over the declared queues inside the second loop.
  unfoldable pub queue_feedback : Config → Str → MockResponse → List QueueDeclaration → List Str
  queue_feedback c label m [] = []
  queue_feedback c label m (q ∷ qs) =
      report
        (elem q.name (trigger_queues c)
          && response_reaches_queue c.broker.declarations.exchanges m q)
        (feedback_text lib.quote label m q.name)
      ++ queue_feedback c label m qs

  unfoldable pub default_feedback : Config → Str → MockResponse → List Str
  default_feedback c label m =
      report
        (is_empty m.exchange
          && (elem m.routing_key (trigger_queues c) && not (is_empty m.routing_key)))
        (default_feedback_text lib.quote label m.routing_key)

  -- The second loop over the rules.
  unfoldable pub all_feedback : Config → ℕ → List Rule → List Str
  unfolding queue_feedback default_feedback
  all_feedback c i [] = []
  all_feedback c i (r ∷ rs) =
      let label = rule_label lib.quote i r in
      queue_feedback c label r.mock_response c.broker.declarations.queues
      ++ (default_feedback c label r.mock_response ++ all_feedback c (i + 1) rs)

  unfoldable pub warnings : Config → List Str
  unfolding all_rule_warnings all_feedback dedupe
  warnings c = dedupe (
      report (no_items c.rules && no_items c.spy.queues) no_rules_text
      ++ (all_rule_warnings c 0 c.rules ++ all_feedback c 0 c.rules))
