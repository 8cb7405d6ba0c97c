-- ===== src/Tests/Config.antt =====
-- Topic patterns.
use chitchat.Base.{
  ◌∷◌, codes, str_eq, trim_space, is_space, ◌≡◌, ◌≢◌, refl, ◌↔◌, true, false, none, [], In, inl,
  Distinct,
}
use chitchat.Base.Int.{pos}
use chitchat.Config.Validate.{validate, problems, url_problems, scheme_problems}
use chitchat.Config.Validate.Spec.{IsValid}
use chitchat.Config.Validate.Exact.{validate_iff}
use chitchat.Config.Routing.{response_reaches_queue}
use chitchat.Config.Routing.Spec.{Reaches}
use chitchat.Config.Routing.Exact.{response_reaches_queue_lem}
use chitchat.Config.Types.{MockResponse, QueueDeclaration}
use chitchat.Base.Decimal.{itoa}
use chitchat.Config.Warnings.{warnings}
use chitchat.Config.Warnings.Feedback.{by_default, feedback_warned}
use chitchat.Config.Defaults.{
  default_config, apply_defaults, apply_overrides, parse_config, eof, after_decode,
}
use chitchat.Config.Defaults.Laws.{IsComplete, parse_config-IsComplete}
use chitchat.Tests.Samples.{plain, shop, confirm, echo, orders}
use chitchat.Config.Topic.{topic_matches}
use chitchat.Config.Topic.Spec.{TopicRule, topic_matches_rule}

hash_in_the_middle : topic_matches (codes "a.#.c") (codes "a.b.b.c") ≡ true
unfolding topic_matches str_eq
hash_in_the_middle = refl

hash_for_nothing : topic_matches (codes "a.#") (codes "a") ≡ true
unfolding topic_matches str_eq
hash_for_nothing = refl

star_needs_a_word : topic_matches (codes "a.*") (codes "a") ≡ false
unfolding topic_matches str_eq
star_needs_a_word = refl

-- strings.Split makes one word of an empty key, which has none.
star_takes_the_empty_key : topic_matches (codes "*") [] ≡ true
unfolding topic_matches str_eq
star_takes_the_empty_key = refl

topic_matches_rule_example :
    (TopicRule (codes "a.*") (codes "a.b") → topic_matches (codes "a.*") (codes "a.b") ≡ true)
    × (codes "a.b" ≢ []
        → topic_matches (codes "a.*") (codes "a.b") ≡ true
        → TopicRule (codes "a.*") (codes "a.b"))
topic_matches_rule_example = topic_matches_rule (codes "a.*") (codes "a.b")

validate_iff_example : (validate plain shop ≡ none) ↔ IsValid plain shop
validate_iff_example = validate_iff plain shop

bad_port : validate plain (record shop { server = record shop.server { port = pos 0 } }) ≢ none
unfolding validate problems url_problems scheme_problems str_eq trim_space is_space
bad_port = λ h. cc

response_reaches_queue_lem_example :
    (Reaches [] confirm.mock_response orders
      → response_reaches_queue [] confirm.mock_response orders ≡ true)
    × (confirm.mock_response.routing_key ≢ []
        → response_reaches_queue [] confirm.mock_response orders ≡ true
        → Reaches [] confirm.mock_response orders)
response_reaches_queue_lem_example = response_reaches_queue_lem [] confirm.mock_response orders

-- A response to an exchange of RabbitMQ that is there without a declaration, and is of type fanout.
abbrev to_all : MockResponse
to_all = record confirm.mock_response { exchange = codes "amq.fanout" }

abbrev bound_to_all : QueueDeclaration
bound_to_all = record orders {
  bindings =
      record { exchange = codes "amq.fanout"; routing_key = []; no_wait = false; args = [] } ∷ [];
}

fanout_is_missed : response_reaches_queue [] to_all bound_to_all ≡ false
unfolding response_reaches_queue str_eq topic_matches
fanout_is_missed = refl

feedback_warned_example :
    Distinct (warnings plain shop)
    × In
        (codes
          "rules[1] (echo) publishes to trigger queue orders via the default exchange; chitchat's loop guard (header x-chitchat-origin) stops it re-triggering on its own responses")
        (warnings plain shop)
unfolding itoa
feedback_warned_example =
    feedback_warned plain shop (confirm ∷ []) echo [] refl (by_default refl (inl refl) (λ h. cc))

parse_config-IsComplete_example :
    IsComplete (apply_defaults default_config)
    × IsComplete
        (apply_overrides (codes "amqp://other/") (pos 0) [] (apply_defaults default_config))
unfolding parse_config after_decode
parse_config-IsComplete_example =
    parse_config-IsComplete (λ text c. eof c) [] (codes "amqp://other/") (pos 0) [] refl
