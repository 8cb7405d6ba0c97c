-- ===== src/Tests/Engine.antt =====
-- The engine.
use chitchat.Base.{
  false, Str, codes, lookup, str_eq, ◌≡◌, ◌≢◌, ◌↔◌, ◌⊎◌, refl, true, none, List, [], ◌∷◌, ◌++◌, map,
  select, All, In, Distinct, err, inl, inr,
}
use chitchat.Broker.Message.{Message}
use chitchat.Engine.Matcher.{matches_rule}
use chitchat.Engine.Matcher.Spec.{Triggers, matches_rule_iff}
use chitchat.Engine.Queues.{desired_queues, str_leb}
use chitchat.Engine.Queues.Sorted.{Ascending, desired_queues_lem}
use chitchat.Engine.State.{Engine, Job, new_engine, new_rule_states}
use chitchat.Engine.Lifecycle.{start, reload}
use chitchat.Engine.Lifecycle.Reloads.{Reloads, reload_lem}
use chitchat.Engine.Lifecycle.Traced.{
  traced, untouched, Call, start_call, reload_call, stop_call, calls, IsTidy,
}
use chitchat.Engine.Lifecycle.Traced.Tidy.{calls-IsTidy}
use chitchat.Engine.Handle.{handle_message, with_direction, response_headers, record_in_spy, is_own}
use chitchat.Engine.Handle.Guard.{own_ignored}
use chitchat.Engine.Handle.{dispatch, publish_response, react}
use chitchat.Engine.Handle.Echo.{Activity, deliver, respond, echo_ignored}
use chitchat.Broker.Mock.{
  MockDriver, PublishedMessage, new_mock_driver, mock_driver, mock_publish, hook_error, incoming,
  get_published,
}
use chitchat.Engine.Handle.Counts.{counted, OfMatches, matched_rules_count, matched_rules_answer}
use chitchat.Engine.Template.Validate.{validate_templates}
use chitchat.Engine.Template.Validate.Exact.{PayloadParses, validate_templates_iff}
use chitchat.Engine.Template.Checked.{validated_payloads_parse}
use chitchat.Engine.Template.Render.{not_parsed, render_payload}
use chitchat.Engine.Template.Rewrite.{has_action, preprocess_template}
use chitchat.Engine.Template.Regex.{typed_json}
use chitchat.Tests.Samples.{plain, hello, confirm, echo, shop, steady, fresh, going}

reference_gets_a_dot :
    preprocess_template (codes "a {{ json trigger.id }}") ≡ codes "a {{ json .trigger.id }}"
unfolding preprocess_template
reference_gets_a_dot = refl

literal_is_left :
    preprocess_template (codes "{{ eq queue \"trigger.x\" }}")
    ≡ codes "{{ eq .queue \"trigger.x\" }}"
unfolding preprocess_template
literal_is_left = refl

json_call_is_typed : typed_json (codes " {{- trigger.amount | json }}") ≡ true
unfolding typed_json
json_call_is_typed = refl

matches_rule_iff_example : (matches_rule plain confirm hello ≡ true) ↔ Triggers plain confirm hello
matches_rule_iff_example = matches_rule_iff plain confirm hello

desired_queues_lem_example :
    Ascending (desired_queues shop)
    × Distinct (desired_queues shop)
    × ((q : Str)
        → In q (desired_queues shop)
          ↔ ((q ≢ []) × (In q (map (λ r. r.trigger.queue) shop.rules) ⊎ In q shop.spy.queues)))
desired_queues_lem_example = desired_queues_lem shop

reload_lem_example : Reloads steady plain.quote shop going (reload steady plain.quote shop going)
reload_lem_example = reload_lem steady plain.quote shop going

abbrev some_calls : List Call
some_calls = reload_call shop ∷ start_call ∷ stop_call none ∷ reload_call shop ∷ stop_call none ∷ []

calls-IsTidy_example : IsTidy (
    calls
      (traced steady)
      plain.quote
      (start_call ∷ some_calls)
      (new_engine shop (untouched 0) none))
unfolding start new_engine desired_queues str_eq str_leb
calls-IsTidy_example = calls-IsTidy steady plain.quote shop 0 none some_calls refl

abbrev answer : Message
answer = record hello { headers = response_headers confirm }

own_ignored_example :
    handle_message plain 5 answer 0 fresh ≡ (record_in_spy plain 5 (with_direction answer) fresh, 0)
own_ignored_example = own_ignored plain 5 answer 0 fresh confirm refl

matched_rules_count_example :
    let e' = (handle_message plain 5 hello 0 fresh).0 in
    let m = with_direction hello in
    (e'.rules ≡ map (counted plain m) fresh.rules)
    × ((started : List Job) × (e'.jobs ≡ fresh.jobs ++ started) × OfMatches plain m started)
unfolding is_own lookup
matched_rules_count_example = matched_rules_count plain 5 hello 0 fresh refl

matched_rules_answer_example :
    let m = with_direction hello in
    (started : List Job) × ((handle_message plain 5 hello 0 fresh).0.jobs ≡ fresh.jobs ++ started)
    × (map (λ j. j.rule) started
        ≡ select (λ r. matches_rule plain r m) (map (λ rs. rs.rule) fresh.rules))
unfolding is_own lookup new_engine new_rule_states render_payload
matched_rules_answer_example =
    matched_rules_answer plain 5 hello 0 fresh refl
      ((λ source. (codes "done", refl)), ((λ source. (codes "done", refl)), tt))

validate_templates_iff_example :
    (validate_templates plain shop ≡ [])
    ↔ All (λ r. PayloadParses plain r.mock_response.payload) shop.rules
validate_templates_iff_example = validate_templates_iff plain shop

validated_payloads_parse_example : ¬ (
    (t : Str) × (cause : Str) × ((render_payload plain echo.mock_response.payload hello 0).0
      ≡ err (not_parsed t cause)))
unfolding validate_templates has_action
validated_payloads_parse_example =
    validated_payloads_parse plain shop echo hello 0 (λ t h. refl) refl (inr (inl refl))

abbrev traffic : List Activity
traffic =
    deliver 5 0 hello ∷ respond 6 false (record { rule = confirm; payload = codes "done" }) ∷ []

abbrev mocked : Engine MockDriver
mocked = new_engine shop new_mock_driver none

abbrev sent : PublishedMessage
sent = record {
  exchange = codes "shop";
  routing_key = codes "order.done";
  body = codes "done";
  headers = response_headers confirm;
}

echo_ignored_example :
    handle_message plain 7
      (incoming (codes "orders") sent.routing_key sent.body sent.headers)
      0
      mocked
    ≡ (
      record_in_spy plain 7
          (with_direction (incoming (codes "orders") sent.routing_key sent.body sent.headers))
          mocked,
      0,
    )
unfolding get_published dispatch publish_response handle_message react is_own lookup new_engine
    new_mock_driver mock_driver mock_publish hook_error record_in_spy
echo_ignored_example =
    echo_ignored plain none shop none traffic sent (inl refl) (codes "orders") 7 0 mocked
