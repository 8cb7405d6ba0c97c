-- ===== src/Config/Validate.antt =====
-- pkg/config/validate.go: Validate.
pub mod Spec
pub mod Listed
pub mod Parts
pub mod Exact
use chitchat.Base.{
  ℕ, ◌+◌, Str, codes, str_eq, is_empty, elem, trim_space, to_lower, map, if◌then◌else◌, Bool, true,
  false, not, ◌&&◌, ◌||◌, Option, none, some, List, [], ◌∷◌, ◌++◌, Dict, lookup, keys, report,
}
use chitchat.Base.Int.{ℤ, lt_nat, gt_nat}
use chitchat.Libraries.{Libraries, Url}
use chitchat.Config.Types.{
  Config, ExchangeDeclaration, QueueBinding, QueueDeclaration, JsonPathRule, Rule, MockResponse,
  LogConfig, ServerConfig, Declarations,
}
use chitchat.Config.Texts.{
  rule_label, scheme_text, exchanges_path, queues_path, name_empty_text, duplicate_text, type_text,
  binding_text, port_text, size_text, level_text, format_text, spy_queue_text, duplicate_rule_text,
  filter_text, delay_text,
}

abbrev pub valid_schemes : List Str
valid_schemes = codes "amqp" ∷ codes "amqps" ∷ []

abbrev pub valid_exchange_types : List Str
valid_exchange_types = [] ∷ codes "direct" ∷ codes "topic" ∷ codes "fanout" ∷ codes "headers" ∷ []

abbrev pub valid_log_levels : List Str
valid_log_levels =
    codes "debug" ∷ codes "info" ∷ codes "warn" ∷ codes "warning" ∷ codes "error" ∷ []

abbrev pub valid_log_formats : List Str
valid_log_formats = codes "text" ∷ codes "json" ∷ []

-- strings.ToLower(strings.TrimSpace(s))
abbrev pub normal_word : Str → Str
normal_word s = map to_lower (trim_space s)

-- strings.TrimSpace(s) == ""
abbrev pub is_blank : Str → Bool
is_blank s = is_empty (trim_space s)

-- The set of names seen so far, after the switch on one more name.
abbrev pub add_name : List Str → Str → List Str
add_name seen name = if is_empty name then seen else if elem name seen then seen else name ∷ seen

-- The map `seen` after the check of one more rule's name: a new name comes first in the list.
abbrev pub add_rule : ℕ → Str → Dict ℕ → Dict ℕ
add_rule i name seen =
    if is_blank name
    then seen
    else elim (lookup name seen) [ none ↦ (name, i) ∷ seen | some j ↦ seen ]

error_of : List Str → Option (List Str)
error_of [] = none
error_of (p ∷ ps) = some (p ∷ ps)

module _ (lib : Libraries) where
  unfoldable pub scheme_problems : Option Url → List Str
  scheme_problems none = codes "broker.url is not a valid URL" ∷ []
  scheme_problems (some u) =
      report (not (elem u.scheme valid_schemes)) (scheme_text lib.quote u.scheme)

  unfoldable pub url_problems : Str → List Str
  unfolding scheme_problems
  url_problems url =
      if is_blank url
      then codes "broker.url must not be empty" ∷ []
      else scheme_problems (lib.parse_url url)

  -- The switch on a declared name.
  unfoldable pub name_problems : Str → Str → ℕ → List Str → Str → List Str
  name_problems path kind i seen name =
      if is_empty name
      then name_empty_text lib.quote path i ∷ []
      else if elem name seen
      then duplicate_text lib.quote path kind i name ∷ []
      else []

  unfoldable pub exchange_problems : ℕ → List Str → List ExchangeDeclaration → List Str
  unfolding name_problems
  exchange_problems i seen [] = []
  exchange_problems i seen (ex ∷ exs) =
      name_problems exchanges_path (codes "exchange") i seen ex.name
      ++ (report (not (elem ex.type valid_exchange_types)) (type_text lib.quote i ex.name ex.type)
          ++ exchange_problems (i + 1) (add_name seen ex.name) exs)

  unfoldable pub binding_problems : ℕ → Str → ℕ → List QueueBinding → List Str
  binding_problems i name j [] = []
  binding_problems i name j (b ∷ bs) =
      report (is_empty b.exchange) (binding_text lib.quote i name j)
      ++ binding_problems i name (j + 1) bs

  unfoldable pub queue_problems : ℕ → List Str → List QueueDeclaration → List Str
  unfolding name_problems binding_problems
  queue_problems i seen [] = []
  queue_problems i seen (q ∷ qs) =
      name_problems queues_path (codes "queue") i seen q.name
      ++ (binding_problems i q.name 0 q.bindings
          ++ queue_problems (i + 1) (add_name seen q.name) qs)

  unfoldable pub server_problems : ServerConfig → List Str
  server_problems s =
      report (lt_nat s.port 1 || gt_nat s.port 65535) (port_text lib.quote s.port)
      ++ report (lt_nat s.ring_buffer_size 1) (size_text lib.quote s.ring_buffer_size)

  unfoldable pub logging_problems : LogConfig → List Str
  logging_problems l =
      report (not (elem (normal_word l.level) valid_log_levels)) (level_text lib.quote l.level)
      ++ report (not (elem (normal_word l.format) valid_log_formats))
          (format_text lib.quote l.format)

  unfoldable pub spy_problems : ℕ → List Str → List Str
  spy_problems i [] = []
  spy_problems i (q ∷ qs) =
      report (is_blank q) (spy_queue_text lib.quote i) ++ spy_problems (i + 1) qs

  unfoldable pub filter_problems : Str → ℕ → List JsonPathRule → List Str
  filter_problems label j [] = []
  filter_problems label j (jr ∷ jrs) =
      report (is_blank jr.filter) (filter_text lib.quote label j)
      ++ filter_problems label (j + 1) jrs

  unfoldable pub response_problems : Str → MockResponse → List Str
  response_problems label m =
      report (is_empty m.exchange && is_empty m.routing_key) (
        label
        ++ codes
            ": mock_response needs an exchange and/or routing_key (an empty exchange publishes via the default exchange to the queue named by routing_key)")
      ++ report (lt_nat m.delay_ms 0) (delay_text lib.quote label m.delay_ms)

  -- The name of a rule: `first` is what the map `seen` has for it.
  unfoldable pub rule_name_problems : Str → Str → Option ℕ → List Str
  rule_name_problems label name first =
      if is_blank name
      then (label ++ codes ": name must not be empty") ∷ []
      else elim first [ none ↦ [] | some i ↦ duplicate_rule_text lib.quote label i ∷ [] ]

  unfoldable pub rule_problems : ℕ → Dict ℕ → List Rule → List Str
  unfolding rule_name_problems filter_problems response_problems
  rule_problems i seen [] = []
  rule_problems i seen (r ∷ rs) =
      let label = rule_label lib.quote i r in
      rule_name_problems label r.name (lookup r.name seen)
      ++ (report (is_empty r.trigger.queue) (label ++ codes ": trigger.queue must not be empty")
          ++ (filter_problems label 0 r.trigger.jsonpath_rules
              ++ (response_problems label r.mock_response
                  ++ rule_problems (i + 1) (add_rule i r.name seen) rs)))

  -- The variable `problems` at the end of Validate: all problems, in the order of the checks.
  unfoldable pub problems : Config → List Str
  unfolding url_problems exchange_problems queue_problems server_problems logging_problems
      spy_problems rule_problems
  problems c =
      url_problems c.broker.url
      ++ (exchange_problems 0 [] c.broker.declarations.exchanges
          ++ (queue_problems 0 [] c.broker.declarations.queues
              ++ (server_problems c.server
                  ++ (logging_problems c.logging
                      ++ (spy_problems 0 c.spy.queues ++ rule_problems 0 [] c.rules)))))

  -- Validate: none for nil, or the problems of the *ValidationError.
  unfoldable pub validate : Config → Option (List Str)
  unfolding problems error_of
  validate c = error_of (problems c)
