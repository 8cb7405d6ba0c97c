-- ===== src/Config/Validate/Exact.antt =====
-- Validate returns nil exactly for the valid configurations.
use chitchat.Base.{Str, none, List, [], ◌∷◌, report_iff, append_iff, All, In, ◌≡◌, ◌≢◌, ◌↔◌, refl}
use chitchat.Libraries.{Libraries}
use chitchat.Config.Types.{Config}
use chitchat.Config.Validate.{
  valid_exchange_types, valid_log_levels, valid_log_formats, normal_word, server_problems,
  logging_problems, problems, error_of, validate,
}
use chitchat.Config.Validate.Spec.{HasText, InRange, AtLeast, RuleBody, ValidUrl, IsValid}
use chitchat.Config.Validate.Listed.{named_iff, Listed}
use chitchat.Config.Validate.Parts.{
  member_iff, range_iff, least_iff, url_iff, exchanges_iff, queues_iff, spy_iff, rules_iff,
  exchange_name, queue_name, rule_name,
}

module _ (lib : Libraries) where
  sections_iff :
      (c : Config)
      → (problems lib c ≡ []) ↔ (
          ValidUrl lib c.broker.url
          × (Listed exchange_name
                (λ ex. ex.name ≢ [])
                (λ ex. In ex.type valid_exchange_types)
                []
                c.broker.declarations.exchanges
              × (Listed queue_name
                    (λ q. q.name ≢ [])
                    (λ q. All (λ b. b.exchange ≢ []) q.bindings)
                    []
                    c.broker.declarations.queues
                  × ((InRange 1 65535 c.server.port × AtLeast 1 c.server.ring_buffer_size)
                      × ((In (normal_word c.logging.level) valid_log_levels
                            × In (normal_word c.logging.format) valid_log_formats)
                          × (All HasText c.spy.queues
                              × Listed rule_name (λ r. HasText r.name) RuleBody [] c.rules))))))
  unfolding problems server_problems logging_problems
  sections_iff c = append_iff (url_iff lib c.broker.url) (
      append_iff (exchanges_iff lib 0 [] c.broker.declarations.exchanges) (
        append_iff (queues_iff lib 0 [] c.broker.declarations.queues) (
          append_iff
            (append_iff (report_iff _ (range_iff 1 65535 c.server.port))
              (report_iff _ (least_iff 1 c.server.ring_buffer_size)))
            (append_iff
              (append_iff (report_iff _ (member_iff (normal_word c.logging.level) valid_log_levels))
                (report_iff _ (member_iff (normal_word c.logging.format) valid_log_formats)))
              (append_iff (spy_iff lib 0 c.spy.queues) (rules_iff lib 0 [] c.rules))))))

  error_iff : (ps : List Str) → (error_of ps ≡ none) ↔ (ps ≡ [])
  unfolding error_of
  error_iff [] = (λ h. refl, λ h. refl)
  error_iff (p ∷ ps) = (λ h. cc, λ h. cc)

  -- Validate returns nil exactly for a valid configuration: the broker URL parses and is an AMQP
  -- URL; declared exchanges and queues have names, each once, known types and bound exchanges; port
  -- and buffer size are in range; log level and format are known words; every spied queue, rule
  -- name and filter has text; rule names differ; every rule has a trigger queue, a target and a
  -- delay that is not negative.
  pub validate_iff : (c : Config) → (validate lib c ≡ none) ↔ IsValid lib c
  unfolding validate
  validate_iff c =
      let all = sections_iff c in
      let none_iff = error_iff (problems lib c) in
      let exs =
        named_iff (λ ex. ex.name) (λ ex. ex.name ≢ []) (λ ex. In ex.type valid_exchange_types)
          c.broker.declarations.exchanges in
      let qs =
        named_iff (λ q. q.name) (λ q. q.name ≢ []) (λ q. All (λ b. b.exchange ≢ []) q.bindings)
          c.broker.declarations.queues in
      let rs = named_iff (λ r. r.name) (λ r. HasText r.name) RuleBody c.rules in
      (
        λ h.
            let (u, (e, (q, ((p, b), ((l, f), (sq, r)))))) = all.0 (none_iff.0 h) in
            record {
              url = u;
              exchanges = (exs.0 e).0;
              exchange_names = (exs.0 e).1;
              queues = (qs.0 q).0;
              queue_names = (qs.0 q).1;
              port = p;
              ring_buffer_size = b;
              level = l;
              format = f;
              spy_queues = sq;
              rules = (rs.0 r).0;
              rule_names = (rs.0 r).1;
            },
        λ v. none_iff.1 (
            all.1 (
              v.url,
              (
                exs.1 (v.exchanges, v.exchange_names),
                (
                  qs.1 (v.queues, v.queue_names),
                  (
                    (v.port, v.ring_buffer_size),
                    ((v.level, v.format), (v.spy_queues, rs.1 (v.rules, v.rule_names))),
                  ),
                ),
              ),
            )),
      )
