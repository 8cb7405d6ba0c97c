-- ===== src/Config/Validate/Spec.antt =====
-- What a valid configuration is.
use chitchat.Base.{ℕ, ◌≤◌, Str, trim_space, map, some, [], Distinct, All, In, ◌≡◌, ◌≢◌, ◌⊎◌}
use chitchat.Base.Int.{ℤ, pos, negsuc}
use chitchat.Libraries.{Libraries, Url}
use chitchat.Config.Types.{Config, ExchangeDeclaration, QueueDeclaration, Rule, MockResponse}
use chitchat.Config.Validate.{
  valid_schemes, valid_exchange_types, valid_log_levels, valid_log_formats, normal_word,
}

-- The text has a character that is no white space.
abbrev pub HasText : Str → Type 0
HasText s = trim_space s ≢ []

abbrev pub InRange : ℕ → ℕ → ℤ → Type 0
InRange lo hi (pos n) = (lo ≤ n) × (n ≤ hi)
InRange lo hi (negsuc n) = ⊥

abbrev pub AtLeast : ℕ → ℤ → Type 0
AtLeast lo (pos n) = lo ≤ n
AtLeast lo (negsuc n) = ⊥

abbrev pub ValidResponse : MockResponse → Type 0
ValidResponse m = ((m.exchange ≢ []) ⊎ (m.routing_key ≢ [])) × AtLeast 0 m.delay_ms

abbrev pub ValidExchange : ExchangeDeclaration → Type 0
ValidExchange ex = (ex.name ≢ []) × In ex.type valid_exchange_types

abbrev pub ValidQueue : QueueDeclaration → Type 0
ValidQueue q = (q.name ≢ []) × All (λ b. b.exchange ≢ []) q.bindings

abbrev pub RuleBody : Rule → Type 0
RuleBody r =
    (r.trigger.queue ≢ [])
    × (All (λ jr. HasText jr.filter) r.trigger.jsonpath_rules × ValidResponse r.mock_response)

abbrev pub ValidRule : Rule → Type 0
ValidRule r = HasText r.name × RuleBody r

module _ (lib : Libraries) where
  abbrev pub ValidUrl : Str → Type 0
  ValidUrl url =
      HasText url × ((u : Url) × (lib.parse_url url ≡ some u) × In u.scheme valid_schemes)

  pub record IsValid (c : Config) : Type 0 where
    pub url : ValidUrl c.broker.url
    pub exchanges : All ValidExchange c.broker.declarations.exchanges
    pub exchange_names : Distinct (map (λ ex. ex.name) c.broker.declarations.exchanges)
    pub queues : All ValidQueue c.broker.declarations.queues
    pub queue_names : Distinct (map (λ q. q.name) c.broker.declarations.queues)
    pub port : InRange 1 65535 c.server.port
    pub ring_buffer_size : AtLeast 1 c.server.ring_buffer_size
    pub level : In (normal_word c.logging.level) valid_log_levels
    pub format : In (normal_word c.logging.format) valid_log_formats
    pub spy_queues : All HasText c.spy.queues
    pub rules : All ValidRule c.rules
    pub rule_names : Distinct (map (λ r. r.name) c.rules)
