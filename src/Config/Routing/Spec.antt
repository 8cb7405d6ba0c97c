-- ===== src/Config/Routing/Spec.antt =====
-- Where the broker routes a response, as far as the configuration tells.
use chitchat.Base.{Str, codes, List, [], ◌∷◌, In, ◌≡◌, ◌≢◌, map}
use chitchat.Config.Types.{ExchangeDeclaration, QueueBinding, QueueDeclaration, MockResponse}
use chitchat.Config.Topic.Spec.{TopicRule}

-- How an exchange of each type routes a key to a binding.
pub data Routes (type pattern' key : Str) : Type 0 where
  by_fanout : type ≡ codes "fanout" → Routes type pattern' key
  by_direct : type ≡ codes "direct" → pattern' ≡ key → Routes type pattern' key
  by_topic : type ≡ codes "topic" → TopicRule pattern' key → Routes type pattern' key

-- A binding of the list that leads to the exchange and routes the key.
abbrev pub Bound : Str → MockResponse → List QueueBinding → Type 0
Bound type resp bs =
    (b : QueueBinding) × In b bs
    × (b.exchange ≡ resp.exchange)
    × Routes type b.routing_key resp.routing_key

-- `ex` is the last declaration of the list that has the name.
pub data IsLast (name : Str) (ex : ExchangeDeclaration) : List ExchangeDeclaration → Type 0 where
  here :
      {exs : List ExchangeDeclaration}
      → ex.name ≡ name
      → (¬ In name (map (λ x. x.name) exs))
      → IsLast name ex (ex ∷ exs)
  there :
      {x : ExchangeDeclaration} {exs : List ExchangeDeclaration}
      → IsLast name ex exs
      → IsLast name ex (x ∷ exs)

-- The type of an exchange: that of its declaration, of which the last one counts; direct if that gives
-- none; and topic for an exchange that is not declared.
pub data TypeOf (name : Str) (exs : List ExchangeDeclaration) (type : Str) : Type 0 where
  declared :
      (ex : ExchangeDeclaration)
      → IsLast name ex exs
      → ex.type ≢ []
      → type ≡ ex.type
      → TypeOf name exs type
  without_type :
      (ex : ExchangeDeclaration)
      → IsLast name ex exs
      → ex.type ≡ []
      → type ≡ codes "direct"
      → TypeOf name exs type
  undeclared : (¬ In name (map (λ x. x.name) exs)) → type ≡ codes "topic" → TypeOf name exs type

-- The response is published to a named exchange, and one of the queue's bindings to that exchange
-- routes its key.
abbrev pub Reaches : List ExchangeDeclaration → MockResponse → QueueDeclaration → Type 0
Reaches exchanges resp q =
    (resp.exchange ≢ [])
    × ((type : Str) × TypeOf resp.exchange exchanges type × Bound type resp q.bindings)
