-- ===== src/Config/Routing.antt =====
-- pkg/config/validate.go: responseReachesQueue.
pub mod Spec
pub mod Exact
use chitchat.Base.{
  Str, codes, str_eq, str_eq_iff, is_empty, if◌then◌else◌, Bool, true, false, List, [], ◌∷◌, In,
  ◌≡◌, ◌≢◌, ◌↔◌, inl, inr, refl, split, sym, ◌∙◌, Bool-cases, false≢true, arith, ap, subst, ne_iff,
  is_empty_iff, map, ◌⊎◌,
}
use chitchat.Config.Types.{ExchangeDeclaration, QueueBinding, QueueDeclaration, MockResponse}
use chitchat.Config.Topic.{topic_matches}
use chitchat.Config.Topic.Spec.{TopicRule, topic_matches_rule}

abbrev pub direct : Str
direct = codes "direct"

abbrev pub topic : Str
topic = codes "topic"

abbrev pub fanout : Str
fanout = codes "fanout"

-- The first loop: the variable exType, which the last declaration of the exchange decides.
unfoldable pub exchange_type : Str → Str → List ExchangeDeclaration → Str
exchange_type name current [] = current
exchange_type name current (ex ∷ exs) =
    exchange_type name
      (if str_eq ex.name name then (if is_empty ex.type then direct else ex.type) else current) exs

-- The switch on exType.
unfoldable pub binding_matches : Str → Str → Str → Bool
binding_matches type pattern' key =
    if str_eq type fanout
    then true
    else if str_eq type direct
    then str_eq pattern' key
    else if str_eq type topic
    then topic_matches pattern' key
    else false

-- The loop over the bindings.
unfoldable pub some_binding : Str → MockResponse → List QueueBinding → Bool
unfolding binding_matches
some_binding type resp [] = false
some_binding type resp (b ∷ bs) =
    let rest = some_binding type resp bs in
    if str_eq b.exchange resp.exchange
    then (if binding_matches type b.routing_key resp.routing_key then true else rest)
    else rest

unfoldable pub response_reaches_queue :
    List ExchangeDeclaration → MockResponse → QueueDeclaration → Bool
unfolding exchange_type some_binding
response_reaches_queue exchanges resp q =
    if is_empty resp.exchange
    then false
    else some_binding (exchange_type resp.exchange topic exchanges) resp q.bindings
