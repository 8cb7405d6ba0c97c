-- ===== src/Config/Routing/Exact.antt =====
-- What responseReachesQueue reports of a response.
use chitchat.Base.{
  Str, str_eq, str_eq_iff, is_empty, if◌then◌else◌, Bool, true, List, [], ◌∷◌, In, ◌≡◌, ◌≢◌, inl,
  inr, refl, sym, ◌∙◌, Bool-cases, false≢true, arith, ap, subst, ne_iff, is_empty_iff, map, ◌⊎◌,
}
use chitchat.Config.Types.{ExchangeDeclaration, QueueBinding, QueueDeclaration, MockResponse}
use chitchat.Config.Topic.Spec.{topic_matches_rule}
use chitchat.Config.Routing.{
  direct, topic, fanout, exchange_type, binding_matches, some_binding, response_reaches_queue,
}
use chitchat.Config.Routing.Spec.{
  Routes, by_fanout, by_direct, by_topic, Bound, IsLast, here, there, TypeOf, declared,
  without_type, undeclared, Reaches,
}

not_named :
    (name current : Str) (exs : List ExchangeDeclaration)
    → (¬ In name (map (λ x. x.name) exs))
    → exchange_type name current exs ≡ current
unfolding exchange_type
not_named name current [] n = refl
not_named name current (ex ∷ exs) n = elim (Bool-cases (str_eq ex.name name)) [
  | inl a ↦ absurd (n (inl (sym ((str_eq_iff ex.name name).0 a))))
  | inr a ↦ rw (exchange_type, a) (not_named name current exs (λ i. n (inr i)))
]

abbrev type_of : ExchangeDeclaration → Str
type_of ex = if is_empty ex.type then direct else ex.type

last_named :
    (name : Str) (ex : ExchangeDeclaration) {exs : List ExchangeDeclaration}
    → IsLast name ex exs
    → (current : Str) → exchange_type name current exs ≡ type_of ex
unfolding exchange_type
last_named name ex (here {exs} e n) current =
    rw (exchange_type, (str_eq_iff ex.name name).1 e) (not_named name (type_of ex) exs n)
last_named name ex (there l) current = last_named name ex l _

-- The name is not there, or one of its declarations is the last.
find-IsLast :
    (name : Str) (exs : List ExchangeDeclaration)
    → ((ex : ExchangeDeclaration) × IsLast name ex exs) ⊎ (¬ In name (map (λ x. x.name) exs))
find-IsLast name [] = inr (λ i. absurd i)
find-IsLast name (ex ∷ exs) = elim (find-IsLast name exs) [
  | inl (y, l) ↦ inl (y, there l)
  | inr n ↦ elim (Bool-cases (str_eq ex.name name)) [
    | inl a ↦ inl (ex, here ((str_eq_iff ex.name name).0 a) n)
    | inr a ↦ inr (λ i. elim i [
      | inl e ↦ absurd (false≢true (sym a ∙ (str_eq_iff ex.name name).1 (sym e)))
      | inr k ↦ n k
    ])
  ]
]

-- The variable exType after the loop.
TypeOf-exchange_type :
    (name : Str) (exs : List ExchangeDeclaration) → TypeOf name exs (exchange_type name topic exs)
TypeOf-exchange_type name exs = elim (find-IsLast name exs) [
  | inl (ex, l) ↦ elim (Bool-cases (is_empty ex.type)) [
    | inl a ↦
        without_type ex l ((is_empty_iff ex.type).0 a)
          (last_named name ex l topic ∙ ap (λ b. if b then direct else ex.type) a)
    | inr a ↦
        declared ex l ((ne_iff ex.type).0 a)
          (last_named name ex l topic ∙ ap (λ b. if b then direct else ex.type) a)
  ]
  | inr n ↦ undeclared n (not_named name topic exs n)
]

TypeOf-eq :
    {name type : Str} {exs : List ExchangeDeclaration}
    → TypeOf name exs type
    → type ≡ exchange_type name topic exs
TypeOf-eq {name} {type} {exs} (declared ex l n e) =
    e
    ∙ sym (
        last_named name ex l topic ∙ ap (λ b. if b then direct else ex.type) ((ne_iff ex.type).1 n))
TypeOf-eq {name} {type} {exs} (without_type ex l n e) =
    e
    ∙ sym (
        last_named name ex l topic
        ∙ ap (λ b. if b then direct else ex.type) ((is_empty_iff ex.type).1 n))
TypeOf-eq {name} {type} {exs} (undeclared n e) = e ∙ sym (not_named name topic exs n)

Routes-true : {type p key : Str} → Routes type p key → binding_matches type p key ≡ true
unfolding binding_matches
Routes-true {type} {p} {key} (by_fanout e) = ground (arith, str_eq_iff type fanout)
Routes-true {type} {p} {key} (by_direct e f) =
    ground (arith, str_eq_iff type fanout, str_eq_iff type direct, str_eq_iff p key)
Routes-true {type} {p} {key} (by_topic e f) = ground (
  arith,
  str_eq_iff type fanout,
  str_eq_iff type direct,
  str_eq_iff type topic,
  (topic_matches_rule p key).0 f,
)

true-Routes : (type p key : Str) → key ≢ [] → binding_matches type p key ≡ true → Routes type p key
unfolding binding_matches
true-Routes type p key n h = elim (Bool-cases (str_eq type fanout)) [
  | inl a ↦ by_fanout ((str_eq_iff type fanout).0 a)
  | inr a ↦ elim (Bool-cases (str_eq type direct)) [
    | inl b ↦ by_direct ((str_eq_iff type direct).0 b) ((str_eq_iff p key).0 (rw (a, b) at h))
    | inr b ↦ elim (Bool-cases (str_eq type topic)) [
      | inl c ↦
          by_topic ((str_eq_iff type topic).0 c)
            ((topic_matches_rule p key).1 n (rw (a, b, c) at h))
      | inr c ↦ absurd (false≢true (rw (a, b, c) at h))
    ]
  ]
]

later :
    (type : Str) (resp : MockResponse) (x : QueueBinding) (bs : List QueueBinding)
    → Bound type resp bs
    → Bound type resp (x ∷ bs)
later type resp x bs (y, m, e, r) = (y, inr m, e, r)

keep :
    (a b : Bool) {rest : Bool}
    → rest ≡ true
    → (if a then (if b then true else rest) else rest) ≡ true
keep a b h = ground arith

bound_true :
    (type : Str) (resp : MockResponse) (bs : List QueueBinding)
    → Bound type resp bs
    → some_binding type resp bs ≡ true
unfolding some_binding
bound_true type resp [] w = absurd w.1
bound_true type resp (x ∷ bs) (y, m, e, r) = elim m [
  | inl p ↦
      rw ((str_eq_iff x.exchange resp.exchange).1 (sym (ap (λ b. b.exchange) p) ∙ e))
        (rw (Routes-true (subst (λ b. Routes type b.routing_key resp.routing_key) p r)))
  | inr k ↦ keep (str_eq x.exchange resp.exchange) _ (bound_true type resp bs (y, k, e, r))
]

true_bound :
    (type : Str) (resp : MockResponse) (bs : List QueueBinding)
    → resp.routing_key ≢ []
    → some_binding type resp bs ≡ true
    → Bound type resp bs
unfolding some_binding
true_bound type resp [] n h = absurd (false≢true h)
true_bound type resp (x ∷ bs) n h = elim (Bool-cases (str_eq x.exchange resp.exchange)) [
  | inl a ↦ elim (Bool-cases (binding_matches type x.routing_key resp.routing_key)) [
    | inl b ↦ (x, inl refl, (str_eq_iff _ _).0 a, true-Routes type _ _ n b)
    | inr b ↦ later type resp x bs (true_bound type resp bs n (rw (a, b) at h))
  ]
  | inr a ↦ later type resp x bs (true_bound type resp bs n (rw a at h))
]

-- responseReachesQueue reports true whenever the response goes to a named exchange and a binding of
-- the queue to that exchange routes the response's key; and only then, if the key is not empty. The
-- type of the exchange is the one of its last declaration, direct where that gives none, and topic
-- for an exchange that is not declared, whatever type the broker has for it. A fanout exchange routes
-- every key, a direct one an equal key, a topic one by the AMQP topic rule, and no other type any.
pub response_reaches_queue_lem :
    (exchanges : List ExchangeDeclaration) (resp : MockResponse) (q : QueueDeclaration)
    → (Reaches exchanges resp q → response_reaches_queue exchanges resp q ≡ true)
      × (resp.routing_key ≢ []
          → response_reaches_queue exchanges resp q ≡ true
          → Reaches exchanges resp q)
unfolding response_reaches_queue
response_reaches_queue_lem exchanges resp q =
    let type = exchange_type resp.exchange topic exchanges in
    elim (Bool-cases (is_empty resp.exchange)) [
      | inl a ↦ (
        λ w. absurd (w.0 ((is_empty_iff resp.exchange).0 a)),
        λ n h. absurd (false≢true (rw (response_reaches_queue, a) at h)),
      )
      | inr a ↦ (
        λ (n, (type', is, b)).
            rw (response_reaches_queue, a)
              (bound_true type resp q.bindings
                (subst (λ t. Bound t resp q.bindings) (TypeOf-eq is) b)),
        λ n h. (
          (ne_iff resp.exchange).0 a,
          (
            type,
            TypeOf-exchange_type resp.exchange exchanges,
            true_bound type resp q.bindings n (rw (response_reaches_queue, a) at h),
          ),
        ),
      )
    ]
