-- ===== src/Config/Warnings/Feedback.antt =====
-- Every rule whose response comes back to a trigger queue is warned of.
use mathlib.Core.List.{append_assoc}
use chitchat.Base.{
  map, ℕ, ◌+◌, Str, is_empty, is_empty_iff, elem_iff, ne_iff, Bool, true, not, ◌&&◌, List, [], ◌∷◌,
  ◌++◌, report, In, ◌≡◌, ◌≢◌, inl, inr, refl, ◌∙◌, and_intro, codes, if◌then◌else◌, length, suc, ap,
  arith, Bool-cases, sym, subst, Distinct,
}
use chitchat.Libraries.{Libraries}
use chitchat.Config.Types.{Config, QueueDeclaration, Rule, MockResponse}
use chitchat.Config.Texts.{
  text, rule_label, describe_target, loop_guard_text, feedback_text, default_feedback_text,
}
use chitchat.Base.Decimal.{itoa}
use chitchat.Config.Routing.Spec.{Reaches}
use chitchat.Config.Routing.Exact.{response_reaches_queue_lem}
use chitchat.Config.Dedupe.{dedupe_lem, dedupe_complete}
use chitchat.Config.Warnings.{
  no_items, no_rules_text, all_rule_warnings, trigger_queues, queue_feedback, default_feedback,
  all_feedback, warnings,
}

In-left : (s : Str) (xs ys : List Str) → In s xs → In s (xs ++ ys)
In-left s [] ys m = absurd m
In-left s (x ∷ xs) ys m = elim m [ inl e ↦ inl e | inr k ↦ inr (In-left s xs ys k) ]

In-right : (s : Str) (xs ys : List Str) → In s ys → In s (xs ++ ys)
In-right s [] ys m = m
In-right s (x ∷ xs) ys m = inr (In-right s xs ys m)

In-report : {b : Bool} (s : Str) → b ≡ true → In s (report b s)
In-report s e = rw e (inl refl)

-- How a rule's response comes back: a binding of a declared queue that a rule listens on routes it
-- there, or the default exchange delivers it to such a queue by name.
pub data ComesBack (c : Config) (m : MockResponse) : Type 0 where
  by_binding :
      (q : QueueDeclaration)
      → In q c.broker.declarations.queues
      → In q.name (map (λ x. x.trigger.queue) c.rules)
      → Reaches c.broker.declarations.exchanges m q
      → ComesBack c m
  by_default :
      m.exchange ≡ []
      → In m.routing_key (map (λ x. x.trigger.queue) c.rules)
      → m.routing_key ≢ []
      → ComesBack c m

module _ (lib : Libraries) where
  -- How a warning names the rule at a position of the list.
  abbrev pub rule_at : ℕ → Rule → Str
  rule_at n r =
      codes "rules["
      ++ (itoa n
          ++ (if is_empty r.name
              then codes "]"
              else codes "] (" ++ (lib.quote r.name ++ codes ")")))

  abbrev pub guard_note : Str
  guard_note =
      codes
        "; chitchat's loop guard (header x-chitchat-origin) stops it re-triggering on its own responses"

  -- The text that warns of it, for the rule at this position.
  abbrev pub warning_text : {c : Config} → ℕ → (r : Rule) → ComesBack c r.mock_response → Str
  warning_text n r (by_binding q i t w) =
      rule_at n r
      ++ (codes " publishes to exchange "
          ++ (lib.quote r.mock_response.exchange
              ++ (codes " with routing key "
                  ++ (lib.quote r.mock_response.routing_key
                      ++ (codes " which is routed to trigger queue "
                          ++ (lib.quote q.name ++ guard_note))))))
  warning_text n r (by_default e t w) =
      rule_at n r
      ++ (codes " publishes to trigger queue "
          ++ (lib.quote r.mock_response.routing_key
              ++ (codes " via the default exchange" ++ guard_note)))

  -- The text that the code makes.
  abbrev code_text : {c : Config} → ℕ → (r : Rule) → ComesBack c r.mock_response → Str
  code_text n r (by_binding q i t w) =
      feedback_text lib.quote (rule_label lib.quote n r) r.mock_response q.name
  code_text n r (by_default e t w) =
      default_feedback_text lib.quote (rule_label lib.quote n r) r.mock_response.routing_key

  label_lem : (n : ℕ) (r : Rule) → rule_label lib.quote n r ≡ rule_at n r
  unfolding rule_label text
  label_lem n r = elim (Bool-cases (is_empty r.name)) [
    | inl a ↦ rw (rule_label, a) refl
    | inr a ↦ rw (rule_label, a) refl
  ]

  target_lem :
      (m : MockResponse) (s : Str)
      → describe_target lib.quote m ++ s
        ≡ codes "exchange "
          ++ (lib.quote m.exchange
              ++ (codes " with routing key " ++ (lib.quote m.routing_key ++ s)))
  unfolding describe_target text
  target_lem m s =
      ap (λ z. codes "exchange " ++ z)
        (append_assoc (lib.quote m.exchange) _ s
          ∙ ap (λ z. lib.quote m.exchange ++ (codes " with routing key " ++ z))
              (append_assoc (lib.quote m.routing_key) [] s))

  text_lem :
      {c : Config} (n : ℕ) (r : Rule) (back : ComesBack c r.mock_response)
      → code_text n r back ≡ warning_text n r back
  unfolding feedback_text default_feedback_text describe_target text loop_guard_text
  text_lem n r (by_binding q i t w) =
      ap (λ l. feedback_text lib.quote l r.mock_response q.name) (label_lem n r)
      ∙ ap (λ s. rule_at n r ++ (codes " publishes to " ++ s))
          (target_lem r.mock_response
            (codes " which is routed to trigger queue " ++ (lib.quote q.name ++ guard_note)))
  text_lem n r (by_default e t w) =
      ap (λ l. default_feedback_text lib.quote l r.mock_response.routing_key) (label_lem n r)

  queue_warned :
      (c : Config) (label : Str) (m : MockResponse) (q : QueueDeclaration)
      (qs : List QueueDeclaration)
      → In q qs
      → In q.name (trigger_queues c)
      → Reaches c.broker.declarations.exchanges m q
      → In (feedback_text lib.quote label m q.name) (queue_feedback lib c label m qs)
  unfolding queue_feedback
  queue_warned c label m q [] i t r = absurd i
  queue_warned c label m q (x ∷ qs) i t r = elim i [
    | inl e ↦
        let t' = subst (λ z. In z.name (trigger_queues c)) e t in
        let r' = subst (λ z. Reaches c.broker.declarations.exchanges m z) e r in
        subst
          (λ z. In (feedback_text lib.quote label m z.name) (queue_feedback lib c label m (x ∷ qs)))
          (sym e)
          (In-left _ _ _ (
            In-report _ (
              and_intro ((elem_iff x.name (trigger_queues c)).1 t')
                ((response_reaches_queue_lem c.broker.declarations.exchanges m x).0 r'))))
    | inr k ↦ In-right _ _ _ (queue_warned c label m q qs k t r)
  ]

  rule_warned :
      (c : Config) (i : ℕ) (r : Rule) (rs : List Rule) (back : ComesBack c r.mock_response)
      → In (code_text i r back) (all_feedback lib c i (r ∷ rs))
  unfolding all_feedback default_feedback
  rule_warned c i r rs (by_binding q d t w) = In-left _ _ _ (
      queue_warned c (rule_label lib.quote i r) r.mock_response q c.broker.declarations.queues d t
        w)
  rule_warned c i r rs (by_default e t n) = In-right _ _ _ (
      In-left _ _ _ (
        In-report _ (
          and_intro ((is_empty_iff r.mock_response.exchange).1 e) (
            and_intro ((elem_iff r.mock_response.routing_key (trigger_queues c)).1 t)
              (not_empty r.mock_response.routing_key n)))))
    where
      not_empty : (s : Str) → s ≢ [] → not (is_empty s) ≡ true
      not_empty s n = rw ((ne_iff s).1 n)

  later_rule :
      (c : Config) (i : ℕ) (x : Rule) (rs : List Rule) (s : Str)
      → In s (all_feedback lib c (i + 1) rs)
      → In s (all_feedback lib c i (x ∷ rs))
  unfolding all_feedback
  later_rule c i x rs s p =
      let label = rule_label lib.quote i x in
      In-right s (queue_feedback lib c label x.mock_response c.broker.declarations.queues) _
        (In-right s (default_feedback lib c label x.mock_response) _ p)

  here : (i : ℕ) → i ≡ i + 0
  here i = omega arith

  none_before : (n : ℕ) → 0 + n ≡ n
  none_before n = omega arith

  next : (i n : ℕ) → i + 1 + n ≡ i + suc n
  next i n = omega arith

  rules_warned :
      (c : Config) (i : ℕ) (earlier : List Rule) (r : Rule) (later : List Rule)
      (back : ComesBack c r.mock_response)
      → In (code_text (i + length earlier) r back) (all_feedback lib c i (earlier ++ r ∷ later))
  rules_warned c i [] r later back =
      subst (λ n. In (code_text n r back) (all_feedback lib c i (r ∷ later))) (here i)
        (rule_warned c i r later back)
  rules_warned c i (x ∷ earlier) r later back = later_rule c i x (earlier ++ r ∷ later) _ (
      subst (λ n. In (code_text n r back) (all_feedback lib c (i + 1) (earlier ++ r ∷ later)))
        (next i (length earlier)) (rules_warned c (i + 1) earlier r later back))

  In-warnings : (c : Config) (s : Str) → In s (all_feedback lib c 0 c.rules) → In s (warnings lib c)
  unfolding warnings
  In-warnings c s p =
      let first = report (no_items c.rules && no_items c.spy.queues) no_rules_text in
      let middle = all_rule_warnings lib c 0 c.rules in
      let all = all_feedback lib c 0 c.rules in
      dedupe_complete s (first ++ (middle ++ all))
        (In-right s first (middle ++ all) (In-right s middle all p))

  -- If the response of a rule comes back to a queue that a rule listens on, by a binding of a
  -- declared queue or by the default exchange, the warnings have a text that names this rule by its
  -- position and its name, and the way and the queue; and no warning is given twice. An exchange
  -- that the configuration does not declare is taken for a topic exchange, and one of type headers
  -- for one that routes nothing.
  pub feedback_warned :
      (c : Config) (earlier : List Rule) (r : Rule) (later : List Rule)
      → c.rules ≡ earlier ++ r ∷ later
      → (back : ComesBack c r.mock_response)
      → Distinct (warnings lib c) × In (warning_text (length earlier) r back) (warnings lib c)
  unfolding warnings
  feedback_warned c earlier r later e back =
      let p =
        subst (λ n. In (code_text n r back) (all_feedback lib c 0 (earlier ++ r ∷ later)))
          (none_before (length earlier)) (rules_warned c 0 earlier r later back) in
      let q =
        subst (λ rs. In (code_text (length earlier) r back) (all_feedback lib c 0 rs)) (sym e) p in
      (
        (dedupe_lem _).0,
        subst (λ s. In s (warnings lib c)) (text_lem (length earlier) r back) (In-warnings c _ q),
      )
