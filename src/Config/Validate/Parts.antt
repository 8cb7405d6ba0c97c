-- ===== src/Config/Validate/Parts.antt =====
-- When each part of Validate reports nothing.
use chitchat.Base.{
  ℕ, ◌+◌, Str, codes, is_empty, is_empty_iff, elem, elem_iff, trim_space, true, false, not, ◌&&◌,
  ◌||◌, Option, none, some, List, [], ◌∷◌, ◌++◌, Dict, lookup, keys, report, report_iff, append_iff,
  All, In, ◌≡◌, ◌≢◌, ◌↔◌, ◌⊎◌, inl, inr, ne_iff, refl, arith, Bool-cases, Option-cases, is_some,
  lookup-elem, sym, ◌∙◌, ap, false≢true, subst,
}
use mathlib.Core.Option.{some-injective}
use chitchat.Base.Int.{ℤ, pos, negsuc, lt_nat, gt_nat}
use chitchat.Libraries.{Libraries, Url}
use chitchat.Config.Types.{
  ExchangeDeclaration, QueueBinding, QueueDeclaration, JsonPathRule, Rule, MockResponse,
}
use chitchat.Config.Texts.{rule_label}
use chitchat.Config.Validate.{
  valid_schemes, valid_exchange_types, is_blank, add_name, add_rule, scheme_problems, url_problems,
  name_problems, exchange_problems, binding_problems, queue_problems, spy_problems, filter_problems,
  response_problems, rule_name_problems, rule_problems,
}
use chitchat.Config.Validate.Spec.{HasText, InRange, AtLeast, ValidResponse, RuleBody, ValidUrl}
use chitchat.Config.Validate.Listed.{Listed}

pub member_iff : (s : Str) (ts : List Str) → (not (elem s ts) ≡ false) ↔ In s ts
member_iff s ts = ground (arith, elem_iff s ts)

pub range_iff : (lo hi : ℕ) (n : ℤ) → ((lt_nat n lo || gt_nat n hi) ≡ false) ↔ InRange lo hi n
range_iff lo hi (pos n) = ground arith
range_iff lo hi (negsuc n) = ground arith

pub least_iff : (lo : ℕ) (n : ℤ) → (lt_nat n lo ≡ false) ↔ AtLeast lo n
least_iff lo (pos n) = ground arith
least_iff lo (negsuc n) = ground arith

target_iff :
    (m : MockResponse)
    → ((is_empty m.exchange && is_empty m.routing_key) ≡ false)
      ↔ ((m.exchange ≢ []) ⊎ (m.routing_key ≢ []))
target_iff m = ground (arith, ne_iff m.exchange, ne_iff m.routing_key)

abbrev pub exchange_name : ExchangeDeclaration → Str
exchange_name ex = ex.name

abbrev pub queue_name : QueueDeclaration → Str
queue_name q = q.name

abbrev pub rule_name : Rule → Str
rule_name r = r.name

pub blank_iff : (s : Str) → (is_blank s ≡ false) ↔ HasText s
blank_iff s = ne_iff (trim_space s)

regroup : {X P Q R S : Type 0} → X ↔ (P × (Q × (R × S))) → X ↔ ((P × (Q × R)) × S)
regroup e = (
  λ x. let (p, (q, (r, s))) = e.0 x in ((p, (q, r)), s),
  λ ((p, (q, r)), s). e.1 (p, (q, (r, s))),
)

module _ (lib : Libraries) where
  scheme_iff :
      (o : Option Url)
      → (scheme_problems lib o ≡ []) ↔ ((u : Url) × (o ≡ some u) × In u.scheme valid_schemes)
  unfolding scheme_problems
  scheme_iff none = (λ h. cc, λ w. cc (w.1))
  scheme_iff (some u) =
      let e = report_iff _ (member_iff u.scheme valid_schemes) in
      (
        λ h. (u, refl, e.0 h),
        λ (v, p, q). e.1 (subst (λ x. In x.scheme valid_schemes) (sym (some-injective u v p)) q),
      )

  pub url_iff : (url : Str) → (url_problems lib url ≡ []) ↔ ValidUrl lib url
  unfolding url_problems
  url_iff url = elim (Bool-cases (is_blank url)) [
    | inl a ↦ rw a (λ h. cc, λ w. absurd (w.0 ((is_empty_iff (trim_space url)).0 a)))
    | inr a ↦
        let e = scheme_iff (lib.parse_url url) in
        rw a (λ h. ((blank_iff url).0 a, e.0 h), λ w. e.1 w.1)
  ]

  -- A name that makes no problem is new, and is seen from then on.
  name_step :
      (path kind : Str) (i : ℕ) (seen : List Str) (name : Str) (mid : List Str)
      (next : List Str → List Str) {Q : Type 0}
      → (mid ++ next (name ∷ seen) ≡ []) ↔ Q
      → (name_problems lib path kind i seen name ++ (mid ++ next (add_name seen name)) ≡ [])
        ↔ (((name ≢ []) × (¬ In name seen)) × Q)
  unfolding name_problems
  name_step path kind i seen name mid next q = elim (Bool-cases (is_empty name)) [
    | inl a ↦ rw a (λ h. cc, λ w. absurd (w.0.0 ((is_empty_iff name).0 a)))
    | inr a ↦ elim (Bool-cases (elem name seen)) [
      | inl b ↦ rw (a, b) (λ h. cc, λ w. absurd (w.0.1 ((elem_iff name seen).0 b)))
      | inr b ↦
          rw (a, b)
            (
              λ h. (((ne_iff name).0 a, λ m. false≢true (sym b ∙ (elem_iff name seen).1 m)), q.0 h),
              λ w. q.1 w.1,
            )
    ]
  ]

  pub exchanges_iff :
      (i : ℕ) (seen : List Str) (exs : List ExchangeDeclaration)
      → (exchange_problems lib i seen exs ≡ [])
        ↔ Listed exchange_name (λ ex. ex.name ≢ []) (λ ex. In ex.type valid_exchange_types) seen exs
  unfolding exchange_problems
  exchanges_iff i seen [] = (λ h. tt, λ h. refl)
  exchanges_iff i seen (ex ∷ exs) =
      name_step _ _ i seen ex.name _ (λ s. exchange_problems lib (i + 1) s exs)
        (append_iff (report_iff _ (member_iff ex.type valid_exchange_types))
          (exchanges_iff (i + 1) (ex.name ∷ seen) exs))

  bindings_iff :
      (i : ℕ) (name : Str) (j : ℕ) (bs : List QueueBinding)
      → (binding_problems lib i name j bs ≡ []) ↔ All (λ b. b.exchange ≢ []) bs
  unfolding binding_problems
  bindings_iff i name j [] = (λ h. tt, λ h. refl)
  bindings_iff i name j (b ∷ bs) =
      append_iff (report_iff _ (ne_iff b.exchange)) (bindings_iff i name (j + 1) bs)

  pub queues_iff :
      (i : ℕ) (seen : List Str) (qs : List QueueDeclaration)
      → (queue_problems lib i seen qs ≡ [])
        ↔ Listed queue_name (λ q. q.name ≢ []) (λ q. All (λ b. b.exchange ≢ []) q.bindings) seen qs
  unfolding queue_problems
  queues_iff i seen [] = (λ h. tt, λ h. refl)
  queues_iff i seen (q ∷ qs) =
      name_step _ _ i seen q.name _ (λ s. queue_problems lib (i + 1) s qs)
        (append_iff (bindings_iff i q.name 0 q.bindings) (queues_iff (i + 1) (q.name ∷ seen) qs))

  pub spy_iff : (i : ℕ) (qs : List Str) → (spy_problems lib i qs ≡ []) ↔ All HasText qs
  unfolding spy_problems
  spy_iff i [] = (λ h. tt, λ h. refl)
  spy_iff i (q ∷ qs) = append_iff (report_iff _ (blank_iff q)) (spy_iff (i + 1) qs)

  filters_iff :
      (label : Str) (j : ℕ) (jrs : List JsonPathRule)
      → (filter_problems lib label j jrs ≡ []) ↔ All (λ jr. HasText jr.filter) jrs
  unfolding filter_problems
  filters_iff label j [] = (λ h. tt, λ h. refl)
  filters_iff label j (jr ∷ jrs) =
      append_iff (report_iff _ (blank_iff jr.filter)) (filters_iff label (j + 1) jrs)

  response_iff :
      (label : Str) (m : MockResponse) → (response_problems lib label m ≡ []) ↔ ValidResponse m
  unfolding response_problems
  response_iff label m =
      append_iff (report_iff _ (target_iff m)) (report_iff _ (least_iff 0 m.delay_ms))

  rule_step :
      (label : Str) (i : ℕ) (seen : Dict ℕ) (name : Str) (rest : Dict ℕ → List Str) {Q : Type 0}
      → (rest ((name, i) ∷ seen) ≡ []) ↔ Q
      → (rule_name_problems lib label name (lookup name seen) ++ rest (add_rule i name seen) ≡ [])
        ↔ ((HasText name × (¬ In name (keys seen))) × Q)
  unfolding rule_name_problems
  rule_step label i seen name rest q = elim (Bool-cases (is_blank name)) [
    | inl a ↦ rw a (λ h. cc, λ w. absurd (w.0.0 ((is_empty_iff (trim_space name)).0 a)))
    | inr a ↦ elim (Option-cases (lookup name seen)) [
      | inl b ↦
          rw (a, b)
            (
              λ h. (
                (
                  (blank_iff name).0 a,
                  λ m. false≢true (sym (seen_none b) ∙ (elem_iff name (keys seen)).1 m),
                ),
                q.0 h,
              ),
              λ w. q.1 w.1,
            )
      | inr (first, b) ↦
          rw (a, b) (λ h. cc, λ w. absurd (w.0.1 ((elem_iff name (keys seen)).0 (seen_some b))))
    ]
  ]
    where
      seen_none : lookup name seen ≡ none → elem name (keys seen) ≡ false
      seen_none b = sym (lookup-elem name seen) ∙ ap is_some b

      seen_some : {first : ℕ} → lookup name seen ≡ some first → elem name (keys seen) ≡ true
      seen_some b = sym (lookup-elem name seen) ∙ ap is_some b

  pub rules_iff :
      (i : ℕ) (seen : Dict ℕ) (rs : List Rule)
      → (rule_problems lib i seen rs ≡ [])
        ↔ Listed rule_name (λ r. HasText r.name) RuleBody (keys seen) rs
  unfolding rule_problems
  rules_iff i seen [] = (λ h. tt, λ h. refl)
  rules_iff i seen (r ∷ rs) =
      let label = rule_label lib.quote i r in
      rule_step label i seen r.name
        (λ s.
          report (is_empty r.trigger.queue) (label ++ codes ": trigger.queue must not be empty")
          ++ (filter_problems lib label 0 r.trigger.jsonpath_rules
              ++ (response_problems lib label r.mock_response ++ rule_problems lib (i + 1) s rs)))
        (regroup (
          append_iff (report_iff _ (ne_iff r.trigger.queue)) (
            append_iff (filters_iff label 0 r.trigger.jsonpath_rules) (
              append_iff (response_iff label r.mock_response)
                (rules_iff (i + 1) ((r.name, i) ∷ seen) rs)))))
