-- ===== src/Engine/Workers/Rules.antt =====
-- pkg/engine/engine.go: what the goroutines leave alone of the rules.
use chitchat.Base.{
  ◌==◌, ℕ, Bool, is_some, not, ◌&&◌, Option, none, some, List, [], ◌∷◌, map, ◌≡◌, refl, ◌∙◌, ap,
  inl, inr, Option-cases, branch_lem,
}
use chitchat.Base.Int.{gt_nat}
use chitchat.Libraries.{Libraries}
use chitchat.Config.Types.{Rule}
use chitchat.Broker.Message.{Message, Bytes}
use chitchat.Broker.Driver.{Driver}
use chitchat.Spy.Ring.{RingBuffer}
use chitchat.Engine.State.{Engine, RuleState, Job, inc_matches, new_rule_states}
use chitchat.Engine.Matcher.{matches_rule}
use chitchat.Engine.Handle.{
  with_direction, recorded, published_message, record_in_spy, is_own, evaluate_rule, evaluate_rules,
  react, handle_message, publish_response, response_headers, dispatch,
}
use chitchat.Engine.Workers.{handle_next, respond_with}

abbrev pub rules_of : List RuleState → List Rule
rules_of = map (λ rs. rs.rule)

pub new_rules : (rs : List Rule) → rules_of (new_rule_states rs) ≡ rs
unfolding new_rule_states
new_rules [] = refl
new_rules (r ∷ rs) = ap (λ xs. r ∷ xs) (new_rules rs)

-- The configuration is the same, and so are the rules, but for their counters; there is a spy in both
-- states or in none.
abbrev pub Recounted : {D : Type 0} → Engine D → Engine D → Type 0
Recounted e e' =
    (e'.cfg ≡ e.cfg) × (rules_of e'.rules ≡ rules_of e.rules) × (is_some e'.spy ≡ is_some e.spy)

module _ (lib : Libraries) where
  record-spy :
      {D : Type 0} (now : ℕ) (msg : Message) (e : Engine D)
      → is_some (record_in_spy lib now msg e).spy ≡ is_some e.spy
  unfolding record_in_spy recorded
  record-spy now msg e = go e.spy
    where
      go : (s : Option RingBuffer) → is_some (recorded lib now msg s) ≡ is_some s
      go none = refl
      go (some rb) = refl

  evaluate_rule-rule :
      (msg : Message) (rs : RuleState) (source : ℕ)
      → (evaluate_rule lib msg rs source).0.rule ≡ rs.rule
  unfolding evaluate_rule inc_matches
  evaluate_rule-rule msg rs source =
      branch_lem {A = RuleState × List Job × ℕ} (λ x. x.0.rule ≡ rs.rule)
        (not (matches_rule lib rs.rule msg)) _ _ (λ _. refl) (λ _. refl)

  evaluate_rules-rules :
      (msg : Message) (rules : List RuleState) (source : ℕ)
      → rules_of (evaluate_rules lib msg rules source).0 ≡ rules_of rules
  unfolding evaluate_rules
  evaluate_rules-rules msg [] source = refl
  evaluate_rules-rules msg (rs ∷ rest) source =
      let x = evaluate_rule lib msg rs source in
      ap (λ r. r ∷ rules_of (evaluate_rules lib msg rest x.2).0) (evaluate_rule-rule msg rs source)
      ∙ ap (λ xs. rs.rule ∷ xs) (evaluate_rules-rules msg rest x.2)

  handle-Recounted :
      {D : Type 0} (now source : ℕ) (msg : Message) (e : Engine D)
      → Recounted e (handle_message lib now msg source e).0
  unfolding handle_message react record_in_spy
  handle-Recounted {D} now source msg e =
      branch_lem {A = Engine D × ℕ} (λ x. Recounted e x.0) (is_own (with_direction msg)) _ _
        (λ _. (refl, refl, record-spy now (with_direction msg) e))
        (λ _. (
          refl,
          evaluate_rules-rules (with_direction msg) e.rules source,
          record-spy now (with_direction msg) e,
        ))

module _ {D : Type 0} (drv : Driver D) (lib : Libraries) where
  publish-Recounted :
      (now : ℕ) (r : Rule) (payload : Bytes) (e : Engine D)
      → Recounted e (publish_response lib drv now r payload e)
  unfolding publish_response record_in_spy
  publish-Recounted now r payload e =
      elim (Option-cases
        (drv.publish r.mock_response.exchange r.mock_response.routing_key payload
          (response_headers r) e.driver).0) [
            | inl a ↦
                rw (publish_response, a)
                  (refl, refl, record-spy lib now (published_message lib r payload) e)
            | inr (x, a) ↦ rw (publish_response, a) (refl, refl, refl)
          ]

  pub respond-Recounted :
      (now : ℕ) (gave_up : Bool) (job : Option Job) (rest : List Job) (e : Engine D)
      → Recounted e (respond_with lib drv now gave_up job rest e)
  unfolding respond_with dispatch
  respond-Recounted now gave_up none rest e = (refl, refl, refl)
  respond-Recounted now gave_up (some job) rest e =
      branch_lem (Recounted e) (gt_nat job.rule.mock_response.delay_ms 0 && gave_up && e.cancelled)
        _ _ (λ _. (refl, refl, refl))
        (λ _. publish-Recounted now job.rule job.payload (record e { jobs = rest }))

  pub handle_next-Recounted :
      (now source : ℕ) (ms : List Message) (e : Engine D)
      → Recounted e (handle_next lib drv now source ms e)
  unfolding handle_next
  handle_next-Recounted now source [] e = (refl, refl, refl)
  handle_next-Recounted now source (m ∷ ms) e =
      branch_lem (Recounted e) (e.loops == 0) _ _ (λ _. (refl, refl, refl))
        (λ _. handle-Recounted lib now source m (record e { messages = ms }))
