-- ===== src/Engine/Handle/Counts.antt =====
-- The rules that a message matches: their counters and their responses.
use chitchat.Base.{
  ℕ, ◌+◌, ◌%◌, ◌^◌, if◌then◌else◌, true, false, Bool-cases, inl, inr, List, [], ◌∷◌, ◌++◌, map,
  select, All, All-append, Result, ok, err, ◌≡◌, refl, ap, ◌∙◌,
}
use chitchat.Libraries.{Libraries}
use chitchat.Config.Types.{Rule}
use chitchat.Broker.Message.{Message, Bytes}
use chitchat.Engine.Matcher.{matches_rule}
use chitchat.Engine.State.{Engine, RuleState, Job, inc_matches}
use chitchat.Engine.Template.Render.{RenderError, render_payload}
use chitchat.Engine.Handle.{
  is_own, with_direction, job_for, evaluate_rule, evaluate_rules, react, handle_message,
  record_in_spy,
}
use chitchat.Engine.Handle.Guard.{same_headers}

module _ (lib : Libraries) where
  -- The state of a rule after the message was seen: one more match, in 64 bits, if it matches.
  abbrev pub counted : Message → RuleState → RuleState
  counted msg rs =
      if matches_rule lib rs.rule msg
      then record { rule = rs.rule; matches = (rs.matches + 1) % 2 ^ 64 }
      else rs

  -- The goroutines are for rules that the message matches.
  abbrev pub OfMatches : Message → List Job → Type 0
  OfMatches msg jobs = All (λ j. matches_rule lib j.rule msg ≡ true) jobs

  job_for-OfMatches :
      (msg : Message) (rule : Rule) (r : Result RenderError Bytes)
      → matches_rule lib rule msg ≡ true
      → OfMatches msg (job_for lib rule r)
  unfolding job_for
  job_for-OfMatches msg rule (ok payload) h = (h, tt)
  job_for-OfMatches msg rule (err e) h = tt

  pub evaluate_rule_lem :
      (msg : Message) (rs : RuleState) (source : ℕ)
      → ((evaluate_rule lib msg rs source).0 ≡ counted msg rs)
        × OfMatches msg (evaluate_rule lib msg rs source).1
  unfolding evaluate_rule inc_matches
  evaluate_rule_lem msg rs source = elim (Bool-cases (matches_rule lib rs.rule msg)) [
    | inl a ↦ rw (evaluate_rule, a) (refl, job_for-OfMatches msg rs.rule _ a)
    | inr a ↦ rw (evaluate_rule, a) (refl, tt)
  ]

  evaluate_rules_lem :
      (msg : Message) (states : List RuleState) (source : ℕ)
      → ((evaluate_rules lib msg states source).0 ≡ map (counted msg) states)
        × OfMatches msg (evaluate_rules lib msg states source).1
  unfolding evaluate_rules
  evaluate_rules_lem msg [] source = (refl, tt)
  evaluate_rules_lem msg (rs ∷ rest) source =
      let (first, jobs) = evaluate_rule_lem msg rs source in
      let (others, more) = evaluate_rules_lem msg rest (evaluate_rule lib msg rs source).2 in
      (
        rw (first, others) refl,
        All-append (λ j. matches_rule lib j.rule msg ≡ true) (evaluate_rule lib msg rs source).1 _
            jobs more,
      )

  foreign : (msg : Message) → is_own msg ≡ false → is_own (with_direction msg) ≡ false
  unfolding is_own
  foreign msg h = rw (is_own, same_headers msg) h

  module _ {D : Type 0} where
    -- For a message without the header of the loop guard, handleMessage adds one to the counter of each
    -- rule that the message matches (int64, so it wraps around), leaves every other rule alone, and starts responses of such rules only.
    pub matched_rules_count :
        (now : ℕ) (msg : Message) (source : ℕ) (e : Engine D)
        → is_own msg ≡ false
        → let e' = (handle_message lib now msg source e).0 in
          let m = with_direction msg in
          (e'.rules ≡ map (counted m) e.rules)
          × ((started : List Job) × (e'.jobs ≡ e.jobs ++ started) × OfMatches m started)
    unfolding handle_message react record_in_spy
    matched_rules_count now msg source e h =
        let m = with_direction msg in
        let (states, jobs) = evaluate_rules_lem m e.rules source in
        rw (handle_message, react, foreign msg h)
          (states, ((evaluate_rules lib m e.rules source).1, refl, jobs))

  -- The payload of every rule renders.
  abbrev pub Renders : Message → List RuleState → Type 0
  Renders msg states =
      All
        (λ rs.
          (source : ℕ)
          → (b : Bytes) × ((render_payload lib rs.rule.mock_response.payload msg source).0 ≡ ok b))
        states

  evaluate_rule_answers :
      (msg : Message) (rs : RuleState) (source : ℕ) (b : Bytes)
      → (render_payload lib rs.rule.mock_response.payload msg source).0 ≡ ok b
      → map (λ j. j.rule) (evaluate_rule lib msg rs source).1
        ≡ (if matches_rule lib rs.rule msg then rs.rule ∷ [] else [])
  unfolding evaluate_rule job_for
  evaluate_rule_answers msg rs source b h = elim (Bool-cases (matches_rule lib rs.rule msg)) [
    | inl a ↦ rw (evaluate_rule, a, h, job_for) refl
    | inr a ↦ rw (evaluate_rule, a) refl
  ]

  map-append : {A B : Type 0} (f : A → B) (xs ys : List A) → map f (xs ++ ys) ≡ map f xs ++ map f ys
  map-append f [] ys = refl
  map-append f (x ∷ xs) ys = ap (λ t. f x ∷ t) (map-append f xs ys)

  evaluate_rules_answer :
      (msg : Message) (states : List RuleState) (source : ℕ)
      → Renders msg states
      → map (λ j. j.rule) (evaluate_rules lib msg states source).1
        ≡ select (λ r. matches_rule lib r msg) (map (λ rs. rs.rule) states)
  unfolding evaluate_rules
  evaluate_rules_answer msg [] source h = refl
  evaluate_rules_answer msg (rs ∷ rest) source (h, hs) =
      let (b, p) = h source in
      map-append (λ j. j.rule) (evaluate_rule lib msg rs source).1 _
      ∙ rw
          (
            evaluate_rule_answers msg rs source b p,
            evaluate_rules_answer msg rest (evaluate_rule lib msg rs source).2 hs,
          )
          (one rs _)
    where
      one :
          (rs : RuleState) (ys : List Rule)
          → (if matches_rule lib rs.rule msg then rs.rule ∷ [] else []) ++ ys
            ≡ (if matches_rule lib rs.rule msg then rs.rule ∷ ys else ys)
      one rs ys = elim (Bool-cases (matches_rule lib rs.rule msg)) [
        | inl a ↦ rw a refl
        | inr a ↦ rw a refl
      ]

  module _ {D : Type 0} where
    -- If moreover the payload of every rule renders, the responses started are those of the matched
    -- rules, one each, in the order of the rules.
    pub matched_rules_answer :
        (now : ℕ) (msg : Message) (source : ℕ) (e : Engine D)
        → is_own msg ≡ false
        → Renders (with_direction msg) e.rules
        → let m = with_direction msg in
          (started : List Job) × ((handle_message lib now msg source e).0.jobs ≡ e.jobs ++ started)
          × (map (λ j. j.rule) started
              ≡ select (λ r. matches_rule lib r m) (map (λ rs. rs.rule) e.rules))
    unfolding handle_message react record_in_spy
    matched_rules_answer now msg source e h k =
        let m = with_direction msg in
        rw (handle_message, react, foreign msg h)
          ((evaluate_rules lib m e.rules source).1, refl, evaluate_rules_answer m e.rules source k)
