-- ===== src/Engine/Handle/Snapshot/Stages.antt =====
-- The stages of a handler, and that every move leads from one to the next.
use mathlib.Core.List.{append-nil, append_assoc}
use chitchat.Base.{
  ℕ, ◌+◌, ◌<◌, ◌==◌, Str, if◌then◌else◌, Bool, true, false, ◌&&◌, Option, none, some, some≢none,
  List, [], ◌∷◌, ◌++◌, length, length-append, ◌≡◌, refl, sym, ap, ◌∙◌, subst, ◌⊎◌, inl, inr,
  branch_lem, Option-cases, arith,
}
use chitchat.Base.Int.{gt_nat}
use chitchat.Libraries.{Libraries}
use chitchat.Config.Types.{Config, Rule}
use chitchat.Broker.Message.{Bytes}
use chitchat.Broker.Driver.{Driver}
use chitchat.Engine.State.{Engine, RuleState, Job, inc_matches, new_rule_states}
use chitchat.Engine.Matcher.{matches_rule}
use chitchat.Engine.Lifecycle.{reload}
use chitchat.Engine.Lifecycle.Reloads.{Reloads, reload_lem}
use chitchat.Engine.Handle.{
  record_in_spy, evaluate_rule, evaluate_rules, publish_response, response_headers, dispatch,
}
use chitchat.Engine.Handle.Counts.{evaluate_rule_lem}
use chitchat.Engine.Handle.Snapshot.{
  Handler, Handling, Move, turn, reload_call, respond, count_at, take_turn, proceed,
  next_generation, move, move_all,
}

count_at_lem :
    (b : Bool) (done : List RuleState) (rs : RuleState) (rest : List RuleState)
    → (if b then count_at (length done) (done ++ (rs ∷ rest)) else done ++ (rs ∷ rest))
      ≡ (done ++ (if b then inc_matches rs else rs) ∷ []) ++ rest
unfolding count_at
count_at_lem true [] rs rest = refl
count_at_lem true (d ∷ done) rs rest = ap (λ x. d ∷ x) (count_at_lem true done rs rest)
count_at_lem false done rs rest = sym (append_assoc done (rs ∷ []) rest)

-- Whether incMatches counts on the rules that the engine has.
this_generation : (b : Bool) (k h : ℕ) → k ≡ 0 → h ≡ 0 → (b && k == h) ≡ b
this_generation b k h z g = ground arith

past_generation : (b : Bool) (k h : ℕ) → k ≡ 0 → 0 < h → (b && k == h) ≡ false
past_generation b k h z g = ground arith

-- The engine has fresh rules since the handler began.
abbrev pub Replaced : {D : Type 0} → Handling D → Type 0
Replaced h = (0 < h.generation) × (h.engine.rules ≡ new_rule_states h.engine.cfg.rules)

module _ (lib : Libraries) {D : Type 0} (states : List RuleState) (jobs : List Job) where
  -- The counters of the snapshot are those up to the handler's place.
  abbrev pub Current : Handler → Handling D → Type 0
  Current k h =
      (h.generation ≡ 0)
      × ((done : List RuleState) × (length done ≡ k.index)
          × (h.engine.rules ≡ done ++ k.rest)
          × (done ++ (evaluate_rules lib k.message k.rest h.source).0 ≡ states))

  -- `states` and `jobs` are what the handler ends with, if no reload comes.
  abbrev pub Stage : Handling D → Option Handler → Type 0
  Stage h none =
      (h.started ≡ jobs) × (((h.generation ≡ 0) × (h.engine.rules ≡ states)) ⊎ Replaced h)
  Stage h (some k) =
      (h.started ++ (evaluate_rules lib k.message k.rest h.source).1 ≡ jobs)
      × (k.generation ≡ 0)
      × (Current k h ⊎ Replaced h)

  -- What leaves the rules alone leaves the stage alone.
  engine-Stage :
      (h : Handling D) (e : Engine D) (o : Option Handler)
      → e.rules ≡ h.engine.rules
      → e.cfg ≡ h.engine.cfg
      → Stage h o
      → Stage (record h { engine = e }) o
  engine-Stage h e none r c (s, inl (g, k)) = (s, inl (g, r ∙ k))
  engine-Stage h e none r c (s, inr (g, k)) =
      (s, inr (g, r ∙ (k ∙ ap (λ x. new_rule_states x.rules) (sym c))))
  engine-Stage h e (some k) r c (s, z, inl (g, (done, l, k', f))) =
      (s, z, inl (g, (done, l, r ∙ k', f)))
  engine-Stage h e (some k) r c (s, z, inr (g, k')) =
      (s, z, inr (g, r ∙ (k' ∙ ap (λ x. new_rule_states x.rules) (sym c))))

  -- New rules are a new generation.
  replaced-Stage :
      (h : Handling D) (e : Engine D) (o : Option Handler)
      → e.rules ≡ new_rule_states e.cfg.rules
      → Stage h o
      → Stage (record h { engine = e; generation = h.generation + 1 }) o
  replaced-Stage h e none r (s, x) = (s, inr (omega arith, r))
  replaced-Stage h e (some k) r (s, z, x) = (s, z, inr (omega arith, r))

  turn-Current :
      (rs : RuleState) (rest : List RuleState) (k : Handler) (h : Handling D)
      → k.generation ≡ 0
      → Current (record k { rest = rs ∷ rest }) h
      → Current
          (record k { rest = rest; index = k.index + 1 })
          (record (take_turn lib (rs ∷ rest) k h) {
            handler = some (record k { rest = rest; index = k.index + 1 });
          })
  unfolding take_turn evaluate_rules inc_matches
  turn-Current rs rest k h z (g, (done, l, r, f)) =
      let matches = matches_rule lib rs.rule k.message in
      let rs' = (evaluate_rule lib k.message rs h.source).0 in
      let same = this_generation matches k.generation h.generation z g in
      (
        g,
        (
          done ++ rs' ∷ [],
          omega (arith, length-append done (rs' ∷ []), l),
          ap (λ b. if b then count_at k.index h.engine.rules else h.engine.rules) same
              ∙ (ap (λ xs. if matches then count_at k.index xs else xs) r
                  ∙ (ap
                        (λ i.
                          if matches then count_at i (done ++ (rs ∷ rest)) else done ++ (rs ∷ rest))
                        (sym l)
                      ∙ (count_at_lem matches done rs rest
                          ∙ ap (λ x. (done ++ x ∷ []) ++ rest)
                              (sym (evaluate_rule_lem lib k.message rs h.source).0)))),
          append_assoc done (rs' ∷ []) _ ∙ f,
        ),
      )

  turn-Stage :
      (rest : List RuleState) (k : Handler) (h : Handling D)
      → Stage h (some (record k { rest = rest }))
      → Stage (take_turn lib rest k h) (take_turn lib rest k h).handler
  unfolding take_turn evaluate_rules inc_matches
  turn-Stage [] k h (s, z, x) = (
    sym (append-nil h.started) ∙ s,
    elim x [ inl (g, (done, l, r, f)) ↦ inl (g, r ∙ f) | inr y ↦ inr y ],
  )
  turn-Stage (rs ∷ rest) k h (s, z, x) = (
    append_assoc h.started (evaluate_rule lib k.message rs h.source).1 _ ∙ s,
    z,
    elim x [
      | inl c ↦ inl (turn-Current rs rest k h z c)
      | inr (g, r) ↦ inr (
        g,
        ap (λ b. if b then count_at k.index h.engine.rules else h.engine.rules)
              (past_generation (matches_rule lib rs.rule k.message) k.generation h.generation z g)
            ∙ r,
      )
    ],
  )

  proceed-Stage :
      (o : Option Handler) (h : Handling D)
      → h.handler ≡ o
      → Stage h o
      → Stage (proceed lib o h) (proceed lib o h).handler
  proceed-Stage none h e s = subst (Stage h) (sym e) s
  proceed-Stage (some k) h e s = turn-Stage k.rest k h s

  reload-Stage :
      (drv : Driver D) (cfg : Config) (h : Handling D) (r : Engine D × Option Str)
      → Reloads drv lib.quote cfg h.engine r
      → Stage h h.handler
      → Stage (record h { engine = r.0; generation = next_generation h.generation r.1 }) h.handler
  reload-Stage drv cfg h (e, none) (inl (x, f, k)) s = absurd cc
  reload-Stage drv cfg h (e, some y) (inl (x, f, k)) s = engine-Stage h e h.handler k.rules k.cfg s
  reload-Stage drv cfg h (e, none) (inr w) s =
      replaced-Stage h e h.handler (w.4 ∙ ap (λ x. new_rule_states x.rules) (sym w.3)) s
  reload-Stage drv cfg h (e, some y) (inr w) s = absurd (some≢none w.0)

  publish_rules :
      (drv : Driver D) (now : ℕ) (r : Rule) (payload : Bytes) (e : Engine D)
      → let e' = publish_response lib drv now r payload e in (e'.rules ≡ e.rules) × (e'.cfg ≡ e.cfg)
  unfolding publish_response record_in_spy
  publish_rules drv now r payload e =
      elim (Option-cases
        (drv.publish r.mock_response.exchange r.mock_response.routing_key payload
          (response_headers r) e.driver).0) [
            | inl a ↦ rw (publish_response, a) (refl, refl)
            | inr (x, a) ↦ rw (publish_response, a) (refl, refl)
          ]

  dispatch_rules :
      (drv : Driver D) (now : ℕ) (gave_up : Bool) (job : Job) (e : Engine D)
      → let e' = dispatch lib drv now gave_up job e in (e'.rules ≡ e.rules) × (e'.cfg ≡ e.cfg)
  unfolding dispatch
  dispatch_rules drv now gave_up job e =
      branch_lem (λ (e' : Engine D). (e'.rules ≡ e.rules) × (e'.cfg ≡ e.cfg))
        (gt_nat job.rule.mock_response.delay_ms 0 && gave_up && e.cancelled) _ _ (λ _. (refl, refl))
        (λ _. publish_rules drv now job.rule job.payload e)

  move-Stage :
      (drv : Driver D) (m : Move) (h : Handling D)
      → Stage h h.handler
      → Stage (move lib drv m h) (move lib drv m h).handler
  unfolding move
  move-Stage drv turn h s = proceed-Stage h.handler h refl s
  move-Stage drv (reload_call cfg) h s =
      reload-Stage drv cfg h (reload drv lib.quote cfg h.engine)
        (reload_lem drv lib.quote cfg h.engine) s
  move-Stage drv (respond now gave_up job) h s =
      let (r, c) = dispatch_rules drv now gave_up job h.engine in
      engine-Stage h (dispatch lib drv now gave_up job h.engine) h.handler r c s

  pub move_all-Stage :
      (drv : Driver D) (ms : List Move) (h : Handling D)
      → Stage h h.handler
      → Stage (move_all lib drv ms h) (move_all lib drv ms h).handler
  unfolding move_all
  move_all-Stage drv [] h s = s
  move_all-Stage drv (m ∷ ms) h s = move_all-Stage drv ms (move lib drv m h) (move-Stage drv m h s)
