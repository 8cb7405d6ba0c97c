-- ===== src/Engine/Lifecycle/Failed.antt =====
-- What Start leaves alone, and what it leaves alone if it fails.
use chitchat.Base.{
  branch_lem, Str, Option, none, some, some≢none, List, [], ◌∷◌, ◌≡◌, refl, sym, inl, inr,
  Option-cases,
}
use chitchat.Broker.Driver.{Driver}
use chitchat.Engine.State.{Engine}
use chitchat.Engine.Queues.{desired_queues}
use chitchat.Engine.Lifecycle.{consume, subscribe_all, started, start}
use chitchat.Engine.Lifecycle.Reloads.{Keeps, Keeps-refl, Keeps-trans, consume-Keeps}

module _ {D : Type 0} (drv : Driver D) (quote : Str → Str) where
  subscribe_all-Keeps : (qs : List Str) (e : Engine D) → Keeps e (subscribe_all drv quote qs e).0
  unfolding subscribe_all
  subscribe_all-Keeps [] e = Keeps-refl e
  subscribe_all-Keeps (q ∷ qs) e =
      let e' = (consume drv quote q e).0 in
      let k = consume-Keeps drv quote q e in
      elim (Option-cases (consume drv quote q e).1) [
        | inl a ↦ rw (subscribe_all, a) (Keeps-trans k (subscribe_all-Keeps qs e'))
        | inr (x, a) ↦ rw (subscribe_all, a) k
      ]

  -- It failed, so it keeps.
  abbrev pub FailedKeeps : Engine D → Engine D × Option Str → Type 0
  FailedKeeps e r = (x : Str) → r.1 ≡ some x → Keeps e r.0

  started_failed :
      (e : Engine D) (r : Engine D × Option Str) → Keeps e r.0 → FailedKeeps e (started drv quote r)
  unfolding started
  started_failed e (e', none) k x h = absurd (some≢none (sym h))
  started_failed e (e', some y) k x h = k

  pub start_failed : (e : Engine D) → FailedKeeps e (start drv quote e)
  unfolding start
  start_failed e =
      let (err, d) = drv.declare_topology e.cfg.broker.declarations e.driver in
      let e' = record e { driver = d } in
      branch_lem (FailedKeeps e) e.stopped _ _ (λ _ x h. Keeps-refl e)
        (λ _.
          branch_lem (FailedKeeps e) e.running _ _ (λ _ x h. Keeps-refl e)
            (λ _. elim (Option-cases err) [
              | inl a ↦
                  rw a (
                    started_failed e _
                      (kept_with d (subscribe_all-Keeps (desired_queues e.cfg) e')))
              | inr (y, a) ↦ rw a (λ x h. kept_with d (Keeps-refl e'))
            ]))
    where
      kept_with : (d : D) {e' : Engine D} → Keeps (record e { driver = d }) e' → Keeps e e'
      kept_with d k = record {
        rules = k.rules;
        cfg = k.cfg;
        running = k.running;
        stopped = k.stopped;
        jobs = k.jobs;
        loops = k.loops;
        spy = k.spy;
        queues = k.queues;
      }

  abbrev pub SameRules : Engine D → Engine D × Option Str → Type 0
  SameRules e r = (r.0.cfg ≡ e.cfg) × (r.0.rules ≡ e.rules) × (r.0.spy ≡ e.spy)

  started_same :
      (e : Engine D) (r : Engine D × Option Str) → SameRules e r → SameRules e (started drv quote r)
  unfolding started
  started_same e (e', none) h = h
  started_same e (e', some x) h = h

  pub start_same : (e : Engine D) → SameRules e (start drv quote e)
  unfolding start
  start_same e =
      let (err, d) = drv.declare_topology e.cfg.broker.declarations e.driver in
      let e' = record e { driver = d } in
      let k = subscribe_all-Keeps (desired_queues e.cfg) e' in
      branch_lem (SameRules e) e.stopped _ _ (λ _. (refl, refl, refl))
        (λ _.
          branch_lem (SameRules e) e.running _ _ (λ _. (refl, refl, refl))
            (λ _. elim (Option-cases err) [
              | inl a ↦ rw a (started_same e _ (k.cfg, k.rules, k.spy))
              | inr (y, a) ↦ rw a (refl, refl, refl)
            ]))
