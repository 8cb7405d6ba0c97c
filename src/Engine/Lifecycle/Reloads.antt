-- ===== src/Engine/Lifecycle/Reloads.antt =====
-- Reload replaces the rules or leaves them.
use chitchat.Base.{
  Str, elem, elem_iff, true, false, not, ◌||◌, Option, none, some, List, [], ◌∷◌, subst, In, ◌≡◌,
  ◌⊎◌, inl, inr, refl, sym, ◌∙◌, some≢none, Bool-cases, Option-cases, arith,
}
use chitchat.Config.Types.{Config}
use chitchat.Broker.Driver.{Driver}
use chitchat.Engine.State.{Engine, new_rule_states}
use chitchat.Engine.Queues.{desired_queues}
use chitchat.Engine.Lifecycle.{
  consume, subscribe_one, subscribe_new, reloaded, reload, topology_text, not_running_text,
}

-- The second state differs from the first at most in the driver and the subscribed queues, and no
-- queue is lost.
pub record Keeps {D : Type 0} (e e' : Engine D) : Type 0 where
  pub rules : e'.rules ≡ e.rules
  pub cfg : e'.cfg ≡ e.cfg
  pub running : e'.running ≡ e.running
  pub stopped : e'.stopped ≡ e.stopped
  pub jobs : e'.jobs ≡ e.jobs
  pub loops : e'.loops ≡ e.loops
  pub spy : e'.spy ≡ e.spy
  pub queues : (q : Str) → In q e.subscribed → In q e'.subscribed

pub Keeps-refl : {D : Type 0} (e : Engine D) → Keeps e e
Keeps-refl e = record {
  rules = refl;
  cfg = refl;
  running = refl;
  stopped = refl;
  jobs = refl;
  loops = refl;
  spy = refl;
  queues = λ q i. i;
}

pub Keeps-trans : {D : Type 0} {a b c : Engine D} → Keeps a b → Keeps b c → Keeps a c
Keeps-trans k l = record {
  rules = l.rules ∙ k.rules;
  cfg = l.cfg ∙ k.cfg;
  running = l.running ∙ k.running;
  stopped = l.stopped ∙ k.stopped;
  jobs = l.jobs ∙ k.jobs;
  loops = l.loops ∙ k.loops;
  spy = l.spy ∙ k.spy;
  queues = λ q i. l.queues q (k.queues q i);
}

module _ {D : Type 0} (drv : Driver D) (quote : Str → Str) where
  pub consume-Keeps : (q : Str) (e : Engine D) → Keeps e (consume drv quote q e).0
  unfolding consume
  consume-Keeps q e = elim (Option-cases (drv.start_consuming q e.driver).0) [
    | inl a ↦
        rw (consume, a)
          (record {
            rules = refl;
            cfg = refl;
            running = refl;
            stopped = refl;
            jobs = refl;
            loops = refl;
            spy = refl;
            queues = λ p i. inr i;
          })
    | inr (x, a) ↦
        rw (consume, a)
          (record {
            rules = refl;
            cfg = refl;
            running = refl;
            stopped = refl;
            jobs = refl;
            loops = refl;
            spy = refl;
            queues = λ p i. i;
          })
  ]

  consume-In :
      (q : Str) (e : Engine D)
      → (consume drv quote q e).1 ≡ none
      → In q (consume drv quote q e).0.subscribed
  unfolding consume
  consume-In q e = elim (Option-cases (drv.start_consuming q e.driver).0) [
    | inl a ↦ rw (consume, a) (λ h. inl refl)
    | inr (x, a) ↦ rw (consume, a) (λ h. absurd (some≢none h))
  ]

  subscribe_one-Keeps : (q : Str) (e : Engine D) → Keeps e (subscribe_one drv quote q e).0
  unfolding subscribe_one
  subscribe_one-Keeps q e = elim (Bool-cases (elem q e.subscribed)) [
    | inl a ↦ rw (subscribe_one, a) (Keeps-refl e)
    | inr a ↦ rw (subscribe_one, a) (consume-Keeps q e)
  ]

  subscribe_one-In :
      (q : Str) (e : Engine D)
      → (subscribe_one drv quote q e).1 ≡ none
      → In q (subscribe_one drv quote q e).0.subscribed
  unfolding subscribe_one
  subscribe_one-In q e = elim (Bool-cases (elem q e.subscribed)) [
    | inl a ↦ rw (subscribe_one, a) (λ h. (elem_iff q e.subscribed).0 a)
    | inr a ↦ rw (subscribe_one, a) (consume-In q e)
  ]

  subscribe_new-Keeps : (qs : List Str) (e : Engine D) → Keeps e (subscribe_new drv quote qs e).0
  unfolding subscribe_new
  subscribe_new-Keeps [] e = Keeps-refl e
  subscribe_new-Keeps (q ∷ qs) e =
      let e' = (subscribe_one drv quote q e).0 in
      elim (Option-cases (subscribe_one drv quote q e).1) [
        | inl b ↦
            rw (subscribe_new, b)
              (Keeps-trans (subscribe_one-Keeps q e) (subscribe_new-Keeps qs e'))
        | inr (x, b) ↦ rw (subscribe_new, b) (subscribe_one-Keeps q e)
      ]

  -- Without an error, every queue of the list is subscribed.
  subscribe_new-In :
      (qs : List Str) (e : Engine D) (p : Str)
      → (subscribe_new drv quote qs e).1 ≡ none
      → In p qs
      → In p (subscribe_new drv quote qs e).0.subscribed
  unfolding subscribe_new
  subscribe_new-In [] e p = λ h i. absurd i
  subscribe_new-In (q ∷ qs) e p =
      let e' = (subscribe_one drv quote q e).0 in
      elim (Option-cases (subscribe_one drv quote q e).1) [
        | inl b ↦
            rw (subscribe_new, b)
              (λ h i. elim i [
                | inl w ↦
                    (subscribe_new-Keeps qs e').queues p
                      (subst (λ x. In x e'.subscribed) (sym w) (subscribe_one-In q e b))
                | inr j ↦ subscribe_new-In qs e' p h j
              ])
        | inr (x, b) ↦ rw (subscribe_new, b) (λ h i. absurd (some≢none h))
      ]

  -- What a call of Reload may do: fail and change nothing but the driver and the subscriptions, or
  -- install the configuration.
  abbrev pub Reloads : Config → Engine D → Engine D × Option Str → Type 0
  Reloads cfg e r =
      ((x : Str) × (r.1 ≡ some x) × Keeps e r.0)
      ⊎ ((r.1 ≡ none)
          × (e.stopped ≡ false)
          × (e.running ≡ true)
          × (r.0.cfg ≡ cfg)
          × (r.0.rules ≡ new_rule_states cfg.rules)
          × ((q : Str) → In q (desired_queues cfg) → In q r.0.subscribed)
          × ((q : Str) → In q e.subscribed → In q r.0.subscribed)
          × (r.0.spy ≡ e.spy))

  -- A step that failed, or the queues' loop and the end of Reload.
  finished :
      (cfg : Config) (e e' : Engine D)
      → Keeps e e'
      → e.stopped ≡ false
      → e.running ≡ true
      → Reloads cfg e (reloaded drv quote cfg (subscribe_new drv quote (desired_queues cfg) e'))
  unfolding reloaded
  finished cfg e e' k s r =
      let qs = desired_queues cfg in
      let l = Keeps-trans k (subscribe_new-Keeps qs e') in
      go (subscribe_new drv quote qs e') l (λ q. subscribe_new-In qs e' q)
    where
      go :
          (t : Engine D × Option Str)
          → Keeps e t.0
          → ((q : Str) → t.1 ≡ none → In q (desired_queues cfg) → In q t.0.subscribed)
          → Reloads cfg e (reloaded drv quote cfg t)
      go (t, none) l i = inr (refl, s, r, refl, refl, (λ q. i q refl), l.queues, l.spy)
      go (t, some x) l i = inl (x, refl, l)

  -- Reload fails, and then differs from the state before at most in the driver and in queues that it
  -- subscribed; or it has no error, and then the engine was running and not stopped, it has the new
  -- configuration and its rules with fresh counters, every queue that the new configuration asks for
  -- is subscribed, no subscribed queue is lost, and the spy's buffer is the one of before.
  pub reload_lem : (cfg : Config) (e : Engine D) → Reloads cfg e (reload drv quote cfg e)
  unfolding reload
  reload_lem cfg e = elim (Bool-cases (e.stopped || not e.running)) [
    | inl a ↦ rw (reload, a) (inl (not_running_text, refl, Keeps-refl e))
    | inr a ↦ elim (Option-cases (drv.declare_topology cfg.broker.declarations e.driver).0) [
      | inl b ↦
          rw (reload, a, b)
            (finished cfg e
              (record e { driver = (drv.declare_topology cfg.broker.declarations e.driver).1 })
              (moved e) (ground arith) (ground arith))
      | inr (x, b) ↦ rw (reload, a, b) (inl (topology_text x, refl, moved e))
    ]
  ]
    where
      moved : (e : Engine D) {d : D} → Keeps e (record e { driver = d })
      moved e = record {
        rules = refl;
        cfg = refl;
        running = refl;
        stopped = refl;
        jobs = refl;
        loops = refl;
        spy = refl;
        queues = λ q i. i;
      }
