-- ===== src/Engine/Lifecycle/Traced/Tidy.antt =====
-- The steps of Start, Reload and Stop, and IsTidy over a sequence of their calls.
use chitchat.Base.{
  Str, elem, elem_iff, true, not, ◌||◌, Option, none, some, some≢none, List, [], ◌∷◌, In, Distinct,
  ◌≡◌, ◌⊎◌, inl, inr, refl, sym, ◌∙◌, ap, subst, Bool-cases, Option-cases, arith, false≢true,
}
use chitchat.Config.Types.{Config}
use chitchat.Broker.Driver.{Driver}
use chitchat.Spy.Ring.{RingBuffer}
use chitchat.Engine.State.{Engine, new_engine}
use chitchat.Engine.Queues.{desired_queues}
use chitchat.Engine.Queues.Sorted.{desired_queues_lem}
use chitchat.Engine.Lifecycle.{
  consume, subscribe_one, subscribe_all, subscribe_new, started, start, reloaded, reload,
  stop_begin, stop_finish, stop,
}
use chitchat.Engine.Lifecycle.Traced.{
  Trace, traced, untouched, Call, start_call, reload_call, stop_call, times_closed, call, calls,
  IsTidy, WasStarted, Same, Steps,
}

module _ {D : Type 0} (drv : Driver D) (quote : Str → Str) where
  longer :
      {q : Str} (e : Engine (Trace D))
      → e.driver.consumed ≡ e.subscribed
      → (drv.start_consuming q e.driver.inner).0 ≡ none
      → ((traced drv).start_consuming q e.driver).1.consumed ≡ q ∷ e.subscribed
  longer {q} e c a = rw (traced, a) (ap (λ qs. q ∷ qs) c)

  as_long :
      {q : Str} (e : Engine (Trace D)) {x : Str}
      → e.driver.consumed ≡ e.subscribed
      → (drv.start_consuming q e.driver.inner).0 ≡ some x
      → ((traced drv).start_consuming q e.driver).1.consumed ≡ e.subscribed
  as_long e c a = rw (traced, a) c

  consume_lem :
      (q : Str) (e : Engine (Trace D))
      → ¬ In q e.subscribed
      → IsTidy e
      → Steps e (consume (traced drv) quote q e).0
  unfolding consume
  consume_lem q e n (c, d, k) = elim (Option-cases (drv.start_consuming q e.driver.inner).0) [
    | inl a ↦ rw (consume, traced, a) ((longer e c a, (n, d), k), (refl, refl))
    | inr (x, a) ↦ rw (consume, traced, a) ((as_long e c a, d, k), (refl, refl))
  ]

  consume-In :
      (q p : Str) (e : Engine (Trace D))
      → In p (consume (traced drv) quote q e).0.subscribed
      → (p ≡ q) ⊎ In p e.subscribed
  unfolding consume
  consume-In q p e = elim (Option-cases (drv.start_consuming q e.driver.inner).0) [
    | inl a ↦ rw (consume, a) (λ i. i)
    | inr (x, a) ↦ rw (consume, a) (λ i. inr i)
  ]

  Steps-trans : (a b c : Engine (Trace D)) → Same a b → Steps b c → Steps a c
  Steps-trans a b c (r, s) (t, (r', s')) = (t, (r' ∙ r, s' ∙ s))

  subscribe_all_lem :
      (qs : List Str) (e : Engine (Trace D))
      → Distinct qs
      → ((q : Str) → In q qs → ¬ In q e.subscribed)
      → IsTidy e
      → Steps e (subscribe_all (traced drv) quote qs e).0
  unfolding subscribe_all
  subscribe_all_lem [] e d n t = (t, (refl, refl))
  subscribe_all_lem (q ∷ qs) e d n t =
      let (t', s) = consume_lem q e (n q (inl refl)) t in
      elim (Option-cases (consume (traced drv) quote q e).1) [
        | inl a ↦
            rw (subscribe_all, a)
              (Steps-trans e (consume (traced drv) quote q e).0
                (subscribe_all (traced drv) quote qs (consume (traced drv) quote q e).0).0 s
                (subscribe_all_lem qs (consume (traced drv) quote q e).0 d.1
                  (λ p i j. elim (consume-In q p e j) [
                    | inl w ↦ d.0 (subst (λ x. In x qs) w i)
                    | inr l ↦ n p (inr i) l
                  ])
                  t'))
        | inr (x, a) ↦ rw (subscribe_all, a) (t', s)
      ]

  subscribe_one_lem :
      (q : Str) (e : Engine (Trace D)) → IsTidy e → Steps e (subscribe_one (traced drv) quote q e).0
  unfolding subscribe_one
  subscribe_one_lem q e t = elim (Bool-cases (elem q e.subscribed)) [
    | inl a ↦ rw (subscribe_one, a) (t, (refl, refl))
    | inr a ↦
        rw (subscribe_one, a)
          (consume_lem q e (λ i. false≢true (sym a ∙ (elem_iff q e.subscribed).1 i)) t)
  ]

  subscribe_new_lem :
      (qs : List Str) (e : Engine (Trace D))
      → IsTidy e
      → Steps e (subscribe_new (traced drv) quote qs e).0
  unfolding subscribe_new
  subscribe_new_lem [] e t = (t, (refl, refl))
  subscribe_new_lem (q ∷ qs) e t =
      let e' = (subscribe_one (traced drv) quote q e).0 in
      let (t', s) = subscribe_one_lem q e t in
      elim (Option-cases (subscribe_one (traced drv) quote q e).1) [
        | inl b ↦
            rw (subscribe_new, b)
              (Steps-trans e e' (subscribe_new (traced drv) quote qs e').0 s
                (subscribe_new_lem qs e' t'))
        | inr (x, b) ↦ rw (subscribe_new, b) (t', s)
      ]

  reloaded_lem :
      (cfg : Config) (e : Engine (Trace D)) (r : Engine (Trace D) × Option Str)
      → Steps e r.0
      → Steps e (reloaded (traced drv) quote cfg r).0
  unfolding reloaded
  reloaded_lem cfg e (e', none) t = t
  reloaded_lem cfg e (e', some x) t = t

  reload-Steps :
      (cfg : Config) (e : Engine (Trace D)) → IsTidy e → Steps e (reload (traced drv) quote cfg e).0
  unfolding reload
  reload-Steps cfg e t = elim (Bool-cases (e.stopped || not e.running)) [
    | inl a ↦ rw (reload, a) (t, (refl, refl))
    | inr a ↦ elim (Option-cases (drv.declare_topology cfg.broker.declarations e.driver.inner).0) [
      | inl b ↦
          rw (reload, a, b) (reloaded_lem cfg e _ (subscribe_new_lem (desired_queues cfg) _ t))
      | inr (x, b) ↦ rw (reload, a, b) (t, (refl, refl))
    ]
  ]

  start_again : (e : Engine (Trace D)) → WasStarted e → (start (traced drv) quote e).0 ≡ e
  unfolding start
  start_again e w = elim (Bool-cases e.stopped) [
    | inl a ↦ rw (start, a) refl
    | inr a ↦ elim w [ inl r ↦ rw (start, a, r) refl | inr s ↦ absurd (false≢true (sym a ∙ s)) ]
  ]

  stop_again :
      (late : Option Str) (e : Engine (Trace D))
      → e.stopped ≡ true
      → (stop (traced drv) quote late e).0 ≡ e
  unfolding stop stop_begin
  stop_again late e a = rw (stop, stop_begin, a) refl

  stop_lem :
      (late : Option Str) (e : Engine (Trace D))
      → IsTidy e
      → WasStarted e
      → IsTidy (stop (traced drv) quote late e).0 × WasStarted (stop (traced drv) quote late e).0
  unfolding stop stop_begin stop_finish
  stop_lem late e (c, d, k) w = elim (Bool-cases e.stopped) [
    | inl a ↦ subst (λ x. IsTidy x × WasStarted x) (sym (stop_again late e a)) ((c, d, k), w)
    | inr a ↦ rw (stop, stop_begin, a) ((c, d, ground (arith, k ∙ ap times_closed a)), inr refl)
  ]

  -- A call on an engine that was started before.
  call_lem :
      (c : Call) (e : Engine (Trace D))
      → IsTidy e
      → WasStarted e
      → IsTidy (call (traced drv) quote c e) × WasStarted (call (traced drv) quote c e)
  call_lem start_call e t w = subst (λ x. IsTidy x × WasStarted x) (sym (start_again e w)) (t, w)
  call_lem (reload_call cfg) e t w =
      let (t', (r, s)) = reload-Steps cfg e t in
      (t', elim w [ inl a ↦ inl (r ∙ a) | inr a ↦ inr (s ∙ a) ])
  call_lem (stop_call late) e t w = stop_lem late e t w

  calls_lem :
      (cs : List Call) (e : Engine (Trace D))
      → IsTidy e
      → WasStarted e
      → IsTidy (calls (traced drv) quote cs e)
  calls_lem [] e t w = t
  calls_lem (c ∷ cs) e t w = let (t', w') = call_lem c e t w in calls_lem cs _ t' w'

  started_lem :
      (e : Engine (Trace D)) (r : Engine (Trace D) × Option Str)
      → Steps e r.0
      → (started (traced drv) quote r).1 ≡ none
      → IsTidy (started (traced drv) quote r).0 × WasStarted (started (traced drv) quote r).0
  unfolding started
  started_lem e (e', none) t h = (t.0, inl refl)
  started_lem e (e', some x) t h = absurd (some≢none h)

  start_lem :
      (cfg : Config) (d : D) (spy : Option RingBuffer)
      → (start (traced drv) quote (new_engine cfg (untouched d) spy)).1 ≡ none
      → IsTidy (start (traced drv) quote (new_engine cfg (untouched d) spy)).0
        × WasStarted (start (traced drv) quote (new_engine cfg (untouched d) spy)).0
  unfolding start new_engine
  start_lem cfg d spy =
      let e = new_engine cfg (untouched d) spy in
      let e' = record e {
        driver = ((traced drv).declare_topology cfg.broker.declarations e.driver).1;
      } in
      elim (Option-cases (drv.declare_topology cfg.broker.declarations d).0) [
        | inl b ↦
            rw (start, new_engine, b)
              (started_lem e' (subscribe_all (traced drv) quote (desired_queues cfg) e') (
                subscribe_all_lem (desired_queues cfg) e' (desired_queues_lem cfg).1 (λ q i j. j)
                  (refl, tt, refl)))
        | inr (x, b) ↦ rw (start, new_engine, b) (λ h. absurd (some≢none h))
      ]

  -- Once Start of a new engine succeeds, any sequence of Start, Reload and Stop consumes from exactly
  -- the subscribed queues and from each of them once, and closes the driver once if the engine is
  -- stopped and not at all if it is not.
  pub calls-IsTidy :
      (cfg : Config) (d : D) (spy : Option RingBuffer) (cs : List Call)
      → (start (traced drv) quote (new_engine cfg (untouched d) spy)).1 ≡ none
      → IsTidy (calls (traced drv) quote (start_call ∷ cs) (new_engine cfg (untouched d) spy))
  calls-IsTidy cfg d spy cs h = let (t, w) = start_lem cfg d spy h in calls_lem cs _ t w
