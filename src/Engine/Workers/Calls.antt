-- ===== src/Engine/Workers/Calls.antt =====
-- The calls of a monitored driver that Start, Reload, handleMessage and dispatch make.
use chitchat.Base.{
  branch_lem, ℕ, Str, elem, Bool, true, not, ◌&&◌, ◌||◌, Option, none, some, List, [], ◌∷◌, ◌≡◌,
  refl, ◌∙◌, inl, inr, Option-cases,
}
use chitchat.Base.Int.{gt_nat}
use chitchat.Libraries.{Libraries}
use chitchat.Config.Types.{Config, Rule}
use chitchat.Broker.Message.{Message, Bytes}
use chitchat.Broker.Driver.{Driver}
use chitchat.Engine.State.{Engine, Job}
use chitchat.Engine.Queues.{desired_queues}
use chitchat.Engine.Lifecycle.{
  consume, subscribe_one, subscribe_all, subscribe_new, started, start, reloaded, reload,
}
use chitchat.Engine.Handle.{
  with_direction, record_in_spy, is_own, react, handle_message, publish_response, response_headers,
  dispatch,
}
use chitchat.Engine.Workers.Monitor.{Monitored, monitored, used, IsOpen, used-IsOpen}

-- The driver is open after a step too, and the step leaves the flag of Stop alone.
abbrev pub Kept : {D : Type 0} → Engine (Monitored D) → Engine (Monitored D) → Type 0
Kept e e' = IsOpen e'.driver × (e'.stopped ≡ e.stopped)

abbrev Keeps : {D A : Type 0} → Engine (Monitored D) → Engine (Monitored D) × A → Type 0
Keeps e r = Kept e r.0

module _ {D : Type 0} (drv : Driver D) (quote : Str → Str) where
  consume-Kept :
      (q : Str) (e : Engine (Monitored D))
      → IsOpen e.driver
      → Kept e (consume (monitored drv) quote q e).0
  unfolding consume
  consume-Kept q e h =
      let kept = used-IsOpen e.driver (drv.start_consuming q e.driver.inner).1 h in
      elim (Option-cases (drv.start_consuming q e.driver.inner).0) [
        | inl a ↦ rw (consume, monitored, a) (kept, refl)
        | inr (x, a) ↦ rw (consume, monitored, a) (kept, refl)
      ]

  -- What one turn of a loop over queues keeps, the loop keeps.
  subscribe_all-Kept :
      (qs : List Str) (e : Engine (Monitored D))
      → IsOpen e.driver
      → Kept e (subscribe_all (monitored drv) quote qs e).0
  unfolding subscribe_all
  subscribe_all-Kept [] e h = (h, refl)
  subscribe_all-Kept (q ∷ qs) e h =
      let e' = (consume (monitored drv) quote q e).0 in
      let k = consume-Kept q e h in
      elim (Option-cases (consume (monitored drv) quote q e).1) [
        | inl a ↦ let k' = subscribe_all-Kept qs e' k.0 in rw (subscribe_all, a) (k'.0, k'.1 ∙ k.1)
        | inr (x, a) ↦ rw (subscribe_all, a) k
      ]

  subscribe_one-Kept :
      (q : Str) (e : Engine (Monitored D))
      → IsOpen e.driver
      → Kept e (subscribe_one (monitored drv) quote q e).0
  unfolding subscribe_one
  subscribe_one-Kept q e h =
      branch_lem (Keeps e) (elem q e.subscribed) _ _ (λ _. (h, refl)) (λ _. consume-Kept q e h)

  subscribe_new-Kept :
      (qs : List Str) (e : Engine (Monitored D))
      → IsOpen e.driver
      → Kept e (subscribe_new (monitored drv) quote qs e).0
  unfolding subscribe_new
  subscribe_new-Kept [] e h = (h, refl)
  subscribe_new-Kept (q ∷ qs) e h =
      let e' = (subscribe_one (monitored drv) quote q e).0 in
      let k = subscribe_one-Kept q e h in
      elim (Option-cases (subscribe_one (monitored drv) quote q e).1) [
        | inl a ↦ let k' = subscribe_new-Kept qs e' k.0 in rw (subscribe_new, a) (k'.0, k'.1 ∙ k.1)
        | inr (x, a) ↦ rw (subscribe_new, a) k
      ]

  started-Kept :
      (e : Engine (Monitored D)) (r : Engine (Monitored D) × Option Str)
      → Kept e r.0
      → Kept e (started (monitored drv) quote r).0
  unfolding started
  started-Kept e (e', none) k = k
  started-Kept e (e', some x) k = k

  reloaded-Kept :
      (cfg : Config) (e : Engine (Monitored D)) (r : Engine (Monitored D) × Option Str)
      → Kept e r.0
      → Kept e (reloaded (monitored drv) quote cfg r).0
  unfolding reloaded
  reloaded-Kept cfg e (e', none) k = k
  reloaded-Kept cfg e (e', some x) k = k

  -- Start declares the topology of the engine's configuration, and Reload that of the new one.
  pub start-Kept :
      (e : Engine (Monitored D)) → IsOpen e.driver → Kept e (start (monitored drv) quote e).0
  unfolding start
  start-Kept e h =
      let d = (drv.declare_topology e.cfg.broker.declarations e.driver.inner).1 in
      let o = used-IsOpen e.driver d h in
      let e' = record e { driver = used e.driver d } in
      branch_lem (Keeps e) e.stopped _ _ (λ _. (h, refl))
        (λ _.
          branch_lem (Keeps e) e.running _ _ (λ _. (h, refl))
            (λ _.
              elim (Option-cases
                (drv.declare_topology e.cfg.broker.declarations e.driver.inner).0) [
                  | inl a ↦
                      rw (monitored, a)
                        (started-Kept e _ (subscribe_all-Kept (desired_queues e.cfg) e' o))
                  | inr (x, a) ↦ rw (monitored, a) (o, refl)
                ]))

  pub reload-Kept :
      (cfg : Config) (e : Engine (Monitored D))
      → IsOpen e.driver
      → Kept e (reload (monitored drv) quote cfg e).0
  unfolding reload
  reload-Kept cfg e h =
      let d = (drv.declare_topology cfg.broker.declarations e.driver.inner).1 in
      let o = used-IsOpen e.driver d h in
      let e' = record e { driver = used e.driver d } in
      branch_lem (Keeps e) (e.stopped || not e.running) _ _ (λ _. (h, refl))
        (λ _. elim (Option-cases (drv.declare_topology cfg.broker.declarations e.driver.inner).0) [
          | inl a ↦
              rw (monitored, a)
                (reloaded-Kept cfg e _ (subscribe_new-Kept (desired_queues cfg) e' o))
          | inr (x, a) ↦ rw (monitored, a) (o, refl)
        ])

  -- A stopped engine is left alone by Start and Reload.
  pub start_stopped :
      (e : Engine (Monitored D)) → e.stopped ≡ true → (start (monitored drv) quote e).0 ≡ e
  unfolding start
  start_stopped e s = rw (start, s) refl

  pub reload_stopped :
      (cfg : Config) (e : Engine (Monitored D))
      → e.stopped ≡ true
      → (reload (monitored drv) quote cfg e).0 ≡ e
  unfolding reload
  reload_stopped cfg e s = rw (reload, s) refl

module _ (lib : Libraries) {D : Type 0} (drv : Driver D) where
  -- handleMessage makes no call of the driver.
  pub handle-Kept :
      (now source : ℕ) (msg : Message) (e : Engine (Monitored D))
      → IsOpen e.driver
      → Kept e (handle_message lib now msg source e).0
  unfolding handle_message react record_in_spy
  handle-Kept now source msg e h =
      branch_lem (Keeps e) (is_own (with_direction msg)) _ _ (λ _. (h, refl)) (λ _. (h, refl))

  publish-Kept :
      (now : ℕ) (r : Rule) (payload : Bytes) (e : Engine (Monitored D))
      → IsOpen e.driver
      → Kept e (publish_response lib (monitored drv) now r payload e)
  unfolding publish_response record_in_spy
  publish-Kept now r payload e h =
      let (failed, d) =
        drv.publish r.mock_response.exchange r.mock_response.routing_key payload
          (response_headers r) e.driver.inner in
      let o = used-IsOpen e.driver d h in
      elim (Option-cases failed) [
        | inl a ↦ rw (publish_response, monitored, a) (o, refl)
        | inr (x, a) ↦ rw (publish_response, monitored, a) (o, refl)
      ]

  pub dispatch-Kept :
      (now : ℕ) (gave_up : Bool) (job : Job) (e : Engine (Monitored D))
      → IsOpen e.driver
      → Kept e (dispatch lib (monitored drv) now gave_up job e)
  unfolding dispatch
  dispatch-Kept now gave_up job e h =
      branch_lem (Kept e) (gt_nat job.rule.mock_response.delay_ms 0 && gave_up && e.cancelled) _ _
        (λ _. (h, refl)) (λ _. publish-Kept now job.rule job.payload e h)
