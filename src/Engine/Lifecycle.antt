-- ===== src/Engine/Lifecycle.antt =====
-- pkg/engine/engine.go: Start, Reload and Stop. A call returns the new state and its error. The
-- engine's lock is held during the whole of Start and Reload.
pub mod Reloads
pub mod Traced
pub mod Failed
use chitchat.Base.{
  ℕ, ◌+◌, Str, codes, elem, if◌then◌else◌, Bool, true, false, not, ◌||◌, Option, none, some, List,
  [], ◌∷◌, ◌++◌,
}
use chitchat.Config.Types.{Config, BrokerConfig, Declarations}
use chitchat.Broker.Driver.{Driver}
use chitchat.Engine.State.{Engine, new_rule_states}
use chitchat.Engine.Queues.{desired_queues}

unfoldable pub topology_text : Str → Str
topology_text e = codes "failed to declare broker topology: " ++ e

unfoldable pub consume_text : (Str → Str) → Str → Str → Str
consume_text quote q e = codes "failed to consume from queue " ++ (quote q ++ (codes ": " ++ e))

unfoldable pub stopped_text : Str
stopped_text = codes "engine has been stopped"

unfoldable pub not_running_text : Str
not_running_text = codes "engine is not running"

unfoldable pub timeout_text : Str → Str
timeout_text e = codes "timed out waiting for engine workers to stop: " ++ e

-- `quote` is strconv.Quote.
module _ {D : Type 0} (drv : Driver D) (quote : Str → Str) where
  -- StartConsuming for one queue; the queue is subscribed if that succeeds.
  unfoldable pub consume : Str → Engine D → Engine D × Option Str
  consume q e =
      let (err, d) = drv.start_consuming q e.driver in
      elim err [
        | none ↦ (record e { driver = d; subscribed = q ∷ e.subscribed }, none)
        | some x ↦ (record e { driver = d }, some (consume_text quote q x))
      ]

  -- The loop of Start over the queues.
  unfoldable pub subscribe_all : List Str → Engine D → Engine D × Option Str
  unfolding consume
  subscribe_all [] e = (e, none)
  subscribe_all (q ∷ qs) e =
      let (e', err) = consume q e in
      let rest = subscribe_all qs e' in elim err [ none ↦ rest | some x ↦ (e', some x) ]

  -- One turn of the loop of Reload, which passes over a queue that is subscribed.
  unfoldable pub subscribe_one : Str → Engine D → Engine D × Option Str
  unfolding consume
  subscribe_one q e = if elem q e.subscribed then (e, none) else consume q e

  -- The loop of Reload.
  unfoldable pub subscribe_new : List Str → Engine D → Engine D × Option Str
  unfolding subscribe_one
  subscribe_new [] e = (e, none)
  subscribe_new (q ∷ qs) e =
      let (e', err) = subscribe_one q e in
      let rest = subscribe_new qs e' in elim err [ none ↦ rest | some x ↦ (e', some x) ]

  -- The end of Start: the flag and the goroutine of processLoop.
  unfoldable pub started : Engine D × Option Str → Engine D × Option Str
  started (e, none) = (record e { running = true; loops = e.loops + 1 }, none)
  started (e, some x) = (e, some x)

  unfoldable pub start : Engine D → Engine D × Option Str
  unfolding subscribe_all started
  start e =
      if e.stopped
      then (e, some stopped_text)
      else if e.running
      then (e, none)
      else let (err, d) = drv.declare_topology e.cfg.broker.declarations e.driver in
        let e' = record e { driver = d } in
        elim err [
          | none ↦ started (subscribe_all (desired_queues e.cfg) e')
          | some x ↦ (e', some (topology_text x))
        ]

  -- The end of Reload: the rules, with fresh counters, and the configuration.
  unfoldable pub reloaded : Config → Engine D × Option Str → Engine D × Option Str
  unfolding new_rule_states
  reloaded cfg (e, none) = (record e { rules = new_rule_states cfg.rules; cfg = cfg }, none)
  reloaded cfg (e, some x) = (e, some x)

  unfoldable pub reload : Config → Engine D → Engine D × Option Str
  unfolding subscribe_new reloaded
  reload cfg e =
      if e.stopped || not e.running
      then (e, some not_running_text)
      else let (err, d) = drv.declare_topology cfg.broker.declarations e.driver in
        let e' = record e { driver = d } in
        elim err [
          | none ↦ reloaded cfg (subscribe_new (desired_queues cfg) e')
          | some x ↦ (e', some (topology_text x))
        ]

  -- Stop up to e.cancel(): whether there is anything left to do, and the state.
  unfoldable pub stop_begin : Engine D → Engine D × Bool
  stop_begin e =
      if e.stopped
      then (e, false)
      else (record e { stopped = true; running = false; cancelled = true }, true)

  join : Option Str → Option Str → List Str
  join none none = []
  join none (some y) = y ∷ []
  join (some x) none = x ∷ []
  join (some x) (some y) = x ∷ y ∷ []

  -- Stop from the wait on: `late` is the error of its context if the workers took too long. The
  -- result holds the errors that errors.Join puts together.
  unfoldable pub stop_finish : Option Str → Engine D → Engine D × List Str
  unfolding join
  stop_finish late e =
      let (err, d) = drv.close e.driver in
      (
        record e { driver = d },
        join (elim late [ none ↦ none | some x ↦ some (timeout_text x) ]) err,
      )

  unfoldable pub stop : Option Str → Engine D → Engine D × List Str
  unfolding stop_begin stop_finish
  stop late e = let (e', go) = stop_begin e in if go then stop_finish late e' else (e', [])
