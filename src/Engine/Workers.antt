-- ===== src/Engine/Workers.antt =====
-- pkg/engine/engine.go: the goroutines around the engine. Each event is what one of them does next:
-- a consumer of the driver, processLoop, a dispatch, or a caller of Start, Reload and Stop; an event
-- that cannot happen changes nothing.
pub mod Monitor
pub mod Calls
pub mod Order
pub mod Drain
pub mod Rules
use chitchat.Base.{
  ℕ, zero, suc, ◌+◌, ◌-◌, ◌==◌, ltb, Str, length, if◌then◌else◌, Bool, true, false, not, ◌&&◌, ◌||◌,
  Option, none, some, is_some, List, [], ◌∷◌, ◌++◌,
}
use chitchat.Libraries.{Libraries}
use chitchat.Config.Types.{Config}
use chitchat.Broker.Message.{Message}
use chitchat.Broker.Driver.{Driver}
use chitchat.Spy.Ring.{RingBuffer}
use chitchat.Engine.State.{Engine, Job, new_engine}
use chitchat.Engine.Lifecycle.{start, reload, stop_begin, stop_finish}
use chitchat.Engine.Handle.{handle_message, dispatch}

-- The engine with its goroutines: those of processLoop that have not returned are the engine's
-- `loops`, those of dispatch its `jobs`. `stopping` tells that a Stop is past e.cancel() and has not
-- returned; a second one finds the flag `stopped` and returns at once.
pub record Workers (D : Type 0) : Type 0 where
  pub engine : Engine D
  pub stopping : Bool

-- `now` is the time, `source` the state of the clock and the random source that templates read.
pub data Event : Type 0 where
  arrive : Message → Event
  receive : (now source : ℕ) → Event
  loop_done : Event
  respond : (index now : ℕ) → (gave_up : Bool) → Event
  start_call : Event
  reload_call : Config → Event
  stop_call : Event
  stop_wait : Option Str → Event

-- make(chan broker.Message, 100)
abbrev pub channel_size : ℕ
channel_size = 100

-- The list without its element at the index.
abbrev pub without : {A : Type 0} → ℕ → List A → List A
without i [] = []
without zero (x ∷ xs) = xs
without (suc i) (x ∷ xs) = x ∷ without i xs

abbrev pub at : {A : Type 0} → ℕ → List A → Option A
at i [] = none
at zero (x ∷ xs) = some x
at (suc i) (x ∷ xs) = at i xs

-- e.wg is at zero.
abbrev pub is_idle : {D : Type 0} → Engine D → Bool
is_idle e = e.loops == 0 && length e.jobs == 0

unfoldable pub new_workers : {D : Type 0} → Config → D → Option RingBuffer → Workers D
unfolding new_engine
new_workers cfg driver spy = record { engine = new_engine cfg driver spy; stopping = false }

module _ (lib : Libraries) {D : Type 0} (drv : Driver D) where
  -- processLoop takes the case of msgChan.
  unfoldable pub handle_next : ℕ → ℕ → List Message → Engine D → Engine D
  handle_next now source [] e = e
  handle_next now source (m ∷ ms) e =
      if e.loops == 0 then e else (handle_message lib now m source (record e { messages = ms })).0

  -- The goroutine of a job runs dispatch and ends.
  unfoldable pub respond_with : ℕ → Bool → Option Job → List Job → Engine D → Engine D
  respond_with now gave_up none rest e = e
  respond_with now gave_up (some job) rest e =
      dispatch lib drv now gave_up job (record e { jobs = rest })

  -- The end of Stop: the wait is over, since the workers are done or since its context is.
  unfoldable pub stop_end : Option Str → Workers D → Workers D
  stop_end late w =
      if w.stopping && (is_some late || is_idle w.engine)
      then record w { engine = (stop_finish drv lib.quote late w.engine).0; stopping = false }
      else w

  unfoldable pub work : Event → Workers D → Workers D
  unfolding handle_next respond_with stop_end
  work (arrive m) w =
      let e = w.engine in
      record w {
        engine =
            if ltb (length e.messages) channel_size
            then record e { messages = e.messages ++ m ∷ [] }
            else e;
      }
  work (receive now source) w = record w {
    engine = handle_next now source w.engine.messages w.engine;
  }
  work loop_done w =
      let e = w.engine in
      record w { engine = if e.cancelled then record e { loops = e.loops - 1 } else e }
  work (respond i now gave_up) w =
      let e = w.engine in
      record w { engine = respond_with now gave_up (at i e.jobs) (without i e.jobs) e }
  work start_call w = record w { engine = (start drv lib.quote w.engine).0 }
  work (reload_call cfg) w = record w { engine = (reload drv lib.quote cfg w.engine).0 }
  work stop_call w =
      let (e, go) = stop_begin drv lib.quote w.engine in
      record w { engine = e; stopping = w.stopping || go }
  work (stop_wait late) w = stop_end late w

  unfoldable pub work_all : List Event → Workers D → Workers D
  work_all [] w = w
  work_all (ev ∷ evs) w = work_all evs (work ev w)
