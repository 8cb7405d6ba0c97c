-- ===== src/Engine/Workers/Order.antt =====
-- The order of the last calls: Stop closes the driver after the workers are done.
pub mod Steps
use chitchat.Base.{
  ℕ, ◌==◌, ==_iff, ltb, and_elim, branch_lem, length, Bool, true, false, ◌&&◌, Option, none, some,
  List, [], ◌∷◌, All, ◌≡◌, refl, sym, ◌∙◌, subst, ◌⊎◌, inl, inr, Bool-cases, false≢true, arith,
}
use chitchat.Libraries.{Libraries}
use chitchat.Config.Types.{Config}
use chitchat.Broker.Message.{Message}
use chitchat.Broker.Driver.{Driver}
use chitchat.Spy.Ring.{RingBuffer}
use chitchat.Engine.State.{Engine, Job}
use chitchat.Engine.Lifecycle.{stop_begin, stop_finish}
use chitchat.Engine.Workers.{
  Workers, Event, arrive, receive, loop_done, respond, start_call, reload_call, stop_call,
  stop_wait, channel_size, without, at, is_idle, new_workers, handle_next, respond_with, stop_end,
  work, work_all,
}
use chitchat.Engine.Workers.Monitor.{Monitored, monitored, unused, IsOpen}
use chitchat.Engine.Workers.Calls.{
  Kept, start-Kept, reload-Kept, start_stopped, reload_stopped, handle-Kept, dispatch-Kept,
}
pub use chitchat.Engine.Workers.Order.Steps.{
  Before, After, stop_call-Before, stop_end-Before, arrive-Before, receive-Before, respond-Before,
  loop_done-Before,
}
use chitchat.Engine.Workers.Order.Steps.{
  stop_call-After, stop_end-After, arrive-After, receive-After, respond-After, loop_done-After,
}

-- No Stop is cut off by its context.
abbrev pub IsPatient : Event → Type 0
IsPatient (stop_wait (some x)) = ⊥
IsPatient _ = Unit

abbrev pub IsOrderly : {D : Type 0} → Workers (Monitored D) → Type 0
IsOrderly w = Before w ⊎ After w

module _ (lib : Libraries) {D : Type 0} (drv : Driver D) where
  work-IsOrderly :
      (ev : Event) (w : Workers (Monitored D))
      → IsPatient ev
      → IsOrderly w
      → IsOrderly (work lib (monitored drv) ev w)
  unfolding work
  work-IsOrderly (arrive m) w q (inl h) = inl (arrive-Before lib drv m w h)
  work-IsOrderly (arrive m) w q (inr h) = inr (arrive-After lib drv m w h)
  work-IsOrderly (receive now source) w q (inl h) = inl (receive-Before lib drv now source w h)
  work-IsOrderly (receive now source) w q (inr h) = inr (receive-After lib drv now source w h)
  work-IsOrderly loop_done w q (inl h) = inl (loop_done-Before lib drv w h)
  work-IsOrderly loop_done w q (inr h) = inr (loop_done-After lib drv w h)
  work-IsOrderly (respond i now gave_up) w q (inl h) =
      inl (respond-Before lib drv i now gave_up w h)
  work-IsOrderly (respond i now gave_up) w q (inr h) = inr (respond-After lib drv i now gave_up w h)
  work-IsOrderly start_call w q (inl (o, s)) =
      let k = start-Kept drv lib.quote w.engine o in inl (k.0, k.1 ∙ s)
  work-IsOrderly start_call w q (inr h) =
      subst (λ e. IsOrderly (record w { engine = e }))
        (sym (start_stopped drv lib.quote w.engine h.2)) (inr h)
  work-IsOrderly (reload_call cfg) w q (inl (o, s)) =
      let k = reload-Kept drv lib.quote cfg w.engine o in inl (k.0, k.1 ∙ s)
  work-IsOrderly (reload_call cfg) w q (inr h) =
      subst (λ e. IsOrderly (record w { engine = e }))
        (sym (reload_stopped drv lib.quote cfg w.engine h.2)) (inr h)
  work-IsOrderly stop_call w q (inl h) = inl (stop_call-Before lib drv w h).0
  work-IsOrderly stop_call w q (inr h) = inr (stop_call-After lib drv w h)
  work-IsOrderly (stop_wait none) w q (inl h) = elim (stop_end-Before lib drv w h) [
    | inl a ↦ inr a
    | inr (b, e) ↦ inl (subst Before (sym e) h)
  ]
  work-IsOrderly (stop_wait none) w q (inr h) = inr (stop_end-After lib drv w h)
  work-IsOrderly (stop_wait (some x)) w q h = absurd q

  pub work_all-IsOrderly :
      (evs : List Event) (w : Workers (Monitored D))
      → All IsPatient evs
      → IsOrderly w
      → IsOrderly (work_all lib (monitored drv) evs w)
  unfolding work_all
  work_all-IsOrderly [] w q h = h
  work_all-IsOrderly (ev ∷ evs) w q h =
      work_all-IsOrderly evs (work lib (monitored drv) ev w) q.1 (work-IsOrderly ev w q.0 h)

  -- Whatever the goroutines and the callers do, in any order, as long as no Stop is cut off by its
  -- context: the driver is never called after it was closed, nor closed twice; it stays open
  -- until a Stop that began is past its wait, and once it is closed the engine is stopped and
  -- neither processLoop nor a response is left.
  pub driver_closed_last :
      (cfg : Config) (d : D) (spy : Option RingBuffer) (evs : List Event)
      → All IsPatient evs
      → IsOrderly (work_all lib (monitored drv) evs (new_workers cfg (unused d) spy))
  unfolding new_workers
  driver_closed_last cfg d spy evs q = work_all-IsOrderly evs _ q (inl ((refl, refl), refl))
