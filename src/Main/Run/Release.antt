-- ===== src/Main/Run/Release.antt =====
-- What runChitchat leaves behind when it returns.
pub mod Startup
use chitchat.Base.{
  ℕ, ◌==◌, ==_iff, Str, length, and_intro, Bool, true, false, ◌&&◌, Option, none, some, List, [],
  ◌∷◌, Result, ok, err, ◌≡◌, refl, sym, ◌∙◌, ap, inl, inr, false≢true, Option-cases, branch_lem,
}
use chitchat.Libraries.{Libraries}
use chitchat.Config.Types.{Config}
use chitchat.Broker.Driver.{Driver}
use chitchat.Spy.Ring.{RingBuffer, new_ring_buffer}
use chitchat.Spy.Listener.{new_server, with_host, bound, start_server, stop_server}
use chitchat.Engine.State.{Engine, Job, new_engine}
use chitchat.Engine.Lifecycle.{start, stop_begin}
use chitchat.Engine.Lifecycle.Failed.{start_failed}
use chitchat.Engine.Workers.{Workers, is_idle, new_workers, stop_call, stop_wait, work, work_all}
use chitchat.Engine.Workers.Monitor.{Monitored, monitored, unused}
use chitchat.Engine.Workers.Calls.{start-Kept}
use chitchat.Engine.Workers.Order.{Before, After, stop_call-Before, stop_end-Before}
use chitchat.Main.Check.{CheckError, check_config}
use chitchat.Main.Run.{
  RunError, not_checked, not_bound, not_connected, not_started, Ended, Boot, ended, running,
  boot_engine, boot_driver, boot_server, boot_checked, boot, shut_down, serve_until,
}
use chitchat.Main.Process.{SpyServer, Running, Happening, on_workers, happen_all}
use chitchat.Main.Process.Open.{happen_all-StaysOpen}
use chitchat.Main.Run.Release.Startup.{Released, BootReleased, boot-Released}

-- The state at the end of the wait of the shutdown.
module _ {D : Type 0} (drv : Driver D) (lib : Libraries) where
  abbrev pub at_the_end : (before after : List Happening) → Running D → Running D
  at_the_end before after r =
      happen_all drv lib after (on_workers drv lib stop_call (happen_all drv lib before r))

  -- A worker is left, after all that happened.
  abbrev pub IsBusy : (before after : List Happening) → Boot D → Type 0
  IsBusy before after (ended e) = ⊥
  IsBusy before after (running r) = is_idle (at_the_end before after r).workers.engine ≡ false

module _ {D : Type 0} (drv : Driver D) (lib : Libraries) where
  abbrev pub Outcome :
      D
      → (before after : List Happening) → Boot (Monitored D)
      → Option (Ended (Monitored D))
      → Type 0
  Outcome d before after b none = IsBusy (monitored drv) lib before after b
  Outcome d before after b (some e) = Released drv d e

  not_idle :
      (w : Workers (Monitored D))
      → w.stopping ≡ true
      → (w.stopping && is_idle w.engine) ≡ false
      → is_idle w.engine ≡ false
  not_idle w s busy = ap (λ t. t && is_idle w.engine) (sym s) ∙ busy

  shut_down-Released :
      (d : D) (before after : List Happening) (late_server : Option Str) (r : Running (Monitored D))
      → Before r.workers
      → Outcome d before after
          (running r)
          (serve_until (monitored drv) lib before after none late_server (running r))
  unfolding serve_until shut_down work stop_server
  shut_down-Released d before after late_server r b =
      let m = monitored drv in
      let r1 = happen_all m lib before r in
      let (b1, same) = happen_all-StaysOpen drv lib before r b in
      let r2 = on_workers m lib stop_call r1 in
      let (b2, s2) = stop_call-Before lib drv r1.workers b1 in
      let r3 = happen_all m lib after r2 in
      let (b3, s3) = happen_all-StaysOpen drv lib after r2 b2 in
      elim (stop_end-Before lib drv r3.workers b3) [
        | inl a ↦
            branch_lem (Outcome d before after (running r))
              (work lib m (stop_wait none) r3.workers).stopping _ _
              (λ t. absurd (false≢true (sym a.3 ∙ t))) (λ _. (refl, a.1, a.0))
        | inr (busy, e) ↦
            branch_lem (Outcome d before after (running r))
              (work lib m (stop_wait none) r3.workers).stopping _ _
              (λ _. not_idle r3.workers (s3 ∙ s2) busy)
              (λ f. absurd (false≢true (sym f ∙ (ap (λ w. w.stopping) e ∙ (s3 ∙ s2)))))
      ]

  -- For every outcome of its steps and every course of events before and after the signal, if
  -- eng.Stop is not cut off by its context: runChitchat returns unless a worker is left, and when it
  -- returns the listener is closed, the driver was not used after it was closed, and it was closed
  -- unless Connect failed or was never called.
  pub run_releases :
      (before after : List Happening) (late_server : Option Str) (listen : Str → Result Str ℕ)
      (loaded : Result Str Config) (d : D)
      → let b = boot (monitored drv) lib listen loaded (unused d) in
        Outcome d before after b (serve_until (monitored drv) lib before after none late_server b)
  run_releases before after late_server listen loaded d =
      finish (boot (monitored drv) lib listen loaded (unused d))
        (boot-Released drv lib listen loaded d)
    where
      finish :
          (b : Boot (Monitored D))
          → BootReleased drv d b
          → Outcome d before after b
              (serve_until (monitored drv) lib before after none late_server b)
      finish (ended e) h = unfold serve_until in h
      finish (running r) h = shut_down-Released d before after late_server r h.0
