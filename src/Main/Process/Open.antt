-- ===== src/Main/Process/Open.antt =====
-- What comes while the process serves leaves the driver open.
use chitchat.Base.{
  Str, Option, none, some, List, [], ◌∷◌, Result, ok, err, ◌≡◌, refl, ◌∙◌, branch_lem, ◌&&◌,
  is_some,
}
use chitchat.Spy.Ring.{RingBuffer}
use chitchat.Spy.Listener.{route}
use chitchat.Libraries.{Libraries}
use chitchat.Config.Types.{Config}
use chitchat.Broker.Driver.{Driver}
use chitchat.Engine.State.{Engine}
use chitchat.Engine.Lifecycle.{reload}
use chitchat.Engine.Workers.{work}
use chitchat.Engine.Workers.Monitor.{Monitored, monitored, IsOpen}
use chitchat.Engine.Workers.Calls.{Kept, reload-Kept}
use chitchat.Engine.Workers.Order.{
  Before, arrive-Before, receive-Before, respond-Before, loop_done-Before,
}
use chitchat.Main.Check.{CheckError, check_config}
use chitchat.Main.Reload.{summarize, apply_checked, reload_config}
use chitchat.Main.Process.{
  Running, Happening, arrive, receive, loop_done, respond, request, Request, Reply, with_buffer,
  answer, calls_reloader, handle_request, reload_hook, happen, happen_all,
}

-- The driver is open, and the flags of Stop are as they were.
abbrev pub StaysOpen : {D : Type 0} → Running (Monitored D) → Running (Monitored D) → Type 0
StaysOpen r r' = Before r'.workers × (r'.workers.stopping ≡ r.workers.stopping)

module _ {D : Type 0} (drv : Driver D) (lib : Libraries) where
  summarize-Kept :
      (next : Config) (warns log : List Str) (e : Engine (Monitored D))
      (r : Engine (Monitored D) × Option Str)
      → Kept e r.0
      → Kept e (summarize (monitored drv) lib next warns log r).0
  unfolding summarize
  summarize-Kept next warns log e (e', none) k = k
  summarize-Kept next warns log e (e', some x) k = k

  apply_checked-Kept :
      (current next : Config) (e : Engine (Monitored D)) (c : List Str × List CheckError)
      → IsOpen e.driver
      → Kept e (apply_checked (monitored drv) lib current next e c).0
  unfolding apply_checked
  apply_checked-Kept current next e (warns, []) h =
      summarize-Kept next warns _ e (reload (monitored drv) lib.quote next e)
        (reload-Kept drv lib.quote next e h)
  apply_checked-Kept current next e (warns, x ∷ xs) h = (h, refl)

  reload_config-Kept :
      (current : Config) (read : Result Str Config) (e : Engine (Monitored D))
      → IsOpen e.driver
      → Kept e (reload_config (monitored drv) lib current read e).0
  unfolding reload_config
  reload_config-Kept current (ok next) e h =
      apply_checked-Kept current next e (check_config lib next) h
  reload_config-Kept current (err x) e h = (h, refl)

  with_buffer-StaysOpen :
      (r : Running (Monitored D)) (o : Option (RingBuffer × Reply))
      → Before r.workers
      → StaysOpen r (with_buffer (monitored drv) lib r o).0
  with_buffer-StaysOpen r none b = (b, refl)
  with_buffer-StaysOpen r (some x) b = (b, refl)

  reload_hook-StaysOpen :
      (first second : Result Str Config) (r : Running (Monitored D))
      → Before r.workers
      → StaysOpen r (reload_hook (monitored drv) lib first second r).0
  unfolding reload_hook
  reload_hook-StaysOpen first second r (o, s) =
      let k = reload_config-Kept r.current first r.workers.engine o in ((k.0, k.1 ∙ s), refl)

  request-StaysOpen :
      (q : Request) (r : Running (Monitored D))
      → Before r.workers
      → StaysOpen r (handle_request (monitored drv) lib q r).0
  unfolding handle_request answer
  request-StaysOpen q r b =
      branch_lem {A = Running (Monitored D) × Option Reply} (λ x. StaysOpen r x.0)
        (calls_reloader (route q.path) q.method && is_some r.server.reloader) _ _
        (λ _.
          let (b', same) = reload_hook-StaysOpen q.first_read q.second_read r b in
          let (b'', same') =
            with_buffer-StaysOpen (reload_hook (monitored drv) lib q.first_read q.second_read r).0 _
              b' in
          (b'', same' ∙ same))
        (λ _. with_buffer-StaysOpen r _ b)

  happen-StaysOpen :
      (h : Happening) (r : Running (Monitored D))
      → Before r.workers
      → StaysOpen r (happen (monitored drv) lib h r)
  unfolding happen work
  happen-StaysOpen (arrive m) r b = (arrive-Before lib drv m r.workers b, refl)
  happen-StaysOpen (receive now source) r b = (receive-Before lib drv now source r.workers b, refl)
  happen-StaysOpen loop_done r b = (loop_done-Before lib drv r.workers b, refl)
  happen-StaysOpen (respond i now gave_up) r b =
      (respond-Before lib drv i now gave_up r.workers b, refl)
  happen-StaysOpen (request q) r b = request-StaysOpen q r b

  pub happen_all-StaysOpen :
      (hs : List Happening) (r : Running (Monitored D))
      → Before r.workers
      → StaysOpen r (happen_all (monitored drv) lib hs r)
  unfolding happen_all
  happen_all-StaysOpen [] r b = (b, refl)
  happen_all-StaysOpen (h ∷ hs) r b =
      let r' = happen (monitored drv) lib h r in
      let (b', same) = happen-StaysOpen h r b in
      let (b'', rest) = happen_all-StaysOpen hs r' b' in (b'', rest ∙ same)
