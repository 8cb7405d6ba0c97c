-- ===== src/Main/Run/Release/Startup.antt =====
-- What the first part of runChitchat leaves, up to the start of the engine.
use chitchat.Base.{
  ℕ, ◌==◌, ==_iff, Str, length, and_intro, Bool, true, false, Option, none, some, List, [], ◌∷◌,
  Result, ok, err, ◌≡◌, refl, sym, ◌∙◌, ap, inl, inr, false≢true, Option-cases, branch_lem,
}
use chitchat.Libraries.{Libraries}
use chitchat.Config.Types.{Config}
use chitchat.Broker.Driver.{Driver}
use chitchat.Logger.{warn_all}
use chitchat.Spy.Ring.{RingBuffer, new_ring_buffer}
use chitchat.Spy.Listener.{new_server, with_host, bound, start_server, stop_server}
use chitchat.Engine.State.{Engine, Job, new_engine}
use chitchat.Engine.Lifecycle.{start, stop_begin}
use chitchat.Engine.Lifecycle.Failed.{start_failed}
use chitchat.Engine.Workers.{Workers, is_idle, new_workers, stop_call, stop_wait, work, work_all}
use chitchat.Engine.Workers.Monitor.{Monitored, monitored, unused}
use chitchat.Engine.Workers.Calls.{start-Kept}
use chitchat.Engine.Workers.Order.{Before, After, stop_call-Before, stop_end-Before}
use chitchat.Main.Check.{CheckError, check_config}
use chitchat.Main.Run.{
  RunError, not_checked, not_bound, not_connected, not_started, Ended, Boot, ended, running,
  boot_engine, boot_driver, boot_server, boot_checked, boot,
}
use chitchat.Main.Process.{Log, log_of, SpyServer}

-- The listener is closed, if it was ever opened.
abbrev pub IsDown : Option SpyServer → Type 0
IsDown none = Unit
IsDown (some s) = s.listening ≡ false

module _ {D : Type 0} (drv : Driver D) (d : D) where
  -- After an error up to the driver it is the one that runChitchat began with; after a failed Connect
  -- that is its only call; else it was closed.
  abbrev pub Fate : Option RunError → Monitored D → Type 0
  Fate none m = m.closed ≡ true
  Fate (some (not_checked f)) m = m ≡ unused d
  Fate (some (not_bound x)) m = m ≡ unused d
  Fate (some (not_connected x)) m = (url : Str) × (m ≡ unused (drv.connect url d).1)
  Fate (some (not_started x)) m = m.closed ≡ true

  -- Nothing that was opened is left open, and nothing was used after it was closed.
  abbrev pub Released : Ended (Monitored D) → Type 0
  Released e = IsDown e.server × (e.driver.misused ≡ false) × Fate e.error e.driver

  abbrev pub BootReleased : Boot (Monitored D) → Type 0
  BootReleased (ended e) = Released e
  BootReleased (running r) = Before r.workers × (r.workers.stopping ≡ false)

module _ {D : Type 0} (drv : Driver D) (lib : Libraries) where
  stop_begin_idle :
      (e : Engine (Monitored D)) → is_idle (stop_begin (monitored drv) lib.quote e).0 ≡ is_idle e
  unfolding stop_begin
  stop_begin_idle e =
      branch_lem {A = Engine (Monitored D) × Bool} (λ r. is_idle r.0 ≡ is_idle e) e.stopped _ _
        (λ _. refl) (λ _. refl)

  -- A Stop that finds no worker closes the driver at once.
  closed_at_once :
      (w : Workers (Monitored D))
      → Before w
      → w.engine.loops ≡ 0
      → w.engine.jobs ≡ []
      → After (work_all lib (monitored drv) (stop_call ∷ stop_wait none ∷ []) w)
  unfolding work_all work
  closed_at_once w b l j =
      let w' = work lib (monitored drv) stop_call w in
      let (b', s) = stop_call-Before lib drv w b in
      let idle =
        and_intro ((==_iff w.engine.loops 0).1 l) (ap (λ xs. length {A = Job} xs == 0) j) in
      elim (stop_end-Before lib drv w' b') [
        | inl a ↦ a
        | inr (busy, e) ↦
            absurd (false≢true (sym busy ∙ and_intro s (stop_begin_idle w.engine ∙ idle)))
      ]

  boot_engine-Released :
      (d : D) (l : Log) (warns : List Str) (s : SpyServer) (w : Workers (Monitored D))
      (r : Engine (Monitored D) × Option Str)
      → Before (record w { engine = r.0 })
      → w.stopping ≡ false
      → ((x : Str) → r.1 ≡ some x → (r.0.loops ≡ 0) × (r.0.jobs ≡ []))
      → BootReleased drv d (boot_engine (monitored drv) lib l warns s w r)
  unfolding boot_engine stop_server
  boot_engine-Released d l warns s w (e, none) b n f = (b, n)
  boot_engine-Released d log warns s w (e, some x) b n f =
      let (l, j) = f x refl in
      let a = closed_at_once (record w { engine = e }) b l j in (refl, a.1, a.0)

  boot_driver-Released :
      (cfg : Config) (l : Log) (warns : List Str) (rb : RingBuffer) (s : SpyServer) (d : D)
      → BootReleased drv d (
          boot_driver
            (monitored drv)
            lib
            cfg
            l
            warns
            rb
            s
            ((monitored drv).connect cfg.broker.url (unused d)))
  unfolding boot_driver new_workers new_engine stop_server
  boot_driver-Released cfg l warns rb s d =
      let r = drv.connect cfg.broker.url d in
      let w = new_workers cfg (unused r.1) (some rb) in
      let k = start-Kept drv lib.quote w.engine (refl, refl) in
      let failed = start_failed (monitored drv) lib.quote w.engine in
      elim (Option-cases r.0) [
        | inl a ↦
            rw (boot_driver, a)
              (boot_engine-Released d l warns s w (start (monitored drv) lib.quote w.engine)
                (k.0, k.1) refl (λ x h. ((failed x h).loops, (failed x h).jobs)))
        | inr (x, a) ↦ rw (boot_driver, a) (refl, refl, (cfg.broker.url, refl))
      ]

  bound-Released :
      (cfg : Config) (l : Log) (warns : List Str) (rb : RingBuffer) (s : SpyServer) (addr : Str)
      (r : Result Str ℕ) (d : D)
      → s.listening ≡ false
      → BootReleased drv d
          (boot_server (monitored drv) lib cfg l warns rb (unused d) (bound addr r s))
  unfolding boot_server bound
  bound-Released cfg l warns rb s addr (ok port) d h =
      boot_driver-Released cfg l warns rb (record s { port = port; listening = true }) d
  bound-Released cfg l warns rb s addr (err e) d h = (h, refl, refl)

  boot_checked-Released :
      (listen : Str → Result Str ℕ) (cfg : Config) (l : Log) (d : D)
      (c : List Str × List CheckError)
      → BootReleased drv d (boot_checked (monitored drv) lib listen cfg l (unused d) c)
  unfolding boot_checked start_server new_server with_host
  boot_checked-Released listen cfg l d (warns, []) =
      let (s, rb) =
        new_server {P = Unit {0}} {Q = Unit {0}} cfg.server.port
          (some (new_ring_buffer cfg.server.ring_buffer_size)) in
      bound-Released cfg l (warn_all l warns) rb (with_host cfg.server.host s) _ _ d refl
  boot_checked-Released listen cfg l d (warns, x ∷ xs) = (tt, refl, refl)

  pub boot-Released :
      (listen : Str → Result Str ℕ) (loaded : Result Str Config) (d : D)
      → BootReleased drv d (boot (monitored drv) lib listen loaded (unused d))
  unfolding boot
  boot-Released listen (ok cfg) d =
      boot_checked-Released listen cfg (log_of cfg.logging) d (check_config lib cfg)
  boot-Released listen (err e) d = (tt, refl, refl)
