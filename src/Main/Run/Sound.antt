-- ===== src/Main/Run/Sound.antt =====
-- The configuration of the engine from the start of the process on.
use chitchat.Base.{
  is_some, ℕ, Str, Option, none, some, List, [], ◌∷◌, Result, ok, err, ◌≡◌, refl, ◌∙◌, ap,
}
use chitchat.Libraries.{Libraries}
use chitchat.Config.Types.{Config}
use chitchat.Broker.Driver.{Driver}
use chitchat.Spy.Ring.{RingBuffer}
use chitchat.Engine.State.{Engine, new_engine}
use chitchat.Engine.Lifecycle.{start}
use chitchat.Engine.Lifecycle.Failed.{start_same}
use chitchat.Engine.Workers.{Workers, new_workers}
use chitchat.Engine.Workers.Rules.{rules_of, new_rules}
use chitchat.Main.Check.{CheckError, check_config}
use chitchat.Main.Check.Exact.{IsSound, check_config_iff}
use chitchat.Main.Run.{
  Boot, ended, running, boot_engine, boot_driver, boot_server, boot_checked, boot,
}
use chitchat.Engine.State.{rule_stats}
use chitchat.Spy.Server.{rules}
use chitchat.Spy.Listener.{set_reloader, set_rules_provider}
use chitchat.Main.Process.Api.{AsksRules, request-rules, happen_all-server}
use chitchat.Main.Process.{
  Request, handle_request, Log, log_of, SpyServer, Running, Happening, happen_all,
}
use chitchat.Main.Process.Sound.{HasSoundRules, Recounted-HasSoundRules, happen_all-HasSoundRules}

-- The process serves with sound rules and tells them, if it got so far, whatever comes.
abbrev pub ServesSoundly : {D : Type 0} → Driver D → Libraries → List Happening → Boot D → Type 0
ServesSoundly drv lib hs (ended e) = Unit
ServesSoundly drv lib hs (running r) =
    let r' = happen_all drv lib hs r in
    HasSoundRules lib r'.workers.engine
    × ((q : Request)
        → AsksRules q
        → (handle_request drv lib q r').1 ≡ some (rules (rule_stats r'.workers.engine)))

module _ {D : Type 0} (drv : Driver D) (lib : Libraries) where
  serving-Sound :
      (hs : List Happening) (r : Running D)
      → HasSoundRules lib r.workers.engine
      → r.server.rules ≡ some tt
      → r.server.reloader ≡ some tt
      → ServesSoundly drv lib hs (running r)
  serving-Sound hs r h set hook =
      let sound = happen_all-HasSoundRules drv lib hs r h in
      let same = happen_all-server drv lib hs r in
      (
        sound,
        λ q asks.
            request-rules drv lib q (happen_all drv lib hs r) asks
              (ap (λ s. s.rules) same ∙ set, ap (λ s. s.reloader) same ∙ hook, sound.2),
      )

  boot_engine-Sound :
      (hs : List Happening) (l : Log) (warns : List Str) (s : SpyServer) (w : Workers D)
      (r : Engine D × Option Str)
      → HasSoundRules lib r.0
      → ServesSoundly drv lib hs (boot_engine drv lib l warns s w r)
  unfolding boot_engine set_reloader set_rules_provider
  boot_engine-Sound hs l warns s w (e, none) h = serving-Sound hs _ h refl refl
  boot_engine-Sound hs l warns s w (e, some x) h = tt

  boot_driver-Sound :
      (hs : List Happening) (cfg : Config) (l : Log) (warns : List Str) (rb : RingBuffer)
      (s : SpyServer) (c : Option Str × D)
      → IsSound lib cfg
      → ServesSoundly drv lib hs (boot_driver drv lib cfg l warns rb s c)
  unfolding boot_driver new_workers new_engine
  boot_driver-Sound hs cfg l warns rb s (some x, d) h = tt
  boot_driver-Sound hs cfg l warns rb s (none, d) h =
      let w = new_workers cfg d (some rb) in
      let (same_cfg, same_rules, same_spy) = start_same drv lib.quote w.engine in
      boot_engine-Sound hs l warns s w (start drv lib.quote w.engine) (
        Recounted-HasSoundRules lib w.engine (start drv lib.quote w.engine).0
          (same_cfg, ap rules_of same_rules, ap is_some same_spy) (h, new_rules cfg.rules, refl))

  boot_server-Sound :
      (hs : List Happening) (cfg : Config) (l : Log) (warns : List Str) (rb : RingBuffer) (d : D)
      (s : SpyServer × Option Str)
      → IsSound lib cfg
      → ServesSoundly drv lib hs (boot_server drv lib cfg l warns rb d s)
  unfolding boot_server
  boot_server-Sound hs cfg l warns rb d (s, none) h =
      boot_driver-Sound hs cfg l warns rb s (drv.connect cfg.broker.url d) h
  boot_server-Sound hs cfg l warns rb d (s, some x) h = tt

  boot_checked-Sound :
      (hs : List Happening) (listen : Str → Result Str ℕ) (cfg : Config) (l : Log) (d : D)
      (c : List Str × List CheckError)
      → (c.1 ≡ [] → IsSound lib cfg)
      → ServesSoundly drv lib hs (boot_checked drv lib listen cfg l d c)
  unfolding boot_checked
  boot_checked-Sound hs listen cfg l d (warns, []) h = boot_server-Sound hs cfg l _ _ d _ (h refl)
  boot_checked-Sound hs listen cfg l d (warns, x ∷ xs) h = tt

  -- From the start of the process on, whatever files its reloads read, whatever fails and whatever
  -- comes between: while it serves, the engine's configuration passes all checks of checkConfig,
  -- the engine's rules are the rules of that configuration, in their order, and GET /_chitchat/rules
  -- is answered with the engine's statistics of them.
  pub serves_soundly :
      (hs : List Happening) (listen : Str → Result Str ℕ) (loaded : Result Str Config) (d : D)
      → ServesSoundly drv lib hs (boot drv lib listen loaded d)
  unfolding boot
  serves_soundly hs listen (ok cfg) d =
      boot_checked-Sound hs listen cfg (log_of cfg.logging) d (check_config lib cfg)
        (check_config_iff lib cfg).0
  serves_soundly hs listen (err e) d = tt
