-- ===== src/Main/Run.antt =====
-- cmd/chitchat/main.go: runChitchat. Up to the signal it is a chain of steps that may fail.
pub mod Release
pub mod Sound
use chitchat.Base.{
  ℕ, Str, codes, Bool, true, false, if◌then◌else◌, Option, none, some, List, [], ◌∷◌, ◌++◌, Result,
  ok, err,
}
use chitchat.Libraries.{Libraries}
use chitchat.Logger.{Logger, text_handler, level_info, init_logger, warn_all}
use chitchat.Config.Types.{Config, LogConfig, ServerConfig, BrokerConfig}
use chitchat.Broker.Message.{Message}
use chitchat.Broker.Driver.{Driver}
use chitchat.Spy.Ring.{RingBuffer, new_ring_buffer, clear}
use chitchat.Spy.Listener.{
  Server, new_server, with_host, set_rules_provider, set_reloader, start_server, stop_server,
}
use chitchat.Engine.State.{Engine}
use chitchat.Engine.Lifecycle.{start}
use chitchat.Engine.Workers
use chitchat.Engine.Workers.{Workers, new_workers, stop_call, stop_wait, work, work_all}
use chitchat.Main.Check.{CheckError, Failure, not_loaded, not_valid, check_config}
use chitchat.Main.Reload.{Summary, reload_config}
use chitchat.Main.Process.{SpyServer, Log, log_of, Running, Happening, on_workers, happen_all}

pub data RunError : Type 0 where
  not_checked : Failure → RunError
  not_bound : Str → RunError
  not_connected : Str → RunError
  not_started : Str → RunError

-- What is left when runChitchat returns: the driver, the server if there was one, the error if there
-- is one, and the warnings that were written to the log.
pub record Ended (D : Type 0) : Type 0 where
  pub driver : D
  pub server : Option SpyServer
  pub error : Option RunError
  pub warned : List Str

pub data Boot (D : Type 0) : Type 0 where
  ended : Ended D → Boot D
  running : Running D → Boot D

module _ {D : Type 0} (drv : Driver D) (lib : Libraries) where
  -- From eng.Start on.
  unfoldable pub boot_engine :
      Log → List Str → SpyServer → Workers D → Engine D × Option Str → Boot D
  boot_engine l warned s w (e, none) = running (record {
    workers = record w { engine = e };
    server = set_reloader tt (set_rules_provider tt s);
    current = w.engine.cfg;
    logger = l;
    warned = warned;
  })
  boot_engine l warned s w (e, some x) =
      let w' = work_all lib drv (stop_call ∷ stop_wait none ∷ []) (record w { engine = e }) in
      ended (record {
        driver = w'.engine.driver;
        server = some (stop_server none s).0;
        error = some (not_started (codes "failed to start engine: " ++ x));
        warned = warned;
      })

  -- From connectBroker on.
  unfoldable pub boot_driver :
      Config → Log → List Str → RingBuffer → SpyServer → Option Str × D → Boot D
  unfolding boot_engine
  boot_driver cfg l warned rb s (none, d) =
      let w = new_workers cfg d (some rb) in boot_engine l warned s w (start drv lib.quote w.engine)
  boot_driver cfg l warned rb s (some x, d) = ended (record {
    driver = d;
    server = some (stop_server none s).0;
    error = some (not_connected (codes "failed to connect to rabbitmq: " ++ x));
    warned = warned;
  })

  -- From spyServer.Start on.
  unfoldable pub boot_server :
      Config → Log → List Str → RingBuffer → D → SpyServer × Option Str → Boot D
  unfolding boot_driver
  boot_server cfg l warned rb d (s, none) =
      boot_driver cfg l warned rb s (drv.connect cfg.broker.url d)
  boot_server cfg l warned rb d (s, some x) = ended (record {
    driver = d;
    server = some s;
    error = some (not_bound (codes "failed to start spy server: " ++ x));
    warned = warned;
  })

  -- From the result of checkConfig on.
  unfoldable pub boot_checked :
      (Str → Result Str ℕ) → Config → Log → D → List Str × List CheckError → Boot D
  unfolding boot_server warn_all
  boot_checked listen cfg l d (warns, []) =
      let buffer = new_ring_buffer cfg.server.ring_buffer_size in
      let (s, rb) = new_server cfg.server.port (some buffer) in
      boot_server cfg l (warn_all l warns) rb d (start_server listen (with_host cfg.server.host s))
  boot_checked listen cfg l d (warns, x ∷ xs) = ended (record {
    driver = d;
    server = none;
    error = some (not_checked (not_valid (x ∷ xs)));
    warned = warn_all l warns;
  })

  -- runChitchat up to the signal, for the result of loadConfig; `listen` is net.Listen.
  unfoldable pub boot : (Str → Result Str ℕ) → Result Str Config → D → Boot D
  unfolding boot_checked init_logger
  boot listen (ok cfg) d = boot_checked listen cfg (log_of cfg.logging) d (check_config lib cfg)
  boot listen (err e) d =
      ended (record {
        driver = d;
        server = none;
        error = some (not_checked (not_loaded e));
        warned = [];
      })

  -- The end of runChitchat once eng.Stop may return: both calls of Stop are given a context, whose
  -- errors are the arguments. There is no end while eng.Stop waits.
  unfoldable pub shut_down : (late late_server : Option Str) → Running D → Option (Ended D)
  shut_down late late_server r =
      let w = work lib drv (stop_wait late) r.workers in
      if w.stopping
      then none
      else some (record {
        driver = w.engine.driver;
        server = some (stop_server late_server r.server).0;
        error = none;
        warned = r.warned;
      })

  -- runChitchat from the result of the first part on: what happens before the signal, and after it.
  unfoldable pub serve_until :
      (before after : List Happening) → (late late_server : Option Str) → Boot D → Option (Ended D)
  unfolding shut_down
  serve_until before after late late_server (ended e) = some e
  serve_until before after late late_server (running r) =
      shut_down late late_server
        (happen_all drv lib after (on_workers drv lib stop_call (happen_all drv lib before r)))
