-- ===== src/Main/Reload.antt =====
-- cmd/chitchat/main.go: reloadConfig, and the reloader that runChitchat gives to the spy server.
pub mod Safe
use chitchat.Base.{
  ℕ, Str, codes, str_eq, length, if◌then◌else◌, Bool, true, false, not, ◌&&◌, ◌||◌, Option, none,
  some, List, [], ◌∷◌, ◌++◌, report, Result, ok, err,
}
use chitchat.Base.Int.{ℤ, int_eq}
use chitchat.Libraries.{Libraries}
use chitchat.Config.Types.{Config, BrokerConfig, ServerConfig, SpyConfig}
use chitchat.Broker.Driver.{Driver}
use chitchat.Engine.State.{Engine}
use chitchat.Engine.Lifecycle.{reload}
use chitchat.Main.Check.{CheckError, Failure, not_loaded, not_valid, not_reloaded, check_config}

-- The map that reloadConfig returns.
pub record Summary : Type 0 where
  pub rules : ℕ
  pub spy_queues : ℕ
  pub warnings : List Str

-- The settings that a reload cannot change: what is logged of them.
unfoldable pub fixed_settings : Config → Config → List Str
fixed_settings next current =
    report (not (str_eq next.broker.url current.broker.url)) (
      codes
        "broker.url changed in config but cannot be applied by a reload; restart chitchat to use it")
    ++ report
        (not (int_eq next.server.port current.server.port)
          || not (str_eq next.server.host current.server.host))
        (codes
          "server.host/port changed in config but cannot be applied by a reload; restart chitchat to use it")

-- The state of the engine after a call, what the call returns, and what it logs as warnings.
abbrev pub Outcome : Type 0 → Type 0
Outcome D = Engine D × Result Failure Summary × List Str

module _ {D : Type 0} (drv : Driver D) (lib : Libraries) where
  unfoldable pub summarize : Config → List Str → List Str → Engine D × Option Str → Outcome D
  summarize next warns log (e, none) = (
    e,
    ok (record {
      rules = length next.rules;
      spy_queues = length next.spy.queues;
      warnings = warns;
    }),
    log,
  )
  summarize next warns log (e, some x) = (e, err (not_reloaded x), log)

  -- reloadConfig after the checks.
  unfoldable pub apply_checked : Config → Config → Engine D → List Str × List CheckError → Outcome D
  unfolding summarize fixed_settings
  apply_checked current next e (warns, []) =
      summarize next warns (warns ++ fixed_settings next current) (reload drv lib.quote next e)
  apply_checked current next e (warns, x ∷ xs) = (e, err (not_valid (x ∷ xs)), [])

  -- reloadConfig for the result of loadConfig.
  unfoldable pub reload_config : Config → Result Str Config → Engine D → Outcome D
  unfolding apply_checked
  reload_config current (ok next) e = apply_checked current next e (check_config lib next)
  reload_config current (err x) e = (e, err (not_loaded x), [])
