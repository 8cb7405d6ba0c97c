-- ===== src/Main/Command.antt =====
-- cmd/chitchat/main.go: main, the commands and their flags. The reading of the command line is cobra.
pub mod Gate
use chitchat.Base.{
  ℕ, Str, codes, Bool, true, false, Option, if◌then◌else◌, none, some, List, [], ◌++◌, Result, ok,
  err,
}
use chitchat.Base.Int.{pos}
use chitchat.Libraries.{Libraries}
use chitchat.Config.Types.{Config}
use chitchat.Broker.Driver.{Driver}
use chitchat.Main.Check.{Flags, Failure, run_validate}
use chitchat.Main.Version.{VersionInfo, version_line}
use chitchat.Main.Process.{Running, Happening, on_workers, happen_all}
use chitchat.Engine.Workers.{stop_call}
use chitchat.Main.Run.{Ended, Boot, ended, running, boot, serve_until}

-- The values of the flags that the command line does not give.
abbrev pub default_flags : Flags
default_flags = record {
  config_path = codes "chitchat-rules.yaml";
  port = pos 0;
  amqp_url = [];
  log_level = [];
  log_format = [];
}

-- The commands: the one at the root and `start` do the same.
pub data Command : Type 0 where
  root_command : Command
  start_command : Command
  validate_command : Command
  version_command : Command

-- What cobra makes of a command line: it refuses it, prints a help text, or runs a command.
pub data Invocation : Type 0 where
  refused : Str → Invocation
  helped : Invocation
  invoked : Command → Flags → Invocation

-- What a call of runChitchat meets: what net.Listen gives, what happens before and after the signal,
-- the errors of the contexts of the two calls of Stop, and whether a second signal came after it.
pub record Circumstances : Type 0 where
  pub listen : Str → Result Str ℕ
  pub before : List Happening
  pub after : List Happening
  pub late : Option Str
  pub late_server : Option Str
  pub second_signal : Bool

-- What a command leaves: the exit status, what it printed, the warnings, and the driver.
pub record Exit (D : Type 0) : Type 0 where
  pub status : ℕ
  pub printed : Str
  pub warned : List Str
  pub driver : D

-- main: os.Exit(1) if Execute returns an error.
abbrev pub status_of : {E : Type 0} → Option E → ℕ
status_of none = 0
status_of (some e) = 1

module _ {D : Type 0} (drv : Driver D) (lib : Libraries) where
  -- The process ends when runChitchat returns.
  abbrev pub returned : Option (Ended D) → Option (Exit D)
  returned none = none
  returned (some e) =
      some
        (record { status = status_of e.error; printed = []; warned = e.warned; driver = e.driver })

  -- The goroutine that waits for two signals ends the process at the second one, with the driver as it is.
  abbrev pub forced : Circumstances → Running D → Exit D
  forced c r =
      let r' =
        happen_all drv lib c.after (on_workers drv lib stop_call (happen_all drv lib c.before r)) in
      record { status = 1; printed = []; warned = r'.warned; driver = r'.workers.engine.driver }

  -- runChitchat from the result of its first part on.
  unfoldable pub finish_start : Circumstances → Boot D → Option (Exit D)
  unfolding serve_until
  finish_start c (ended e) = returned (some e)
  finish_start c (running r) =
      if c.second_signal
      then some (forced c r)
      else returned (serve_until drv lib c.before c.after c.late c.late_server (running r))

  unfoldable pub run_start : Circumstances → Result Str Config → D → Option (Exit D)
  unfolding finish_start boot
  run_start c loaded d = finish_start c (boot drv lib c.listen loaded d)

  -- The command `validate`, from the result of runValidate.
  unfoldable pub finish_validate : D → List Str × Result Failure Str → Exit D
  finish_validate d (warns, ok text) = record {
    status = 0;
    printed = text;
    warned = warns;
    driver = d;
  }
  finish_validate d (warns, err x) = record { status = 1; printed = []; warned = warns; driver = d }

  unfoldable pub execute :
      Circumstances → VersionInfo → (Flags → Result Str Config) → Invocation → D → Option (Exit D)
  unfolding run_start finish_validate run_validate version_line
  execute c v read (refused text) d =
      some (record { status = 1; printed = []; warned = []; driver = d })
  execute c v read helped d = some (record { status = 0; printed = []; warned = []; driver = d })
  execute c v read (invoked root_command flags) d = run_start c (read flags) d
  execute c v read (invoked start_command flags) d = run_start c (read flags) d
  execute c v read (invoked validate_command flags) d =
      some (finish_validate d (run_validate lib flags (read flags)))
  execute c v read (invoked version_command flags) d =
      some (record { status = 0; printed = version_line v; warned = []; driver = d })
