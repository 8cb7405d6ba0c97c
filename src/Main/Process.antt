-- ===== src/Main/Process.antt =====
-- cmd/chitchat/main.go: the process while it serves, from the point where the hooks of the spy server
-- are set. The requests to the server and the goroutines of the engine come in any order.
pub mod Open
pub mod Sound
pub mod Api
pub mod Reload
use chitchat.Base.{
  ℕ, Str, codes, Bool, true, false, if◌then◌else◌, Option, none, some, List, [], ◌∷◌, ◌++◌, Result,
  ok, err, str_eq, is_some, ◌&&◌,
}
use mathlib.Core.Option
use chitchat.Main.Failures.{failure_text}
use chitchat.Libraries.{Libraries}
use chitchat.Logger.{Logger, text_handler, level_info, init_logger, warn_all}
use chitchat.Config.Types.{Config, LogConfig, ServerConfig, BrokerConfig}
use chitchat.Broker.Message.{Message}
use chitchat.Broker.Driver.{Driver}
use chitchat.Spy.Ring.{RingBuffer}
use chitchat.Spy.Params.{Values}
use chitchat.Spy.Wait
use chitchat.Spy.Wait.{proceed, expired, cancelled}
use chitchat.Spy.Server.{Answer, method_post}
use chitchat.Spy.Listener.{Server, Endpoint, reload_path, route, serve}
use chitchat.Engine.State.{Engine, RuleStat, rule_stats}
use chitchat.Engine.Workers
use chitchat.Engine.Workers.{Workers, new_workers, stop_call, stop_wait, work, work_all}
use chitchat.Main.Check.{CheckError, Failure, not_loaded, not_valid, check_config}
use chitchat.Main.Reload.{Summary, reload_config}

-- The hooks of the spy server are the closures of runChitchat: each is one, so `tt` tells that it is set.
abbrev pub SpyServer : Type 0
SpyServer = Server (Unit {0}) (Unit {0})

-- The logger of the process, over os.Stdout.
abbrev pub Log : Type 0
Log = Logger (Unit {0})

-- The default logger of slog before InitLogger.
abbrev first_log : Log
first_log = record { kind = text_handler; level = level_info; out = tt }

abbrev pub log_of : LogConfig → Log
log_of c = (init_logger tt c.level c.format (some tt) first_log).0

-- The process while it serves. `current` is the variable of that name.
pub record Running (D : Type 0) : Type 0 where
  pub workers : Workers D
  pub server : SpyServer
  pub current : Config
  pub logger : Log
  pub warned : List Str

-- How a request that waits for messages ends: with enough of them, at its timeout if that is over at
-- this time after its begin, or when its client goes away.
pub data Ending : Type 0 where
  enough : Ending
  timed_out : (time : ℕ) → Ending
  gone : Ending

-- A request to the server. A reload reads the file twice, with a result each time.
pub record Request : Type 0 where
  pub path : Str
  pub method : Str
  pub query : Values
  pub ending : Ending
  pub first_read : Result Str Config
  pub second_read : Result Str Config

-- What comes next while the process serves: a step of the engine's goroutines, or a request to the
-- server.
pub data Happening : Type 0 where
  arrive : Message → Happening
  receive : (now source : ℕ) → Happening
  loop_done : Happening
  respond : (index now : ℕ) → (gave_up : Bool) → Happening
  request : Request → Happening

-- The turns of a wait at the time of its last look at the buffer.
abbrev turns : Ending → List (ℕ × Wait.Event)
turns enough = (0, proceed) ∷ (0, proceed) ∷ []
turns (timed_out time) = (time, proceed) ∷ (time, proceed) ∷ (time, expired) ∷ []
turns gone = (0, proceed) ∷ (0, proceed) ∷ (0, cancelled) ∷ []

abbrev is_gone : Ending → Bool
is_gone gone = true
is_gone _ = false

-- What the handlers answer with the results of the two hooks.
abbrev pub Reply : Type 0
Reply = Answer (List RuleStat) Summary

-- Only this handler calls the reloader.
unfoldable pub calls_reloader : Option Endpoint → Str → Bool
calls_reloader (some reload_path) method = str_eq method method_post
calls_reloader _ method = false

abbrev pub next_current : Config → Result Str Config → Result Failure Summary → Config
next_current current (ok next) (ok summary) = next
next_current current (err e) (ok summary) = current
next_current current second (err x) = current

module _ {D : Type 0} (drv : Driver D) (lib : Libraries) where
  abbrev pub on_workers : Workers.Event → Running D → Running D
  on_workers ev r = record r { workers = work lib drv ev r.workers }

  abbrev pub hook_result : Result Failure Summary → Result Str Summary
  hook_result (ok summary) = ok summary
  hook_result (err x) = err (failure_text lib.quote x)

  -- The closure that SetReloader is given.
  unfoldable pub reload_hook :
      Result Str Config → Result Str Config → Running D → Running D × Result Str Summary
  unfolding failure_text
  reload_hook first second r =
      let (e, result, log) = reload_config drv lib r.current first r.workers.engine in
      (
        record r {
          workers = record r.workers { engine = e };
          current = next_current r.current second result;
          warned = r.warned ++ warn_all r.logger log;
        },
        hook_result result,
      )

  -- The handler of the path on the buffer that the server shares with the engine: none for another
  -- path, and none while the call waits.
  unfoldable pub serve_buffer :
      Request
      → Option (List RuleStat)
      → Option (Result Str Summary)
      → Option Endpoint
      → Option RingBuffer
      → Option (RingBuffer × Reply)
  unfolding serve
  serve_buffer q stats reloaded (some endpoint) (some rb) =
      serve lib lib.parse_duration lib.parse_seconds (turns q.ending) (is_gone q.ending) endpoint
        q.method q.query stats reloaded rb
  serve_buffer q stats reloaded _ _ = none

  abbrev pub with_buffer : Running D → Option (RingBuffer × Reply) → Running D × Option Reply
  with_buffer r none = (r, none)
  with_buffer r (some (rb, reply)) =
      let e = r.workers.engine in
      (record r { workers = record r.workers { engine = record e { spy = some rb } } }, some reply)

  -- The handler after its call of the reloader, if it makes one.
  unfoldable pub answer :
      Request → Option (Result Str Summary) → Running D → Running D × Option Reply
  unfolding serve_buffer rule_stats
  answer q reloaded r =
      let e = r.workers.engine in
      with_buffer r (
        serve_buffer q (Option.map (λ _. rule_stats e) r.server.rules) reloaded (route q.path)
          e.spy)

  abbrev pub after_reload : Request → Running D × Result Str Summary → Running D × Option Reply
  after_reload q (r, result) = answer q (some result) r

  unfoldable pub handle_request : Request → Running D → Running D × Option Reply
  unfolding answer reload_hook calls_reloader
  handle_request q r =
      if calls_reloader (route q.path) q.method && is_some r.server.reloader
      then after_reload q (reload_hook q.first_read q.second_read r)
      else answer q none r

  unfoldable pub happen : Happening → Running D → Running D
  unfolding handle_request
  happen (arrive m) r = on_workers (Workers.arrive m) r
  happen (receive now source) r = on_workers (Workers.receive now source) r
  happen loop_done r = on_workers Workers.loop_done r
  happen (respond i now gave_up) r = on_workers (Workers.respond i now gave_up) r
  happen (request q) r = (handle_request q r).0

  unfoldable pub happen_all : List Happening → Running D → Running D
  happen_all [] r = r
  happen_all (h ∷ hs) r = happen_all hs (happen h r)
