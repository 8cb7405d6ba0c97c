-- ===== src/Engine/Handle/Snapshot.antt =====
-- pkg/engine/engine.go: handleMessage turn by turn, with the calls of Reload and the responses that
-- come between its turns. snapshotRules gives the handler the rules of one moment.
pub mod Stages
pub mod Whole
use chitchat.Base.{
  ℕ, zero, suc, ◌+◌, ◌==◌, Str, if◌then◌else◌, Bool, true, false, not, ◌&&◌, Option, none, some,
  List, [], ◌∷◌, ◌++◌,
}
use chitchat.Libraries.{Libraries}
use chitchat.Config.Types.{Config}
use chitchat.Broker.Message.{Message}
use chitchat.Broker.Driver.{Driver}
use chitchat.Engine.State.{Engine, RuleState, Job, inc_matches}
use chitchat.Engine.Matcher.{matches_rule}
use chitchat.Engine.Lifecycle.{reload}
use chitchat.Engine.Handle.{
  with_direction, is_own, record_in_spy, evaluate_rule, publish_response, dispatch,
}

-- The loop of handleMessage: the rules of the snapshot that are left, the place of the first of them,
-- and the generation of rules that the snapshot is of.
pub record Handler : Type 0 where
  pub message : Message
  pub rest : List RuleState
  pub index : ℕ
  pub generation : ℕ

-- The engine while a message is handled. Each Reload that succeeds makes a generation of rules; the
-- counters of an older one are out of reach. `started` is the responses that the handler started,
-- `source` the state of the clock and the random source that templates read.
pub record Handling (D : Type 0) : Type 0 where
  pub engine : Engine D
  pub generation : ℕ
  pub handler : Option Handler
  pub started : List Job
  pub source : ℕ

-- A turn of the handler, a call of Reload, or the run of a response.
pub data Move : Type 0 where
  turn : Move
  reload_call : Config → Move
  respond : (now : ℕ) → (gave_up : Bool) → Job → Move

-- incMatches on the rule at the index.
unfoldable pub count_at : ℕ → List RuleState → List RuleState
count_at i [] = []
count_at zero (rs ∷ rules) = inc_matches rs ∷ rules
count_at (suc i) (rs ∷ rules) = rs ∷ count_at i rules

module _ (lib : Libraries) {D : Type 0} where
  -- handleMessage up to the loop.
  unfoldable pub begin_handling : ℕ → Message → ℕ → Engine D → Handling D
  begin_handling now msg source e =
      let m = with_direction msg in
      record {
        engine = record_in_spy lib now m e;
        generation = 0;
        handler =
            if is_own m
            then none
            else some (record { message = m; rest = e.rules; index = 0; generation = 0 });
        started = [];
        source = source;
      }

  -- One turn of the loop.
  unfoldable pub take_turn : List RuleState → Handler → Handling D → Handling D
  unfolding count_at
  take_turn [] k h = record h { handler = none }
  take_turn (rs ∷ rest) k h =
      let e = h.engine in
      let (rs', job, source') = evaluate_rule lib k.message rs h.source in
      record h {
        engine = record e {
          rules =
              if matches_rule lib rs.rule k.message && k.generation == h.generation
              then count_at k.index e.rules
              else e.rules;
          jobs = e.jobs ++ job;
        };
        handler = some (record k { rest = rest; index = k.index + 1 });
        started = h.started ++ job;
        source = source';
      }

  abbrev pub proceed : Option Handler → Handling D → Handling D
  proceed none h = h
  proceed (some k) h = take_turn k.rest k h

abbrev pub next_generation : ℕ → Option Str → ℕ
next_generation n none = n + 1
next_generation n (some x) = n

module _ (lib : Libraries) {D : Type 0} (drv : Driver D) where
  unfoldable pub move : Move → Handling D → Handling D
  unfolding take_turn
  move turn h = proceed lib h.handler h
  move (reload_call cfg) h =
      let (e, failed) = reload drv lib.quote cfg h.engine in
      record h { engine = e; generation = next_generation h.generation failed }
  move (respond now gave_up job) h = record h { engine = dispatch lib drv now gave_up job h.engine }

  unfoldable pub move_all : List Move → Handling D → Handling D
  move_all [] h = h
  move_all (m ∷ ms) h = move_all ms (move m h)
