-- ===== src/Engine/Handle.antt =====
-- pkg/engine/engine.go: handleMessage and dispatch. A step takes the time `now`, at which the spy
-- records, and the state `source` of the clock and the random source that templates read.
pub mod Guard
pub mod Snapshot
pub mod Counts
pub mod Echo
use chitchat.Base.{
  ℕ, Str, is_empty, if◌then◌else◌, Bool, true, false, not, ◌&&◌, Option, none, some, List, [], ◌∷◌,
  ◌++◌, Result, ok, err, lookup, insert,
}
use chitchat.Base.Int.{gt_nat}
use chitchat.Value.{Value, str, is_null, Table}
use chitchat.Libraries.{Libraries}
use chitchat.Config.Types.{Rule, MockResponse, origin_header}
use chitchat.Broker.Message.{Message, Bytes, direction_received, direction_published}
use chitchat.Broker.Driver.{Driver}
use chitchat.Spy.Ring.{RingBuffer, record_message}
use chitchat.Engine.Matcher.{matches_rule}
use chitchat.Engine.State.{Engine, RuleState, Job, inc_matches}
use chitchat.Engine.Template.Render.{RenderError, render_payload}

-- if msg.Direction == "" { msg.Direction = broker.DirectionReceived }
unfoldable pub with_direction : Message → Message
with_direction msg =
    if is_empty msg.direction then record msg { direction = direction_received } else msg

unfoldable pub present : Option Value → Bool
present none = false
present (some v) = not (is_null v)

-- origin, ok := msg.Headers[config.OriginHeader]; ok && origin != nil
unfoldable pub is_own : Message → Bool
unfolding present
is_own msg = present (lookup origin_header msg.headers)

-- The copy of the configured headers, and the header of the loop guard.
unfoldable pub copy_headers : Table → Table → Table
copy_headers headers [] = headers
copy_headers headers ((k, v) ∷ m) = copy_headers (insert k v headers) m

unfoldable pub response_headers : Rule → Table
unfolding copy_headers
response_headers r = insert origin_header (str r.name) (copy_headers [] r.mock_response.headers)

module _ (lib : Libraries) where
  unfoldable pub recorded : ℕ → Message → Option RingBuffer → Option RingBuffer
  recorded now msg none = none
  recorded now msg (some rb) = some (record_message lib now msg rb)

  unfoldable pub record_in_spy : {D : Type 0} → ℕ → Message → Engine D → Engine D
  unfolding recorded
  record_in_spy now msg e = record e { spy = recorded now msg e.spy }

  -- The goroutine for a rendered payload, if there was no error.
  unfoldable pub job_for : Rule → Result RenderError Bytes → List Job
  job_for rule (ok payload) = record { rule = rule; payload = payload } ∷ []
  job_for rule (err e) = []

  -- One turn of the loop: the rule's new state, the goroutine started, and the source.
  unfoldable pub evaluate_rule : Message → RuleState → ℕ → RuleState × List Job × ℕ
  unfolding job_for
  evaluate_rule msg rs source =
      let (rendered, source') = render_payload lib rs.rule.mock_response.payload msg source in
      if not (matches_rule lib rs.rule msg)
      then (rs, [], source)
      else (inc_matches rs, job_for rs.rule rendered, source')

  unfoldable pub evaluate_rules : Message → List RuleState → ℕ → List RuleState × List Job × ℕ
  unfolding evaluate_rule
  evaluate_rules msg [] source = ([], [], source)
  evaluate_rules msg (rs ∷ rest) source =
      let (state, job, source') = evaluate_rule msg rs source in
      let (states, jobs, source'') = evaluate_rules msg rest source' in
      (state ∷ states, job ++ jobs, source'')

  -- handleMessage after the message is recorded.
  unfoldable pub react : {D : Type 0} → Message → ℕ → Engine D → Engine D × ℕ
  unfolding evaluate_rules is_own
  react msg source e =
      let (states, jobs, source') = evaluate_rules msg e.rules source in
      if is_own msg
      then (e, source)
      else (record e { rules = states; jobs = e.jobs ++ jobs }, source')

  unfoldable pub handle_message : {D : Type 0} → ℕ → Message → ℕ → Engine D → Engine D × ℕ
  unfolding with_direction record_in_spy react
  handle_message now msg source e =
      react (with_direction msg) source (record_in_spy now (with_direction msg) e)

  -- The message that dispatch records in the spy once it is published.
  unfoldable pub published_message : Rule → Bytes → Message
  unfolding response_headers
  published_message r payload = record {
    queue = [];
    routing_key = r.mock_response.routing_key;
    headers = response_headers r;
    body = payload;
    direction = direction_published;
    exchange = r.mock_response.exchange;
    rule = r.name;
    message_id = [];
  }

  -- dispatch from the headers on.
  unfoldable pub publish_response : {D : Type 0} → Driver D → ℕ → Rule → Bytes → Engine D → Engine D
  unfolding published_message record_in_spy
  publish_response drv now r payload e =
      let (failed, d) =
        drv.publish r.mock_response.exchange r.mock_response.routing_key payload
          (response_headers r) e.driver in
      let e' = record e { driver = d } in
      elim failed [ none ↦ record_in_spy now (published_message r payload) e' | some x ↦ e' ]

  -- `gave_up` tells that the select of a delayed response took the case of the done context, which
  -- it can take once the context is cancelled.
  unfoldable pub dispatch : {D : Type 0} → Driver D → ℕ → Bool → Job → Engine D → Engine D
  unfolding publish_response
  dispatch drv now gave_up job e =
      if gt_nat job.rule.mock_response.delay_ms 0 && gave_up && e.cancelled
      then e
      else publish_response drv now job.rule job.payload e
