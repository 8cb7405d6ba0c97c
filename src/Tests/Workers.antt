-- ===== src/Tests/Workers.antt =====
-- Schedules of the engine's goroutines.
use chitchat.Engine.Matcher.{matches_rule}
use chitchat.Engine.Template.Render.{render_payload}
use chitchat.Base.{
  suc, length, ◌-◌, lookup, arith, refl, str_eq, ◌≡◌, true, codes, some, ℕ, codes, some, none, true,
  false, All, List, [], ◌∷◌, ◌≡◌, refl, str_eq,
}
use chitchat.Engine.State.{new_engine}
use chitchat.Engine.Queues.{desired_queues, str_leb}
use chitchat.Engine.Lifecycle.{start, stop_begin, stop_finish}
use chitchat.Engine.Handle.{handle_message, dispatch}
use chitchat.Engine.Workers.{
  Workers, Event, arrive, receive, loop_done, respond, start_call, reload_call, stop_call,
  stop_wait, new_workers, work, work_all,
}
use chitchat.Engine.Workers.Monitor.{Monitored, monitored, unused}
use chitchat.Engine.Workers.Order.{IsPatient, IsOrderly, driver_closed_last}
use chitchat.Engine.Workers.Drain.{Finished, stop_can_finish}
use chitchat.Engine.Handle.Snapshot.{Move, turn, begin_handling, move_all}
use chitchat.Engine.Handle.Snapshot
use chitchat.Engine.Handle.Snapshot.Stages.{Stage}
use chitchat.Engine.Handle.Snapshot.Whole.{turns, turns_left, answers_from_snapshot}
use chitchat.Engine.Handle.{is_own, with_direction, evaluate_rules}
use chitchat.Tests.Samples.{confirm, going, plain, shop, steady, hello}

-- A message is answered while Stop waits; a Reload comes too late.
abbrev busy_day : List Event
busy_day =
    start_call
    ∷ arrive hello
    ∷ receive 1 1
    ∷ stop_call
    ∷ reload_call shop
    ∷ stop_wait none
    ∷ respond 0 2 false
    ∷ loop_done
    ∷ respond 0 2 false
    ∷ stop_wait none
    ∷ arrive hello
    ∷ receive 3 3
    ∷ []

driver_closed_last_example :
    IsOrderly (work_all plain (monitored steady) busy_day (new_workers shop (unused 0) none))
driver_closed_last_example = driver_closed_last plain steady shop 0 none busy_day (omega arith)

-- A Stop that is cut off closes the driver under a response that is still due.
abbrev cut_off : List Event
cut_off =
    start_call
    ∷ arrive hello
    ∷ receive 1 1
    ∷ stop_call
    ∷ stop_wait (some (codes "context deadline exceeded"))
    ∷ respond 0 2 false
    ∷ []

late_response :
    (work_all plain
      (monitored steady)
      cut_off
      (new_workers shop (unused 0) none)).engine.driver.misused
    ≡ true
unfolding work_all work new_workers new_engine stop_begin start desired_queues str_eq str_leb
    handle_message lookup stop_finish matches_rule render_payload dispatch
late_response = refl

abbrev on_duty : Workers (Monitored ℕ)
on_duty = new_workers shop (unused 0) none

stop_can_finish_example :
    (evs : List Event) × All IsPatient evs
    × Finished (work_all plain (monitored steady) (stop_call ∷ evs) on_duty)
unfolding new_workers new_engine
stop_can_finish_example = stop_can_finish plain steady 7 on_duty refl

-- The rules are reloaded and a response runs while the message is handled.
abbrev interrupted : List Move
interrupted =
    turn
    ∷ Snapshot.reload_call shop
    ∷ Snapshot.respond 3 false (record { rule = confirm; payload = codes "done" })
    ∷ turn
    ∷ turn
    ∷ []

answers_from_snapshot_example :
    let r = evaluate_rules plain (with_direction hello) going.rules 5 in
    let h = move_all plain steady interrupted (begin_handling plain 2 hello 5 going) in
    Stage plain r.0 r.1 h h.handler
    × (turns_left h.handler ≡ suc (length going.rules) - turns interrupted)
unfolding is_own lookup with_direction
answers_from_snapshot_example = answers_from_snapshot plain steady interrupted 2 hello 5 going refl
