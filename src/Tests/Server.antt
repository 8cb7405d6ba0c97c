-- ===== src/Tests/Server.antt =====
-- The answers of the spy server.
use chitchat.Base.{
  ℕ, ◌≤◌, ◌++◌, true, is_some, arith, lookup, codes, some, none, [], ◌∷◌, ◌≡◌, refl, false, last_n,
  str_eq,
}
use chitchat.Base.Int.{pos}
use chitchat.Spy.Ring.{RingBuffer, new_ring_buffer, record_message, capture, query, no_filter}
use chitchat.Spy.Ring.Log.{record_op, step}
use chitchat.Spy.Filter.{matches}
use chitchat.Spy.Wait.{
  change, proceed, wait_for_messages, timed_events, wait_with_timer, advance, judge,
}
use chitchat.Spy.Server.{not_allowed, handle_messages, method_get, wait, waited}
use chitchat.Spy.Params.{Values, parse_filter}
use chitchat.Base.Decimal.{atoi}
use chitchat.Spy.Server.Answers.{wait_answers_enough}
use chitchat.Spy.Server.Deadline.{last_turns, answered_in_time}
use chitchat.Tests.Samples.{plain, hello}

abbrev held : RingBuffer
held = record_message plain 1 hello (new_ring_buffer (pos 2))

abbrev wait_for_nine : Values
wait_for_nine = (codes "wait_for", codes "9" ∷ []) ∷ []

put_is_refused :
    handle_messages {R = ℕ} {S = ℕ} plain (λ v. none) (λ v. none) [] false (codes "PUT") [] held
    ≡ some (held, not_allowed)
unfolding handle_messages str_eq
put_is_refused = refl

answered_in_time_example :
    is_some (
      handle_messages {R = ℕ} {S = ℕ} plain
        (λ v. none)
        (λ v. none)
        ([] ++ last_turns 60000000000)
        false
        method_get
        wait_for_nine
        held)
    ≡ true
answered_in_time_example =
    answered_in_time ℕ ℕ plain (λ v. none) (λ v. none) [] 60000000000 false method_get wait_for_nine
      held (omega arith)

-- The default timeout is not over after four seconds, so the call waits; it is over after five.
waits_for_more :
    is_some (
      handle_messages {R = ℕ} {S = ℕ} plain
        (λ v. none)
        (λ v. none)
        (last_turns 4000000000)
        false
        method_get
        wait_for_nine
        held)
    ≡ false
unfolding handle_messages str_eq parse_filter lookup atoi query record_message last_n
    new_ring_buffer matches
waits_for_more = refl

gives_up :
    is_some (
      handle_messages {R = ℕ} {S = ℕ} plain
        (λ v. none)
        (λ v. none)
        (last_turns 5000000000)
        false
        method_get
        wait_for_nine
        held)
    ≡ true
unfolding handle_messages str_eq parse_filter lookup atoi query record_message last_n
    new_ring_buffer matches
gives_up = refl

wait_answers_enough_example : 1 ≤ 1
unfolding wait waited wait_with_timer timed_events wait_for_messages advance judge step
    new_ring_buffer record_message query matches last_n capture
wait_answers_enough_example =
    wait_answers_enough ℕ ℕ plain (λ v. none) (λ v. none)
      ((1, change (record_op 1 hello)) ∷ (1, proceed) ∷ (1, proceed) ∷ []) false (no_filter plain) 1
      5000000000 (new_ring_buffer (pos 2))
      (step plain (record_op 1 hello) (new_ring_buffer (pos 2))) (capture plain 1 1 hello ∷ []) refl
      refl
