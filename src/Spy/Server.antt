-- ===== src/Spy/Server.antt =====
-- pkg/spy/server.go: the handlers of the REST API, as functions from a request to an answer. The
-- server's state is its buffer and its two hooks.
pub mod Answers
pub mod Deadline
use chitchat.Base.{
  ℕ, ◌*◌, ltb, Str, codes, str_eq, is_empty, length, if◌then◌else◌, Bool, true, false, Option, none,
  some, List, [], ◌∷◌, ◌++◌, Result, ok, err,
}
use chitchat.Base.Int.{ℤ, pos, negsuc, gt_nat, to_nat}
use chitchat.Base.Decimal.{atoi}
use chitchat.Libraries.{Libraries}
use chitchat.Spy.Message.{CapturedMessage, Filter}
use chitchat.Spy.Ring.{RingBuffer, query, apply_limit, clear, count}
use chitchat.Spy.Params.{Values, get, parse_filter}
use chitchat.Spy.Wait.{Phase, looking, returned, grabbed, blocked, Event, wait_with_timer}

-- The statuses of package net/http that the handlers answer with.
abbrev pub status_ok : ℕ
status_ok = 200

abbrev pub status_bad_request : ℕ
status_bad_request = 400

abbrev pub status_method_not_allowed : ℕ
status_method_not_allowed = 405

abbrev pub status_request_timeout : ℕ
status_request_timeout = 408

abbrev pub status_not_implemented : ℕ
status_not_implemented = 501

-- What a handler writes. A list of messages comes with the header X-Chitchat-Count, its length; `R`
-- is what the hook for the rules returns, `S` the summary of a reload.
pub data Answer (R S : Type 0) : Type 0 where
  not_allowed : Answer R S
  failed : (status : ℕ) → (text : Str) → Answer R S
  messages : (status : ℕ) → List CapturedMessage → Answer R S
  cleared : (removed : ℕ) → Answer R S
  healthy : (held : ℕ) → Answer R S
  no_rules : Answer R S
  rules : R → Answer R S
  reloaded : S → Answer R S
  silent : Answer R S

abbrev pub method_get : Str
method_get = codes "GET"

abbrev pub method_post : Str
method_post = codes "POST"

abbrev pub method_delete : Str
method_delete = codes "DELETE"

-- Durations are counted in nanoseconds.
abbrev pub second : ℕ
second = 1000000000

abbrev pub default_wait_timeout : ℕ
default_wait_timeout = 5 * second

abbrev pub max_wait_timeout : ℕ
max_wait_timeout = 60 * second

-- strconv.Atoi(wf) and the check below it
abbrev wanted : Option ℤ → Option ℕ
wanted none = none
wanted (some (pos n)) = some n
wanted (some (negsuc n)) = none

-- `quote` is strconv.Quote.
module _ (quote : Str → Str) where
  unfoldable pub wait_text : Str → Str
  wait_text wf = codes "invalid wait_for " ++ (quote wf ++ codes ": must be a non-negative integer")

  bad_timeout : Str → Str → Str
  bad_timeout v reason = codes "invalid timeout " ++ (quote v ++ reason)

  -- parseTimeout from the sign on
  unfoldable pub bound_timeout : Str → ℤ → Result Str ℕ
  unfolding bad_timeout
  bound_timeout v (negsuc d) = err (bad_timeout v (codes ": must not be negative"))
  bound_timeout v (pos d) = if ltb max_wait_timeout d then ok max_wait_timeout else ok d

  -- `parse_duration` is time.ParseDuration, and `parse_seconds` strconv.ParseFloat with the
  -- conversion of that number of seconds to a duration.
  unfoldable pub parse_timeout :
      (parse_duration parse_seconds : Str → Option ℤ) → Str → Result Str ℕ
  unfolding bound_timeout bad_timeout
  parse_timeout parse_duration parse_seconds v =
      if is_empty v then ok default_wait_timeout else elim (parse_duration v) [
        | some d ↦ bound_timeout v d
        | none ↦ elim (parse_seconds v) [
          | some d ↦ bound_timeout v d
          | none ↦ err (bad_timeout v (codes " (use e.g. 5s, 500ms or a number of seconds)"))
        ]
      ]

module _ {R S : Type 0} where
  unfoldable pub handle_clear_2 : RingBuffer → RingBuffer × Answer R S
  handle_clear_2 rb = let (rb', n) = clear rb in (rb', cleared n)

  unfoldable pub handle_clear : Str → RingBuffer → RingBuffer × Answer R S
  unfolding handle_clear_2
  handle_clear method rb =
      if str_eq method method_post then handle_clear_2 rb else (rb, not_allowed)

  unfoldable pub handle_health : RingBuffer → Answer R S
  handle_health rb = healthy (count rb)

  provided : Option R → Answer R S
  provided none = no_rules
  provided (some r) = rules r

  -- `provider` is what the hook returns, if there is one.
  unfoldable pub handle_rules : Str → Option R → Answer R S
  unfolding provided
  handle_rules method provider = if str_eq method method_get then provided provider else not_allowed

  unfoldable pub reload_answer : Option (Result Str S) → Answer R S
  reload_answer none = failed status_not_implemented (codes "hot reload is not available")
  reload_answer (some (ok summary)) = reloaded summary
  reload_answer (some (err e)) = failed status_bad_request e

  -- `outcome` is what the hook returns, if there is one; it is called for a POST only.
  unfoldable pub handle_reload : Str → Option (Result Str S) → Answer R S
  unfolding reload_answer
  handle_reload method outcome =
      if str_eq method method_post then reload_answer outcome else not_allowed

  -- `parse_duration` and `parse_seconds` are those of parse_timeout above; `evs` is what happens during
  -- the wait, each event at a number of nanoseconds after its begin, and `gone` tells whether the client went away.
  module _ (lib : Libraries) (parse_duration parse_seconds : Str → Option ℤ)
      (evs : List (ℕ × Event)) (gone : Bool) where
    -- The answer from the result of waitForMessages; none while the call waits.
    unfoldable pub waited : ℤ → RingBuffer × Phase → Option (RingBuffer × Answer R S)
    waited limit (rb, returned msgs true) =
        some (rb, messages status_ok (apply_limit lib limit msgs))
    waited limit (rb, returned msgs false) =
        some (
          rb,
          if gone then silent else messages status_request_timeout (apply_limit lib limit msgs),
        )
    waited limit (rb, _) = none

    unfoldable pub wait : Filter → ℕ → ℕ → RingBuffer → Option (RingBuffer × Answer R S)
    unfolding waited wait_with_timer
    wait f n timeout rb =
        waited f.limit
          (wait_with_timer lib (record f { limit = pos 0 }) n timeout evs (rb, looking))

    unfoldable pub wait_checked :
        Values → Filter → Option ℕ → RingBuffer → Option (RingBuffer × Answer R S)
    unfolding wait wait_text parse_timeout
    wait_checked q f none rb =
        some (rb, failed status_bad_request (wait_text lib.quote (get (codes "wait_for") q)))
    wait_checked q f (some n) rb =
        elim (parse_timeout lib.quote parse_duration parse_seconds (get (codes "timeout") q)) [
          | ok d ↦ wait f n d rb
          | err e ↦ some (rb, failed status_bad_request e)
        ]

    unfoldable pub filtered :
        Values → Result Str Filter → RingBuffer → Option (RingBuffer × Answer R S)
    unfolding wait_checked
    filtered q (err e) rb = some (rb, failed status_bad_request e)
    filtered q (ok f) rb =
        if is_empty (get (codes "wait_for") q)
        then some (rb, messages status_ok (query lib f rb))
        else wait_checked q f (wanted (atoi (get (codes "wait_for") q))) rb

    -- The answer, with the buffer after it; none while the call waits.
    unfoldable pub handle_messages : Str → Values → RingBuffer → Option (RingBuffer × Answer R S)
    unfolding handle_clear_2 filtered
    handle_messages method q rb =
        if str_eq method method_get
        then filtered q (parse_filter lib.quote q) rb
        else if str_eq method method_delete
        then some (handle_clear_2 rb)
        else some (rb, not_allowed)
