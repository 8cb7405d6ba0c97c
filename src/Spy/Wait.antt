-- ===== src/Spy/Wait.antt =====
-- pkg/spy/server.go: waitForMessages, in turns that other calls on the buffer may come between.
pub mod Wakeups
use chitchat.Base.{ℕ, leb, length, if◌then◌else◌, Bool, true, false, List, [], ◌∷◌}
use chitchat.Libraries.{Libraries}
use chitchat.Spy.Message.{CapturedMessage, Filter}
use chitchat.Spy.Ring.{RingBuffer, query, is_closed}
use chitchat.Spy.Ring.Log.{Op, step}

-- Where the call stands: at the head of the loop, with the channel `changed` in hand, in the select
-- with `changed` and `msgs`, or returned.
pub data Phase : Type 0 where
  looking : Phase
  grabbed : (channel : ℕ) → Phase
  blocked : (channel : ℕ) → List CapturedMessage → Phase
  returned : List CapturedMessage → Bool → Phase

-- What happens next: a Record or a Clear by someone else, a turn of the call itself, or one of the
-- three cases of its select.
pub data Event : Type 0 where
  change : Op → Event
  proceed : Event
  woken : Event
  expired : Event
  cancelled : Event

-- The events with the time since the call began: the timer fires at `timeout`, not before.
unfoldable pub timed_events : ℕ → List (ℕ × Event) → List Event
timed_events timeout [] = []
timed_events timeout ((time, expired) ∷ evs) =
    let rest = timed_events timeout evs in if leb timeout time then expired ∷ rest else rest
timed_events timeout ((time, ev) ∷ evs) = ev ∷ timed_events timeout evs

module _ (lib : Libraries) (f : Filter) (n : ℕ) where
  -- if len(msgs) >= n { return msgs, true }
  unfoldable pub judge : ℕ → List CapturedMessage → Phase
  judge channel msgs = if leb n (length msgs) then returned msgs true else blocked channel msgs

  -- The event, which changes nothing where it cannot happen.
  unfoldable pub advance : Event → RingBuffer × Phase → RingBuffer × Phase
  unfolding judge step
  advance (change op) (rb, p) = (step lib op rb, p)
  advance proceed (rb, looking) = (rb, grabbed rb.changed)
  advance proceed (rb, grabbed channel) = (rb, judge channel (query lib f rb))
  advance woken (rb, blocked channel msgs) =
      (rb, if is_closed rb channel then looking else blocked channel msgs)
  advance expired (rb, blocked channel msgs) = (rb, returned (query lib f rb) false)
  advance cancelled (rb, blocked channel msgs) = (rb, returned msgs false)
  advance _ s = s

  unfoldable pub wait_for_messages : List Event → RingBuffer × Phase → RingBuffer × Phase
  unfolding advance
  wait_for_messages [] s = s
  wait_for_messages (ev ∷ evs) s = wait_for_messages evs (advance ev s)

  unfoldable pub wait_with_timer : ℕ → List (ℕ × Event) → RingBuffer × Phase → RingBuffer × Phase
  unfolding timed_events wait_for_messages
  wait_with_timer timeout evs s = wait_for_messages (timed_events timeout evs) s
