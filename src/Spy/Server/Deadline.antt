-- ===== src/Spy/Server/Deadline.antt =====
-- How long a request may wait.
use chitchat.Base.{
  ℕ, ◌≤◌, leb, Str, is_empty, str_eq, length, Bool, Bool-cases, inl, inr, true, false, Option, none,
  some, is_some, Result-cases, codes, List, [], ◌∷◌, ◌++◌, Result, ok, err, ◌≡◌, refl, sym, ap,
  subst, arith, branch_lem,
}
use chitchat.Base.Int.{ℤ, pos}
use chitchat.Base.Decimal.{atoi}
use chitchat.Libraries.{Libraries}
use chitchat.Spy.Message.{Filter, CapturedMessage}
use chitchat.Spy.Params.{Values, get, parse_filter}
use chitchat.Spy.Ring.{RingBuffer, query}
use chitchat.Spy.Wait.{
  Phase, looking, grabbed, blocked, returned, Event, change, proceed, woken, expired, cancelled,
  judge, advance, wait_for_messages, timed_events, wait_with_timer,
}
use chitchat.Spy.Server.{
  waited, wait, wait_checked, filtered, wanted, parse_timeout, max_wait_timeout, handle_messages,
  method_get, method_delete,
}
use chitchat.Spy.Server.Answers.{parse_timeout-le}

-- The next turns of a call up to the case of its timer, at one time.
abbrev pub last_turns : ℕ → List (ℕ × Event)
last_turns time = (time, proceed) ∷ (time, proceed) ∷ (time, expired) ∷ []

timed_last :
    (timeout time : ℕ) (evs : List (ℕ × Event))
    → timeout ≤ time
    → timed_events timeout (evs ++ last_turns time)
      ≡ timed_events timeout evs ++ proceed ∷ proceed ∷ expired ∷ []
unfolding timed_events
timed_last timeout time [] h = rw (le_true timeout time h) refl
  where
    le_true : (a b : ℕ) → a ≤ b → leb a b ≡ true
    le_true a b h = ground arith
timed_last timeout time ((t, expired) ∷ evs) h = elim (Bool-cases (leb timeout t)) [
  | inl a ↦ rw (timed_events, a) (ap (λ z. expired ∷ z) (timed_last timeout time evs h))
  | inr a ↦ rw (timed_events, a) (timed_last timeout time evs h)
]
timed_last timeout time ((t, change op) ∷ evs) h =
    ap (λ z. change op ∷ z) (timed_last timeout time evs h)
timed_last timeout time ((t, proceed) ∷ evs) h =
    ap (λ z. proceed ∷ z) (timed_last timeout time evs h)
timed_last timeout time ((t, woken) ∷ evs) h = ap (λ z. woken ∷ z) (timed_last timeout time evs h)
timed_last timeout time ((t, cancelled) ∷ evs) h =
    ap (λ z. cancelled ∷ z) (timed_last timeout time evs h)

module _ (lib : Libraries) (f : Filter) (n : ℕ) where
  wait_for_messages-append :
      (evs more : List Event) (s : RingBuffer × Phase)
      → wait_for_messages lib f n (evs ++ more) s
        ≡ wait_for_messages lib f n more (wait_for_messages lib f n evs s)
  unfolding wait_for_messages
  wait_for_messages-append [] more s = refl
  wait_for_messages-append (ev ∷ evs) more s =
      wait_for_messages-append evs more (advance lib f n ev s)

  abbrev HasReturned : RingBuffer × Phase → Type 0
  HasReturned (rb, returned msgs b) = Unit
  HasReturned (rb, _) = ⊥

  judged :
      (rb : RingBuffer) (channel : ℕ) (msgs : List CapturedMessage)
      → HasReturned (advance lib f n expired (rb, judge lib f n channel msgs))
  unfolding judge advance
  judged rb channel msgs =
      branch_lem (λ p. HasReturned (advance lib f n expired (rb, p))) (leb n (length msgs)) _ _
        (λ _. tt) (λ _. tt)

  -- Whatever its phase is, the call is over after these turns.
  turns_return :
      (s : RingBuffer × Phase)
      → HasReturned (wait_for_messages lib f n (proceed ∷ proceed ∷ expired ∷ []) s)
  unfolding wait_for_messages advance
  turns_return (rb, looking) = judged rb rb.changed (query lib f rb)
  turns_return (rb, grabbed channel) =
      judged_twice (judge lib f n channel (query lib f rb)) (judged rb channel (query lib f rb))
    where
      judged_twice :
          (p : Phase)
          → HasReturned (advance lib f n expired (rb, p))
          → HasReturned (advance lib f n expired (advance lib f n proceed (rb, p)))
      judged_twice (blocked channel msgs) h = tt
      judged_twice (returned msgs b) h = tt
      judged_twice looking h = absurd h
      judged_twice (grabbed c) h = absurd h
  turns_return (rb, blocked channel msgs) = tt
  turns_return (rb, returned msgs b) = tt

  timed_turns_return :
      (timeout time : ℕ) (evs : List (ℕ × Event)) (s : RingBuffer × Phase)
      → timeout ≤ time
      → HasReturned (wait_with_timer lib f n timeout (evs ++ last_turns time) s)
  unfolding wait_with_timer
  timed_turns_return timeout time evs s h =
      subst (λ es. HasReturned (wait_for_messages lib f n es s))
        (sym (timed_last timeout time evs h))
        (subst HasReturned
          (sym (
            wait_for_messages-append (timed_events timeout evs) (proceed ∷ proceed ∷ expired ∷ [])
              s))
          (turns_return (wait_for_messages lib f n (timed_events timeout evs) s)))

abbrev Answered : {A : Type 0} → Option A → Type 0
Answered o = is_some o ≡ true

module _ (R S : Type 0) (lib : Libraries) (parse_duration parse_seconds : Str → Option ℤ)
    (evs : List (ℕ × Event)) (gone : Bool) where
  waited_answers :
      (f : Filter) (n : ℕ) (limit : ℤ) (s : RingBuffer × Phase)
      → HasReturned lib f n s
      → Answered (waited {R = R} {S = S} lib parse_duration parse_seconds evs gone limit s)
  unfolding waited
  waited_answers f n limit (rb, returned msgs true) h = refl
  waited_answers f n limit (rb, returned msgs false) h = refl
  waited_answers f n limit (rb, looking) h = absurd h
  waited_answers f n limit (rb, grabbed c) h = absurd h
  waited_answers f n limit (rb, blocked c msgs) h = absurd h

module _ (R S : Type 0) (lib : Libraries) (parse_duration parse_seconds : Str → Option ℤ)
    (evs : List (ℕ × Event)) (time : ℕ) (late : max_wait_timeout ≤ time) (gone : Bool) where
  wait_answers :
      (f : Filter) (n timeout : ℕ) (rb : RingBuffer)
      → timeout ≤ max_wait_timeout
      → Answered (
          wait {R = R} {S = S} lib parse_duration parse_seconds
            (evs ++ last_turns time)
            gone
            f
            n
            timeout
            rb)
  unfolding wait
  wait_answers f n timeout rb h =
      let f' = record f { limit = pos 0 } in
      waited_answers R S lib parse_duration parse_seconds (evs ++ last_turns time) gone f' n f.limit
        (wait_with_timer lib f' n timeout (evs ++ last_turns time) (rb, looking))
        (timed_turns_return lib f' n timeout time evs (rb, looking) (before timeout h late))
    where
      before : (d : ℕ) → d ≤ max_wait_timeout → max_wait_timeout ≤ time → d ≤ time
      before d a b = omega arith

  wait_checked_answers :
      (q : Values) (f : Filter) (w : Option ℕ) (rb : RingBuffer)
      → Answered (
          wait_checked {R = R} {S = S} lib parse_duration parse_seconds
            (evs ++ last_turns time)
            gone
            q
            f
            w
            rb)
  unfolding wait_checked
  wait_checked_answers q f none rb = refl
  wait_checked_answers q f (some n) rb =
      let v = get (codes "timeout") q in
      elim (Result-cases (parse_timeout lib.quote parse_duration parse_seconds v)) [
        | inl (d, a) ↦
            rw (wait_checked, a)
              (wait_answers f n d rb (parse_timeout-le lib.quote parse_duration parse_seconds v a))
        | inr (e, a) ↦ rw (wait_checked, a) refl
      ]

  filtered_answers :
      (q : Values) (r : Result Str Filter) (rb : RingBuffer)
      → Answered (
          filtered {R = R} {S = S} lib parse_duration parse_seconds
            (evs ++ last_turns time)
            gone
            q
            r
            rb)
  unfolding filtered
  filtered_answers q (err e) rb = refl
  filtered_answers q (ok f) rb =
      branch_lem Answered (is_empty (get (codes "wait_for") q)) _ _ (λ _. refl)
        (λ _. wait_checked_answers q f (wanted (atoi (get (codes "wait_for") q))) rb)

-- Whatever timeout and whatever number of messages a request asks for, and whatever happened since
-- its wait began: once 60 seconds have passed, the next turns of the call up to the case of its timer
-- end the wait, and the handler answers.
pub answered_in_time :
    (R S : Type 0) (lib : Libraries) (parse_duration parse_seconds : Str → Option ℤ)
    (evs : List (ℕ × Event)) (time : ℕ) (gone : Bool) (method : Str) (q : Values) (rb : RingBuffer)
    → 60000000000 ≤ time
    → is_some (
        handle_messages {R = R} {S = S} lib parse_duration parse_seconds
          (evs ++ last_turns time)
          gone
          method
          q
          rb)
      ≡ true
unfolding handle_messages
answered_in_time R S lib parse_duration parse_seconds evs time gone method q rb late =
    branch_lem Answered (str_eq method method_get) _ _
      (λ _.
        filtered_answers R S lib parse_duration parse_seconds evs time late gone q
          (parse_filter lib.quote q) rb)
      (λ _. branch_lem Answered (str_eq method method_delete) _ _ (λ _. refl) (λ _. refl))
