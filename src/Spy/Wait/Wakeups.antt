-- ===== src/Spy/Wait/Wakeups.antt =====
-- No wakeup is lost: the call does not block while enough messages are there.
use chitchat.Base.{
  ℕ, ◌+◌, ◌≤◌, ◌<◌, leb, ltb, length, Bool-cases, inl, inr, true, false, List, [], ◌∷◌, ◌≡◌, refl,
  ◌∙◌, ap, subst, arith,
}
use chitchat.Libraries.{Libraries}
use chitchat.Spy.Message.{CapturedMessage, Filter}
use chitchat.Spy.Ring.{RingBuffer, query, is_closed, record_message, clear, notify_locked}
use chitchat.Spy.Ring.Log.{Op, record_op, clear_op, step}
use chitchat.Spy.Wait.{
  Phase, looking, grabbed, blocked, returned, Event, change, proceed, woken, expired, cancelled,
  judge, advance, wait_for_messages,
}

-- Every change of the buffer closes the open channel and makes the next one.
step_changed :
    (lib : Libraries) (op : Op) (rb : RingBuffer) → (step lib op rb).changed ≡ rb.changed + 1
unfolding step record_message clear notify_locked
step_changed lib (record_op now msg) rb = refl
step_changed lib clear_op rb = refl

module _ (lib : Libraries) (f : Filter) (n : ℕ) where
  -- The channel in hand is not from the future; while it is open, the messages in hand are the
  -- current ones; a blocked call has too few, and one that succeeded has enough.
  abbrev pub Holds : RingBuffer × Phase → Type 0
  Holds (rb, looking) = Unit
  Holds (rb, grabbed channel) = channel ≤ rb.changed
  Holds (rb, blocked channel msgs) =
      (channel ≤ rb.changed) × (channel ≡ rb.changed → query lib f rb ≡ msgs) × (length msgs < n)
  Holds (rb, returned msgs true) = n ≤ length msgs
  Holds (rb, returned msgs false) = Unit

  judge-Holds :
      (rb : RingBuffer) (channel : ℕ)
      → channel ≤ rb.changed
      → Holds (rb, judge lib f n channel (query lib f rb))
  unfolding judge
  judge-Holds rb channel h = elim (Bool-cases (leb n (length (query lib f rb)))) [
    | inl a ↦ rw (judge, a) (enough n _ a)
    | inr a ↦ rw (judge, a) (h, (λ e. refl), few n _ a)
  ]
    where
      enough : (n m : ℕ) → leb n m ≡ true → n ≤ m
      enough n m a = ground arith

      few : (n m : ℕ) → leb n m ≡ false → m < n
      few n m a = ground arith

  change-Holds : (op : Op) (rb : RingBuffer) (p : Phase) → Holds (rb, p) → Holds (step lib op rb, p)
  change-Holds op rb looking h = tt
  change-Holds op rb (grabbed channel) h = omega (arith, step_changed lib op rb)
  change-Holds op rb (blocked channel msgs) (a, b, c) = (
    omega (arith, step_changed lib op rb),
    (λ e. absurd (later channel rb.changed (step lib op rb).changed a e (step_changed lib op rb))),
    c,
  )
    where
      later : (c d d' : ℕ) → c ≤ d → c ≡ d' → d' ≡ d + 1 → ⊥
      later c d d' a e s = omega arith
  change-Holds op rb (returned msgs true) h = h
  change-Holds op rb (returned msgs false) h = h

  advance-Holds : (ev : Event) (s : RingBuffer × Phase) → Holds s → Holds (advance lib f n ev s)
  unfolding advance
  advance-Holds (change op) (rb, p) h = change-Holds op rb p h
  advance-Holds proceed (rb, looking) h = omega arith
  advance-Holds proceed (rb, grabbed channel) h = judge-Holds rb channel h
  advance-Holds proceed (rb, blocked channel msgs) h = h
  advance-Holds proceed (rb, returned msgs b) h = h
  advance-Holds woken (rb, blocked channel msgs) h = elim (Bool-cases (is_closed rb channel)) [
    | inl a ↦ rw (advance, a) tt
    | inr a ↦ rw (advance, a) h
  ]
  advance-Holds woken (rb, looking) h = h
  advance-Holds woken (rb, grabbed channel) h = h
  advance-Holds woken (rb, returned msgs b) h = h
  advance-Holds expired (rb, blocked channel msgs) h = tt
  advance-Holds expired (rb, looking) h = h
  advance-Holds expired (rb, grabbed channel) h = h
  advance-Holds expired (rb, returned msgs b) h = h
  advance-Holds cancelled (rb, blocked channel msgs) h = tt
  advance-Holds cancelled (rb, looking) h = h
  advance-Holds cancelled (rb, grabbed channel) h = h
  advance-Holds cancelled (rb, returned msgs b) h = h

  pub wait-Holds :
      (evs : List Event) (s : RingBuffer × Phase)
      → Holds s
      → Holds (wait_for_messages lib f n evs s)
  unfolding wait_for_messages
  wait-Holds [] s h = h
  wait-Holds (ev ∷ evs) s h = wait-Holds evs (advance lib f n ev s) (advance-Holds ev s h)

  -- The state after the events, for a call that begins with the buffer `rb`.
  abbrev pub after : List Event → RingBuffer → RingBuffer × Phase
  after evs rb = wait_for_messages lib f n evs (rb, looking)

  closed_if_enough :
      (rb : RingBuffer) (channel : ℕ) (msgs : List CapturedMessage)
      → Holds (rb, blocked channel msgs)
      → n ≤ length (query lib f rb)
      → is_closed rb channel ≡ true
  unfolding is_closed
  closed_if_enough rb channel msgs (a, b, c) m = elim (Bool-cases (ltb channel rb.changed)) [
    | inl t ↦ t
    | inr t ↦ absurd (too_few (ap length (b (current channel rb.changed a t))))
  ]
    where
      current : (c d : ℕ) → c ≤ d → ltb c d ≡ false → c ≡ d
      current c d a t = ground arith

      too_few : length (query lib f rb) ≡ length msgs → ⊥
      too_few e = omega arith

  wakes :
      (rb : RingBuffer) (channel : ℕ) (msgs : List CapturedMessage)
      → is_closed rb channel ≡ true
      → advance lib f n woken (rb, blocked channel msgs) ≡ (rb, looking)
  unfolding advance
  wakes rb channel msgs h = rw (advance, h) refl

  succeeds :
      (channel : ℕ) (msgs : List CapturedMessage)
      → n ≤ length msgs
      → judge lib f n channel msgs ≡ returned msgs true
  unfolding judge
  succeeds channel msgs m = rw (judge, enough n (length msgs) m) refl
    where
      enough : (n m : ℕ) → n ≤ m → leb n m ≡ true
      enough n m a = ground arith

  three_turns :
      (rb : RingBuffer) (channel : ℕ) (msgs : List CapturedMessage)
      → is_closed rb channel ≡ true
      → n ≤ length (query lib f rb)
      → wait_for_messages lib f n (woken ∷ proceed ∷ proceed ∷ []) (rb, blocked channel msgs)
        ≡ (rb, returned (query lib f rb) true)
  unfolding wait_for_messages advance
  three_turns rb channel msgs h m =
      ap (wait_for_messages lib f n (proceed ∷ proceed ∷ [])) (wakes rb channel msgs h)
      ∙ ap (λ p. (rb, p)) (succeeds rb.changed (query lib f rb) m)

  blocked_returns :
      (s : RingBuffer × Phase) (channel : ℕ) (msgs : List CapturedMessage)
      → s.1 ≡ blocked channel msgs
      → Holds s
      → n ≤ length (query lib f s.0)
      → (is_closed s.0 channel ≡ true)
        × (wait_for_messages lib f n (woken ∷ proceed ∷ proceed ∷ []) s
            ≡ (s.0, returned (query lib f s.0) true))
  blocked_returns (rb, p) channel msgs e h m =
      let closed = closed_if_enough rb channel msgs (subst (λ q. Holds (rb, q)) e h) m in
      (
        closed,
        ap (λ q. wait_for_messages lib f n (woken ∷ proceed ∷ proceed ∷ []) (rb, q)) e
            ∙ three_turns rb channel msgs closed m,
      )

  -- Whatever happens to the buffer meanwhile, if the call blocks in its select while n messages or
  -- more match, then its channel is closed, and unless the buffer changes again its next turns
  -- return all the messages that match, with true.
  pub enough_returns :
      (evs : List Event) (rb : RingBuffer) (channel : ℕ) (msgs : List CapturedMessage)
      → (after evs rb).1 ≡ blocked channel msgs
      → n ≤ length (query lib f (after evs rb).0)
      → (is_closed (after evs rb).0 channel ≡ true)
        × (wait_for_messages lib f n (woken ∷ proceed ∷ proceed ∷ []) (after evs rb)
            ≡ ((after evs rb).0, returned (query lib f (after evs rb).0) true))
  enough_returns evs rb channel msgs e m =
      blocked_returns (after evs rb) channel msgs e (wait-Holds evs (rb, looking) tt) m

  -- A call that returns true has at least n messages.
  returned_enough :
      (evs : List Event) (rb : RingBuffer) (msgs : List CapturedMessage)
      → (after evs rb).1 ≡ returned msgs true
      → n ≤ length msgs
  returned_enough evs rb msgs e = go (after evs rb) e (wait-Holds evs (rb, looking) tt)
    where
      go : (s : RingBuffer × Phase) → s.1 ≡ returned msgs true → Holds s → n ≤ length msgs
      go (rb, p) e h = subst (λ q. Holds (rb, q)) e h
