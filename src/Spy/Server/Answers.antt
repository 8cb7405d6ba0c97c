-- ===== src/Spy/Server/Answers.antt =====
-- What the answers of the spy server promise.
use mathlib.Core.Option.{some-injective}
use chitchat.Base.{
  some≢none, ◌==◌, ℕ, ◌≤◌, ltb, Str, is_empty, str_eq, length, if◌then◌else◌, Bool, Bool-cases,
  Option-cases, inl, inr, true, false, Option, none, some, List, [], last_n_nil, ok, ok-injective,
  ◌≡◌, refl, sym, ◌∙◌, ap, subst, arith,
}
use chitchat.Base.Int.{ℤ, pos, negsuc, gt_nat, to_nat}
use chitchat.Libraries.{Libraries}
use chitchat.Spy.Message.{Filter, CapturedMessage}
use chitchat.Spy.Wait.{
  Phase, looking, grabbed, blocked, returned, Event, wait_for_messages, timed_events,
  wait_with_timer,
}
use chitchat.Spy.Wait.Wakeups.{Holds, wait-Holds}
use chitchat.Spy.Ring.{RingBuffer, query, apply_limit, clear, count, notify_locked}
use chitchat.Spy.Server.{
  Answer, messages, waited, wait, status_ok, cleared, healthy, handle_clear, handle_clear_2,
  handle_health, method_post, bound_timeout, parse_timeout, max_wait_timeout,
}

module _ (quote : Str → Str) where
  bound_timeout-le :
      (v : Str) (z : ℤ) {d : ℕ} → bound_timeout quote v z ≡ ok d → d ≤ max_wait_timeout
  unfolding bound_timeout
  bound_timeout-le v (negsuc z) = λ h. absurd cc
  bound_timeout-le v (pos z) = elim (Bool-cases (ltb max_wait_timeout z)) [
    | inl a ↦ rw (bound_timeout, a) (λ h. rw (← ok-injective h) (omega arith))
    | inr a ↦ rw (bound_timeout, a) (λ h. rw (← ok-injective h) (below z a))
  ]
    where
      below : (z : ℕ) → ltb max_wait_timeout z ≡ false → z ≤ max_wait_timeout
      below z a = ground arith

  -- parseTimeout never returns more than maxWaitTimeout, whatever the client asks for.
  pub parse_timeout-le :
      (parse_duration parse_seconds : Str → Option ℤ) (v : Str) {d : ℕ}
      → parse_timeout quote parse_duration parse_seconds v ≡ ok d
      → d ≤ max_wait_timeout
  unfolding parse_timeout
  parse_timeout-le parse_duration parse_seconds v = elim (Bool-cases (is_empty v)) [
    | inl a ↦ rw (parse_timeout, a) (λ h. rw (← ok-injective h) (omega arith))
    | inr a ↦ elim (Option-cases (parse_duration v)) [
      | inr (z, b) ↦ rw (parse_timeout, a, b) (bound_timeout-le v z)
      | inl b ↦ elim (Option-cases (parse_seconds v)) [
        | inr (z, c) ↦ rw (parse_timeout, a, b, c) (bound_timeout-le v z)
        | inl c ↦ rw (parse_timeout, a, b, c) (λ h. absurd cc)
      ]
    ]
  ]

apply_limit_nil : (lib : Libraries) (limit : ℤ) → apply_limit lib limit [] ≡ []
unfolding apply_limit
apply_limit_nil lib limit = elim (Bool-cases (gt_nat limit 0)) [
  | inl a ↦ rw (apply_limit, a) (last_n_nil (to_nat limit))
  | inr a ↦ rw (apply_limit, a) refl
]

-- POST /_chitchat/clear answers with the number of messages that the health check counted before,
-- and after it no filter selects anything and the health check counts no message.
cleared_for_all :
    (lib : Libraries) {R S : Type 0} (rb : RingBuffer) (f : Filter)
    → let (rb', answer) = handle_clear {R = R} {S = S} method_post rb in
      (handle_health {R = R} {S = S} rb ≡ healthy (count rb))
      × (answer ≡ cleared (count rb))
      × (query lib f rb' ≡ [])
      × (handle_health {R = R} {S = S} rb' ≡ healthy 0)
unfolding handle_clear handle_clear_2 handle_health clear count query notify_locked str_eq
cleared_for_all lib rb f = (refl, refl, apply_limit_nil lib f.limit, refl)

-- The messages of an answer with status 200.
abbrev listed : {R S : Type 0} → Option (RingBuffer × Answer R S) → Option (List CapturedMessage)
listed (some (rb, messages status msgs)) = if status == status_ok then some msgs else none
listed _ = none

module _ (R S : Type 0) (lib : Libraries) (parse_duration parse_seconds : Str → Option ℤ)
    (evs : List (ℕ × Event)) (gone : Bool) where
  abbrev outcome : RingBuffer × Phase → Option (RingBuffer × Answer R S)
  outcome s = waited {R = R} {S = S} lib parse_duration parse_seconds evs gone (pos 0) s

  too_late :
      (rb : RingBuffer) (msgs : List CapturedMessage)
      → listed (outcome (rb, returned msgs false)) ≡ none
  unfolding waited
  too_late rb msgs = elim (Bool-cases gone) [
    | inl a ↦ rw (waited, a) refl
    | inr a ↦ rw (waited, a) refl
  ]

  waited_enough :
      (f : Filter) (n : ℕ) (s : RingBuffer × Phase) (ms : List CapturedMessage)
      → listed (outcome s) ≡ some ms
      → Holds lib f n s
      → n ≤ length ms
  unfolding waited apply_limit
  waited_enough f n (rb, returned msgs true) ms e h =
      subst (λ xs. n ≤ length xs) (some-injective msgs ms e) h
  waited_enough f n (rb, returned msgs false) ms e h = absurd (some≢none (sym e ∙ too_late rb msgs))
  waited_enough f n (rb, looking) ms e h = absurd (some≢none (sym e))
  waited_enough f n (rb, grabbed channel) ms e h = absurd (some≢none (sym e))
  waited_enough f n (rb, blocked channel msgs) ms e h = absurd (some≢none (sym e))

  -- Where a request waits for n messages and sets no limit, an answer with status 200 has at least n
  -- messages, whatever happens to the buffer meanwhile.
  pub wait_answers_enough :
      (f : Filter) (n timeout : ℕ) (rb rb' : RingBuffer) (ms : List CapturedMessage)
      → f.limit ≡ pos 0
      → wait {R = R} {S = S} lib parse_duration parse_seconds evs gone f n timeout rb
        ≡ some (rb', messages status_ok ms)
      → n ≤ length ms
  unfolding wait wait_with_timer
  wait_answers_enough f n timeout rb rb' ms l e =
      waited_enough (record f { limit = pos 0 }) n
        (wait_for_messages lib (record f { limit = pos 0 }) n (timed_events timeout evs)
          (rb, looking))
        ms
        (ap listed (
          subst
            (λ z.
              waited {R = R} {S = S} lib parse_duration parse_seconds evs gone z (
                wait_for_messages lib (record f { limit = pos 0 }) n (timed_events timeout evs)
                  (rb, looking))
              ≡ some (rb', messages status_ok ms))
            l e))
        (wait-Holds lib (record f { limit = pos 0 }) n (timed_events timeout evs) (rb, looking) tt)
