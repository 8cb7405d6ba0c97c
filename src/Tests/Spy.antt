-- ===== src/Tests/Spy.antt =====
-- The ring buffer and its filters.
use Prim.Native.String.{String}
use chitchat.Base.{
  ℕ, Str, codes, some, none, ok, ◌≡◌, refl, ◌↔◌, true, false, Bool, ◌==◌, ◌||◌, false≢true, sym,
  ◌∙◌, inl, inr, In, List, [], ◌∷◌, select, arith, last_n, map, ◌-◌, ◌+◌,
}
use chitchat.Base.Int.{pos}
use chitchat.Broker.Message.{Message}
use chitchat.Spy.Message.{Filter}
use chitchat.Value.{list, bytes, cons, nil}
use chitchat.Spy.Headers.Clean.{AllReadable, captured_headers_are_readable}
use chitchat.Spy.Wait.{
  looking, returned, Event, proceed, change, woken, wait_for_messages, advance, judge,
}
use chitchat.Spy.Wait.Wakeups.{enough_returns}
use chitchat.Spy.Params.{parse_filter}
use chitchat.Spy.Params.RoundTrip.{params, parse_filter-params}
use chitchat.Spy.Filter.{matches}
use chitchat.Spy.Filter.Spec.{Selected, matches_iff}
use chitchat.Spy.Ring.{
  RingBuffer, new_ring_buffer, capture, record_message, query, apply_limit, no_filter, is_closed,
}
use chitchat.Spy.Ring.Log.{Op, record_op, run, step, log_run, empty_log, run-shows_log}
use chitchat.Spy.Ring.Numbers.{IsNumbered, new-IsNumbered, run-IsNumbered}
use chitchat.Spy.Ring.Cursor.{record_all, captures, query_since}
use chitchat.Tests.Samples.{plain, hello}

abbrev three : List Op
three = record_op 1 hello ∷ record_op 2 hello ∷ record_op 3 hello ∷ []

oldest_goes : map (λ m. m.seq) (run plain three (new_ring_buffer (pos 2))).messages ≡ 2 ∷ 3 ∷ []
unfolding run record_message last_n new_ring_buffer
oldest_goes = refl

matches_iff_example :
    (matches plain (no_filter plain) (capture plain 1 0 hello) ≡ true)
    ↔ Selected plain (no_filter plain) (capture plain 1 0 hello)
matches_iff_example = matches_iff plain (no_filter plain) (capture plain 1 0 hello)

run-shows_log_example :
    let rb = run plain three (new_ring_buffer (pos 2)) in
    let l = log_run plain three empty_log in
    (rb.messages ≡ last_n rb.max_size l.entries) × (rb.next_seq ≡ l.next) × (rb.max_size ≡ 2)
run-shows_log_example = run-shows_log plain (pos 2) three

run-IsNumbered_example :
    IsNumbered (run plain three (new_ring_buffer (pos 2)))
    × ((run plain three (new_ring_buffer (pos 2))).next_seq
        ≡ (new_ring_buffer (pos 2)).next_seq + 3)
unfolding new_ring_buffer
run-IsNumbered_example =
    run-IsNumbered plain three (new_ring_buffer (pos 2)) (new-IsNumbered (pos 2)) (omega arith)

abbrev one_held : RingBuffer
one_held = run plain (record_op 1 hello ∷ []) (new_ring_buffer (pos 2))

one_held-IsNumbered : IsNumbered one_held
unfolding run new_ring_buffer record_message last_n capture
one_held-IsNumbered = omega arith

abbrev later : List (ℕ × Message)
later = (7, hello) ∷ (8, hello) ∷ []

query_since_example :
    query plain
      (record (no_filter plain) { since_seq = one_held.next_seq - 1 })
      (record_all plain later one_held)
    ≡ apply_limit plain
        (pos 0)
        (select (matches plain (no_filter plain)) (captures plain one_held.next_seq later))
unfolding run new_ring_buffer record_message
query_since_example =
    query_since plain (no_filter plain) one_held later one_held-IsNumbered (omega arith)
      (omega arith) (omega arith)

-- A message comes between the query of a waiting call and its select.
abbrev between : List Event
between = proceed ∷ proceed ∷ change (record_op 1 hello) ∷ []

abbrev empty_buffer : RingBuffer
empty_buffer = new_ring_buffer (pos 2)

enough_returns_example :
    let s = wait_for_messages plain (no_filter plain) 1 between (empty_buffer, looking) in
    (is_closed s.0 0 ≡ true)
    × (wait_for_messages plain (no_filter plain) 1 (woken ∷ proceed ∷ proceed ∷ []) s
        ≡ (s.0, returned (query plain (no_filter plain) s.0) true))
unfolding wait_for_messages advance judge step new_ring_buffer record_message query matches last_n
    capture
enough_returns_example =
    enough_returns plain (no_filter plain) 1 between empty_buffer 0 [] refl (omega arith)

abbrev paid : Filter
paid = record (no_filter plain) {
  queue = codes "orders";
  direction = codes "received";
  headers = (codes "kind", some (codes "a=b")) ∷ (codes "trace", none) ∷ [];
  body = record { path = codes "state"; value = some (codes "paid") } ∷ [];
  since_seq = 41;
  limit = pos 5;
}

parse_filter-params_example : parse_filter plain.quote (params plain.quote paid 5) ≡ ok paid
parse_filter-params_example =
    parse_filter-params plain.quote paid 5 refl (omega arith) (omega arith) (inr (inl refl))
      (
        ((λ e. cc), (λ i. no_equals "kind" refl i)),
        (((λ e. cc), (λ i. no_equals "trace" refl i)), tt),
      )
      ((λ i. elim i [ inl e ↦ cc | inr j ↦ j ]), ((λ i. i), tt))
      (((λ e. cc), (λ i. no_equals "state" refl i)), tt)
  where
    has_equals : Str → Bool
    has_equals [] = false
    has_equals (c ∷ s) = c == b'=' || has_equals s

    no_equals : (s : String) → has_equals (codes s) ≡ false → ¬ In b'=' (codes s)
    no_equals s h i = absurd (false≢true (sym h ∙ found (codes s) i))
      where
        found : (t : Str) → In b'=' t → has_equals t ≡ true
        found [] i = absurd i
        found (c ∷ t) i = elim i [ inl e ↦ rw (← e) refl | inr j ↦ ground (arith, found t j) ]

abbrev framed : Message
framed = record hello { headers = (codes "trace", list (cons (bytes (codes "ab")) nil)) ∷ [] }

captured_headers_are_readable_example :
    let h = (capture plain 1 0 framed).headers in
    AllReadable h × ((capture plain 1 0 (record framed { headers = h })).headers ≡ h)
captured_headers_are_readable_example = captured_headers_are_readable plain 1 0 framed
