-- ===== src/Spy/Ring/Cursor.antt =====
-- The ?since=<seq> cursor of a client that polls the buffer.
use Prim.Native.Nat.{◌^◌}
use chitchat.Base.{
  ℕ, suc, ◌+◌, ◌-◌, ◌≤◌, ◌<◌, List, [], ◌∷◌, ◌++◌, length, drop, last_n, last_n_keeps, last_n_whole,
  length-last_n-le, last_n-append, ◌≡◌, refl, ap, sym, ◌∙◌, arith, All, All-drop, select,
  select-append, select_drops, false, ltb, leb, ◌&&◌,
}
use mathlib.Core.Path.{◌≡⟨◌⟩◌, ◌∎}
use mathlib.Core.List.{append-nil, append_assoc}
use chitchat.Libraries.{Libraries}
use chitchat.Broker.Message.{Message}
use chitchat.Spy.Message.{CapturedMessage, Filter}
use chitchat.Spy.Filter.{matches}
use chitchat.Spy.Ring.{RingBuffer, capture, record_message, query, apply_limit}
use chitchat.Spy.Ring.Numbers.{IsNumbered, Numbered-below, next_seq-record}

module _ (lib : Libraries) where
  -- Record, once for each message with its time.
  unfoldable pub record_all : List (ℕ × Message) → RingBuffer → RingBuffer
  record_all [] rb = rb
  record_all ((now, msg) ∷ ms) rb = record_all ms (record_message lib now msg rb)

  -- The messages as they are captured, numbered from `seq` on.
  unfoldable pub captures : ℕ → List (ℕ × Message) → List CapturedMessage
  captures seq [] = []
  captures seq ((now, msg) ∷ ms) = capture lib seq now msg ∷ captures (seq + 1) ms

  length-captures : (seq : ℕ) (ms : List (ℕ × Message)) → length (captures seq ms) ≡ length ms
  unfolding captures
  length-captures seq [] = refl
  length-captures seq ((now, msg) ∷ ms) = ap suc (length-captures (seq + 1) ms)

  captures-above :
      (seq c : ℕ) (ms : List (ℕ × Message)) → c < seq → All (λ m. c < m.seq) (captures seq ms)
  unfolding captures capture
  captures-above seq c [] h = tt
  captures-above seq c ((now, msg) ∷ ms) h = (h, captures-above (seq + 1) c ms (omega arith))

  messages-record_all :
      (ms : List (ℕ × Message)) (rb : RingBuffer)
      → length rb.messages ≤ rb.max_size
      → rb.next_seq + length ms < 2 ^ 64
      → (record_all ms rb).messages ≡ last_n rb.max_size (rb.messages ++ captures rb.next_seq ms)
  unfolding record_all captures record_message
  messages-record_all [] rb b h =
      sym
        (ap (last_n rb.max_size) (append-nil rb.messages) ∙ last_n_whole rb.max_size rb.messages b)
  messages-record_all ((now, msg) ∷ ms) rb b h =
      let r = record_message lib now msg rb in
      let m = capture lib rb.next_seq now msg in
      let e = next_seq-record lib now msg rb (omega arith) in
      (record_all ms r).messages
      ≡⟨ messages-record_all ms r (length-last_n-le rb.max_size _) (omega (arith, e)) ⟩
        last_n rb.max_size (r.messages ++ captures r.next_seq ms)
      ≡⟨ ap (λ n. last_n rb.max_size (r.messages ++ captures n ms)) e ⟩
        last_n rb.max_size (r.messages ++ captures (rb.next_seq + 1) ms)
      ≡⟨ last_n-append rb.max_size (rb.messages ++ m ∷ []) (captures (rb.next_seq + 1) ms) ⟩
        last_n rb.max_size ((rb.messages ++ m ∷ []) ++ captures (rb.next_seq + 1) ms)
      ≡⟨ ap (last_n rb.max_size)
          (append_assoc rb.messages (m ∷ []) (captures (rb.next_seq + 1) ms)) ⟩
        last_n rb.max_size (rb.messages ++ m ∷ captures (rb.next_seq + 1) ms) ∎

  past : (c seq : ℕ) → c < seq → (ltb 0 c && leb seq c) ≡ false
  past c seq h = ground arith

  -- A cursor adds one condition to a filter.
  matches_new :
      (f : Filter) (c : ℕ) (m : CapturedMessage)
      → c < m.seq
      → matches lib (record f { since_seq = c }) m ≡ matches lib (record f { since_seq = 0 }) m
  unfolding matches
  matches_new f c m h = rw (past c m.seq h)

  matches_old :
      (f : Filter) (c : ℕ) (m : CapturedMessage)
      → 0 < c
      → m.seq ≤ c
      → matches lib (record f { since_seq = c }) m ≡ false
  unfolding matches
  matches_old f c m z h = ground arith

  -- The old messages fail the filter with the cursor, the new ones are tested by the rest of it.
  select_old :
      (f : Filter) (c : ℕ) (ms : List CapturedMessage)
      → 0 < c
      → All (λ m. m.seq < c + 1) ms
      → select (matches lib (record f { since_seq = c })) ms ≡ []
  select_old f c ms z h = select_drops _ ms (go ms h)
    where
      go :
          (ms : List CapturedMessage)
          → All (λ m. m.seq < c + 1) ms
          → All (λ m. matches lib (record f { since_seq = c }) m ≡ false) ms
      go [] h = tt
      go (m ∷ ms) h = (matches_old f c m z (omega (arith, h.0)), go ms h.1)

  select_new :
      (f : Filter) (c : ℕ) (ms : List CapturedMessage)
      → All (λ m. c < m.seq) ms
      → select (matches lib (record f { since_seq = c })) ms
        ≡ select (matches lib (record f { since_seq = 0 })) ms
  select_new f c [] h = refl
  select_new f c (m ∷ ms) h = rw (matches_new f c m h.0, select_new f c ms h.1)

  -- A client that asks again with the last number it may have seen gets, in order and none twice,
  -- exactly those of the messages recorded in between that pass the rest of its filter, provided
  -- that no more were recorded than the buffer holds and that the numbers do not wrap.
  pub query_since :
      (f : Filter) (rb : RingBuffer) (ms : List (ℕ × Message))
      → IsNumbered rb
      → 1 < rb.next_seq
      → length ms ≤ rb.max_size
      → rb.next_seq + length ms < 2 ^ 64
      → query lib (record f { since_seq = rb.next_seq - 1 }) (record_all ms rb)
        ≡ apply_limit lib f.limit
            (select (matches lib (record f { since_seq = 0 })) (captures rb.next_seq ms))
  unfolding query
  query_since f rb ms v s b w =
      let c : ℕ = rb.next_seq - 1 in
      let new = captures rb.next_seq ms in
      let gone : ℕ = length rb.messages + length new - rb.max_size in
      let test = matches lib (record f { since_seq = c }) in
      ap (λ ms. apply_limit lib f.limit (select test ms))
        (messages-record_all ms rb v.bounded w
          ∙ last_n_keeps rb.max_size rb.messages new
              (omega (arith, length-captures rb.next_seq ms)))
      ∙ ap (apply_limit lib f.limit) (
          select-append test (drop gone rb.messages) new
          ∙ ap (λ old. old ++ select test new)
              (select_old f c (drop gone rb.messages) (omega arith) (
                All-drop (λ m. m.seq < c + 1) gone rb.messages
                  (Numbered-below (rb.next_seq - length rb.messages) (c + 1) rb.messages v.numbered
                    (omega (arith, v.started)))))
          ∙ select_new f c new (captures-above rb.next_seq c ms (omega arith)))
