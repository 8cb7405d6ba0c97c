-- ===== src/Spy/Ring/Numbers.antt =====
-- The sequence numbers of the ring buffer, as long as the uint64 does not wrap.
use Prim.Native.Nat.{◌%◌, ◌^◌}
use chitchat.Base.{
  ℕ, zero, suc, ◌+◌, ◌-◌, ◌≤◌, ◌<◌, List, [], ◌∷◌, ◌++◌, length, length-append, drop, last_n,
  last_n_lem, length-last_n-le, length-last_n, ◌≡◌, refl, arith, All, subst,
}
use chitchat.Base.Int.{ℤ}
use chitchat.Libraries.{Libraries}
use chitchat.Broker.Message.{Message}
use chitchat.Spy.Message.{CapturedMessage}
use chitchat.Spy.Ring.{RingBuffer, new_ring_buffer, notify_locked, capture, record_message, clear}
use chitchat.Spy.Ring.Log.{Op, record_op, clear_op, step, run}

-- The messages carry the numbers first, first + 1, and so on.
abbrev pub Numbered : ℕ → List CapturedMessage → Type 0
Numbered first [] = Unit
Numbered first (m ∷ ms) = (m.seq ≡ first) × Numbered (first + 1) ms

Numbered-drop :
    (n first : ℕ) (ms : List CapturedMessage)
    → Numbered first ms
    → n ≤ length ms
    → Numbered (first + n) (drop n ms)
Numbered-drop zero first ms h b = subst (λ k. Numbered k ms) (omega arith) h
Numbered-drop (suc n) first [] h b = elim b [ ]
Numbered-drop (suc n) first (m ∷ ms) h b =
    subst (λ k. Numbered k (drop n ms)) (omega arith)
      (Numbered-drop n (first + 1) ms h.1 (omega arith))

Numbered-append :
    (first : ℕ) (ms : List CapturedMessage) (m : CapturedMessage)
    → Numbered first ms
    → m.seq ≡ first + length ms
    → Numbered first (ms ++ m ∷ [])
Numbered-append first [] m h e = (omega arith, tt)
Numbered-append first (x ∷ ms) m h e = (h.0, Numbered-append (first + 1) ms m h.1 (omega arith))

Numbered-last_n :
    (k first : ℕ) (ms : List CapturedMessage)
    → Numbered first ms
    → Numbered (first + length ms - length (last_n k ms)) (last_n k ms)
Numbered-last_n k first ms h = rw (length-last_n k ms) (
    rw (last_n_lem k ms) (
      subst (λ n. Numbered n (drop (length ms - k) ms)) (omega arith)
        (Numbered-drop (length ms - k) first ms h (omega arith))))

pub Numbered-below :
    (first bound : ℕ) (ms : List CapturedMessage)
    → Numbered first ms
    → first + length ms ≤ bound
    → All (λ m. m.seq < bound) ms
Numbered-below first bound [] h b = tt
Numbered-below first bound (m ∷ ms) h b =
    (omega (arith, h.0), Numbered-below (first + 1) bound ms h.1 (omega arith))

-- The buffer is within its size, and its messages carry the last numbers that were given.
pub record IsNumbered (rb : RingBuffer) : Type 0 where
  pub positive : 1 ≤ rb.max_size
  pub bounded : length rb.messages ≤ rb.max_size
  pub started : length rb.messages < rb.next_seq
  pub numbered : Numbered (rb.next_seq - length rb.messages) rb.messages

-- How many messages the calls record.
abbrev pub records : List Op → ℕ
records [] = 0
records (record_op now msg ∷ ops) = suc (records ops)
records (clear_op ∷ ops) = records ops

module _ (lib : Libraries) where
  pub next_seq-record :
      (now : ℕ) (msg : Message) (rb : RingBuffer)
      → rb.next_seq + 1 < 2 ^ 64
      → (record_message lib now msg rb).next_seq ≡ rb.next_seq + 1
  unfolding record_message notify_locked
  next_seq-record now msg rb h = omega arith

  next_seq-clear : (rb : RingBuffer) → (clear rb).0.next_seq ≡ rb.next_seq
  unfolding clear notify_locked
  next_seq-clear rb = refl

  pub record-IsNumbered :
      (now : ℕ) (msg : Message) (rb : RingBuffer)
      → IsNumbered rb
      → rb.next_seq + 1 < 2 ^ 64
      → IsNumbered (record_message lib now msg rb)
  unfolding record_message notify_locked
  record-IsNumbered now msg rb v h = record {
    positive = v.positive;
    bounded = length-last_n-le rb.max_size _;
    started = omega (arith, length-last_n rb.max_size all, length-append rb.messages (m ∷ []));
    numbered =
        subst (λ n. Numbered (n - length (last_n rb.max_size all)) (last_n rb.max_size all)) total
          (Numbered-last_n rb.max_size (rb.next_seq - length rb.messages) all
            (Numbered-append _ rb.messages m v.numbered (omega (arith, v.started))));
  }
    where
      m : CapturedMessage
      m = capture lib rb.next_seq now msg

      all : List CapturedMessage
      all = rb.messages ++ m ∷ []

      total : rb.next_seq - length rb.messages + length all ≡ (rb.next_seq + 1) % 2 ^ 64
      total = omega (arith, length-append rb.messages (m ∷ []), v.started)

  clear-IsNumbered : (rb : RingBuffer) → IsNumbered rb → IsNumbered (clear rb).0
  unfolding clear notify_locked
  clear-IsNumbered rb v = record {
    positive = v.positive;
    bounded = omega arith;
    started = omega (arith, v.started);
    numbered = tt;
  }

  -- Calls that record few enough messages for the uint64 keep the buffer within its size and its
  -- messages numbered without gaps up to the number before next_seq; next_seq grows by one for each
  -- recorded message and by nothing else.
  pub run-IsNumbered :
      (ops : List Op) (rb : RingBuffer)
      → IsNumbered rb
      → rb.next_seq + records ops < 2 ^ 64
      → IsNumbered (run lib ops rb) × ((run lib ops rb).next_seq ≡ rb.next_seq + records ops)
  unfolding run step
  run-IsNumbered [] rb v h = (v, omega arith)
  run-IsNumbered (record_op now msg ∷ ops) rb v h =
      let e = next_seq-record now msg rb (omega arith) in
      let (a, b) =
        run-IsNumbered ops (record_message lib now msg rb)
          (record-IsNumbered now msg rb v (omega arith)) (omega (arith, e)) in
      (a, omega (arith, b, e))
  run-IsNumbered (clear_op ∷ ops) rb v h =
      let e = next_seq-clear rb in
      let (a, b) = run-IsNumbered ops (clear rb).0 (clear-IsNumbered rb v) (omega (arith, e)) in
      (a, omega (arith, b, e))

pub new-IsNumbered : (n : ℤ) → IsNumbered (new_ring_buffer n)
unfolding new_ring_buffer
new-IsNumbered n = ground arith
