-- ===== src/Spy/Ring/Log.antt =====
-- What the ring buffer promises: it shows the last messages of a log that forgets nothing but what
-- a clear removes.
use Prim.Native.Nat.{◌%◌, ◌^◌}
use chitchat.Base.{
  ℕ, ◌+◌, List, [], ◌∷◌, ◌++◌, last_n, last_n-append, last_n_nil, if◌then◌else◌, ◌≡◌, refl, ap, sym,
  ◌∙◌,
}
use chitchat.Base.Int.{ℤ, gt_nat, to_nat}
use chitchat.Libraries.{Libraries}
use chitchat.Broker.Message.{Message}
use chitchat.Spy.Message.{CapturedMessage}
use chitchat.Spy.Ring.{RingBuffer, new_ring_buffer, notify_locked, capture, record_message, clear}

-- The calls that change a buffer; a recorded message comes with the time.
pub data Op : Type 0 where
  record_op : ℕ → Message → Op
  clear_op : Op

-- The unbounded log, and the number of the next message.
pub record Log : Type 0 where
  pub entries : List CapturedMessage
  pub next : ℕ

module _ (lib : Libraries) where
  unfoldable pub step : Op → RingBuffer → RingBuffer
  step (record_op now msg) rb = record_message lib now msg rb
  step clear_op rb = (clear rb).0

  unfoldable pub run : List Op → RingBuffer → RingBuffer
  unfolding step
  run [] rb = rb
  run (op ∷ ops) rb = run ops (step op rb)

  unfoldable pub log_step : Op → Log → Log
  log_step (record_op now msg) l = record {
    entries = l.entries ++ capture lib l.next now msg ∷ [];
    next = (l.next + 1) % 2 ^ 64;
  }
  log_step clear_op l = record l { entries = [] }

  unfoldable pub log_run : List Op → Log → Log
  unfolding log_step
  log_run [] l = l
  log_run (op ∷ ops) l = log_run ops (log_step op l)

abbrev pub empty_log : Log
empty_log = record { entries = []; next = 1 }

-- The buffer holds the last `max_size` messages of the log.
pub record Shows (rb : RingBuffer) (l : Log) : Type 0 where
  pub messages : rb.messages ≡ last_n rb.max_size l.entries
  pub next : rb.next_seq ≡ l.next

module _ (lib : Libraries) where
  step-Shows :
      (op : Op) (rb : RingBuffer) (l : Log)
      → Shows rb l
      → Shows (step lib op rb) (log_step lib op l)
  unfolding step log_step record_message clear notify_locked
  step-Shows (record_op now msg) rb l s = record {
    messages =
        ap (λ n. last_n rb.max_size (rb.messages ++ capture lib n now msg ∷ [])) s.next
        ∙ ap (λ ms. last_n rb.max_size (ms ++ capture lib l.next now msg ∷ [])) s.messages
        ∙ last_n-append rb.max_size l.entries (capture lib l.next now msg ∷ []);
    next = ap (λ n. (n + 1) % 2 ^ 64) s.next;
  }
  step-Shows clear_op rb l s = record { messages = sym (last_n_nil rb.max_size); next = s.next }

  run-Shows :
      (ops : List Op) (rb : RingBuffer) (l : Log)
      → Shows rb l
      → Shows (run lib ops rb) (log_run lib ops l)
  unfolding run log_run
  run-Shows [] rb l s = s
  run-Shows (op ∷ ops) rb l s = run-Shows ops _ _ (step-Shows op rb l s)

  pub max_size-run : (ops : List Op) (rb : RingBuffer) → (run lib ops rb).max_size ≡ rb.max_size
  unfolding run record_message clear notify_locked
  max_size-run [] rb = refl
  max_size-run (record_op now msg ∷ ops) rb = max_size-run ops _
  max_size-run (clear_op ∷ ops) rb = max_size-run ops _

  -- After any calls of Record and Clear, a new buffer holds the last max_size messages of the log
  -- of all that was recorded since the last Clear, and its next number is that of the log. The
  -- calls keep max_size, which is n, or 1000 where n is not positive.
  pub run-shows_log :
      (n : ℤ) (ops : List Op)
      → let rb = run lib ops (new_ring_buffer n) in
        let l = log_run lib ops empty_log in
        (rb.messages ≡ last_n rb.max_size l.entries)
        × (rb.next_seq ≡ l.next)
        × (rb.max_size ≡ (if gt_nat n 0 then to_nat n else 1000))
  unfolding new_ring_buffer
  run-shows_log n ops =
      let s =
        run-Shows ops (new_ring_buffer n) empty_log
          (record { messages = sym (last_n_nil _); next = refl }) in
      (s.messages, s.next, max_size-run ops (new_ring_buffer n))
