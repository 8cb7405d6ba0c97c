-- ===== src/Engine/Lifecycle/Traced.antt =====
-- The calls that Start, Reload and Stop make of the driver, over any sequence of them.
pub mod Tidy
use chitchat.Base.{
  ℕ, ◌+◌, Str, elem, elem_iff, if◌then◌else◌, Bool, true, not, ◌||◌, Option, none, some, some≢none,
  List, [], ◌∷◌, In, Distinct, ◌≡◌, ◌⊎◌, inl, inr, refl, sym, ◌∙◌, ap, subst, Bool-cases,
  Option-cases, arith, false≢true,
}
use chitchat.Config.Types.{Config}
use chitchat.Broker.Driver.{Driver}
use chitchat.Spy.Ring.{RingBuffer}
use chitchat.Engine.State.{Engine, new_engine}
use chitchat.Engine.Queues.{desired_queues}
use chitchat.Engine.Queues.Sorted.{desired_queues_lem}
use chitchat.Engine.Lifecycle.{
  consume, subscribe_one, subscribe_all, subscribe_new, started, start, reloaded, reload,
  stop_begin, stop_finish, stop,
}

-- A driver's state with the queues from which it was made to consume, the last one first, and the
-- number of times it was closed.
pub record Trace (D : Type 0) : Type 0 where
  pub inner : D
  pub consumed : List Str
  pub closed : ℕ

abbrev pub traced : {D : Type 0} → Driver D → Driver (Trace D)
traced drv = record {
  connect = λ url t. let (err, d) = drv.connect url t.inner in (err, record t { inner = d });
  declare_topology =
      λ ds t. let (err, d) = drv.declare_topology ds t.inner in (err, record t { inner = d });
  start_consuming = λ q t.
      let (err, d) = drv.start_consuming q t.inner in
      (
        err,
        record t { inner = d; consumed = elim err [ none ↦ q ∷ t.consumed | some x ↦ t.consumed ] },
      );
  publish = λ ex key body hs t.
      let (err, d) = drv.publish ex key body hs t.inner in (err, record t { inner = d });
  close =
      λ t. let (err, d) = drv.close t.inner in (err, record t { inner = d; closed = t.closed + 1 });
}

abbrev pub untouched : {D : Type 0} → D → Trace D
untouched d = record { inner = d; consumed = []; closed = 0 }

-- A call of one of the three methods; the one of Stop with the error of its context, if that comes.
pub data Call : Type 0 where
  start_call : Call
  reload_call : Config → Call
  stop_call : Option Str → Call

abbrev pub times_closed : Bool → ℕ
times_closed stopped = if stopped then 1 else 0

module _ {D : Type 0} (drv : Driver D) (quote : Str → Str) where
  abbrev pub call : Call → Engine D → Engine D
  call start_call e = (start drv quote e).0
  call (reload_call cfg) e = (reload drv quote cfg e).0
  call (stop_call late) e = (stop drv quote late e).0

  abbrev pub calls : List Call → Engine D → Engine D
  calls [] e = e
  calls (c ∷ cs) e = calls cs (call c e)

-- Each subscribed queue is consumed from once, and nothing else is; the driver is closed once the
-- engine is stopped, and once only.
abbrev pub IsTidy : {D : Type 0} → Engine (Trace D) → Type 0
IsTidy e =
    (e.driver.consumed ≡ e.subscribed)
    × Distinct e.subscribed
    × (e.driver.closed ≡ times_closed e.stopped)

-- Start was called and did not fail.
abbrev pub WasStarted : {D : Type 0} → Engine D → Type 0
WasStarted e = (e.running ≡ true) ⊎ (e.stopped ≡ true)

-- The flags are as they were.
abbrev pub Same : {D : Type 0} → Engine D → Engine D → Type 0
Same e e' = (e'.running ≡ e.running) × (e'.stopped ≡ e.stopped)

-- A step of the loops: it keeps the invariant and the flags.
abbrev pub Steps : {D : Type 0} → Engine (Trace D) → Engine (Trace D) → Type 0
Steps e e' = IsTidy e' × Same e e'
