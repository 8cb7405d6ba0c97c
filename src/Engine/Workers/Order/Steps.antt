-- ===== src/Engine/Workers/Order/Steps.antt =====
-- What each event does before the driver is closed, and after that.
use chitchat.Base.{
  ℕ, ◌==◌, ==_iff, ltb, and_elim, branch_lem, length, Bool, true, false, ◌&&◌, Option, none, some,
  List, [], ◌∷◌, ◌≡◌, refl, sym, ◌∙◌, subst, ◌⊎◌, inl, inr, Bool-cases, false≢true, arith,
}
use chitchat.Libraries.{Libraries}
use chitchat.Broker.Message.{Message}
use chitchat.Broker.Driver.{Driver}
use chitchat.Engine.State.{Engine, Job}
use chitchat.Engine.Lifecycle.{stop_begin, stop_finish}
use chitchat.Engine.Workers.{
  Workers, arrive, receive, loop_done, respond, stop_call, channel_size, without, at, is_idle,
  handle_next, respond_with, stop_end, work,
}
use chitchat.Engine.Workers.Monitor.{Monitored, monitored, IsOpen}
use chitchat.Engine.Workers.Calls.{Kept, handle-Kept, dispatch-Kept}

-- The driver is open, and a Stop that began has not ended.
abbrev pub Before : {D : Type 0} → Workers (Monitored D) → Type 0
Before w = IsOpen w.engine.driver × (w.engine.stopped ≡ w.stopping)

-- The driver was closed, and not called after that; Stop has ended and no worker is left.
abbrev pub After : {D : Type 0} → Workers (Monitored D) → Type 0
After w =
    (w.engine.driver.closed ≡ true)
    × (w.engine.driver.misused ≡ false)
    × (w.engine.stopped ≡ true)
    × (w.stopping ≡ false)
    × (w.engine.loops ≡ 0)
    × (w.engine.jobs ≡ [])

length_zero : {A : Type 0} (xs : List A) → (length xs == 0) ≡ true → xs ≡ []
length_zero [] h = refl
length_zero (x ∷ xs) h = absurd (omega (arith, (==_iff (length (x ∷ xs)) 0).0 h))

module _ (lib : Libraries) {D : Type 0} (drv : Driver D) where
  handle_next-Kept :
      (now source : ℕ) (ms : List Message) (e : Engine (Monitored D))
      → IsOpen e.driver
      → Kept e (handle_next lib (monitored drv) now source ms e)
  unfolding handle_next
  handle_next-Kept now source [] e h = (h, refl)
  handle_next-Kept now source (m ∷ ms) e h =
      branch_lem (Kept e) (e.loops == 0) _ _ (λ _. (h, refl))
        (λ _. handle-Kept lib drv now source m (record e { messages = ms }) h)

  handle_next_done :
      (now source : ℕ) (ms : List Message) (e : Engine (Monitored D))
      → e.loops ≡ 0
      → handle_next lib (monitored drv) now source ms e ≡ e
  unfolding handle_next
  handle_next_done now source [] e h = refl
  handle_next_done now source (m ∷ ms) e h = rw ((==_iff e.loops 0).1 h) refl

  respond_with-Kept :
      (now : ℕ) (gave_up : Bool) (job : Option Job) (rest : List Job) (e : Engine (Monitored D))
      → IsOpen e.driver
      → Kept e (respond_with lib (monitored drv) now gave_up job rest e)
  unfolding respond_with
  respond_with-Kept now gave_up none rest e h = (h, refl)
  respond_with-Kept now gave_up (some job) rest e h =
      dispatch-Kept lib drv now gave_up job (record e { jobs = rest }) h

  -- A Stop begins, unless one has begun.
  pub stop_call-Before :
      (w : Workers (Monitored D))
      → Before w
      → Before (work lib (monitored drv) stop_call w)
        × ((work lib (monitored drv) stop_call w).stopping ≡ true)
  unfolding work stop_begin
  stop_call-Before w (o, s) = elim (Bool-cases w.engine.stopped) [
    | inl a ↦ rw (work, stop_begin, a) ((o, ground arith), ground arith)
    | inr a ↦ rw (work, stop_begin, a) ((o, ground arith), ground arith)
  ]

  pub stop_call-After :
      (w : Workers (Monitored D)) → After w → After (work lib (monitored drv) stop_call w)
  unfolding work stop_begin
  stop_call-After w (c, m, s, p, l, j) = rw (work, stop_begin, s) (c, m, refl, ground arith, l, j)

  -- The driver is closed at the end of a wait for the workers.
  pub stop_end-Before :
      (w : Workers (Monitored D))
      → Before w
      → After (stop_end lib (monitored drv) none w)
        ⊎ (((w.stopping && is_idle w.engine) ≡ false) × (stop_end lib (monitored drv) none w ≡ w))
  unfolding stop_end stop_finish
  stop_end-Before w (o, s) = elim (Bool-cases (w.stopping && is_idle w.engine)) [
    | inl a ↦
        let (stopping, idle) = and_elim w.stopping a in
        let (loops, jobs) = and_elim (w.engine.loops == 0) idle in
        inl (
          rw (stop_end, stop_finish, a)
            (
              refl,
              ground arith,
              s ∙ stopping,
              refl,
              (==_iff w.engine.loops 0).0 loops,
              length_zero w.engine.jobs jobs,
            ))
    | inr a ↦ inr (a, rw (stop_end, a) refl)
  ]

  pub stop_end-After :
      (w : Workers (Monitored D)) → After w → After (stop_end lib (monitored drv) none w)
  unfolding stop_end
  stop_end-After w (c, m, s, p, l, j) =
      branch_lem After (w.stopping && is_idle w.engine) _ _
        (λ a. absurd (false≢true (sym p ∙ (and_elim w.stopping a).0))) (λ _. (c, m, s, p, l, j))

  pub arrive-Before :
      (m : Message) (w : Workers (Monitored D))
      → Before w
      → Before (work lib (monitored drv) (arrive m) w)
  unfolding work
  arrive-Before m w h =
      branch_lem (λ e. Before (record w { engine = e }))
        (ltb (length w.engine.messages) channel_size) _ _ (λ _. h) (λ _. h)

  pub receive-Before :
      (now source : ℕ) (w : Workers (Monitored D))
      → Before w
      → Before (work lib (monitored drv) (receive now source) w)
  unfolding work
  receive-Before now source w (o, s) =
      let k = handle_next-Kept now source w.engine.messages w.engine o in (k.0, k.1 ∙ s)

  pub respond-Before :
      (i now : ℕ) (gave_up : Bool) (w : Workers (Monitored D))
      → Before w
      → Before (work lib (monitored drv) (respond i now gave_up) w)
  unfolding work
  respond-Before i now gave_up w (o, s) =
      let k =
        respond_with-Kept now gave_up (at i w.engine.jobs) (without i w.engine.jobs) w.engine o in
      (k.0, k.1 ∙ s)

  pub loop_done-Before :
      (w : Workers (Monitored D)) → Before w → Before (work lib (monitored drv) loop_done w)
  unfolding work
  loop_done-Before w h =
      branch_lem (λ e. Before (record w { engine = e })) w.engine.cancelled _ _ (λ _. h) (λ _. h)

  -- The driver is closed, so no worker is left.
  pub arrive-After :
      (m : Message) (w : Workers (Monitored D))
      → After w
      → After (work lib (monitored drv) (arrive m) w)
  unfolding work
  arrive-After m w h =
      branch_lem (λ e. After (record w { engine = e }))
        (ltb (length w.engine.messages) channel_size) _ _ (λ _. h) (λ _. h)

  pub receive-After :
      (now source : ℕ) (w : Workers (Monitored D))
      → After w
      → After (work lib (monitored drv) (receive now source) w)
  unfolding work
  receive-After now source w h =
      subst (λ e. After (record w { engine = e }))
        (sym (handle_next_done now source w.engine.messages w.engine h.4)) h

  pub respond-After :
      (i now : ℕ) (gave_up : Bool) (w : Workers (Monitored D))
      → After w
      → After (work lib (monitored drv) (respond i now gave_up) w)
  unfolding work respond_with
  respond-After i now gave_up w h =
      subst
        (λ js. After (record w {
          engine = respond_with lib (monitored drv) now gave_up (at i js) (without i js) w.engine;
        }))
        (sym h.5) h

  pub loop_done-After :
      (w : Workers (Monitored D)) → After w → After (work lib (monitored drv) loop_done w)
  unfolding work
  loop_done-After w (c, m, s, p, l, j) =
      branch_lem (λ e. After (record w { engine = e })) w.engine.cancelled _ _
        (λ _. (c, m, s, p, omega (arith, l), j)) (λ _. (c, m, s, p, l, j))
