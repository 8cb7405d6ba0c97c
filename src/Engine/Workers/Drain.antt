-- ===== src/Engine/Workers/Drain.antt =====
-- The wait of Stop can always end: the workers that are left when it begins can all finish.
use chitchat.Base.{
  ℕ, zero, suc, ◌-◌, branch_lem, length, Bool, true, false, ◌&&◌, none, List, [], ◌∷◌, ◌++◌, All,
  All-append, ◌≡◌, refl, sym, ◌∙◌, ap, subst, inl, inr, Option-cases, arith, if◌then◌else◌,
}
use chitchat.Base.Int.{gt_nat}
use chitchat.Libraries.{Libraries}
use chitchat.Broker.Driver.{Driver}
use chitchat.Config.Types.{Rule}
use chitchat.Broker.Message.{Bytes}
use chitchat.Engine.State.{Engine, Job}
use chitchat.Engine.Lifecycle.{stop_begin, stop_finish}
use chitchat.Engine.Handle.{record_in_spy, publish_response, response_headers, dispatch}
use chitchat.Engine.Workers.{
  Workers, Event, loop_done, respond, stop_call, stop_wait, without, at, is_idle, respond_with,
  stop_end, work, work_all,
}
use chitchat.Engine.Workers.Monitor.{Monitored, monitored}
use chitchat.Engine.Workers.Order.{IsPatient}

abbrev times : ℕ → Event → List Event
times zero ev = []
times (suc n) ev = ev ∷ times n ev

times-IsPatient : (n : ℕ) (ev : Event) → IsPatient ev → All IsPatient (times n ev)
times-IsPatient zero ev h = tt
times-IsPatient (suc n) ev h = (h, times-IsPatient n ev h)

-- Other workers and the flags are as they were.
abbrev Same : {D : Type 0} → Engine D → Engine D → Type 0
Same e e' = (e'.jobs ≡ e.jobs) × (e'.loops ≡ e.loops)

module _ (lib : Libraries) {D : Type 0} (drv : Driver D) where
  publish-Same :
      (now : ℕ) (r : Rule) (payload : Bytes) (e : Engine D)
      → Same e (publish_response lib drv now r payload e)
  unfolding publish_response record_in_spy
  publish-Same now r payload e =
      elim (Option-cases
        (drv.publish r.mock_response.exchange r.mock_response.routing_key payload
          (response_headers r) e.driver).0) [
            | inl a ↦ rw (publish_response, a) (refl, refl)
            | inr (x, a) ↦ rw (publish_response, a) (refl, refl)
          ]

  dispatch-Same :
      (now : ℕ) (gave_up : Bool) (job : Job) (e : Engine D)
      → Same e (dispatch lib drv now gave_up job e)
  unfolding dispatch
  dispatch-Same now gave_up job e =
      branch_lem (Same e) (gt_nat job.rule.mock_response.delay_ms 0 && gave_up && e.cancelled) _ _
        (λ _. (refl, refl)) (λ _. publish-Same now job.rule job.payload e)

  work_all-append :
      (evs rest : List Event) (w : Workers D)
      → work_all lib drv (evs ++ rest) w ≡ work_all lib drv rest (work_all lib drv evs w)
  unfolding work_all
  work_all-append [] rest w = refl
  work_all-append (ev ∷ evs) rest w = work_all-append evs rest (work lib drv ev w)

  -- Each job is dispatched in turn.
  respond_all :
      (now : ℕ) (js : List Job) (w : Workers D)
      → w.engine.jobs ≡ js
      → let w' = work_all lib drv (times (length js) (respond 0 now false)) w in
        (w'.engine.jobs ≡ []) × (w'.engine.loops ≡ w.engine.loops) × (w'.stopping ≡ w.stopping)
  unfolding work_all work respond_with
  respond_all now [] w h = (h, refl, refl)
  respond_all now (j ∷ js) w h =
      let w' = work lib drv (respond 0 now false) w in
      let e : Engine D = record w.engine { jobs = js } in
      let same : w'.engine ≡ dispatch lib drv now false j e =
        ap (λ xs. respond_with lib drv now false (at 0 xs) (without 0 xs) w.engine) h in
      let s = dispatch-Same now false j e in
      let (none_left, loops, stopping) = respond_all now js w' (ap (λ x. x.jobs) same ∙ s.0) in
      (none_left, loops ∙ (ap (λ x. x.loops) same ∙ s.1), stopping)

  -- Each processLoop returns.
  loops_all :
      (n : ℕ) (w : Workers D)
      → w.engine.cancelled ≡ true
      → w.engine.loops ≡ n
      → let w' = work_all lib drv (times n loop_done) w in
        (w'.engine.jobs ≡ w.engine.jobs) × (w'.engine.loops ≡ 0) × (w'.stopping ≡ w.stopping)
  unfolding work_all work
  loops_all zero w c h = (refl, h, refl)
  loops_all (suc n) w c h =
      let w' = work lib drv loop_done w in
      let e : Engine D = record w.engine { loops = w.engine.loops - 1 } in
      let same : w'.engine ≡ e = ap (λ b. if b then e else w.engine) c in
      let (jobs, loops, stopping) =
        loops_all n w' (ap (λ x. x.cancelled) same ∙ c)
          (ap (λ x. x.loops) same ∙ omega (arith, h)) in
      (jobs ∙ ap (λ x. x.jobs) same, loops, stopping)

-- processLoop returns, each response runs, and Stop goes on.
abbrev shutdown : {D : Type 0} → ℕ → Engine D → List Event
shutdown now e =
    times e.loops loop_done ++ (times (length e.jobs) (respond 0 now false) ++ stop_wait none ∷ [])

shutdown-IsPatient : {D : Type 0} (now : ℕ) (e : Engine D) → All IsPatient (shutdown now e)
shutdown-IsPatient now e =
    All-append IsPatient (times e.loops loop_done) _ (times-IsPatient e.loops loop_done tt) (
      All-append IsPatient (times (length e.jobs) (respond 0 now false)) _
        (times-IsPatient (length e.jobs) (respond 0 now false) tt) (tt, tt))

-- The driver is closed, Stop has returned, and neither processLoop nor a response is left.
abbrev pub Finished : {D : Type 0} → Workers (Monitored D) → Type 0
Finished w =
    (w.engine.driver.closed ≡ true)
    × (w.stopping ≡ false)
    × (w.engine.jobs ≡ [])
    × (w.engine.loops ≡ 0)

module _ (lib : Libraries) {D : Type 0} (drv : Driver D) where
  stop_end-Finished :
      (w : Workers (Monitored D))
      → w.stopping ≡ true
      → w.engine.jobs ≡ []
      → w.engine.loops ≡ 0
      → Finished (work lib (monitored drv) (stop_wait none) w)
  unfolding work stop_end stop_finish
  stop_end-Finished w s j l =
      branch_lem Finished (w.stopping && is_idle w.engine) _ _ (λ _. (refl, refl, j, l))
        (λ a. absurd (busy a))
    where
      busy : (w.stopping && is_idle w.engine) ≡ false → ⊥
      busy a = ground (arith, ap (length {A = Job}) j)

  shutdown-Finished :
      (now : ℕ) (w : Workers (Monitored D))
      → w.stopping ≡ true
      → w.engine.cancelled ≡ true
      → Finished (work_all lib (monitored drv) (shutdown now w.engine) w)
  unfolding work_all
  shutdown-Finished now w s c =
      let m = monitored drv in
      let w1 = work_all lib m (times w.engine.loops loop_done) w in
      let (j1, l1, s1) = loops_all lib m w.engine.loops w c refl in
      let w2 = work_all lib m (times (length w1.engine.jobs) (respond 0 now false)) w1 in
      let (j2, l2, s2) = respond_all lib m now w1.engine.jobs w1 refl in
      let last = stop_end-Finished w2 (s2 ∙ (s1 ∙ s)) j2 (l2 ∙ l1) in
      subst (λ x. Finished x)
        (sym (
          work_all-append lib m (times w.engine.loops loop_done) _ w
          ∙ (ap
                (λ (js : List Job).
                  work_all lib m (times (length js) (respond 0 now false) ++ stop_wait none ∷ [])
                    w1)
                (sym j1)
              ∙ work_all-append lib m (times (length w1.engine.jobs) (respond 0 now false)) _ w1)))
        last

  -- From any state of an engine that is not stopped, a call of Stop can end without its context
  -- being done: there is a course of events after which the driver is closed, Stop has returned, and
  -- neither processLoop nor a response is left.
  pub stop_can_finish :
      (now : ℕ) (w : Workers (Monitored D))
      → w.engine.stopped ≡ false
      → (evs : List Event) × All IsPatient evs
        × Finished (work_all lib (monitored drv) (stop_call ∷ evs) w)
  unfolding work_all work stop_begin
  stop_can_finish now w h =
      let w' = work lib (monitored drv) stop_call w in
      let begun : (w'.stopping ≡ true) × (w'.engine.cancelled ≡ true) =
        rw (h, work, stop_begin) (ground arith, refl) in
      (
        shutdown now w'.engine,
        shutdown-IsPatient now w'.engine,
        shutdown-Finished now w' begun.0 begun.1,
      )
