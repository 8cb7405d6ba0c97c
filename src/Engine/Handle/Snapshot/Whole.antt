-- ===== src/Engine/Handle/Snapshot/Whole.antt =====
-- A handler and the rules of its snapshot, to the end.
use chitchat.Base.{
  ℕ, suc, ◌+◌, ◌-◌, if◌then◌else◌, false, Option, none, some, List, [], ◌∷◌, length, ◌≡◌, refl, sym,
  ap, ◌∙◌, subst, ◌⊎◌, inl, inr, arith,
}
use chitchat.Libraries.{Libraries}
use chitchat.Broker.Message.{Message}
use chitchat.Broker.Driver.{Driver}
use chitchat.Engine.State.{Engine, RuleState}
use chitchat.Engine.Handle.{with_direction, is_own, record_in_spy, evaluate_rules}
use chitchat.Engine.Handle.Snapshot.{
  Handler, Handling, Move, turn, reload_call, respond, begin_handling, take_turn, proceed, move,
  move_all,
}
use chitchat.Engine.Handle.Snapshot.Stages.{Stage, move_all-Stage}

-- The turns that the handler has left; the last one ends it.
abbrev pub turns_left : Option Handler → ℕ
turns_left none = 0
turns_left (some k) = suc (length k.rest)

abbrev pub turns : List Move → ℕ
turns [] = 0
turns (turn ∷ ms) = suc (turns ms)
turns (reload_call cfg ∷ ms) = turns ms
turns (respond now gave_up job ∷ ms) = turns ms

module _ (lib : Libraries) {D : Type 0} (drv : Driver D) where
  take_turn_left :
      (rest : List RuleState) (k : Handler) (h : Handling D)
      → turns_left (take_turn lib rest k h).handler ≡ length rest
  unfolding take_turn
  take_turn_left [] k h = refl
  take_turn_left (rs ∷ rest) k h = refl

  proceed_left :
      (o : Option Handler) (h : Handling D)
      → h.handler ≡ o
      → turns_left (proceed lib o h).handler + 1 ≡ turns_left o
        ⊎ (turns_left (proceed lib o h).handler ≡ 0) × (turns_left o ≡ 0)
  proceed_left none h e = inr (ap turns_left e, refl)
  proceed_left (some k) h e = inl (omega (arith, take_turn_left k.rest k h))

  move_all_left :
      (ms : List Move) (h : Handling D)
      → turns_left (move_all lib drv ms h).handler ≡ turns_left h.handler - turns ms
  unfolding move_all move
  move_all_left [] h = omega arith
  move_all_left (turn ∷ ms) h =
      let h' = move lib drv turn h in
      elim (proceed_left h.handler h refl) [
        | inl e ↦ omega (arith, move_all_left ms h', e)
        | inr (e, z) ↦ omega (arith, move_all_left ms h', e, z)
      ]
  move_all_left (reload_call cfg ∷ ms) h = move_all_left ms (move lib drv (reload_call cfg) h)
  move_all_left (respond now gave_up job ∷ ms) h =
      move_all_left ms (move lib drv (respond now gave_up job) h)

  -- The turns of handleMessage for a message that is not chitchat's own, with calls of Reload and
  -- responses between them in any order: at every moment the responses started are those of the
  -- rules that the engine had when the message was received, up to the handler's place; at the end
  -- they are all those that handleMessage in one step starts. As long as no Reload has succeeded the
  -- engine's counters are those of the one step too; after one they are those of the new rules,
  -- which count nothing of this message. Each turn takes one rule, and the one after them ends it.
  pub answers_from_snapshot :
      (ms : List Move) (now : ℕ) (msg : Message) (source : ℕ) (e : Engine D)
      → is_own (with_direction msg) ≡ false
      → let r = evaluate_rules lib (with_direction msg) e.rules source in
        let h = move_all lib drv ms (begin_handling lib now msg source e) in
        Stage lib r.0 r.1 h h.handler × (turns_left h.handler ≡ suc (length e.rules) - turns ms)
  unfolding begin_handling record_in_spy
  answers_from_snapshot ms now msg source e o =
      let r = evaluate_rules lib (with_direction msg) e.rules source in
      let h = begin_handling lib now msg source e in
      let k : Handler = record {
        message = with_direction msg;
        rest = e.rules;
        index = 0;
        generation = 0;
      } in
      let begun : h.handler ≡ some k = ap (λ b. if b then none else some k) o in
      (
        move_all-Stage lib r.0 r.1 drv ms h (
            subst (Stage lib r.0 r.1 h) (sym begun)
              (refl, refl, inl (refl, ([], refl, refl, refl)))),
        move_all_left ms h ∙ ap (λ x. turns_left x - turns ms) begun,
      )
