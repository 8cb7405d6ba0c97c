-- ===== src/Main/Process/Sound.antt =====
-- The configuration of the engine while the process serves.
use chitchat.Base.{
  ltb, length, Str, Option, none, some, List, [], ◌∷◌, Result, ok, err, ◌≡◌, refl, sym, ◌∙◌, ap,
  subst, inl, inr, branch_lem,
}
use chitchat.Libraries.{Libraries}
use chitchat.Config.Types.{Config}
use chitchat.Broker.Driver.{Driver}
use chitchat.Spy.Ring.{RingBuffer}
use chitchat.Engine.State.{Engine}
use chitchat.Engine.Workers.{channel_size, at, without, handle_next, respond_with, work}
use chitchat.Engine.Workers.Rules.{
  rules_of, new_rules, Recounted, respond-Recounted, handle_next-Recounted,
}
use chitchat.Main.Check.Exact.{IsSound}
use chitchat.Main.Reload.{reload_config}
use chitchat.Main.Reload.Safe.{reload_config-Safe}
use chitchat.Main.Process.{
  Running, Happening, arrive, receive, loop_done, respond, request, Request, Reply, with_buffer,
  answer, calls_reloader, handle_request, reload_hook, happen, happen_all,
}
use chitchat.Spy.Listener.{route}
use chitchat.Base.{◌&&◌, is_some, true}

-- The rules are those of a configuration that passes all checks, and there is a spy.
abbrev pub HasSoundRules : {D : Type 0} → Libraries → Engine D → Type 0
HasSoundRules lib e = IsSound lib e.cfg × (rules_of e.rules ≡ e.cfg.rules) × (is_some e.spy ≡ true)

pub Recounted-HasSoundRules :
    {D : Type 0} (lib : Libraries) (e e' : Engine D)
    → Recounted e e'
    → HasSoundRules lib e
    → HasSoundRules lib e'
Recounted-HasSoundRules lib e e' (c, r, p) (s, h, spy) =
    (subst (IsSound lib) (sym c) s, r ∙ (h ∙ ap (λ cfg. cfg.rules) (sym c)), p ∙ spy)

module _ {D : Type 0} (drv : Driver D) (lib : Libraries) where
  reload-HasSoundRules :
      (current : Config) (read : Result Str Config) (e : Engine D)
      → HasSoundRules lib e
      → HasSoundRules lib (reload_config drv lib current read e).0
  unfolding reload_config
  reload-HasSoundRules current (err x) e h = h
  reload-HasSoundRules current (ok next) e h = elim (reload_config-Safe drv lib current next e) [
    | inl (x, f, k) ↦
        Recounted-HasSoundRules lib e (reload_config drv lib current (ok next) e).0
          (k.cfg, ap rules_of k.rules, ap is_some k.spy) h
    | inr (s, f, sound, cfg, rules, qs, spy) ↦ (
      subst (IsSound lib) (sym cfg) sound,
      ap rules_of rules ∙ (new_rules next.rules ∙ ap (λ c. c.rules) (sym cfg)),
      ap is_some spy ∙ h.2,
    )
  ]

  with_buffer-HasSoundRules :
      (r : Running D) (o : Option (RingBuffer × Reply))
      → HasSoundRules lib r.workers.engine
      → HasSoundRules lib (with_buffer drv lib r o).0.workers.engine
  with_buffer-HasSoundRules r none s = s
  with_buffer-HasSoundRules r (some x) s = (s.0, s.1, refl)

  request-HasSoundRules :
      (q : Request) (r : Running D)
      → HasSoundRules lib r.workers.engine
      → HasSoundRules lib (handle_request drv lib q r).0.workers.engine
  unfolding handle_request answer reload_hook
  request-HasSoundRules q r s =
      branch_lem {A = Running D × Option Reply} (λ x. HasSoundRules lib x.0.workers.engine)
        (calls_reloader (route q.path) q.method && is_some r.server.reloader) _ _
        (λ _.
          with_buffer-HasSoundRules (reload_hook drv lib q.first_read q.second_read r).0 _
            (reload-HasSoundRules r.current q.first_read r.workers.engine s))
        (λ _. with_buffer-HasSoundRules r _ s)

  happen-HasSoundRules :
      (h : Happening) (r : Running D)
      → HasSoundRules lib r.workers.engine
      → HasSoundRules lib (happen drv lib h r).workers.engine
  unfolding happen work
  happen-HasSoundRules (arrive m) r s =
      branch_lem (HasSoundRules lib) (ltb (length r.workers.engine.messages) channel_size) _ _
        (λ _. s) (λ _. s)
  happen-HasSoundRules (receive now source) r s =
      let e = r.workers.engine in
      Recounted-HasSoundRules lib e (handle_next lib drv now source e.messages e)
        (handle_next-Recounted drv lib now source e.messages e) s
  happen-HasSoundRules loop_done r s =
      branch_lem (HasSoundRules lib) r.workers.engine.cancelled _ _ (λ _. s) (λ _. s)
  happen-HasSoundRules (respond i now gave_up) r s =
      let e = r.workers.engine in
      Recounted-HasSoundRules lib e
        (respond_with lib drv now gave_up (at i e.jobs) (without i e.jobs) e)
        (respond-Recounted drv lib now gave_up (at i e.jobs) (without i e.jobs) e) s
  happen-HasSoundRules (request q) r s = request-HasSoundRules q r s

  pub happen_all-HasSoundRules :
      (hs : List Happening) (r : Running D)
      → HasSoundRules lib r.workers.engine
      → HasSoundRules lib (happen_all drv lib hs r).workers.engine
  unfolding happen_all
  happen_all-HasSoundRules [] r s = s
  happen_all-HasSoundRules (h ∷ hs) r s =
      happen_all-HasSoundRules hs (happen drv lib h r) (happen-HasSoundRules h r s)
