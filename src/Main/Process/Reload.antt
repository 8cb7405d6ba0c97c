-- ===== src/Main/Process/Reload.antt =====
-- A request for a reload, and the request for the rules after it.
use chitchat.Base.{
  Str, str_eq, ◌&&◌, Option, none, some, is_some, map, Result, ok, err, if◌then◌else◌, ◌≡◌, ◌⊎◌,
  inl, inr, refl, sym, ◌∙◌, ap, subst,
}
use chitchat.Libraries.{Libraries}
use chitchat.Config.Types.{Config}
use chitchat.Broker.Driver.{Driver}
use chitchat.Spy.Ring.{RingBuffer}
use chitchat.Spy.Server.{
  rules, reloaded, failed, method_post, status_bad_request, handle_reload, reload_answer,
}
use chitchat.Spy.Listener.{reload_path, serve}
use chitchat.Engine.State.{new_rule_states, rule_stat, rule_stats}
use chitchat.Main.Failures.{failure_text}
use chitchat.Main.Check.{Failure}
use chitchat.Main.Check.Exact.{IsSound}
use chitchat.Main.Reload.{Summary, reload_config}
use chitchat.Main.Reload.Safe.{reload_config-Safe}
use chitchat.Main.Process.{
  Running, Request, Reply, with_buffer, hook_result, next_current, serve_buffer, answer,
  after_reload, calls_reloader, handle_request, reload_hook,
}
use chitchat.Main.Process.Api.{
  AsksRules, AsksReload, IsServing, reload_route, answer_of, request-rules,
}

module _ {D : Type 0} (drv : Driver D) (lib : Libraries) where
  -- The configuration and the rules of the engine are the same, and `current` is.
  abbrev Unchanged : Running D → Running D → Type 0
  Unchanged r r' =
      (r'.workers.engine.cfg ≡ r.workers.engine.cfg)
      × (r'.workers.engine.rules ≡ r.workers.engine.rules)
      × (r'.current ≡ r.current)

  -- What the hook does: it fails, or the engine has the rules of the file.
  abbrev Hooked : Result Str Config → Running D → Running D × Result Str Summary → Type 0
  Hooked read r (r', result) =
      ((t : Str) × (result ≡ err t) × Unchanged r r')
      ⊎ ((s : Summary) × (cfg : Config) × (read ≡ ok cfg)
          × (result ≡ ok s)
          × IsSound lib cfg
          × (r'.workers.engine.rules ≡ new_rule_states cfg.rules))

  reload_hook-Hooked :
      (first second : Result Str Config) (r : Running D)
      → Hooked first r (reload_hook drv lib first second r)
  unfolding reload_hook reload_config
  reload_hook-Hooked (err x) second r = inl (_, refl, (refl, refl, kept second))
    where
      kept :
          (second : Result Str Config)
          → next_current r.current second
              (reload_config drv lib r.current (err x) r.workers.engine).1
            ≡ r.current
      kept (ok next) = refl
      kept (err y) = refl
  reload_hook-Hooked (ok next) second r =
      elim (reload_config-Safe drv lib r.current next r.workers.engine) [
        | inl (x, f, k) ↦ inl (
          failure_text lib.quote x,
          ap (hook_result drv lib) f,
          (k.cfg, k.rules, ap (next_current r.current second) f ∙ kept second x),
        )
        | inr (s, f, sound, cfg, same, qs, k) ↦
            inr (s, next, refl, ap (hook_result drv lib) f, sound, same)
      ]
    where
      kept :
          (second : Result Str Config) (x : Failure)
          → next_current r.current second (err x) ≡ r.current
      kept (ok n) x = refl
      kept (err y) x = refl

  reload_hook-IsServing :
      (first second : Result Str Config) (r : Running D)
      → IsServing r
      → IsServing (reload_hook drv lib first second r).0
  unfolding reload_hook reload_config
  reload_hook-IsServing (err x) second r s = s
  reload_hook-IsServing (ok next) second r (set, hook, spy) =
      elim (reload_config-Safe drv lib r.current next r.workers.engine) [
        | inl (x, f, k) ↦ (set, hook, ap is_some k.spy ∙ spy)
        | inr (s, f, sound, cfg, same, qs, k) ↦ (set, hook, ap is_some k ∙ spy)
      ]

  -- The answer leaves all but the contents of the buffer alone.
  abbrev SameButBuffer : Running D → Running D → Type 0
  SameButBuffer r r' = Unchanged r r' × (IsServing r → IsServing r')

  with_buffer-Same :
      (r : Running D) (o : Option (RingBuffer × Reply))
      → SameButBuffer r (with_buffer drv lib r o).0
  with_buffer-Same r none = ((refl, refl, refl), λ s. s)
  with_buffer-Same r (some x) = ((refl, refl, refl), λ s. (s.0, s.1, refl))

  answer-Same :
      (q : Request) (o : Option (Result Str Summary)) (r : Running D)
      → SameButBuffer r (answer drv lib q o r).0
  unfolding answer
  answer-Same q o r = with_buffer-Same r _

  answer-reload :
      (q : Request) (result : Result Str Summary) (r : Running D)
      → AsksReload q
      → IsServing r
      → (answer drv lib q (some result) r).1 ≡ some (reload_answer (some result))
  unfolding serve_buffer serve handle_reload str_eq
  answer-reload q result r a (_, _, spy) =
      answer_of drv lib q (some result) r (reload_answer (some result)) spy reload_path
        (reload_route q a) (λ rb. ap (λ x. some (rb, handle_reload x (some result))) a.1)

  -- A request for a reload calls the hook.
  request-reload :
      (q : Request) (r : Running D)
      → AsksReload q
      → IsServing r
      → handle_request drv lib q r
        ≡ after_reload drv lib q (reload_hook drv lib q.first_read q.second_read r)
  unfolding handle_request calls_reloader str_eq
  request-reload q r a (_, hook, _) =
      ap
        (λ x.
          if calls_reloader x q.method && is_some r.server.reloader
          then after_reload drv lib q (reload_hook drv lib q.first_read q.second_read r)
          else answer drv lib q none r)
        (reload_route q a)
      ∙ (ap
            (λ x.
              if str_eq x method_post && is_some r.server.reloader
              then after_reload drv lib q (reload_hook drv lib q.first_read q.second_read r)
              else answer drv lib q none r)
            a.1
          ∙ ap
              (λ x.
                if is_some x
                then after_reload drv lib q (reload_hook drv lib q.first_read q.second_read r)
                else answer drv lib q none r)
              hook)

  -- What a request for a reload does to the process and answers.
  abbrev pub ReloadAnswers : Result Str Config → Running D → Running D × Option Reply → Type 0
  ReloadAnswers read r (r', reply) =
      ((t : Str) × (reply ≡ some (failed status_bad_request t)) × Unchanged r r')
      ⊎ ((s : Summary) × (cfg : Config) × (read ≡ ok cfg)
          × (reply ≡ some (reloaded s))
          × IsSound lib cfg
          × ((g : Request)
              → AsksRules g
              → (handle_request drv lib g r').1
                ≡ some (rules (map rule_stat (new_rule_states cfg.rules)))))

  after_reload-Answers :
      (q : Request) (r r' : Running D) (result : Result Str Summary)
      → AsksReload q
      → IsServing r'
      → Hooked q.first_read r (r', result)
      → ReloadAnswers q.first_read r (after_reload drv lib q (r', result))
  unfolding reload_answer rule_stats
  after_reload-Answers q r r' result a v (inl (t, f, (c, u, n))) =
      let ((c', u', n'), _) = answer-Same q (some result) r' in
      inl (
        t,
        answer-reload q result r' a v ∙ ap (λ x. some (reload_answer (some x))) f,
        (c' ∙ c, u' ∙ u, n' ∙ n),
      )
  after_reload-Answers q r r' result a v (inr (s, cfg, read, f, sound, same)) =
      let ((c', u', n'), keeps) = answer-Same q (some result) r' in
      inr (
        s,
        cfg,
        read,
        answer-reload q result r' a v ∙ ap (λ x. some (reload_answer (some x))) f,
        sound,
        λ g asks.
            request-rules drv lib g (answer drv lib q (some result) r').0 asks (keeps v)
            ∙ ap (λ x. some (rules (map rule_stat x))) (u' ∙ same),
      )

  -- POST /_chitchat/reload answers with status 400, and the engine has the configuration and the
  -- rules that it had and the variable `current` its value, or it answers with a summary, the file that was read passes all checks, and
  -- GET /_chitchat/rules right after it lists exactly the rules of that file, in their order, with no
  -- matches. The condition is that the hooks are set and that the engine has the server's buffer, as
  -- runChitchat arranges.
  pub request_reload_lem :
      (q : Request) (r : Running D)
      → AsksReload q
      → IsServing r
      → ReloadAnswers q.first_read r (handle_request drv lib q r)
  request_reload_lem q r a v = subst (ReloadAnswers q.first_read r) (sym (request-reload q r a v)) (
      after_reload-Answers q r (reload_hook drv lib q.first_read q.second_read r).0
        (reload_hook drv lib q.first_read q.second_read r).1 a
        (reload_hook-IsServing q.first_read q.second_read r v)
        (reload_hook-Hooked q.first_read q.second_read r))
