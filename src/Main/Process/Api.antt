-- ===== src/Main/Process/Api.antt =====
-- What the process answers to requests for its rules and for a reload.
use chitchat.Base.{
  Str, codes, str_eq, true, ◌&&◌, Option, none, some, is_some, List, [], ◌∷◌, Result, if◌then◌else◌,
  ◌≡◌, refl, ◌∙◌, ap, false≢true, branch_lem,
}
use mathlib.Core.Option
use chitchat.Libraries.{Libraries}
use chitchat.Broker.Driver.{Driver}
use chitchat.Spy.Ring.{RingBuffer}
use chitchat.Spy.Server.{rules, method_get, method_post, handle_rules}
use chitchat.Spy.Listener.{Endpoint, rules_path, reload_path, route, serve}
use chitchat.Engine.State.{rule_stats}
use chitchat.Main.Reload.{Summary}
use chitchat.Main.Process.{
  Running, Happening, arrive, receive, loop_done, respond, request, Request, Reply, with_buffer,
  serve_buffer, answer, after_reload, calls_reloader, handle_request, reload_hook, happen,
  happen_all,
}

abbrev pub rules_url : Str
rules_url = codes "/_chitchat/rules"

abbrev pub reload_url : Str
reload_url = codes "/_chitchat/reload"

abbrev pub AsksRules : Request → Type 0
AsksRules q = (q.path ≡ rules_url) × (q.method ≡ method_get)

abbrev pub AsksReload : Request → Type 0
AsksReload q = (q.path ≡ reload_url) × (q.method ≡ method_post)

-- The hooks are set, and the server shares its buffer with the engine.
abbrev pub IsServing : {D : Type 0} → Running D → Type 0
IsServing r =
    (r.server.rules ≡ some tt)
    × (r.server.reloader ≡ some tt)
    × (is_some r.workers.engine.spy ≡ true)

rules_route : (q : Request) → AsksRules q → route q.path ≡ some rules_path
unfolding route str_eq
rules_route q (path, method) = ap route path

pub reload_route : (q : Request) → AsksReload q → route q.path ≡ some reload_path
unfolding route str_eq
reload_route q (path, method) = ap route path

module _ {D : Type 0} (drv : Driver D) (lib : Libraries) where
  -- The handler of an endpoint that leaves the buffer alone.
  pub answer_of :
      (q : Request) (o : Option (Result Str Summary)) (r : Running D) (reply : Reply)
      → is_some r.workers.engine.spy ≡ true
      → (endpoint : Endpoint) → route q.path ≡ some endpoint
      → ((rb : RingBuffer)
          → serve_buffer drv lib q
              (Option.map (λ _. rule_stats r.workers.engine) r.server.rules)
              o
              (some endpoint)
              (some rb)
            ≡ some (rb, reply))
      → (answer drv lib q o r).1 ≡ some reply
  unfolding answer
  answer_of q o r reply spy endpoint to h =
      let stats = Option.map (λ _. rule_stats r.workers.engine) r.server.rules in
      ap (λ x. (with_buffer drv lib r (serve_buffer drv lib q stats o x r.workers.engine.spy)).1) to
      ∙ go r.workers.engine.spy spy
    where
      go :
          (s : Option RingBuffer)
          → is_some s ≡ true
          → (with_buffer drv lib r (
              serve_buffer drv lib q
                (Option.map (λ _. rule_stats r.workers.engine) r.server.rules)
                o
                (some endpoint)
                s)).1
            ≡ some reply
      go none e = absurd (false≢true e)
      go (some rb) e = ap (λ x. (with_buffer drv lib r x).1) (h rb)

  answer-rules :
      (q : Request) (o : Option (Result Str Summary)) (r : Running D)
      → AsksRules q
      → IsServing r
      → (answer drv lib q o r).1 ≡ some (rules (rule_stats r.workers.engine))
  unfolding serve_buffer serve handle_rules str_eq
  answer-rules q o r a (set, _, spy) =
      answer_of q o r (rules (rule_stats r.workers.engine)) spy rules_path (rules_route q a) (λ rb.
        ap
          (λ x.
            some
              (rb, handle_rules x (Option.map (λ _. rule_stats r.workers.engine) r.server.rules)))
          a.1
        ∙ ap
            (λ x.
              some (rb, handle_rules method_get (Option.map (λ _. rule_stats r.workers.engine) x)))
            set)

  pub request-rules :
      (q : Request) (r : Running D)
      → AsksRules q
      → IsServing r
      → (handle_request drv lib q r).1 ≡ some (rules (rule_stats r.workers.engine))
  unfolding handle_request calls_reloader
  request-rules q r a s =
      ap
        (λ x.
          (if calls_reloader x q.method && is_some r.server.reloader
            then after_reload drv lib q (reload_hook drv lib q.first_read q.second_read r)
            else answer drv lib q none r).1)
        (rules_route q a)
      ∙ answer-rules q none r a s

  -- The hooks stay as they are.
  request-server : (q : Request) (r : Running D) → (handle_request drv lib q r).0.server ≡ r.server
  unfolding handle_request answer reload_hook
  request-server q r =
      branch_lem {A = Running D × Option Reply} (λ x. x.0.server ≡ r.server)
        (calls_reloader (route q.path) q.method && is_some r.server.reloader) _ _
        (λ _. same (reload_hook drv lib q.first_read q.second_read r).0 _) (λ _. same r _)
    where
      same :
          (r : Running D) (o : Option (RingBuffer × Reply))
          → (with_buffer drv lib r o).0.server ≡ r.server
      same r none = refl
      same r (some x) = refl

  happen-server : (h : Happening) (r : Running D) → (happen drv lib h r).server ≡ r.server
  unfolding happen
  happen-server (arrive m) r = refl
  happen-server (receive now source) r = refl
  happen-server loop_done r = refl
  happen-server (respond i now gave_up) r = refl
  happen-server (request q) r = request-server q r

  pub happen_all-server :
      (hs : List Happening) (r : Running D) → (happen_all drv lib hs r).server ≡ r.server
  unfolding happen_all
  happen_all-server [] r = refl
  happen_all-server (h ∷ hs) r = happen_all-server hs (happen drv lib h r) ∙ happen-server h r
