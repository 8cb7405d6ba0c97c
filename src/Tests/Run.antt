-- ===== src/Tests/Run.antt =====
-- Runs of the whole program.
use chitchat.Engine.State.{new_engine}
use chitchat.Main.Check.{check_config}
use chitchat.Config.Validate.{validate}
use chitchat.Engine.Template.Validate.{validate_templates}
use chitchat.Engine.Template.Rewrite.{has_action}
use chitchat.Spy.Listener.{start_server}
use chitchat.Engine.Lifecycle.{start, stop_begin, reload, stop_finish}
use chitchat.Engine.Workers.{new_workers, work}
use chitchat.Engine.Queues.{desired_queues, str_leb}
use chitchat.Engine.Handle.{handle_message, dispatch, is_own}
use chitchat.Engine.Matcher.{matches_rule}
use chitchat.Engine.Template.Render.{render_payload}
use chitchat.Base.{
  Option, some, trim_space, to_lower, lookup, is_some, ℕ, Str, codes, str_eq, none, true, false,
  List, [], ◌∷◌, Result, ok, ◌≡◌, refl,
}
use chitchat.Config.Types.{Config}
use chitchat.Engine.Workers.Monitor.{monitored, unused}
use chitchat.Main.Reload.{reload_config, fixed_settings}
use chitchat.Main.Process.{
  happen, happen_all, Reply, Running, handle_request, log_of, Happening, Request, timed_out, arrive,
  receive, loop_done, respond, request, next_current,
}
use chitchat.Main.Process.Api.{rules_url, reload_url}
use chitchat.Main.Process.Reload.{ReloadAnswers, request_reload_lem}
use chitchat.Main.Run.{boot, serve_until}
use chitchat.Main.Run.Release.{Outcome, run_releases}
use chitchat.Main.Run.Sound.{ServesSoundly, serves_soundly}
use chitchat.Main.Version.{BuildInfo, default_version, init_version, version_line}
use chitchat.Base.Int.{pos}
use chitchat.Spy.Ring.{new_ring_buffer}
use chitchat.Spy.Server.{method_get, method_post, reloaded, handle_reload, handle_messages}
use chitchat.Spy.Listener.{serve, route, set_reloader}
use chitchat.Main.Process.{reload_hook, calls_reloader, answer, serve_buffer}
use chitchat.Tests.Samples.{going, plain, shop, steady, hello}

abbrev port_8082 : Str → Result Str ℕ
port_8082 addr = ok 8082

-- The broker of the file has moved since the process started.
abbrev moved : Config
moved = record shop { broker = record shop.broker { url = codes "amqp://elsewhere:5672/" } }

-- Requests that read the file of `moved`, if they are reloads.
abbrev ask : Str → Str → Request
ask method path = record {
  path = path;
  method = method;
  query = [];
  ending = timed_out 5000000000;
  first_read = ok moved;
  second_read = ok moved;
}

abbrev post_reload : Request
post_reload = ask method_post reload_url

abbrev get_rules : Request
get_rules = ask method_get rules_url

abbrev delete_messages : Request
delete_messages = ask (codes "DELETE") (codes "/_chitchat/messages")

abbrev morning : List Happening
morning = arrive hello ∷ receive 1 1 ∷ request post_reload ∷ request delete_messages ∷ []

abbrev evening : List Happening
evening = respond 0 2 false ∷ respond 0 3 false ∷ loop_done ∷ []

run_releases_example :
    let b = boot (monitored steady) plain port_8082 (ok shop) (unused 0) in
    Outcome steady plain 0 morning evening b
      (serve_until (monitored steady) plain morning evening none none b)
run_releases_example = run_releases steady plain morning evening none port_8082 (ok shop) 0

serves_soundly_example :
    ServesSoundly steady plain morning (boot steady plain port_8082 (ok shop) 0)
serves_soundly_example = serves_soundly steady plain morning port_8082 (ok shop) 0

-- A process that serves with `shop`.
abbrev serving : Running ℕ
serving = record {
  workers = record {
    engine = record going { spy = some (new_ring_buffer (pos 100)) };
    stopping = false;
  };
  server = record { host = []; port = 8082; listening = true; rules = some tt; reloader = some tt };
  current = shop;
  logger = log_of shop.logging;
  warned = [];
}

request_reload_lem_example :
    ReloadAnswers steady plain (ok moved) serving (handle_request steady plain post_reload serving)
request_reload_lem_example =
    request_reload_lem steady plain post_reload serving (refl, refl) (refl, refl, refl)

abbrev reloaded_rules : Option Reply → Option ℕ
reloaded_rules (some (reloaded summary)) = some summary.rules
reloaded_rules _ = none

reload_is_answered : reloaded_rules (handle_request steady plain post_reload serving).1 ≡ some 2
unfolding handle_request reload_hook calls_reloader answer serve_buffer serve route check_config
    validate trim_space str_eq to_lower lookup validate_templates has_action start desired_queues
    str_leb reload_config reload fixed_settings handle_reload new_ring_buffer new_engine
reload_is_answered = refl

-- The broker's URL is still that of `shop`, and the second reload of the file does not say so.
second_reload_is_silent :
    (fixed_settings moved
      (next_current shop (ok moved) (ok (record { rules = 2; spy_queues = 1; warnings = [] }))))
    ≡ []
unfolding fixed_settings str_eq
second_reload_is_silent = refl

whole_day :
    is_some (
      serve_until
        (monitored steady)
        plain
        morning
        evening
        none
        none
        (boot (monitored steady) plain port_8082 (ok shop) (unused 0)))
    ≡ true
unfolding serve_until boot check_config validate trim_space str_eq to_lower lookup
    validate_templates has_action start_server start new_workers desired_queues str_leb work happen
    stop_begin reload_config reload handle_message matches_rule render_payload dispatch stop_finish
    fixed_settings is_own happen_all route set_reloader handle_messages
whole_day = refl

-- A binary that was built from a checkout, with nothing set by the linker.
abbrev checkout : BuildInfo
checkout = record {
  main_version = codes "(devel)";
  settings =
      (codes "vcs.revision", codes "0123456789abcdef")
      ∷ (codes "vcs.time", codes "2026-01-01")
      ∷ [];
}

checkout_version :
    version_line (
      init_version
        (some checkout)
        (record { version = default_version; git_commit = []; build_time = [] }))
    ≡ codes "chitchat version 0.1.0-dev (commit: 0123456, built: 2026-01-01)\n"
unfolding version_line init_version str_eq
checkout_version = refl
