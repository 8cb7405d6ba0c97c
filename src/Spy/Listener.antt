-- ===== src/Spy/Listener.antt =====
-- pkg/spy/server.go: NewServer, WithHost, the hooks, Start and Stop of the REST server. Its ring
-- buffer is shared with the engine, which keeps it in the model.
use chitchat.Base.{
  ℕ, ◌==◌, Str, codes, str_eq, any, if◌then◌else◌, Bool, true, false, ◌||◌, Option, none, some,
  List, [], ◌++◌, Result, ok, err,
}
use chitchat.Base.Int.{ℤ, pos, gt_nat, to_nat}
use chitchat.Base.Decimal.{itoa}
use chitchat.Libraries.{Libraries}
use chitchat.Spy.Ring.{RingBuffer, new_ring_buffer}
use chitchat.Spy.Params.{Values}
use chitchat.Spy.Wait.{Event}
use chitchat.Spy.Server.{
  Answer, handle_messages, handle_clear, handle_health, handle_rules, handle_reload,
}

-- `P` and `Q` are the hooks: the RulesProvider and the Reloader. `listening` tells whether the
-- listener of the HTTP server is open.
pub record Server (P Q : Type 0) : Type 0 where
  pub host : Str
  pub port : ℕ
  pub listening : Bool
  pub rules : Option P
  pub reloader : Option Q

or_new : Option RingBuffer → RingBuffer
or_new none = new_ring_buffer (pos 1000)
or_new (some rb) = rb

module _ {P Q : Type 0} where
  -- The new server and its buffer.
  unfoldable pub new_server : ℤ → Option RingBuffer → Server P Q × RingBuffer
  unfolding or_new
  new_server port buffer = (
    record {
      host = [];
      port = if gt_nat port 0 then to_nat port else 8082;
      listening = false;
      rules = none;
      reloader = none;
    },
    or_new buffer,
  )

  unfoldable pub with_host : Str → Server P Q → Server P Q
  with_host host s = record s { host = host }

  unfoldable pub set_rules_provider : P → Server P Q → Server P Q
  set_rules_provider p s = record s { rules = some p }

  unfoldable pub set_reloader : Q → Server P Q → Server P Q
  set_reloader q s = record s { reloader = some q }

-- net.JoinHostPort
unfoldable pub join_host_port : Str → Str → Str
join_host_port host port =
    if any (λ c. c == b':' || c == b'%') host
    then codes "[" ++ (host ++ (codes "]:" ++ port))
    else host ++ (codes ":" ++ port)

unfoldable pub bind_text : Str → Str → Str
bind_text addr e = codes "failed to bind spy server to " ++ (addr ++ (codes ": " ++ e))

module _ {P Q : Type 0} where
  -- Start after net.Listen: the port that the system chose, or an error.
  unfoldable pub bound : Str → Result Str ℕ → Server P Q → Server P Q × Option Str
  bound addr (ok port) s = (record s { port = port; listening = true }, none)
  bound addr (err e) s = (s, some (bind_text addr e))

  -- `listen` is net.Listen on a TCP address.
  unfoldable pub start_server : (Str → Result Str ℕ) → Server P Q → Server P Q × Option Str
  unfolding bound join_host_port itoa
  start_server listen s =
      let addr = join_host_port s.host (itoa s.port) in bound addr (listen addr) s

  -- Shutdown closes the listener first; `late` is the error of its context, if requests go on.
  unfoldable pub stop_server : Option Str → Server P Q → Server P Q × Option Str
  stop_server late s = (record s { listening = false }, late)

-- The patterns of the mux.
pub data Endpoint : Type 0 where
  messages_path : Endpoint
  clear_path : Endpoint
  health_path : Endpoint
  rules_path : Endpoint
  reload_path : Endpoint

unfoldable pub route : Str → Option Endpoint
route path =
    if str_eq path (codes "/_chitchat/messages")
    then some messages_path
    else if str_eq path (codes "/_chitchat/clear")
    then some clear_path
    else if str_eq path (codes "/_chitchat/health")
    then some health_path
    else if str_eq path (codes "/_chitchat/rules")
    then some rules_path
    else if str_eq path (codes "/_chitchat/reload")
    then some reload_path
    else none

-- The handler of a path: `rules` and `reloaded` are what the hooks return, if they are set; the other
-- arguments are those of handle_messages. There is no answer while the call waits.
module _ {R S : Type 0} (lib : Libraries) (parse_duration parse_seconds : Str → Option ℤ)
    (evs : List (ℕ × Event)) (gone : Bool) where
  unfoldable pub serve :
      Endpoint
      → Str
      → Values
      → Option R
      → Option (Result Str S)
      → RingBuffer
      → Option (RingBuffer × Answer R S)
  serve messages_path method q rules reloaded rb =
      handle_messages lib parse_duration parse_seconds evs gone method q rb
  serve clear_path method q rules reloaded rb = some (handle_clear method rb)
  serve health_path method q rules reloaded rb = some (rb, handle_health rb)
  serve rules_path method q rules reloaded rb = some (rb, handle_rules method rules)
  serve reload_path method q rules reloaded rb = some (rb, handle_reload method reloaded)
