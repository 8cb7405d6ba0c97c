-- ===== src/Spy/Filter.antt =====
-- pkg/spy/server.go: Filter.matches.
pub mod Spec
use chitchat.Base.{
  ℕ, Str, str_eq, differs, ltb, leb, if◌then◌else◌, Bool, true, false, not, ◌&&◌, Option, none,
  some, List, [], ◌∷◌, lookup, Dict,
}
use chitchat.Value.{Value, Table}
use chitchat.Value.Print.{sprint}
use chitchat.Libraries.{Libraries, GjsonResult}
use chitchat.Broker.Message.{Bytes}
use chitchat.Spy.Message.{CapturedMessage, BodyFilter, Filter}

module _ (lib : Libraries) where
  -- one round of the loop over f.Headers
  unfoldable pub header_ok : Option Str → Option Value → Bool
  unfolding sprint
  header_ok want none = false
  header_ok none (some v) = true
  header_ok (some w) (some v) = str_eq (sprint lib.format v) w

  unfoldable pub headers_ok : Dict (Option Str) → Table → Bool
  unfolding header_ok lookup
  headers_ok [] h = true
  headers_ok ((name, want) ∷ fs) h =
      let rest = headers_ok fs h in if header_ok want (lookup name h) then rest else false

  -- one round of the loop over f.Body
  unfoldable pub body_ok : Option Str → Option GjsonResult → Bool
  body_ok want none = false
  body_ok none (some r) = true
  body_ok (some w) (some r) = str_eq r.string w

  unfoldable pub bodies_ok : List BodyFilter → Bytes → Bool
  unfolding body_ok
  bodies_ok [] raw = true
  bodies_ok (bf ∷ fs) [] = false
  bodies_ok (bf ∷ fs) (b ∷ raw) =
      let rest = bodies_ok fs (b ∷ raw) in
      if body_ok bf.value (lib.gjson (b ∷ raw) bf.path) then rest else false

  unfoldable pub matches : Filter → CapturedMessage → Bool
  unfolding headers_ok bodies_ok
  matches f m =
      if differs f.queue m.queue
      then false
      else if differs f.exchange m.exchange
      then false
      else if differs f.routing_key m.routing_key
      then false
      else if differs f.direction m.direction
      then false
      else if differs f.rule m.rule
      then false
      else if ltb 0 f.since_seq && leb m.seq f.since_seq
      then false
      else if headers_ok f.headers m.headers
      then bodies_ok f.body m.raw
      else false
