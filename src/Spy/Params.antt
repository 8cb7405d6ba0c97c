-- ===== src/Spy/Params.antt =====
-- pkg/spy/server.go: splitKV and parseFilter.
pub mod RoundTrip
use chitchat.Base.{
  ℕ, Str, codes, str_eq, is_empty, elem, ◌==◌, if◌then◌else◌, Bool, not, ◌&&◌, Option, none, some,
  List, [], ◌∷◌, ◌++◌, Dict, lookup, insert, Result, ok, err, ◌>>=◌,
}
use chitchat.Base.Int.{ℤ, pos, negsuc}
use chitchat.Base.Decimal.{parse_uint, atoi}
use chitchat.Broker.Message.{direction_received, direction_published}
use chitchat.Spy.Message.{Filter, BodyFilter}

-- url.Values
abbrev pub Values : Type 0
Values = Dict (List Str)

abbrev pub values_of : Option (List Str) → List Str
values_of none = []
values_of (some vs) = vs

abbrev first_of : List Str → Str
first_of [] = []
first_of (v ∷ vs) = v

-- q[key] and q.Get(key)
abbrev pub all_of : Str → Values → List Str
all_of key q = values_of (lookup key q)

abbrev pub get : Str → Values → Str
get key q = first_of (all_of key q)

unfoldable pub split_kv : Str → Str × Option Str
split_kv [] = ([], none)
split_kv (c ∷ s) =
    let (name, value) = split_kv s in if c == b'=' then ([], some s) else (c ∷ name, value)

-- `quote` is strconv.Quote.
module _ (quote : Str → Str) where
  unfoldable pub parse_direction : Str → Result Str Str
  parse_direction d =
      if not (is_empty d) && not (str_eq d direction_received) && not (str_eq d direction_published)
      then err (
          codes "invalid direction "
          ++ (quote d
              ++ (codes " (expected "
                  ++ (quote direction_received
                      ++ (codes " or " ++ (quote direction_published ++ codes ")"))))))
      else ok d

  unfoldable pub since_or : Str → Option ℕ → Result Str ℕ
  since_or v none =
      err (codes "invalid since " ++ (quote v ++ codes ": must be a non-negative integer"))
  since_or v (some n) = ok n

  unfoldable pub parse_since : Str → Result Str ℕ
  unfolding since_or
  parse_since v = if is_empty v then ok 0 else since_or v (parse_uint v)

  unfoldable pub limit_text : Str → Str
  limit_text v = codes "invalid limit " ++ (quote v ++ codes ": must be a non-negative integer")

  unfoldable pub limit_or : Str → Option ℤ → Result Str ℤ
  limit_or v none = err (limit_text v)
  limit_or v (some (negsuc n)) = err (limit_text v)
  limit_or v (some (pos n)) = ok (pos n)

  unfoldable pub parse_limit : Str → Result Str ℤ
  unfolding limit_or limit_text
  parse_limit v = if is_empty v then ok (pos 0) else limit_or v (atoi v)

  -- The loop over q["header"].
  unfoldable pub parse_headers : Dict (Option Str) → List Str → Result Str (Dict (Option Str))
  unfolding split_kv
  parse_headers acc [] = ok acc
  parse_headers acc (h ∷ hs) =
      let (name, value) = split_kv h in
      let rest = parse_headers (insert name value acc) hs in
      if is_empty name then err (codes "invalid header filter " ++ quote h) else rest

  -- The loop over q["body"].
  unfoldable pub parse_bodies : List BodyFilter → List Str → Result Str (List BodyFilter)
  unfolding split_kv
  parse_bodies acc [] = ok acc
  parse_bodies acc (b ∷ bs) =
      let (path, value) = split_kv b in
      let rest = parse_bodies (acc ++ record { path = path; value = value } ∷ []) bs in
      if is_empty path then err (codes "invalid body filter " ++ quote b) else rest

  unfoldable pub parse_filter : Values → Result Str Filter
  unfolding parse_direction parse_since parse_limit parse_headers parse_bodies
  parse_filter q = parse_direction (get (codes "direction") q) >>= λ d.
      parse_since (get (codes "since") q) >>= λ since.
      parse_limit (get (codes "limit") q) >>= λ limit.
      parse_headers [] (all_of (codes "header") q) >>= λ headers.
      parse_bodies [] (all_of (codes "body") q) >>= λ body. ok (record {
        queue = get (codes "queue") q;
        exchange = get (codes "exchange") q;
        routing_key = get (codes "routing_key") q;
        direction = d;
        rule = get (codes "rule") q;
        headers = headers;
        body = body;
        since_seq = since;
        limit = limit;
      })
