-- ===== src/Config/Defaults/Laws.antt =====
-- What holds of every configuration that the program works with.
use chitchat.Base.{
  ℕ, ◌<◌, Str, if◌then◌else◌, List, [], ◌∷◌, ok, ◌≡◌, ◌≢◌, arith, ok-injective, subst,
}
use chitchat.Base.Int.{ℤ, pos, negsuc, gt_nat}
use chitchat.Config.Types.{Config}
use chitchat.Config.Defaults.{
  Decoded, decoded, eof, failed, default_url, if_empty, if_given, apply_defaults, after_decode,
  parse_config, apply_overrides,
}

abbrev pub IsPositive : ℤ → Type 0
IsPositive (pos n) = 0 < n
IsPositive (negsuc n) = ⊥

-- The settings that have a default have a value.
pub record IsComplete (cfg : Config) : Type 0 where
  pub url : cfg.broker.url ≢ []
  pub port : IsPositive cfg.server.port
  pub ring_buffer_size : IsPositive cfg.server.ring_buffer_size
  pub level : cfg.logging.level ≢ []
  pub format : cfg.logging.format ≢ []

if_empty-ne : (text default : Str) → default ≢ [] → if_empty text default ≢ []
if_empty-ne [] default h = h
if_empty-ne (c ∷ s) default h = λ e. cc

if_given-ne : (flag text : Str) → text ≢ [] → if_given flag text ≢ []
if_given-ne flag text h = if_empty-ne flag text h

IsPositive-or : (n m : ℤ) → IsPositive m → IsPositive (if gt_nat n 0 then n else m)
IsPositive-or (pos n) (pos m) h = ground arith
IsPositive-or (pos n) (negsuc m) h = absurd h
IsPositive-or (negsuc n) m h = h

pub apply_defaults-IsComplete : (cfg : Config) → IsComplete (apply_defaults cfg)
unfolding apply_defaults
apply_defaults-IsComplete cfg = record {
  url = if_empty-ne cfg.broker.url default_url (λ e. cc);
  port = IsPositive-or cfg.server.port (pos 8082) (omega arith);
  ring_buffer_size = IsPositive-or cfg.server.ring_buffer_size (pos 1000) (omega arith);
  level = if_empty-ne cfg.logging.level _ (λ e. cc);
  format = if_empty-ne cfg.logging.format _ (λ e. cc);
}

overrides-IsComplete :
    (amqp_url : Str) (port : ℤ) (log_level : Str) (cfg : Config)
    → IsComplete cfg
    → IsComplete (apply_overrides amqp_url port log_level cfg)
unfolding apply_overrides
overrides-IsComplete amqp_url port log_level cfg v = record {
  url = if_given-ne amqp_url cfg.broker.url v.url;
  port = IsPositive-or port cfg.server.port v.port;
  ring_buffer_size = v.ring_buffer_size;
  level = if_given-ne log_level cfg.logging.level v.level;
  format = v.format;
}

after_decode-IsComplete : (d : Decoded) {cfg : Config} → after_decode d ≡ ok cfg → IsComplete cfg
unfolding after_decode
after_decode-IsComplete (decoded c) h =
    subst IsComplete (ok-injective h) (apply_defaults-IsComplete c)
after_decode-IsComplete (eof c) h = subst IsComplete (ok-injective h) (apply_defaults-IsComplete c)
after_decode-IsComplete (failed e) h = cc

-- Whatever the decoder makes of the text and whatever flags are given, a configuration that
-- ParseConfig returns has, after ApplyOverrides too, a broker URL, a log level and a log format
-- that are not empty, and a port and a buffer size above 0.
pub parse_config-IsComplete :
    (decode : List ℕ → Config → Decoded) (text : List ℕ) (amqp_url : Str) (port : ℤ)
    (log_level : Str) {cfg : Config}
    → parse_config decode text ≡ ok cfg
    → IsComplete cfg × IsComplete (apply_overrides amqp_url port log_level cfg)
unfolding parse_config
parse_config-IsComplete decode text amqp_url port log_level h =
    let v = after_decode-IsComplete _ h in (v, overrides-IsComplete amqp_url port log_level _ v)
