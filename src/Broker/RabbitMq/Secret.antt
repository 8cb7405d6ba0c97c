-- ===== src/Broker/RabbitMq/Secret.antt =====
-- What SanitizeURL hides.
use chitchat.Base.{Str, Option, some, ◌≡◌, ap, sym, ◌∙◌}
use chitchat.Libraries.{Libraries}
use chitchat.Broker.RabbitMq.{sanitize_url, sanitized}

-- Two broker URLs that differ in the password only, or of which one has none, are logged as the same
-- text.
pub password_is_hidden :
    (lib : Libraries) (raw raw' : Str) (scheme name rest : Str) (password password' : Option Str)
    → lib.parse_url raw
      ≡ some (record { scheme = scheme; user = some (name, password); rest = rest })
    → lib.parse_url raw'
      ≡ some (record { scheme = scheme; user = some (name, password'); rest = rest })
    → sanitize_url lib raw ≡ sanitize_url lib raw'
unfolding sanitize_url sanitized
password_is_hidden lib raw raw' scheme name rest password password' p p' =
    ap (sanitized lib) p ∙ sym (ap (sanitized lib) p')
