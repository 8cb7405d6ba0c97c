-- ===== src/Logger.antt =====
-- pkg/logger/logger.go: InitLogger. The handlers themselves are log/slog.
pub mod Words
use chitchat.Base.{
  Str, codes, str_eq, if◌then◌else◌, Bool, true, false, ◌||◌, Option, none, some, List, [],
}
use chitchat.Config.Validate.{normal_word}

-- slog.Level, the four that are named.
pub data Level : Type 0 where
  level_debug : Level
  level_info : Level
  level_warn : Level
  level_error : Level

pub data HandlerKind : Type 0 where
  json_handler : HandlerKind
  text_handler : HandlerKind

-- A logger over a handler that writes to `out` the records of `level` and above.
pub record Logger (W : Type 0) : Type 0 where
  pub kind : HandlerKind
  pub level : Level
  pub out : W

-- The switch on the lower-case text of the level.
unfoldable pub level_of : Str → Level
level_of w =
    if str_eq w (codes "debug")
    then level_debug
    else if str_eq w (codes "warn") || str_eq w (codes "warning")
    then level_warn
    else if str_eq w (codes "error")
    then level_error
    else level_info

unfoldable pub handler_of : Str → HandlerKind
handler_of w = if str_eq w (codes "json") then json_handler else text_handler

abbrev pub or_stdout : {W : Type 0} → W → Option W → W
or_stdout stdout none = stdout
or_stdout stdout (some out) = out

-- The new logger, and the default logger of slog after the call.
unfoldable pub init_logger :
    {W : Type 0} → W → Str → Str → Option W → Logger W → Logger W × Logger W
init_logger {W} stdout level_str format_str out default_logger =
    let l : Logger W = record {
      kind = handler_of (normal_word format_str);
      level = level_of (normal_word level_str);
      out = or_stdout stdout out;
    } in
    (l, l)

abbrev pub shows_warnings : Level → Bool
shows_warnings level_error = false
shows_warnings _ = true

-- A call of l.Warn with each of the texts: those that are written to `out`.
unfoldable pub warn_all : {W : Type 0} → Logger W → List Str → List Str
warn_all l texts = if shows_warnings l.level then texts else []
