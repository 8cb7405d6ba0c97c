-- ===== src/Logger/Words.antt =====
-- pkg/logger/logger.go with pkg/config/validate.go: the words for levels and formats.
use chitchat.Base.{
  Str, codes, str_eq_iff, elem, not, false, List, [], Option, In, ◌≡◌, ◌↔◌, ◌⊎◌, report_iff,
  append_iff, arith,
}
use chitchat.Libraries.{Libraries}
use chitchat.Config.Types.{LogConfig}
use chitchat.Config.Validate.{valid_log_levels, valid_log_formats, normal_word, logging_problems}
use chitchat.Config.Validate.Parts.{member_iff}
use chitchat.Logger.{
  Level, level_debug, level_info, level_warn, level_error, HandlerKind, json_handler, text_handler,
  Logger, level_of, handler_of, init_logger,
}

-- The word is a name of the level.
abbrev pub NamesLevel : Str → Level → Type 0
NamesLevel w level_debug = w ≡ codes "debug"
NamesLevel w level_info = w ≡ codes "info"
NamesLevel w level_warn = (w ≡ codes "warn") ⊎ (w ≡ codes "warning")
NamesLevel w level_error = w ≡ codes "error"

abbrev pub NamesHandler : Str → HandlerKind → Type 0
NamesHandler w json_handler = w ≡ codes "json"
NamesHandler w text_handler = w ≡ codes "text"

level_iff : (w : Str) → In w valid_log_levels ↔ NamesLevel w (level_of w)
unfolding level_of
level_iff w = ground (
  arith,
  str_eq_iff w (codes "debug"),
  str_eq_iff w (codes "warn"),
  str_eq_iff w (codes "warning"),
  str_eq_iff w (codes "error"),
)

handler_iff : (w : Str) → In w valid_log_formats ↔ NamesHandler w (handler_of w)
unfolding handler_of
handler_iff w = ground (arith, str_eq_iff w (codes "json"))

-- The test of a set of words, whose words are those with the property P.
listed_iff : {P : Type 0} (w : Str) (ws : List Str) → In w ws ↔ P → (not (elem w ws) ≡ false) ↔ P
listed_iff w ws e = let m = member_iff w ws in (λ h. e.0 (m.0 h), λ p. m.1 (e.1 p))

-- Validate has nothing against the logging section exactly when the words in it, in lower case and
-- without the spaces around them, are names of the level and of the format that InitLogger chooses.
pub logging_problems_iff :
    (lib : Libraries) {W : Type 0} (stdout : W) (out : Option W) (before : Logger W) (c : LogConfig)
    → (logging_problems lib c ≡ []) ↔ (
        NamesLevel (normal_word c.level) (init_logger stdout c.level c.format out before).0.level
        × NamesHandler
            (normal_word c.format)
            (init_logger stdout c.level c.format out before).0.kind)
unfolding logging_problems init_logger
logging_problems_iff lib stdout out before c =
    let l = normal_word c.level in
    let f = normal_word c.format in
    append_iff (report_iff _ (listed_iff l valid_log_levels (level_iff l)))
      (report_iff _ (listed_iff f valid_log_formats (handler_iff f)))
