-- ===== src/Tests/Main.antt =====
-- The checks and the reload of the command line.
use chitchat.Base.{ℕ, codes, none, some, [], refl, trim_space, str_eq, to_lower, ◌≡◌, ◌↔◌, ok}
use chitchat.Main.Reload.{reload_config}
use chitchat.Main.Reload.Safe.{Safe, reload_config-Safe}
use chitchat.Config.Types.{LogConfig}
use chitchat.Config.Validate.{logging_problems, normal_word}
use chitchat.Logger.{
  Logger, level_info, level_warn, text_handler, json_handler, level_of, handler_of, init_logger,
}
use chitchat.Logger.Words.{NamesLevel, NamesHandler, logging_problems_iff}
use chitchat.Tests.Samples.{plain, shop, steady, going}

reload_config-Safe_example :
    Safe steady plain shop going (reload_config steady plain shop (ok shop) going)
reload_config-Safe_example = reload_config-Safe steady plain shop shop going

abbrev loud : LogConfig
loud = record { level = codes " Warning"; format = codes "JSON" }

-- Standard output is 1.
abbrev plain_logger : Logger ℕ
plain_logger = record { kind = text_handler; level = level_info; out = 1 }

loud_logger :
    (init_logger 1 loud.level loud.format (some 2) plain_logger).0
    ≡ record { kind = json_handler; level = level_warn; out = 2 }
unfolding init_logger level_of handler_of str_eq trim_space to_lower
loud_logger = refl

logging_problems_iff_example : (logging_problems plain loud ≡ []) ↔ (
    NamesLevel
      (normal_word loud.level)
      (init_logger 1 loud.level loud.format none plain_logger).0.level
    × NamesHandler
        (normal_word loud.format)
        (init_logger 1 loud.level loud.format none plain_logger).0.kind)
logging_problems_iff_example = logging_problems_iff plain 1 none plain_logger loud
