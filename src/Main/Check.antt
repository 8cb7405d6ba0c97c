-- ===== src/Main/Check.antt =====
-- cmd/chitchat/main.go: loadConfig, checkConfig and runValidate.
pub mod Exact
use chitchat.Base.{
  ℕ, Str, codes, is_empty, length, if◌then◌else◌, Bool, Option, none, some, List, [], ◌∷◌, ◌++◌,
  map, Result, ok, err,
}
use chitchat.Base.Int.{ℤ}
use chitchat.Base.Decimal.{itoa}
use chitchat.Libraries.{Libraries}
use chitchat.Config.Types.{Config, LogConfig, SpyConfig}
use chitchat.Config.Defaults.{Decoded, load_config, apply_overrides}
use chitchat.Config.Validate.{validate}
use chitchat.Config.Warnings.{warnings}
use chitchat.Engine.Template.Validate.{TemplateProblem, validate_templates}

-- The variables that the flags set.
pub record Flags : Type 0 where
  pub config_path : Str
  pub port : ℤ
  pub amqp_url : Str
  pub log_level : Str
  pub log_format : Str

-- What one error of checkConfig holds: the problems of Validate, or those of ValidateTemplates.
pub data CheckError : Type 0 where
  invalid : List Str → CheckError
  bad_templates : List TemplateProblem → CheckError

-- if logFormat != "" { cfg.Logging.Format = logFormat }
unfoldable pub override_format : Str → Config → Config
override_format format cfg =
    if is_empty format then cfg else record cfg { logging = record cfg.logging { format = format } }

unfoldable pub finish_load : Flags → Result Str Config → Result Str Config
unfolding apply_overrides override_format
finish_load flags (ok cfg) = ok (
    override_format flags.log_format
      (apply_overrides flags.amqp_url flags.port flags.log_level cfg))
finish_load flags (err e) = err (codes "failed to load configuration: " ++ e)

-- `decode` is the YAML decoder, `read_file` the content of the files at the time of the call.
unfoldable pub load :
    (Str → Str)
    → (List ℕ → Config → Decoded)
    → (Str → Result Str (List ℕ))
    → Flags
    → Result Str Config
unfolding finish_load
load quote decode read_file flags =
    finish_load flags (load_config decode quote read_file flags.config_path)

-- if err := cfg.Validate(); err != nil { errs = append(errs, err) }
unfoldable pub structure_errors : Option (List Str) → List CheckError
structure_errors none = []
structure_errors (some ps) = invalid ps ∷ []

unfoldable pub template_errors : List TemplateProblem → List CheckError
template_errors [] = []
template_errors (p ∷ ps) = bad_templates (p ∷ ps) ∷ []

-- The warnings, and the errors that errors.Join puts together.
unfoldable pub check_config : Libraries → Config → List Str × List CheckError
unfolding structure_errors template_errors
check_config lib cfg = (
  warnings lib cfg,
  structure_errors (validate lib cfg) ++ template_errors (validate_templates lib cfg),
)

pub data Failure : Type 0 where
  not_loaded : Str → Failure
  not_valid : List CheckError → Failure
  not_reloaded : Str → Failure

unfoldable pub valid_text : Str → Config → List Str → Str
unfolding itoa
valid_text path cfg warns =
    path
    ++ (codes " is valid ("
        ++ (itoa (length cfg.rules)
            ++ (codes " rules, "
                ++ (itoa (length cfg.spy.queues)
                    ++ (codes " spy queues, " ++ (itoa (length warns) ++ codes " warnings)\n"))))))

-- The end of runValidate: what it writes to errOut, and what it writes to out or its error.
unfoldable pub report_check :
    Str → Config → List Str × List CheckError → List Str × Result Failure Str
unfolding valid_text
report_check path cfg (warns, []) =
    (map (λ w. codes "warning: " ++ (w ++ codes "\n")) warns, ok (valid_text path cfg warns))
report_check path cfg (warns, e ∷ es) =
    (map (λ w. codes "warning: " ++ (w ++ codes "\n")) warns, err (not_valid (e ∷ es)))

unfoldable pub run_validate : Libraries → Flags → Result Str Config → List Str × Result Failure Str
unfolding check_config report_check
run_validate lib flags (ok cfg) = report_check flags.config_path cfg (check_config lib cfg)
run_validate lib flags (err e) = ([], err (not_loaded e))
