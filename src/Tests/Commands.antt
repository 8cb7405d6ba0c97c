-- ===== src/Tests/Commands.antt =====
-- Runs of the commands.
use chitchat.Base.{
  Str, trim_space, to_lower, lookup, str_eq, false, none, some, [], ◌∷◌, Result, ok, ◌≡◌, ◌↔◌, refl,
}
use chitchat.Config.Types.{Config}
use chitchat.Config.Validate.{validate}
use chitchat.Engine.Template.Validate.{validate_templates}
use chitchat.Engine.Template.Rewrite.{has_action}
use chitchat.Main.Check.{Flags, check_config}
use chitchat.Main.Version.{VersionInfo, default_version}
use chitchat.Main.Command.{
  Circumstances, default_flags, invoked, start_command, validate_command, execute,
}
use chitchat.Main.Command.Gate.{Passes, TurnsAway, exit_status, validate_gates_start}
use chitchat.Tests.Samples.{confirm, plain, shop, steady}

abbrev quiet : Circumstances
quiet = record {
  listen = λ addr. ok 8082;
  before = [];
  after = [];
  late = none;
  late_server = none;
  second_signal = false;
}

abbrev release : VersionInfo
release = record { version = default_version; git_commit = []; build_time = [] }

abbrev read_shop : Flags → Result Str Config
read_shop flags = ok shop

-- Two rules of one name.
abbrev twice : Config
twice = record shop { rules = confirm ∷ confirm ∷ [] }

abbrev read_twice : Flags → Result Str Config
read_twice flags = ok twice

validate_gates_start_example :
    ((exit_status
          (execute steady plain quiet release read_twice (invoked validate_command default_flags) 0)
        ≡ some 0)
      ↔ Passes plain (ok twice))
    × ((¬ Passes plain (ok twice))
        → TurnsAway 0
            (execute steady plain quiet release read_twice (invoked start_command default_flags) 0))
validate_gates_start_example =
    validate_gates_start steady plain quiet release read_twice default_flags 0

twice_is_refused :
    exit_status
      (execute steady plain quiet release read_twice (invoked start_command default_flags) 0)
    ≡ some 1
unfolding execute check_config validate validate_templates trim_space to_lower lookup str_eq
    has_action
twice_is_refused = refl

shop_is_valid :
    exit_status
      (execute steady plain quiet release read_shop (invoked validate_command default_flags) 0)
    ≡ some 0
unfolding execute check_config validate validate_templates trim_space to_lower lookup str_eq
    has_action
shop_is_valid = refl
