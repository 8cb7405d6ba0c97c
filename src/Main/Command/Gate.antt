-- ===== src/Main/Command/Gate.antt =====
-- The check of a configuration by the command `validate`, and by the start of the engine.
use chitchat.Base.{ℕ, Str, Option, none, some, List, [], ◌∷◌, Result, ok, err, ◌≡◌, ◌↔◌, refl}
use chitchat.Libraries.{Libraries}
use chitchat.Config.Types.{Config}
use chitchat.Broker.Driver.{Driver}
use chitchat.Main.Check.{Flags, CheckError, check_config, report_check, run_validate}
use chitchat.Main.Check.Exact.{IsSound, check_config_iff}
use chitchat.Main.Version.{VersionInfo}
use chitchat.Main.Run.{boot_checked, boot}
use chitchat.Main.Command.{
  Circumstances, Exit, invoked, start_command, validate_command, finish_start, run_start,
  finish_validate, execute,
}

-- The file can be loaded, and the configuration passes all checks.
abbrev pub Passes : Libraries → Result Str Config → Type 0
Passes lib (ok cfg) = IsSound lib cfg
Passes lib (err e) = ⊥

-- The exit status, if the process ends.
abbrev pub exit_status : {D : Type 0} → Option (Exit D) → Option ℕ
exit_status none = none
exit_status (some e) = some e.status

-- The process ends with status 1, and the driver was not used.
abbrev pub TurnsAway : {D : Type 0} → D → Option (Exit D) → Type 0
TurnsAway d none = ⊥
TurnsAway d (some e) = (e.status ≡ 1) × (e.driver ≡ d)

module _ {D : Type 0} (drv : Driver D) (lib : Libraries) where
  reported :
      (path : Str) (cfg : Config) (c : List Str × List CheckError) (d : D)
      → (exit_status (some (finish_validate drv lib d (report_check path cfg c))) ≡ some 0)
        ↔ (c.1 ≡ [])
  unfolding finish_validate report_check
  reported path cfg (warns, []) d = (λ h. refl, λ h. refl)
  reported path cfg (warns, x ∷ xs) d = (λ h. absurd cc, λ h. absurd cc)

  validated :
      (flags : Flags) (loaded : Result Str Config) (d : D)
      → (exit_status (some (finish_validate drv lib d (run_validate lib flags loaded))) ≡ some 0)
        ↔ Passes lib loaded
  unfolding finish_validate run_validate
  validated flags (err e) d = (λ h. absurd cc, λ h. absurd h)
  validated flags (ok cfg) d =
      let r = reported flags.config_path cfg (check_config lib cfg) d in
      let s = check_config_iff lib cfg in (λ h. s.0 (r.0 h), λ h. r.1 (s.1 h))

  refused_start :
      (c : Circumstances) (cfg : Config) (l : _) (d : D) (r : List Str × List CheckError)
      → (¬ (r.1 ≡ []))
      → TurnsAway d (finish_start drv lib c (boot_checked drv lib c.listen cfg l d r))
  unfolding finish_start boot_checked
  refused_start c cfg l d (warns, []) n = absurd (n refl)
  refused_start c cfg l d (warns, x ∷ xs) n = (refl, refl)

  turned_away :
      (c : Circumstances) (loaded : Result Str Config) (d : D)
      → (¬ Passes lib loaded)
      → TurnsAway d (run_start drv lib c loaded d)
  unfolding run_start boot finish_start
  turned_away c (err e) d n = (refl, refl)
  turned_away c (ok cfg) d n =
      refused_start c cfg _ d (check_config lib cfg) (λ h. n ((check_config_iff lib cfg).0 h))

  -- The command `validate` exits with status 0 exactly if the file can be loaded and the
  -- configuration passes all checks; if not, the command `start` exits with status 1 on the same
  -- file, whatever happens, and never calls the driver.
  pub validate_gates_start :
      (c : Circumstances) (v : VersionInfo) (read : Flags → Result Str Config) (flags : Flags)
      (d : D)
      → ((exit_status (execute drv lib c v read (invoked validate_command flags) d) ≡ some 0)
          ↔ Passes lib (read flags))
        × ((¬ Passes lib (read flags))
            → TurnsAway d (execute drv lib c v read (invoked start_command flags) d))
  unfolding execute
  validate_gates_start c v read flags d =
      (validated flags (read flags) d, turned_away c (read flags) d)
