-- ===== src/Main/Version.antt =====
-- cmd/chitchat/main.go: the version that is reported, from the values that the linker sets and from
-- what the Go toolchain recorded in the binary.
use chitchat.Base.{
  ℕ, zero, suc, Str, codes, str_eq, is_empty, length, ltb, if◌then◌else◌, not, ◌&&◌, ◌||◌, Option,
  none, some, List, [], ◌∷◌, ◌++◌,
}

-- The variables Version, GitCommit and BuildTime.
pub record VersionInfo : Type 0 where
  pub version : Str
  pub git_commit : Str
  pub build_time : Str

-- The parts of a debug.BuildInfo that the program reads: Main.Version, and Settings in their order.
pub record BuildInfo : Type 0 where
  pub main_version : Str
  pub settings : List (Str × Str)

abbrev pub default_version : Str
default_version = codes "0.1.0-dev"

-- s[:n]
abbrev prefix : ℕ → Str → Str
prefix n [] = []
prefix zero (c ∷ s) = []
prefix (suc n) (c ∷ s) = c ∷ prefix n s

-- One turn of the loop over the settings.
unfoldable pub read_setting : Str × Str → VersionInfo → VersionInfo
read_setting (key, value) v =
    let v' : VersionInfo =
      if str_eq key (codes "vcs.revision") && is_empty v.git_commit
      then record v { git_commit = if ltb 7 (length value) then prefix 7 value else value }
      else v in
    if str_eq key (codes "vcs.time") && is_empty v'.build_time
    then record v' { build_time = value }
    else v'

unfoldable pub read_settings : List (Str × Str) → VersionInfo → VersionInfo
unfolding read_setting
read_settings [] v = v
read_settings (s ∷ ss) v = read_settings ss (read_setting s v)

unfoldable pub read_version : Str → VersionInfo → VersionInfo
read_version main_version v =
    if not (is_empty main_version) && not (str_eq main_version (codes "(devel)"))
    then record v { version = main_version }
    else v

read_build_info : Option BuildInfo → VersionInfo → VersionInfo
unfolding read_settings read_version
read_build_info none v = v
read_build_info (some bi) v = read_settings bi.settings (read_version bi.main_version v)

-- The function init; the argument is the result of debug.ReadBuildInfo.
unfoldable pub init_version : Option BuildInfo → VersionInfo → VersionInfo
unfolding read_build_info
init_version info v =
    if is_empty v.version || str_eq v.version default_version then read_build_info info v else v

-- What the command `version` prints.
unfoldable pub version_line : VersionInfo → Str
version_line v =
    if not (is_empty v.git_commit) && not (is_empty v.build_time)
    then codes "chitchat version "
      ++ (v.version
          ++ (codes " (commit: "
              ++ (v.git_commit ++ (codes ", built: " ++ (v.build_time ++ codes ")\n")))))
    else if not (is_empty v.git_commit)
    then codes "chitchat version "
      ++ (v.version ++ (codes " (commit: " ++ (v.git_commit ++ codes ")\n")))
    else codes "chitchat version " ++ (v.version ++ codes "\n")
