-- ===== src/Main/Check/Exact.antt =====
-- checkConfig accepts exactly the configurations that are valid and whose payloads parse.
use chitchat.Base.{Option, none, some, List, [], ◌∷◌, ◌++◌, All, ◌≡◌, ◌↔◌, refl}
use chitchat.Libraries.{Libraries}
use chitchat.Config.Types.{Config}
use chitchat.Config.Validate.{validate}
use chitchat.Config.Validate.Spec.{IsValid}
use chitchat.Config.Validate.Exact.{validate_iff}
use chitchat.Engine.Template.Validate.{TemplateProblem, validate_templates}
use chitchat.Engine.Template.Validate.Exact.{PayloadParses, validate_templates_iff}
use chitchat.Main.Check.{structure_errors, template_errors, check_config}

-- The configuration is valid, and each payload's templates parse.
abbrev pub IsSound : Libraries → Config → Type 0
IsSound lib cfg = IsValid lib cfg × All (λ r. PayloadParses lib r.mock_response.payload) cfg.rules

errors_iff :
    (o : Option _) (ps : List TemplateProblem)
    → (structure_errors o ++ template_errors ps ≡ []) ↔ ((o ≡ none) × (ps ≡ []))
unfolding structure_errors template_errors
errors_iff none [] = (λ e. (refl, refl), λ w. refl)
errors_iff none (p ∷ ps) = (λ e. absurd cc, λ w. absurd cc)
errors_iff (some x) ps = (λ e. absurd cc, λ w. absurd cc)

-- checkConfig has no error exactly when Validate and ValidateTemplates accept the configuration: it
-- is valid, and every text of every payload parses as a template if there is an action in it.
pub check_config_iff :
    (lib : Libraries) (cfg : Config) → ((check_config lib cfg).1 ≡ []) ↔ IsSound lib cfg
unfolding check_config
check_config_iff lib cfg =
    let e = errors_iff (validate lib cfg) (validate_templates lib cfg) in
    let v = validate_iff lib cfg in
    let t = validate_templates_iff lib cfg in
    (λ h. (v.0 (e.0 h).0, t.0 (e.0 h).1), λ w. e.1 (v.1 w.0, t.1 w.1))
