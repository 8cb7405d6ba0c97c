-- ===== src/Engine/Template/Validate.antt =====
-- pkg/engine/template.go: ValidateTemplates.
pub mod Exact
use chitchat.Base.{
  ℕ, ◌+◌, Str, codes, is_empty, if◌then◌else◌, Bool, true, false, Option, none, some, List, [], ◌∷◌,
  ◌++◌, Result, ok, err,
}
use chitchat.Base.Decimal.{itoa}
use chitchat.Value.{Value, null, str}
use chitchat.Libraries.{Libraries}
use chitchat.Config.Types.{Config, Rule, MockResponse}
use chitchat.Engine.Template.Rewrite.{has_action}
use chitchat.Engine.Template.Transform.{Leaf, transform_payload}
use chitchat.Engine.Template.Render.{RenderError, parse_template}

-- fmt.Errorf("rule %q: %w", label, err)
pub record TemplateProblem : Type 0 where
  pub label : Str
  pub cause : RenderError

module _ (lib : Libraries) where
  -- The leaf function `check`, which adds to errs and never fails.
  unfoldable pub check_leaf : Str → Leaf (List TemplateProblem) RenderError
  unfolding parse_template
  check_leaf label s is_key errs = (
    ok (str s),
    if has_action s
        then elim (parse_template lib s) [
          | none ↦ errs
          | some e ↦ errs ++ record { label = label; cause = e } ∷ []
        ]
        else errs,
  )

  unfoldable pub check_payload : Str → Value → List TemplateProblem → List TemplateProblem
  unfolding check_leaf transform_payload
  check_payload label null errs = errs
  check_payload label (str t) errs = (check_leaf label t false errs).1
  check_payload label v errs = (transform_payload lib.format (check_leaf label) v errs).1

  unfoldable pub label_of : ℕ → Rule → Str
  label_of i r = if is_empty r.name then codes "rules[" ++ itoa i ++ codes "]" else r.name

  unfoldable pub check_rules : ℕ → List Rule → List TemplateProblem → List TemplateProblem
  unfolding check_payload label_of
  check_rules i [] errs = errs
  check_rules i (r ∷ rs) errs =
      check_rules (i + 1) rs (check_payload (label_of i r) r.mock_response.payload errs)

  -- The errors that errors.Join puts together; there is no error if there are none.
  unfoldable pub validate_templates : Config → List TemplateProblem
  unfolding check_rules
  validate_templates cfg = check_rules 0 cfg.rules []
