-- ===== src/Main/Failures.antt =====
-- The texts of the errors of loadConfig, checkConfig and reloadConfig: what err.Error() returns.
use chitchat.Base.{Str, codes, map, join, List, [], ◌∷◌, ◌++◌}
use chitchat.Config.Texts.{text, error_text}
use chitchat.Engine.Template.Render.{
  RenderError, not_parsed, not_executed, not_json, not_marshalled,
}
use chitchat.Engine.Template.Validate.{TemplateProblem}
use chitchat.Main.Check.{
  CheckError, invalid, bad_templates, Failure, not_loaded, not_valid, not_reloaded,
}

-- errors.Join
unfoldable pub join_texts : List Str → Str
join_texts texts = join b'\n' texts

-- `quote` is strconv.Quote, the verb %q.
module _ (quote : Str → Str) where
  unfoldable pub render_text : RenderError → Str
  unfolding text
  render_text (not_parsed t cause) =
      text (codes "failed to parse payload template " ∷ quote t ∷ codes ": " ∷ cause ∷ [])
  render_text (not_executed t cause) =
      text (codes "failed to execute payload template " ∷ quote t ∷ codes ": " ∷ cause ∷ [])
  render_text (not_json t out) =
      text (codes "json helper in " ∷ quote t ∷ codes " produced invalid JSON: " ∷ out ∷ [])
  render_text (not_marshalled cause) = codes "failed to marshal rendered payload: " ++ cause

  unfoldable pub template_text : TemplateProblem → Str
  unfolding render_text text
  template_text p = text (codes "rule " ∷ quote p.label ∷ codes ": " ∷ render_text p.cause ∷ [])

  unfoldable pub check_text : CheckError → Str
  unfolding error_text template_text join_texts
  check_text (invalid problems) = error_text problems
  check_text (bad_templates ps) = join_texts (map template_text ps)

  unfoldable pub failure_text : Failure → Str
  unfolding check_text join_texts
  failure_text (not_loaded cause) = cause
  failure_text (not_valid es) = join_texts (map check_text es)
  failure_text (not_reloaded cause) = cause
