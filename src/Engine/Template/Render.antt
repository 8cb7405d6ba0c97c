-- ===== src/Engine/Template/Render.antt =====
-- pkg/engine/template.go: buildTemplateContext, parseTemplate, executeTemplate and RenderPayload.
use chitchat.Base.{
  ℕ, Str, codes, if◌then◌else◌, Bool, not, ◌&&◌, Option, none, some, [], ◌∷◌, Result, ok, err,
}
use chitchat.Value.{Value, null, str, raw, dict, Entries, end, entry, Table}
use chitchat.Libraries.{Libraries}
use chitchat.Broker.Message.{Message, Bytes}
use chitchat.Engine.Template.Regex.{typed_json}
use chitchat.Engine.Template.Rewrite.{preprocess_template, has_action, has_one_action}
use chitchat.Engine.Template.Transform.{Leaf, continue, transform_payload}

-- The errors of RenderPayload, each with its texts; `cause` is the error that it wraps.
pub data RenderError : Type 0 where
  not_parsed : (template cause : Str) → RenderError
  not_executed : (template cause : Str) → RenderError
  not_json : (template out : Str) → RenderError
  not_marshalled : (cause : Str) → RenderError

abbrev pub entries_of : Table → Entries
entries_of [] = end
entries_of ((k, v) ∷ h) = entry k v (entries_of h)

module _ (lib : Libraries) where
  -- triggerMap
  or_empty : Option Value → Value
  or_empty none = dict end
  or_empty (some null) = dict end
  or_empty (some v) = v

  trigger_map : Bytes → Value
  unfolding or_empty
  trigger_map [] = dict end
  trigger_map (c ∷ b) = or_empty (lib.unmarshal (c ∷ b))

  unfoldable pub build_template_context : Message → ℕ → Value
  unfolding trigger_map
  build_template_context msg source = dict (
      entry (codes "trigger") (trigger_map msg.body) (
        entry (codes "queue") (str msg.queue) (
          entry (codes "routing_key") (str msg.routing_key) (
            entry (codes "headers") (dict (entries_of msg.headers)) (
              entry (codes "system") (dict (entry (codes "utc_now") (str (lib.utc_now source)) end))
                end)))))

  -- The error of parseTemplate, if there is one.
  unfoldable pub parse_template : Str → Option RenderError
  unfolding preprocess_template
  parse_template t = elim (lib.parse_template (preprocess_template t)) [
    | none ↦ none
    | some e ↦ some (not_parsed t e)
  ]

  unfoldable pub executed : Str → Result Str Str × ℕ → Result RenderError Str × ℕ
  executed t (ok out, source) = (ok out, source)
  executed t (err e, source) = (err (not_executed t e), source)

  unfoldable pub execute_template : Str → Value → ℕ → Result RenderError Str × ℕ
  unfolding parse_template executed
  execute_template t ctx source = elim (parse_template t) [
    | none ↦ executed t (lib.execute_template (preprocess_template t) ctx source)
    | some e ↦ (err e, source)
  ]

  -- The end of the leaf function: a typed JSON value, or a text.
  unfoldable pub leaf_value : Str → Bool → Str → Result RenderError Value
  leaf_value s is_key out =
      if not is_key && has_one_action s && typed_json s
      then if lib.valid (lib.to_bytes out)
        then ok (raw (lib.to_bytes out))
        else err (not_json s out)
      else ok (str out)

  -- The leaf function of RenderPayload.
  unfoldable pub render_leaf : Value → Leaf ℕ RenderError
  unfolding execute_template leaf_value
  render_leaf ctx s is_key source =
      if not (has_action s)
      then (ok (str s), source)
      else continue (execute_template s ctx source)
          (λ out source'. (leaf_value s is_key out, source'))

  unfoldable pub marshalled : Result Str Bytes → Result RenderError Bytes
  marshalled (ok b) = ok b
  marshalled (err e) = err (not_marshalled e)

  unfoldable pub render_structure : Value → Value → ℕ → Result RenderError Bytes × ℕ
  unfolding render_leaf transform_payload marshalled
  render_structure payload ctx source =
      continue (transform_payload lib.format (render_leaf ctx) payload source)
        (λ rendered source'. (marshalled (lib.marshal rendered), source'))

  unfoldable pub render_payload : Value → Message → ℕ → Result RenderError Bytes × ℕ
  unfolding build_template_context execute_template render_structure
  render_payload null msg source = (ok (lib.to_bytes (codes "{}")), source)
  render_payload (str t) msg source =
      continue (execute_template t (build_template_context msg source) source)
        (λ out source'. (ok (lib.to_bytes out), source'))
  render_payload v msg source = render_structure v (build_template_context msg source) source
