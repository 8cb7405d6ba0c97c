-- ===== src/Engine/Template/Checked.antt =====
-- What ValidateTemplates promises of RenderPayload.
use chitchat.Base.{
  In, inl, inr, subst, sym, ℕ, suc, zero, Str, codes, length, Bool, Bool-cases, Option-cases, false,
  not, ◌&&◌, none, some, is_some, List, [], ◌∷◌, All, Result, ok, err, err-injective, ◌≡◌, refl,
  ◌∙◌, ap, false≢true,
}
use chitchat.Value.{Value, null, raw, str}
use chitchat.Libraries.{Libraries}
use chitchat.Broker.Message.{Message, Bytes}
use chitchat.Config.Types.{Config, Rule}
use chitchat.Engine.Template.Regex.{typed_json}
use chitchat.Engine.Template.Rewrite.{
  has_one_action, has_action, cut, preprocess_template, preprocess_from,
}
use chitchat.Engine.Template.Transform.{transform_payload}
use chitchat.Engine.Template.Transform.Texts.{AllTexts}
use chitchat.Engine.Template.Transform.Laws.{Never, ok-Never, continue-Never, transform-Never}
use chitchat.Engine.Template.Render.{
  RenderError, not_parsed, not_executed, not_json, not_marshalled, executed, marshalled,
  parse_template, execute_template, render_leaf, leaf_value, render_structure, render_payload,
  build_template_context,
}
use chitchat.Engine.Template.Validate.{validate_templates}
use chitchat.Engine.Template.Validate.Exact.{Parses, PayloadParses, validate_templates_iff}

module _ (lib : Libraries) where
  abbrev pub IsParseError : RenderError → Type 0
  IsParseError e = (t : Str) × (cause : Str) × (e ≡ not_parsed t cause)

  -- text/template.Parse accepts a text in which no action begins.
  abbrev pub PlainTextParses : Type 0
  PlainTextParses = (t : Str) → has_action t ≡ false → lib.parse_template t ≡ none

  preprocess_none : (n : ℕ) (t : Str) → cut b'{' t ≡ none → preprocess_from n t ≡ t
  unfolding preprocess_from
  preprocess_none zero t h = refl
  preprocess_none (suc n) t h = rw (preprocess_from, h) refl

  preprocess_plain : (t : Str) → has_action t ≡ false → preprocess_template t ≡ t
  unfolding preprocess_template has_action
  preprocess_plain t h = elim (Option-cases (cut b'{' t)) [
    | inl a ↦ preprocess_none (length t) t a
    | inr (x, a) ↦ absurd (some_is x a h)
  ]
    where
      some_is : (x : _) → cut b'{' t ≡ some x → is_some (cut b'{' t) ≡ false → ⊥
      some_is x a h = false≢true (sym h ∙ ap is_some a)

  parses : PlainTextParses → (t : Str) → Parses lib t → parse_template lib t ≡ none
  unfolding parse_template
  parses plain t h = elim (Bool-cases (has_action t)) [
    | inl a ↦ h a
    | inr a ↦ rw (parse_template, preprocess_plain t a, plain t a) refl
  ]

  executed-Never : (t : Str) (r : Result Str Str × ℕ) → Never IsParseError (executed lib t r)
  unfolding executed
  executed-Never t (ok out, source) = ok-Never IsParseError out source
  executed-Never t (err e, source) = λ e' w (u, c, h). apart (err-injective w ∙ h)
    where
      apart : {t' c' : Str} {e : Str} → not_executed t e ≡ not_parsed t' c' → ⊥
      apart h = cc

  execute-Never :
      (t : Str) (ctx : Value) (source : ℕ)
      → parse_template lib t ≡ none
      → Never IsParseError (execute_template lib t ctx source)
  unfolding execute_template
  execute-Never t ctx source h =
      rw (execute_template, h)
        (executed-Never t (lib.execute_template (preprocess_template t) ctx source))

  not_json-Never :
      (t out : Str) (source : ℕ)
      → Never {S = ℕ} {A = Value} IsParseError (err (not_json t out), source)
  not_json-Never t out source = λ e' w (u, c, h). apart (err-injective w ∙ h)
    where
      apart : {t' c' : Str} → not_json t out ≡ not_parsed t' c' → ⊥
      apart h = cc

  leaf_value-Never :
      (t : Str) (k : Bool) (out : Str) (source : ℕ)
      → Never IsParseError (leaf_value lib t k out, source)
  unfolding leaf_value
  leaf_value-Never t k out source = elim (Bool-cases (not k && has_one_action t && typed_json t)) [
    | inl a ↦ elim (Bool-cases (lib.valid (lib.to_bytes out))) [
      | inl b ↦ rw (leaf_value, a, b) (ok-Never IsParseError (raw (lib.to_bytes out)) source)
      | inr b ↦ rw (leaf_value, a, b) (not_json-Never t out source)
    ]
    | inr a ↦ rw (leaf_value, a) (ok-Never IsParseError (str out) source)
  ]

  render_leaf-Never :
      (ctx : Value) (t : Str) (k : Bool) (source : ℕ)
      → Parses lib t
      → Never IsParseError (render_leaf lib ctx t k source)
  unfolding render_leaf
  render_leaf-Never ctx t k source h = elim (Bool-cases (has_action t)) [
    | inl a ↦
        rw (render_leaf, a)
          (continue-Never IsParseError (execute_template lib t ctx source) _
            (execute-Never t ctx source (h a)) (λ out source'. leaf_value-Never t k out source'))
    | inr a ↦ rw (render_leaf, a) (ok-Never IsParseError (str t) source)
  ]

  marshalled-Never :
      (r : Result Str Bytes) (source : ℕ) → Never IsParseError (marshalled lib r, source)
  unfolding marshalled
  marshalled-Never (ok b) source = ok-Never IsParseError b source
  marshalled-Never (err e) source = λ e' w (u, c, h). apart (err-injective w ∙ h)
    where
      apart : {t' c' : Str} → not_marshalled e ≡ not_parsed t' c' → ⊥
      apart h = cc

  structure-Never :
      (payload ctx : Value) (source : ℕ)
      → PayloadParses lib payload
      → Never IsParseError (render_structure lib payload ctx source)
  unfolding render_structure
  structure-Never payload ctx source h =
      continue-Never IsParseError
        (transform_payload lib.format (render_leaf lib ctx) payload source) _
        (transform-Never lib.format (render_leaf lib ctx) (Parses lib) IsParseError
          (render_leaf-Never ctx) payload source h)
        (λ rendered source'. marshalled-Never (lib.marshal rendered) source')

  render-Never :
      PlainTextParses
      → (payload : Value) (msg : Message) (source : ℕ) → PayloadParses lib payload
      → Never IsParseError (render_payload lib payload msg source)
  unfolding render_payload AllTexts
  render-Never plain null msg source h = ok-Never IsParseError (lib.to_bytes (codes "{}")) source
  render-Never plain (str t) msg source h =
      let ctx = build_template_context lib msg source in
      continue-Never IsParseError (execute_template lib t ctx source) _
        (execute-Never t ctx source (parses plain t h))
        (λ out source'. ok-Never IsParseError (lib.to_bytes out) source')
  render-Never plain v msg source h =
      structure-Never v (build_template_context lib msg source) source h

  All-payloads :
      (r : Rule) (rs : List Rule)
      → In r rs
      → All (λ r. PayloadParses lib r.mock_response.payload) rs
      → PayloadParses lib r.mock_response.payload
  All-payloads r [] m a = elim m [ ]
  All-payloads r (x ∷ rs) m (a, b) = elim m [
    | inl e ↦ subst (λ y. PayloadParses lib y.mock_response.payload) (sym e) a
    | inr k ↦ All-payloads r rs k b
  ]

  -- If ValidateTemplates finds no problem, then RenderPayload of a rule's payload never fails with a
  -- parse error, whatever the message; text/template is taken to accept a text without any action.
  pub validated_payloads_parse :
      (cfg : Config) (r : Rule) (msg : Message) (source : ℕ)
      → PlainTextParses
      → validate_templates lib cfg ≡ []
      → In r cfg.rules
      → ¬ (
          (t : Str) × (cause : Str) × ((render_payload lib r.mock_response.payload msg source).0
            ≡ err (not_parsed t cause)))
  validated_payloads_parse cfg r msg source plain h m =
      let parsed = All-payloads r cfg.rules m ((validate_templates_iff lib cfg).0 h) in
      λ (t, cause, e).
        render-Never plain r.mock_response.payload msg source parsed (not_parsed t cause) e
          (t, cause, refl)
