-- ===== src/Engine/Template/Validate/Exact.antt =====
-- ValidateTemplates finds no problem exactly when every payload parses.
use chitchat.Base.{
  ℕ, ◌+◌, Str, Bool, some≢none, Bool-cases, Option-cases, true, false, none, List, [], ◌∷◌, ◌++◌,
  All, ◌≡◌, ◌↔◌, inl, inr, refl, false≢true,
}
use chitchat.Value.{Value, null, str}
use chitchat.Libraries.{Libraries}
use chitchat.Config.Types.{Config, Rule}
use chitchat.Engine.Template.Rewrite.{has_action}
use chitchat.Engine.Template.Transform.{transform_payload}
use chitchat.Engine.Template.Transform.Texts.{AllTexts}
use chitchat.Engine.Template.Transform.Gathered.{Gathers, transform-Gathers}
use chitchat.Engine.Template.Render.{parse_template}
use chitchat.Engine.Template.Validate.{
  TemplateProblem, check_leaf, check_payload, check_rules, label_of, validate_templates,
}

append_one : {A : Type 0} (a : A) (s : List A) → s ++ a ∷ [] ≡ [] → ⊥
append_one a [] h = cc
append_one a (b ∷ s) h = cc

module _ (lib : Libraries) where
  -- A text with an action is a template that parses.
  abbrev pub Parses : Str → Type 0
  Parses t = has_action t ≡ true → parse_template lib t ≡ none

  -- Every text of the payload parses.
  abbrev pub PayloadParses : Value → Type 0
  PayloadParses v = AllTexts lib.format Parses v

  check_leaf-Gathers :
      (label t : Str) (k : Bool) (s : List TemplateProblem)
      → Gathers s (Parses t) (check_leaf lib label t k s)
  unfolding check_leaf
  check_leaf-Gathers label t k s = (
    (str t, refl),
    elim (Bool-cases (has_action t)) [
      | inl a ↦ elim (Option-cases (parse_template lib t)) [
        | inl b ↦ rw (check_leaf, a, b) (λ e. (e, λ h. refl), λ w. w.0)
        | inr (x, b) ↦
            rw (check_leaf, a, b)
              (λ e. absurd (append_one _ s e), λ w. absurd (some≢none (w.1 refl)))
      ]
      | inr a ↦ rw (check_leaf, a) (λ e. (e, λ h. absurd (false≢true h)), λ w. w.0)
    ],
  )

  check_payload_iff :
      (label : Str) (v : Value) (s : List TemplateProblem)
      → (check_payload lib label v s ≡ []) ↔ ((s ≡ []) × PayloadParses v)
  unfolding check_payload transform_payload AllTexts
  check_payload_iff label null s = (λ e. (e, tt), λ w. w.0)
  check_payload_iff label (str t) s = (check_leaf-Gathers label t false s).1
  check_payload_iff label v s =
      (transform-Gathers lib.format (check_leaf lib label) Parses (check_leaf-Gathers label) v s).1

  check_rules_iff :
      (i : ℕ) (rs : List Rule) (s : List TemplateProblem)
      → (check_rules lib i rs s ≡ [])
        ↔ ((s ≡ []) × All (λ r. PayloadParses r.mock_response.payload) rs)
  unfolding check_rules
  check_rules_iff i [] s = (λ e. (e, tt), λ w. w.0)
  check_rules_iff i (r ∷ rs) s =
      let payload = r.mock_response.payload in
      let first = check_payload_iff (label_of lib i r) payload s in
      let ih = check_rules_iff (i + 1) rs (check_payload lib (label_of lib i r) payload s) in
      (
        λ e. let (d, q) = ih.0 e in let (c, p) = first.0 d in (c, (p, q)),
        λ (c, w). ih.1 (first.1 (c, w.0), w.1),
      )

  -- ValidateTemplates finds no problem exactly when every text of every payload, map keys included,
  -- parses as a template if there is an action in it.
  pub validate_templates_iff :
      (cfg : Config)
      → (validate_templates lib cfg ≡ [])
        ↔ All (λ r. PayloadParses r.mock_response.payload) cfg.rules
  unfolding validate_templates
  validate_templates_iff cfg =
      let e = check_rules_iff 0 cfg.rules [] in (λ h. (e.0 h).1, λ w. e.1 (refl, w))
