-- ===== src/Tests/Templates.antt =====
-- Templates of payloads.
use chitchat.Base.{ℕ, ◌^◌, ◌-◌, ◌<◌, Str, codes, none, ◌≡◌, refl, arith}
use chitchat.Value.{Value, str, list, any_dict, nil, cons, any_entry, stop, dict, end}
use chitchat.Engine.Template.Rewrite.{rewrite_action}
use chitchat.Engine.Template.Rewrite.Pieces.{Rewrites, rewrite_action-Rewrites}
use chitchat.Engine.Template.Transform.{transform_payload}
use chitchat.Engine.Template.Render.{render_leaf}
use chitchat.Engine.Template.Typed.{
  Typed, IsFromYaml, IsEncodable, Yields, rendered_payload-IsEncodable,
}
use chitchat.Engine.Template.Funcs.{random_int, InRange, random_int-InRange}
use chitchat.Tests.Samples.{plain}

abbrev action : Str
action = codes " json trigger.id | printf \"trigger.%s\" queue "

rewritten_action : rewrite_action action ≡ codes " json .trigger.id | printf \"trigger.%s\" .queue "
unfolding rewrite_action
rewritten_action = refl

rewrite_action-Rewrites_example : Rewrites action (rewrite_action action)
rewrite_action-Rewrites_example = rewrite_action-Rewrites action

-- What YAML makes of a map with the key `id` and the list of one action below it.
abbrev structured : Value
structured =
    any_dict
      (any_entry (str (codes "id")) (list (cons (str (codes "{{json trigger.id}}")) nil)) stop)

structured-IsFromYaml : IsFromYaml structured
unfolding Typed
structured-IsFromYaml = (tt, ((tt, tt), tt))

rendered_payload-IsEncodable_example :
    Yields
      (IsEncodable plain)
      (transform_payload plain.format (render_leaf plain (dict end)) structured 5)
rendered_payload-IsEncodable_example =
    rendered_payload-IsEncodable plain structured (dict end) 5 structured-IsFromYaml

last_of-lt : (n : ℕ) → 0 < n → n - 1 < n
last_of-lt n h = omega arith

random_int-InRange_example : InRange 10 16 (random_int (λ n. n - 1) 10 16)
random_int-InRange_example =
    random_int-InRange (λ n. n - 1) 10 16 last_of-lt (omega arith) (omega arith)

-- From -1 to the greatest int.
wide_range : random_int (λ n. 0) (2 ^ 63 - 1) (2 ^ 64 - 1) ≡ none
unfolding random_int
wide_range = refl
