-- ===== src/Engine/Matcher.antt =====
-- pkg/engine/matcher.go.
pub mod Spec
use chitchat.Base.{
  ℕ, Str, str_eq, differs, map, if◌then◌else◌, Bool, true, false, ◌&&◌, Option, none, some, List,
  [], ◌∷◌,
}
use chitchat.Value.{Value, null, is_null}
use chitchat.Value.Print.{sprint}
use chitchat.Value.Equal.{deep_equal}
use chitchat.Libraries.{Libraries, GjsonResult}
use chitchat.Config.Types.{Rule, Trigger, JsonPathRule}
use chitchat.Broker.Message.{Message, Bytes}

module _ (lib : Libraries) where
  -- strings.EqualFold
  abbrev pub equal_fold : Str → Str → Bool
  equal_fold s t = str_eq (map lib.fold s) (map lib.fold t)

  -- The comparisons below the nil checks.
  unfoldable pub compare_present : Value → Value → Bool
  unfolding sprint
  compare_present actual expected =
      if deep_equal actual expected
      then true
      else if str_eq (sprint lib.format actual) (sprint lib.format expected)
      then true
      else if equal_fold (sprint lib.format actual) (sprint lib.format expected)
      then true
      else false

  unfoldable pub compare_values : Value → Value → Bool
  unfolding is_null compare_present
  compare_values actual expected =
      if is_null actual && is_null expected
      then true
      else if is_null actual
      then false
      else if is_null expected
      then false
      else compare_present actual expected

  found_equals : Option GjsonResult → Value → Bool
  found_equals none expected = false
  found_equals (some res) expected = compare_values res.value expected

  unfoldable pub eval_json_path_rule : Bytes → JsonPathRule → Bool
  unfolding found_equals
  eval_json_path_rule body rule = found_equals (lib.gjson body rule.filter) rule.equals

  -- The loop over rule.Trigger.JSONPathRules.
  unfoldable pub all_json_path_rules : Bytes → List JsonPathRule → Bool
  unfolding eval_json_path_rule
  all_json_path_rules body [] = true
  all_json_path_rules body (r ∷ rs) =
      let rest = all_json_path_rules body rs in if eval_json_path_rule body r then rest else false

  unfoldable pub matches_rule : Rule → Message → Bool
  unfolding all_json_path_rules
  matches_rule rule msg =
      if differs rule.trigger.queue msg.queue
      then false
      else if differs rule.trigger.routing_key msg.routing_key
      then false
      else all_json_path_rules msg.body rule.trigger.jsonpath_rules
