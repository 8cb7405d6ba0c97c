-- ===== src/Engine/Matcher/Spec.antt =====
-- Which messages trigger a rule.
use chitchat.Base.{
  str_eq, str_eq_iff, str_eq_sound, subst, Wants, differs_iff, guard_iff, need_iff, map,
  if◌then◌else◌, Bool, true, false, Option, none, some, List, [], ◌∷◌, All, ◌≡◌, ◌≢◌, ◌↔◌, ◌⊎◌, inl,
  inr, refl, sym, ◌∙◌, ap, arith, Bool-cases, false≢true,
}
use mathlib.Core.Option.{some-injective}
use chitchat.Value.{Value, null, is_null}
use chitchat.Value.Print.{sprint}
use chitchat.Value.Equal.{deep_equal}
use chitchat.Libraries.{Libraries, GjsonResult}
use chitchat.Config.Types.{Rule, JsonPathRule}
use chitchat.Broker.Message.{Message, Bytes}
use chitchat.Engine.Matcher.{
  equal_fold, compare_present, compare_values, found_equals, eval_json_path_rule,
  all_json_path_rules, matches_rule,
}

is_null_iff : (v : Value) → (is_null v ≡ true) ↔ (v ≡ null)
unfolding is_null
is_null_iff null = (λ h. refl, λ h. refl)
is_null_iff _ = (λ h. absurd (false≢true h), λ h. cc)

third :
    (a b : Bool) {c : Bool}
    → c ≡ true
    → (if a then true else if b then true else if c then true else false) ≡ true
third a b h = ground arith

module _ (lib : Libraries) where
  -- The printed texts are equal when case is folded.
  abbrev pub SameText : Value → Value → Type 0
  SameText a b = map lib.fold (sprint lib.format a) ≡ map lib.fold (sprint lib.format b)

  -- The value of a path against the expected one: both are null, or neither is and they are
  -- equal, or their texts are.
  abbrev pub SameValue : Value → Value → Type 0
  SameValue a b =
      ((a ≡ null) × (b ≡ null))
      ⊎ ((a ≢ null) × (b ≢ null) × ((deep_equal a b ≡ true) ⊎ SameText a b))

  -- The path exists and has the expected value.
  abbrev pub PathHolds : Bytes → JsonPathRule → Type 0
  PathHolds body jr =
      (r : GjsonResult) × (lib.gjson body jr.filter ≡ some r) × SameValue r.value jr.equals

  pub record Triggers (rule : Rule) (msg : Message) : Type 0 where
    pub queue : Wants rule.trigger.queue msg.queue
    pub routing_key : Wants rule.trigger.routing_key msg.routing_key
    pub paths : All (PathHolds msg.body) rule.trigger.jsonpath_rules

  present_iff :
      (a b : Value) → (compare_present lib a b ≡ true) ↔ ((deep_equal a b ≡ true) ⊎ SameText a b)
  unfolding compare_present
  present_iff a b =
      let sa = sprint lib.format a in
      let sb = sprint lib.format b in
      (
        λ h. elim (Bool-cases (deep_equal a b)) [
          | inl x ↦ inl x
          | inr x ↦ elim (Bool-cases (str_eq sa sb)) [
            | inl y ↦ inr (ap (map lib.fold) (str_eq_sound sa sb y))
            | inr y ↦ elim (Bool-cases (equal_fold lib sa sb)) [
              | inl z ↦ inr (str_eq_sound _ _ z)
              | inr z ↦ absurd (false≢true (rw (x, y, z) at h))
            ]
          ]
        ],
        λ w. elim w [
          | inl d ↦ rw d
          | inr t ↦
              third (deep_equal a b) (str_eq sa sb)
                ((str_eq_iff (map lib.fold sa) (map lib.fold sb)).1 t)
        ],
      )

  not_null : (v : Value) → is_null v ≡ false → v ≢ null
  not_null v h e = false≢true (sym h ∙ (is_null_iff v).1 e)

  values_iff : (a b : Value) → (compare_values lib a b ≡ true) ↔ SameValue a b
  unfolding compare_values
  values_iff a b = elim (Bool-cases (is_null a)) [
    | inl x ↦ elim (Bool-cases (is_null b)) [
      | inl y ↦ rw (x, y) (λ h. inl ((is_null_iff a).0 x, (is_null_iff b).0 y), λ w. refl)
      | inr y ↦
          rw (x, y)
            (
              λ h. absurd (false≢true h),
              λ w. elim w [
                | inl p ↦ absurd (not_null b y p.1)
                | inr q ↦ absurd (q.0 ((is_null_iff a).0 x))
              ],
            )
    ]
    | inr x ↦ elim (Bool-cases (is_null b)) [
      | inl y ↦
          rw (x, y)
            (
              λ h. absurd (false≢true h),
              λ w. elim w [
                | inl p ↦ absurd (not_null a x p.0)
                | inr q ↦ absurd (q.1 ((is_null_iff b).0 y))
              ],
            )
      | inr y ↦
          rw (x, y)
            (
              λ h. inr (not_null a x, not_null b y, (present_iff a b).0 h),
              λ w. elim w [ inl p ↦ absurd (not_null a x p.0) | inr q ↦ (present_iff a b).1 q.2 ],
            )
    ]
  ]

  path_iff :
      (o : Option GjsonResult) (v : Value)
      → (found_equals lib o v ≡ true) ↔ ((r : GjsonResult) × (o ≡ some r) × SameValue r.value v)
  unfolding found_equals
  path_iff none v = (λ h. absurd (false≢true h), λ w. cc (w.1))
  path_iff (some res) v = (
    λ h. (res, refl, (values_iff res.value v).0 h),
    λ (r, e, w).
        (values_iff res.value v).1
          (subst (λ x. SameValue x.value v) (sym (some-injective res r e)) w),
  )

  paths_iff :
      (body : Bytes) (rs : List JsonPathRule)
      → (all_json_path_rules lib body rs ≡ true) ↔ All (PathHolds body) rs
  unfolding all_json_path_rules eval_json_path_rule
  paths_iff body [] = (λ h. tt, λ h. refl)
  paths_iff body (r ∷ rs) =
      need_iff (path_iff (lib.gjson body r.filter) r.equals) (paths_iff body rs)

  -- A message matches a rule exactly when it has the queue and the routing key that the trigger
  -- asks for, and every path of the trigger exists in the body with the expected value.
  pub matches_rule_iff :
      (rule : Rule) (msg : Message) → (matches_rule lib rule msg ≡ true) ↔ Triggers rule msg
  unfolding matches_rule
  matches_rule_iff rule msg =
      let e = guard_iff (differs_iff rule.trigger.queue msg.queue) (
        guard_iff (differs_iff rule.trigger.routing_key msg.routing_key)
          (paths_iff msg.body rule.trigger.jsonpath_rules)) in
      (
        λ h. let (q, (k, p)) = e.0 h in record { queue = q; routing_key = k; paths = p },
        λ w. e.1 (w.queue, (w.routing_key, w.paths)),
      )
