-- ===== src/Engine/Template/Transform/Laws.antt =====
-- What transformPayload keeps of its leaf function.
use chitchat.Base.{Str, Bool, true, false, Result, ok, err, ◌≡◌}
use chitchat.Value.{
  Value, Values, Entries, AnyEntries, null, bool, int, float, str, bytes, raw, list, dict, any_dict,
  other, nil, cons, end, entry, stop, any_entry,
}
use chitchat.Value.Print.{sprint}
use chitchat.Engine.Template.Transform.{
  put, key_text, Leaf, continue, transform_payload, transform_items, transform_entries,
  transform_any_entries,
}
use chitchat.Engine.Template.Transform.Texts.{
  AllTexts, AllTextsItems, AllTextsEntries, AllTextsAnyEntries,
}

-- If the call fails, its error is not a `Bad` one.
abbrev pub Never : {S E A : Type 0} → (E → Type 0) → Result E A × S → Type 0
Never Bad r = (e : _) → r.0 ≡ err e → ¬ Bad e

pub continue-Never :
    {S E A B : Type 0} (Bad : E → Type 0) (r : Result E A × S) (f : A → S → Result E B × S)
    → Never Bad r
    → ((a : A) (s : S) → Never Bad (f a s))
    → Never Bad (continue r f)
continue-Never Bad (ok a, s) f h k = k a s
continue-Never Bad (err e, s) f h k = λ e' w. h e' cc

pub ok-Never :
    {S E A : Type 0} (Bad : E → Type 0) (a : A) (s : S) → Never {S = S} {E = E} Bad (ok a, s)
ok-Never Bad a s e h = cc

module _ {S E : Type 0} (format : Value → Str) (fn : Leaf S E) (P : Str → Type 0) (Bad : E → Type 0)
    (leaf : (t : Str) (k : Bool) (s : S) → P t → Never Bad (fn t k s)) where
  mutual
    unfolding transform_payload transform_items transform_entries transform_any_entries AllTexts
        AllTextsItems AllTextsEntries AllTextsAnyEntries

    pub transform-Never :
        (v : Value) (s : S) → AllTexts format P v → Never Bad (transform_payload format fn v s)
    transform-Never (str t) s h = leaf t false s h
    transform-Never (list xs) s h =
        continue-Never Bad (transform_items format fn xs s) _ (items-Never xs s h)
          (λ out s'. ok-Never Bad (list out) s')
    transform-Never (dict m) s h =
        continue-Never Bad (transform_entries format fn m end s) _ (entries-Never m end s h)
          (λ out s'. ok-Never Bad (dict out) s')
    transform-Never (any_dict m) s h =
        continue-Never Bad (transform_any_entries format fn m end s) _ (any_entries-Never m end s h)
          (λ out s'. ok-Never Bad (dict out) s')
    transform-Never null s h = ok-Never Bad null s
    transform-Never (bool b) s h = ok-Never Bad (bool b) s
    transform-Never (int n) s h = ok-Never Bad (int n) s
    transform-Never (float n) s h = ok-Never Bad (float n) s
    transform-Never (bytes b) s h = ok-Never Bad (bytes b) s
    transform-Never (raw b) s h = ok-Never Bad (raw b) s
    transform-Never (other t) s h = ok-Never Bad (other t) s

    items-Never :
        (vs : Values) (s : S)
        → AllTextsItems format P vs
        → Never Bad (transform_items format fn vs s)
    items-Never nil s h = ok-Never Bad nil s
    items-Never (cons v vs) s h =
        continue-Never Bad (transform_payload format fn v s) _ (transform-Never v s h.0) (λ w s'.
          continue-Never Bad (transform_items format fn vs s') _ (items-Never vs s' h.1)
            (λ ws s''. ok-Never Bad (cons w ws) s''))

    entries-Never :
        (m out : Entries) (s : S)
        → AllTextsEntries format P m
        → Never Bad (transform_entries format fn m out s)
    entries-Never end out s h = ok-Never Bad out s
    entries-Never (entry k v m) out s h =
        continue-Never Bad (fn k true s) _ (leaf k true s h.0) (λ nk s'.
          continue-Never Bad (transform_payload format fn v s') _ (transform-Never v s' h.1.0)
            (λ nv s''. entries-Never m (put (key_text nk) nv out) s'' h.1.1))

    any_entries-Never :
        (m : AnyEntries) (out : Entries) (s : S)
        → AllTextsAnyEntries format P m
        → Never Bad (transform_any_entries format fn m out s)
    any_entries-Never stop out s h = ok-Never Bad out s
    any_entries-Never (any_entry k v m) out s h =
        continue-Never Bad (fn (sprint format k) true s) _ (leaf (sprint format k) true s h.0)
          (λ nk s'.
            continue-Never Bad (transform_payload format fn v s') _ (transform-Never v s' h.1.0)
              (λ nv s''. any_entries-Never m (put (key_text nk) nv out) s'' h.1.1))
