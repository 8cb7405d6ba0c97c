-- ===== src/Engine/Template/Transform/Gathered.antt =====
-- transformPayload with a leaf function that never fails and only gathers problems.
use chitchat.Base.{Str, Bool, true, false, Result, ok, err, List, [], ◌≡◌, ◌↔◌, refl}
use chitchat.Value.{
  Value, Values, Entries, AnyEntries, null, bool, int, float, str, bytes, raw, list, dict, any_dict,
  other, nil, cons, end, entry, stop, any_entry,
}
use chitchat.Value.Print.{sprint}
use chitchat.Engine.Template.Transform.{
  put, key_text, Leaf, continue, transform_payload, transform_items, transform_entries,
  transform_any_entries,
}
use chitchat.Engine.Template.Transform.Texts.{
  AllTexts, AllTextsItems, AllTextsEntries, AllTextsAnyEntries,
}

-- The call succeeds, and no problem is there after it when none was before it and `P` holds.
abbrev pub Gathers : {E A B : Type 0} → List B → Type 0 → Result E A × List B → Type 0
Gathers s P r = ((a : _) × (r.0 ≡ ok a)) × ((r.1 ≡ []) ↔ ((s ≡ []) × P))

pub continue-Gathers :
    {E A A' B : Type 0} (s : List B) (P Q : Type 0) (r : Result E A × List B)
    (f : A → List B → Result E A' × List B)
    → Gathers s P r
    → ((a : A) (s' : List B) → Gathers s' Q (f a s'))
    → Gathers s (P × Q) (continue r f)
continue-Gathers s P Q (ok a, s') f (g, h) k =
    let (g', h') = k a s' in
    (
      g',
      (
        λ e. let (d, q) = h'.0 e in let (c, p) = h.0 d in (c, (p, q)),
        λ (c, w). h'.1 (h.1 (c, w.0), w.1),
      ),
    )
continue-Gathers s P Q (err e, s') f ((a, p), h) k = absurd cc

pub map-Gathers :
    {E A A' B : Type 0} (s : List B) (P : Type 0) (r : Result E A × List B) (f : A → A')
    → Gathers s P r
    → Gathers s P (continue r (λ a s'. (ok (f a), s')))
map-Gathers s P (ok a, s') f (g, h) = ((f a, refl), h)
map-Gathers s P (err e, s') f ((a, p), h) = absurd cc

pub ok-Gathers : {E A B : Type 0} (a : A) (s : List B) → Gathers {E = E} s (Unit {0}) (ok a, s)
ok-Gathers a s = ((a, refl), (λ e. (e, tt), λ w. w.0))

module _ {B E : Type 0} (format : Value → Str) (fn : Leaf (List B) E) (P : Str → Type 0)
    (leaf : (t : Str) (k : Bool) (s : List B) → Gathers s (P t) (fn t k s)) where
  mutual
    unfolding transform_payload transform_items transform_entries transform_any_entries AllTexts
        AllTextsItems AllTextsEntries AllTextsAnyEntries

    pub transform-Gathers :
        (v : Value) (s : List B) → Gathers s (AllTexts format P v) (transform_payload format fn v s)
    transform-Gathers (str t) s = leaf t false s
    transform-Gathers (list xs) s =
        map-Gathers s _ (transform_items format fn xs s) list (items-Gathers xs s)
    transform-Gathers (dict m) s =
        map-Gathers s _ (transform_entries format fn m end s) dict (entries-Gathers m end s)
    transform-Gathers (any_dict m) s =
        map-Gathers s _ (transform_any_entries format fn m end s) dict (any_entries-Gathers m end s)
    transform-Gathers null s = ok-Gathers null s
    transform-Gathers (bool b) s = ok-Gathers (bool b) s
    transform-Gathers (int n) s = ok-Gathers (int n) s
    transform-Gathers (float n) s = ok-Gathers (float n) s
    transform-Gathers (bytes b) s = ok-Gathers (bytes b) s
    transform-Gathers (raw b) s = ok-Gathers (raw b) s
    transform-Gathers (other t) s = ok-Gathers (other t) s

    items-Gathers :
        (vs : Values) (s : List B)
        → Gathers s (AllTextsItems format P vs) (transform_items format fn vs s)
    items-Gathers nil s = ok-Gathers nil s
    items-Gathers (cons v vs) s =
        continue-Gathers s (AllTexts format P v) (AllTextsItems format P vs)
          (transform_payload format fn v s) _ (transform-Gathers v s)
          (λ w s'.
            map-Gathers s' (AllTextsItems format P vs) (transform_items format fn vs s') (cons w)
              (items-Gathers vs s'))

    entries-Gathers :
        (m out : Entries) (s : List B)
        → Gathers s (AllTextsEntries format P m) (transform_entries format fn m out s)
    entries-Gathers end out s = ok-Gathers out s
    entries-Gathers (entry k v m) out s =
        continue-Gathers s (P k) (AllTexts format P v × AllTextsEntries format P m) (fn k true s) _
          (leaf k true s)
          (λ nk s'.
            continue-Gathers s' (AllTexts format P v) (AllTextsEntries format P m)
              (transform_payload format fn v s') _ (transform-Gathers v s')
              (λ nv s''. entries-Gathers m (put (key_text nk) nv out) s''))

    any_entries-Gathers :
        (m : AnyEntries) (out : Entries) (s : List B)
        → Gathers s (AllTextsAnyEntries format P m) (transform_any_entries format fn m out s)
    any_entries-Gathers stop out s = ok-Gathers out s
    any_entries-Gathers (any_entry k v m) out s =
        continue-Gathers s (P (sprint format k))
          (AllTexts format P v × AllTextsAnyEntries format P m) (fn (sprint format k) true s) _
          (leaf (sprint format k) true s)
          (λ nk s'.
            continue-Gathers s' (AllTexts format P v) (AllTextsAnyEntries format P m)
              (transform_payload format fn v s') _ (transform-Gathers v s')
              (λ nv s''. any_entries-Gathers m (put (key_text nk) nv out) s''))
