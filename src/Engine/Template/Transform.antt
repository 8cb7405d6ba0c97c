-- ===== src/Engine/Template/Transform.antt =====
-- pkg/engine/template.go: transformPayload and transformEntry, for a leaf function with an effect: it
-- reads and writes a state of type `S`.
pub mod Texts
pub mod Laws
pub mod Gathered
use chitchat.Base.{[], Str, str_eq, if◌then◌else◌, Bool, true, false, Result, ok, err, ℕ}
use chitchat.Value.{
  Value, Values, Entries, AnyEntries, null, bool, int, float, str, bytes, raw, list, dict, any_dict,
  other, nil, cons, end, entry, stop, any_entry,
}
use chitchat.Value.Print.{sprint}

-- out[k] = v
unfoldable pub put : Str → Value → Entries → Entries
put k v end = entry k v end
put k v (entry j w m) = if str_eq j k then entry j v m else entry j w (put k v m)

-- ks, _ := nk.(string)
unfoldable pub key_text : Value → Str
key_text (str s) = s
key_text _ = []

-- leafFunc
abbrev pub Leaf : Type 0 → Type 0 → Type 0
Leaf S E = Str → Bool → S → Result E Value × S

abbrev pub continue :
    {S E A B : Type 0} → Result E A × S → (A → S → Result E B × S) → Result E B × S
continue (ok a, s) f = f a s
continue (err e, s) f = (err e, s)

-- `format` is what package fmt prints for composite values.
module _ {S E : Type 0} (format : Value → Str) (fn : Leaf S E) where
  unfoldable mutual
    pub transform_payload : Value → S → Result E Value × S
    transform_payload (str t) s = fn t false s
    transform_payload (dict m) s =
        continue (transform_entries m end s) (λ out s'. (ok (dict out), s'))
    transform_payload (any_dict m) s =
        continue (transform_any_entries m end s) (λ out s'. (ok (dict out), s'))
    transform_payload (list xs) s = continue (transform_items xs s) (λ out s'. (ok (list out), s'))
    transform_payload v s = (ok v, s)

    pub transform_items : Values → S → Result E Values × S
    transform_items nil s = (ok nil, s)
    transform_items (cons v vs) s =
        continue (transform_payload v s)
          (λ w s'. continue (transform_items vs s') (λ ws s''. (ok (cons w ws), s'')))

    pub transform_entries : Entries → Entries → S → Result E Entries × S
    transform_entries end out s = (ok out, s)
    transform_entries (entry k v m) out s = continue (fn k true s) (λ nk s'.
        continue (transform_payload v s')
          (λ nv s''. transform_entries m (put (key_text nk) nv out) s''))

    pub transform_any_entries : AnyEntries → Entries → S → Result E Entries × S
    transform_any_entries stop out s = (ok out, s)
    transform_any_entries (any_entry k v m) out s = continue (fn (sprint format k) true s) (λ nk s'.
        continue (transform_payload v s')
          (λ nv s''. transform_any_entries m (put (key_text nk) nv out) s''))
