-- ===== src/Engine/Template/Typed.antt =====
-- pkg/engine/template.go: the values that RenderPayload hands to encoding/json.
use chitchat.Base.{
  List, ℕ, Str, Bool, true, false, not, ◌&&◌, Result, ok, err, ◌≡◌, inl, inr, Bool-cases,
  branch_lem, str_eq,
}
use chitchat.Value.{
  Value, Values, Entries, AnyEntries, null, bool, int, float, str, bytes, raw, list, dict, any_dict,
  other, nil, cons, end, entry, stop, any_entry,
}
use chitchat.Value.Print.{sprint}
use chitchat.Libraries.{Libraries}
use chitchat.Engine.Template.Regex.{typed_json}
use chitchat.Engine.Template.Rewrite.{has_action, has_one_action}
use chitchat.Engine.Template.Transform.{
  Leaf, continue, put, key_text, transform_payload, transform_items, transform_entries,
  transform_any_entries,
}
use chitchat.Engine.Template.Render.{RenderError, execute_template, leaf_value, render_leaf}

-- At every depth: each json.RawMessage is as `Raw` says, and a map whose keys are not texts is allowed
-- as `Any` says.
module _ (Raw : List ℕ → Type 0) (Any : Type 0) where
  unfoldable mutual
    pub Typed : Value → Type 0
    Typed (raw b) = Raw b
    Typed (list vs) = TypedItems vs
    Typed (dict m) = TypedEntries m
    Typed (any_dict m) = Any × TypedAnyEntries m
    Typed _ = Unit {0}

    pub TypedItems : Values → Type 0
    TypedItems nil = Unit {0}
    TypedItems (cons v vs) = Typed v × TypedItems vs

    pub TypedEntries : Entries → Type 0
    TypedEntries end = Unit {0}
    TypedEntries (entry k v m) = Typed v × TypedEntries m

    pub TypedAnyEntries : AnyEntries → Type 0
    TypedAnyEntries stop = Unit {0}
    TypedAnyEntries (any_entry k v m) = Typed v × TypedAnyEntries m

-- A decoder of YAML makes no json.RawMessage.
abbrev pub IsFromYaml : Value → Type 0
IsFromYaml = Typed (λ b. ⊥) Unit

-- Every map has texts for keys, and every json.RawMessage is valid JSON.
abbrev pub IsEncodable : Libraries → Value → Type 0
IsEncodable lib = Typed (λ b. lib.valid b ≡ true) ⊥

-- If the call succeeds, the result is as `P` says.
abbrev pub Yields : {S E A : Type 0} → (A → Type 0) → Result E A × S → Type 0
Yields P (ok a, s) = P a
Yields P (err e, s) = Unit

continue-Yields :
    {S E A B : Type 0} (P : A → Type 0) (Q : B → Type 0) (r : Result E A × S)
    (f : A → S → Result E B × S)
    → Yields P r
    → ((a : A) (s : S) → P a → Yields Q (f a s))
    → Yields Q (continue r f)
continue-Yields P Q (ok a, s) f h k = k a s h
continue-Yields P Q (err e, s) f h k = tt

module _ (lib : Libraries) where
  put-Encodable :
      (k : Str) (v : Value) (m : Entries)
      → IsEncodable lib v
      → TypedEntries (λ b. lib.valid b ≡ true) ⊥ m
      → TypedEntries (λ b. lib.valid b ≡ true) ⊥ (put k v m)
  unfolding put TypedEntries
  put-Encodable k v end h g = (h, tt)
  put-Encodable k v (entry j w m) h g =
      branch_lem (TypedEntries (λ b. lib.valid b ≡ true) ⊥) (str_eq j k) _ _ (λ _. (h, g.1))
        (λ _. (g.0, put-Encodable k v m h g.1))

  leaf_value-Yields :
      (t : Str) (k : Bool) (out : Str) (source : ℕ)
      → Yields (IsEncodable lib) (leaf_value lib t k out, source)
  unfolding leaf_value Typed
  leaf_value-Yields t k out source = elim (Bool-cases (not k && has_one_action t && typed_json t)) [
    | inl a ↦ elim (Bool-cases (lib.valid (lib.to_bytes out))) [
      | inl b ↦ rw (leaf_value, a, b) b
      | inr b ↦ rw (leaf_value, a, b) tt
    ]
    | inr a ↦ rw (leaf_value, a) tt
  ]

  render_leaf-Yields :
      (ctx : Value) (t : Str) (k : Bool) (source : ℕ)
      → Yields (IsEncodable lib) (render_leaf lib ctx t k source)
  unfolding render_leaf Typed
  render_leaf-Yields ctx t k source = elim (Bool-cases (has_action t)) [
    | inl a ↦
        rw (render_leaf, a)
          (continue-Yields (λ _. Unit {0}) (IsEncodable lib) (execute_template lib t ctx source) _
            (anything (execute_template lib t ctx source))
            (λ out source' _. leaf_value-Yields t k out source'))
    | inr a ↦ rw (render_leaf, a) tt
  ]
    where
      anything : (r : Result RenderError Str × ℕ) → Yields (λ _. Unit {0}) r
      anything (ok a, s) = tt
      anything (err e, s) = tt

abbrev Encodables : Libraries → Values → Type 0
Encodables lib = TypedItems (λ b. lib.valid b ≡ true) ⊥

abbrev EncodableEntries : Libraries → Entries → Type 0
EncodableEntries lib = TypedEntries (λ b. lib.valid b ≡ true) ⊥

module _ (lib : Libraries) (ctx : Value) where
  abbrev leaf : Leaf ℕ RenderError
  leaf = render_leaf lib ctx

  mutual
    unfolding transform_payload transform_items transform_entries transform_any_entries Typed
        TypedItems TypedEntries TypedAnyEntries

    payload-Yields :
        (v : Value) (s : ℕ)
        → IsFromYaml v
        → Yields (IsEncodable lib) (transform_payload lib.format leaf v s)
    payload-Yields (str t) s h = render_leaf-Yields lib ctx t false s
    payload-Yields (list xs) s h =
        continue-Yields (Encodables lib) (IsEncodable lib) (transform_items lib.format leaf xs s) _
          (items-Yields xs s h) (λ out s' g. g)
    payload-Yields (dict m) s h =
        continue-Yields (EncodableEntries lib) (IsEncodable lib)
          (transform_entries lib.format leaf m end s) _ (entries-Yields m end s h tt)
          (λ out s' g. g)
    payload-Yields (any_dict m) s h =
        continue-Yields (EncodableEntries lib) (IsEncodable lib)
          (transform_any_entries lib.format leaf m end s) _ (any_entries-Yields m end s h.1 tt)
          (λ out s' g. g)
    payload-Yields null s h = tt
    payload-Yields (bool b) s h = tt
    payload-Yields (int n) s h = tt
    payload-Yields (float n) s h = tt
    payload-Yields (bytes b) s h = tt
    payload-Yields (raw b) s h = absurd h
    payload-Yields (other t) s h = tt

    items-Yields :
        (vs : Values) (s : ℕ)
        → TypedItems (λ b. ⊥) Unit vs
        → Yields (Encodables lib) (transform_items lib.format leaf vs s)
    items-Yields nil s h = tt
    items-Yields (cons v vs) s h =
        continue-Yields (IsEncodable lib) (Encodables lib) (transform_payload lib.format leaf v s) _
          (payload-Yields v s h.0)
          (λ w s' g.
            continue-Yields (Encodables lib) (Encodables lib)
              (transform_items lib.format leaf vs s') _ (items-Yields vs s' h.1)
              (λ ws s'' gs. (g, gs)))

    entries-Yields :
        (m out : Entries) (s : ℕ)
        → TypedEntries (λ b. ⊥) Unit m
        → EncodableEntries lib out
        → Yields (EncodableEntries lib) (transform_entries lib.format leaf m out s)
    entries-Yields end out s h g = g
    entries-Yields (entry k v m) out s h g =
        continue-Yields (IsEncodable lib) (EncodableEntries lib) (leaf k true s) _
          (render_leaf-Yields lib ctx k true s)
          (λ nk s' _.
            continue-Yields (IsEncodable lib) (EncodableEntries lib)
              (transform_payload lib.format leaf v s') _ (payload-Yields v s' h.0)
              (λ nv s'' e.
                entries-Yields m (put (key_text nk) nv out) s'' h.1
                  (put-Encodable lib (key_text nk) nv out e g)))

    any_entries-Yields :
        (m : AnyEntries) (out : Entries) (s : ℕ)
        → TypedAnyEntries (λ b. ⊥) Unit m
        → EncodableEntries lib out
        → Yields (EncodableEntries lib) (transform_any_entries lib.format leaf m out s)
    any_entries-Yields stop out s h g = g
    any_entries-Yields (any_entry k v m) out s h g =
        continue-Yields (IsEncodable lib) (EncodableEntries lib) (leaf (sprint lib.format k) true s)
          _ (render_leaf-Yields lib ctx (sprint lib.format k) true s)
          (λ nk s' _.
            continue-Yields (IsEncodable lib) (EncodableEntries lib)
              (transform_payload lib.format leaf v s') _ (payload-Yields v s' h.0)
              (λ nv s'' e.
                any_entries-Yields m (put (key_text nk) nv out) s'' h.1
                  (put-Encodable lib (key_text nk) nv out e g)))

-- Of a structured payload as YAML can give it, whatever templates and message: if every leaf renders,
-- then the value that RenderPayload marshals has texts for the keys of all its maps, and each part
-- that is spliced in as JSON text is valid JSON.
pub rendered_payload-IsEncodable :
    (lib : Libraries) (payload ctx : Value) (source : ℕ)
    → IsFromYaml payload
    → Yields (IsEncodable lib) (transform_payload lib.format (render_leaf lib ctx) payload source)
rendered_payload-IsEncodable lib payload ctx source h = payload-Yields lib ctx payload source h
