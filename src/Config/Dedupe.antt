-- ===== src/Config/Dedupe.antt =====
-- pkg/config/validate.go: dedupe.
use chitchat.Base.{
  Str, elem, elem_iff, if◌then◌else◌, List, [], ◌∷◌, In, Distinct, ◌↔◌, ◌⊎◌, inl, inr, sym, ◌∙◌,
  Bool-cases, false≢true, Fresh, Fresh-Distinct, subst,
}

-- `seen` holds the texts that the map of the same name has.
unfoldable pub dedupe_from : List Str → List Str → List Str
dedupe_from seen [] = []
dedupe_from seen (s ∷ ss) =
    let rest = dedupe_from (if elem s seen then seen else s ∷ seen) ss in
    if elem s seen then rest else s ∷ rest

unfoldable pub dedupe : List Str → List Str
unfolding dedupe_from
dedupe texts = dedupe_from [] texts

Fresh-dedupe_from : (seen ss : List Str) → Fresh seen (dedupe_from seen ss)
unfolding dedupe_from
Fresh-dedupe_from seen [] = tt
Fresh-dedupe_from seen (s ∷ ss) = elim (Bool-cases (elem s seen)) [
  | inl a ↦ rw a (Fresh-dedupe_from seen ss)
  | inr a ↦
      rw a ((λ m. false≢true (sym a ∙ (elem_iff s seen).1 m)), Fresh-dedupe_from (s ∷ seen) ss)
]

dedupe_from_sound : (t : Str) (seen ss : List Str) → In t (dedupe_from seen ss) → In t ss
unfolding dedupe_from
dedupe_from_sound t seen [] m = m
dedupe_from_sound t seen (s ∷ ss) m = elim (Bool-cases (elem s seen)) [
  | inl a ↦ inr (dedupe_from_sound t seen ss (rw a at m))
  | inr a ↦
      let n : In t (s ∷ dedupe_from (s ∷ seen) ss) = rw a at m in
      elim n [ inl e ↦ inl e | inr k ↦ inr (dedupe_from_sound t (s ∷ seen) ss k) ]
]

-- A text of the list is kept, or was seen before.
dedupe_from_complete :
    (t : Str) (seen ss : List Str) → In t ss → In t (dedupe_from seen ss) ⊎ In t seen
unfolding dedupe_from
dedupe_from_complete t seen [] m = absurd m
dedupe_from_complete t seen (s ∷ ss) m = elim (Bool-cases (elem s seen)) [
  | inl a ↦ rw a (elim m [
    | inl e ↦ inr (subst (λ x. In x seen) (sym e) ((elem_iff s seen).0 a))
    | inr k ↦ dedupe_from_complete t seen ss k
  ])
  | inr a ↦ rw a (elim m [
    | inl e ↦ inl (inl e)
    | inr k ↦ elim (dedupe_from_complete t (s ∷ seen) ss k) [
      | inl x ↦ inl (inr x)
      | inr y ↦ elim y [ inl e ↦ inl (inl e) | inr z ↦ inr z ]
    ]
  ])
]

pub dedupe_complete : (t : Str) (texts : List Str) → In t texts → In t (dedupe texts)
unfolding dedupe
dedupe_complete t texts m = elim (dedupe_from_complete t [] texts m) [
  | inl a ↦ a
  | inr b ↦ absurd b
]

-- dedupe keeps exactly the texts of the list, each of them once.
pub dedupe_lem :
    (texts : List Str) → Distinct (dedupe texts) × ((t : Str) → In t (dedupe texts) ↔ In t texts)
unfolding dedupe
dedupe_lem texts = (
  (Fresh-Distinct (dedupe texts)).0 (Fresh-dedupe_from [] texts),
  λ t. (dedupe_from_sound t [] texts, dedupe_complete t texts),
)
