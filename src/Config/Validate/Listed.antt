-- ===== src/Config/Validate/Listed.antt =====
-- A list whose items have names that differ.
use chitchat.Base.{Str, map, List, [], ◌∷◌, Fresh, Distinct, Fresh-Distinct, All, In, ◌↔◌}

-- The items of a list, each with a name that was not seen before.
module _ {A : Type 0} (name : A → Str) (Named Ok : A → Type 0) where
  abbrev pub Listed : List Str → List A → Type 0
  Listed seen [] = Unit
  Listed seen (x ∷ xs) = (Named x × (¬ In (name x) seen)) × (Ok x × Listed (name x ∷ seen) xs)

  Listed-iff :
      (seen : List Str) (xs : List A)
      → Listed seen xs ↔ (All (λ x. Named x × Ok x) xs × Fresh seen (map name xs))
  Listed-iff seen [] = (λ h. (tt, tt), λ h. tt)
  Listed-iff seen (x ∷ xs) =
      let ih = Listed-iff (name x ∷ seen) xs in
      (
        λ ((a, b), (c, d)). let (e, f) = ih.0 d in (((a, c), e), (b, f)),
        λ (((a, c), e), (b, f)). ((a, b), (c, ih.1 (e, f))),
      )

  -- With nothing seen before, the names differ.
  pub named_iff :
      (xs : List A) → Listed [] xs ↔ (All (λ x. Named x × Ok x) xs × Distinct (map name xs))
  named_iff xs =
      let e = Listed-iff [] xs in
      let f = Fresh-Distinct (map name xs) in
      (λ h. ((e.0 h).0, f.0 (e.0 h).1), λ w. e.1 (w.0, f.1 w.1))
